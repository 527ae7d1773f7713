-- ===== src/AppGc/Bounds.antt =====
-- How much a collection of the Spaces of an App does: packages/service/src/app-gc.ts.
use unicas.Base.{
  ℕ, zero, suc, ◌+◌, ◌-◌, ◌*◌, ◌≤◌, ◌≡◌, not, ◌||◌, Option, List, [], ◌∷◌, take, length,
  length-take, ok, err, ◌==◌, Result, arith,
}
use unicas.Base.Text.{Text}
use unicas.Base.Exec.{Exec, lift, reads, throw_when}
use unicas.Base.Exec.Rules.{
  Ends, Triple, Triple-ok, Triple-return, Triple-bind, Triple-lift_ok, Triple-if, Triple-weaken,
}
use unicas.Gc.{CasGcResult}
use unicas.AppGc.{
  default_app_gc_max_spaces, default_app_gc_max_nodes_per_space, or_default, CursorText, result_of,
  collect_page, run_app_garbage_collection, AppGcError, AppGcResult, GcReply, failed_response,
  not_json, not_a_result, gc_reply, answer_of, SpaceTotals, no_nodes, add_pass, AppTotals,
  add_space, is_safe_total, passes, collect_space_garbage, collect_spaces, totals_exceeded,
}

-- What a pass adds.
record Within (limit : ℕ) (before after : SpaceTotals) : Type 0 where
  at_most : after.nodes_examined ≤ before.nodes_examined + limit
  deleted :
      after.nodes_deleted + before.nodes_examined ≤ after.nodes_examined + before.nodes_deleted

answer_of-ok :
    (requested : ℕ) (reply : GcReply) {pass : CasGcResult}
    → answer_of requested reply ≡ ok pass
    → (pass.examined ≤ requested) × (pass.deleted ≤ pass.examined)
answer_of-ok requested (failed_response status) h = cc
answer_of-ok requested not_json h = cc
answer_of-ok requested not_a_result h = cc
answer_of-ok requested (gc_reply result) {pass} h = ground (arith, h)

-- What the loop over the Spaces adds.
record AppWithin (count max_nodes : ℕ) (before after : AppTotals) : Type 0 where
  nodes : Within (count * max_nodes) before.nodes after.nodes
  spaces : after.spaces_with_deletions ≤ before.spaces_with_deletions + count

module _ {S : Type 0} (fetch : Text → Text → ℕ → Exec S AppGcError GcReply) (app_id : Text) where
  abbrev pub Anything : S → Type 0
  Anything s = Unit

  Ends-anything :
      {A : Type 0} (result : Result AppGcError A) (s : S) → Ends (λ _ _. Unit) Anything result s
  Ends-anything (ok value) s = tt
  Ends-anything (err thrown) s = tt

  pub anyhow : {A : Type 0} (m : Exec S AppGcError A) → Triple Anything m (λ _ _. Unit) Anything
  anyhow m = record { runs = λ s _. Ends-anything (m s).0 (m s).1 }

  -- A fact that the store does not matter to.
  pub given :
      {A F : Type 0} {m : Exec S AppGcError A} {Q : A → S → Type 0}
      → (F → Triple Anything m Q Anything)
      → Triple (λ _. F) m Q Anything
  given h = record { runs = λ s p. (h p).runs s tt }

  then-Within :
      (remaining : ℕ) (totals : SpaceTotals) (pass : CasGcResult) (found : SpaceTotals)
      → (pass.examined ≤ remaining) × (pass.deleted ≤ pass.examined)
      → Within (remaining - pass.examined) (add_pass pass totals) found
      → Within remaining totals found
  then-Within remaining totals pass found p w = record {
    at_most = omega (arith, w.at_most, p.0);
    deleted = omega (arith, w.deleted, p.1);
  }

  passes-Within :
      (space_id : Text) (fuel remaining : ℕ) (totals : SpaceTotals)
      → Triple Anything
          (passes fetch app_id space_id fuel remaining totals)
          (λ found _. Within remaining totals found)
          Anything
  unfolding passes
  passes-Within space_id zero remaining totals =
      Triple-return _ _ _ totals (λ _ _. record { at_most = omega arith; deleted = omega arith })
  passes-Within space_id (suc fuel) remaining totals =
      Triple-if _ _ _ (remaining == 0) _ _
        (Triple-return _ _ _ totals
          (λ _ _. record { at_most = omega arith; deleted = omega arith }))
        (Triple-bind _ (λ _ _. Unit) _ _ (fetch app_id space_id remaining) _
          (anyhow (fetch app_id space_id remaining))
          (λ reply.
            Triple-bind _ (λ pass _. (pass.examined ≤ remaining) × (pass.deleted ≤ pass.examined)) _
              _ (lift (answer_of remaining reply)) _
              (Triple-lift_ok _ _ _ (answer_of remaining reply)
                (λ pass s _ h. answer_of-ok remaining reply h) (λ _ _. tt))
              (λ pass. given (λ p.
                Triple-if _ _ _ (pass.examined == 0 || pass.deleted == 0) _ _
                  (Triple-return _ _ _ (add_pass pass totals)
                    (λ _ _. record { at_most = omega (arith, p.0); deleted = omega (arith, p.1) }))
                  (Triple-weaken _ _ _ _ Anything
                    (λ found _. Within (remaining - pass.examined) (add_pass pass totals) found)
                    (λ _ _. tt) (λ found _ w. then-Within remaining totals pass found p w)
                    (passes-Within space_id fuel (remaining - pass.examined)
                      (add_pass pass totals)))))))

  then-AppWithin :
      (count max_nodes : ℕ) (totals : AppTotals) (space : SpaceTotals) (found : AppTotals)
      → Within max_nodes no_nodes space
      → AppWithin count max_nodes (add_space space totals) found
      → AppWithin (suc count) max_nodes totals found
  then-AppWithin count max_nodes totals space found w a = record {
    nodes = record {
      at_most = grind (arith, w.at_most, a.nodes.at_most);
      deleted = omega (arith, w.deleted, a.nodes.deleted);
    };
    spaces = ground (arith, a.spaces);
  }

  collect_spaces-AppWithin :
      (max_nodes : ℕ) (spaces : List Text) (totals : AppTotals)
      → Triple Anything
          (collect_spaces fetch app_id max_nodes spaces totals)
          (λ found _. AppWithin (length spaces) max_nodes totals found)
          Anything
  unfolding collect_spaces collect_space_garbage
  collect_spaces-AppWithin max_nodes [] totals = Triple-return _ _ _ totals (λ _ _. record {
    nodes = record { at_most = omega arith; deleted = omega arith };
    spaces = omega arith;
  })
  collect_spaces-AppWithin max_nodes (space_id ∷ spaces) totals =
      Triple-bind _ (λ space _. Within max_nodes no_nodes space) _ _
        (passes fetch app_id space_id max_nodes max_nodes no_nodes) _
        (passes-Within space_id max_nodes max_nodes no_nodes)
        (λ space. given (λ w.
          Triple-bind _ (λ _ _. Unit) _ _
            (throw_when (not (is_safe_total (add_space space totals))) totals_exceeded) _
            (anyhow (throw_when (not (is_safe_total (add_space space totals))) totals_exceeded))
            (λ _.
              Triple-weaken _ _ _ _ Anything
                (λ found _. AppWithin (length spaces) max_nodes (add_space space totals) found)
                (λ _ _. tt)
                (λ found _ a. then-AppWithin (length spaces) max_nodes totals space found w a)
                (collect_spaces-AppWithin max_nodes spaces (add_space space totals)))))

module _ {S : Type 0} (fetch : Text → Text → ℕ → Exec S AppGcError GcReply)
    (list_usage_bearing_space_ids : Text → Text → ℕ → S → List Text) (app_id : Text) where
  -- What one call did.
  Bounded : ℕ → ℕ → AppGcResult → Type 0
  Bounded max_spaces max_nodes result =
      (result.spaces_examined ≤ max_spaces)
      × (result.spaces_with_deletions ≤ result.spaces_examined)
      × (result.nodes_examined ≤ result.spaces_examined * max_nodes)
      × (result.nodes_deleted ≤ result.nodes_examined)

  AppWithin-Bounded :
      (max_spaces max_nodes : ℕ) (rows : List Text) (totals : AppTotals) (next : Option Text)
      → AppWithin
          (length (take max_spaces rows))
          max_nodes
          (record { spaces_with_deletions = 0; nodes = no_nodes })
          totals
      → Bounded max_spaces max_nodes (result_of max_spaces rows totals next)
  unfolding Bounded
  AppWithin-Bounded max_spaces max_nodes rows totals next a = (
    omega (arith, length-take max_spaces rows),
    omega (arith, a.spaces),
    omega (arith, a.nodes.at_most),
    omega (arith, a.nodes.deleted),
  )

  collect_page-Bounded :
      (text : CursorText) (max_spaces max_nodes : ℕ) (after_space_id : Text)
      → Triple
          (Anything fetch app_id)
          (collect_page fetch list_usage_bearing_space_ids app_id text max_spaces max_nodes
            after_space_id)
          (λ result _. Bounded max_spaces max_nodes result)
          (Anything fetch app_id)
  unfolding collect_page
  collect_page-Bounded text max_spaces max_nodes after_space_id =
      Triple-bind _ (λ _ _. Unit) _ _ (reads _) _ (anyhow fetch app_id (reads _))
        (λ rows.
          Triple-bind _ (λ _ _. Unit) _ _ (lift _) _ (anyhow fetch app_id (lift _))
            (λ _.
              Triple-bind _ _ _ _ (collect_spaces fetch app_id max_nodes (take max_spaces rows) _) _
                (collect_spaces-AppWithin fetch app_id max_nodes (take max_spaces rows) _)
                (λ totals. given fetch app_id (λ a.
                  Triple-bind _ (λ _ _. Unit) _ _ (lift _) _ (anyhow fetch app_id (lift _))
                    (λ next.
                      Triple-return _ _ _ _
                        (λ _ _. AppWithin-Bounded max_spaces max_nodes rows totals next a))))))

  run_app_garbage_collection-Triple :
      (text : CursorText) (cursor : Option Text) (max_spaces max_nodes : Option ℕ)
      → Triple
          (Anything fetch app_id)
          (run_app_garbage_collection fetch list_usage_bearing_space_ids app_id text cursor
            max_spaces max_nodes)
          (λ result _.
            Bounded
              (or_default max_spaces default_app_gc_max_spaces)
              (or_default max_nodes default_app_gc_max_nodes_per_space)
              result)
          (Anything fetch app_id)
  unfolding run_app_garbage_collection
  run_app_garbage_collection-Triple text cursor max_spaces max_nodes =
      Triple-bind _ (λ _ _. Unit) _ _ (throw_when _ _) _ (anyhow fetch app_id (throw_when _ _))
        (λ _.
          Triple-bind _ (λ _ _. Unit) _ _ (throw_when _ _) _ (anyhow fetch app_id (throw_when _ _))
            (λ _.
              Triple-bind _ (λ _ _. Unit) _ _ (throw_when _ _) _
                (anyhow fetch app_id (throw_when _ _))
                (λ _.
                  Triple-bind _ (λ _ _. Unit) _ _ (lift _) _ (anyhow fetch app_id (lift _))
                    (λ after_space_id.
                      collect_page-Bounded text (or_default max_spaces default_app_gc_max_spaces)
                        (or_default max_nodes default_app_gc_max_nodes_per_space) after_space_id))))

  -- A collection of an App that returns has examined no more Spaces than its limit, with deletions in
  -- no more of them than that, no more nodes than the limit per Space allows for those Spaces, and
  -- has deleted no more nodes than it examined.
  pub run_app_garbage_collection-bounds :
      (text : CursorText) (cursor : Option Text) (max_spaces max_nodes : Option ℕ) (s s' : S)
      (result : AppGcResult)
      → run_app_garbage_collection fetch list_usage_bearing_space_ids app_id text cursor max_spaces
          max_nodes s
        ≡ (ok result, s')
      → (result.spaces_examined ≤ or_default max_spaces default_app_gc_max_spaces)
        × (result.spaces_with_deletions ≤ result.spaces_examined)
        × (result.nodes_examined
            ≤ result.spaces_examined * or_default max_nodes default_app_gc_max_nodes_per_space)
        × (result.nodes_deleted ≤ result.nodes_examined)
  unfolding Bounded
  run_app_garbage_collection-bounds text cursor max_spaces max_nodes s s' result h =
      Triple-ok (run_app_garbage_collection-Triple text cursor max_spaces max_nodes) s s' result tt
        h
