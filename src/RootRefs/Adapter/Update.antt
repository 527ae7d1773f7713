-- ===== src/RootRefs/Adapter/Update.antt =====
-- What `executeRootRefsUpdate` of packages/service-cloudflare/src/root-refs.ts does to the store.
use unicas.Base.{
  ◌≡◌, refl, sym, subst, ◌∙◌, ap, ℕ, ◌+◌, true, false, not, some, Result, ok, err, ◌>>◌,
  ok-injective, err-ne-ok, if◌then◌else◌,
}
use unicas.Base.Int.{pos, add_delta}
use unicas.Base.Table.{find, upsert}
use unicas.Base.Text.{same, same_refl}
use unicas.Store.{Store, RequestRow}
use unicas.Store.Keys.{Scope, NodeKey, text_eq, node_key_eq, request_key_eq}
use unicas.RootRefs.Types.{
  Thrown, CanonicalRootRefsUpdate, RootRefCommitPlan, RootRefsUpdateResult, validation,
  idempotency_conflict,
}
use unicas.RootRefs.Apply.{or_zero, make_plan, answer_request, answer_lookup, repository_call}
use unicas.RootRefs.Adapter.{
  request_record, request_key, find_request, assert_root_ref_cutover, request_row, apply_entries,
  commit_batch, execute_root_refs_update,
}
use unicas.RootRefs.Adapter.Plan.{Distinct}
use unicas.RootRefs.Adapter.Effect.{Consistent, root_count, delta_of, apply_entries-Consistent}
use unicas.RootRefs.Adapter.Outcome.{
  repository, batch-eq-some, make_plan-eq-ok, execute-Outcome, find-own-upsert, find-own-cons,
  Outcome, failed, replayed, applied,
}

-- What holds of the store in every outcome holds after the update.
pub by-Outcome :
    {scope : Scope} {canonical : CanonicalRootRefsUpdate} {now : ℕ} {s : Store} (P : Store → Type 0)
    {r : Result Thrown RootRefsUpdateResult × Store}
    → P s
    → ((plan : RootRefCommitPlan) (s' : Store)
        → make_plan repository scope canonical now s ≡ ok plan
        → commit_batch plan s ≡ some s'
        → P s')
    → Outcome scope canonical now s r
    → P (r.1)
by-Outcome P p f (failed e) = p
by-Outcome P p f (replayed row a h q) = p
by-Outcome P p f (applied plan s' a h q) = f plan s' h q

applied-Consistent :
    (scope : Scope) (canonical : CanonicalRootRefsUpdate) (now : ℕ) (s : Store)
    → Distinct canonical.entries
    → Consistent s.nodes s.root_refs
    → (plan : RootRefCommitPlan) (s' : Store) → make_plan repository scope canonical now s ≡ ok plan
    → commit_batch plan s ≡ some s'
    → Consistent s'.nodes s'.root_refs
      × ((key : NodeKey)
          → pos (root_count key s'.nodes)
            ≡ add_delta (root_count key s.nodes) (delta_of scope key canonical.entries))
applied-Consistent scope canonical now s d c plan s' h q =
    let (p, a, b, e, f, g) = make_plan-eq-ok scope canonical now s d h in
    let (i, j, k, l) = batch-eq-some plan s q in
    apply_entries-Consistent scope plan.projections canonical.entries s.nodes s'.nodes s.root_refs
      s'.root_refs c d p
      (subst
        (λ x.
          apply_entries x plan.projections canonical.entries s.nodes s.root_refs
          ≡ some (s'.nodes, s'.root_refs))
        a
        (subst
          (λ x.
            apply_entries plan.scope plan.projections x s.nodes s.root_refs
            ≡ some (s'.nodes, s'.root_refs))
          f j))

-- Where the projection holds exactly the positive root counts of the nodes, and no hash occurs twice
-- in the update, it still does after the update, whether the update succeeds or throws.
pub execute_root_refs_update-Consistent :
    (scope : Scope) (canonical : CanonicalRootRefsUpdate) (now : ℕ) (s : Store)
    → Distinct canonical.entries
    → Consistent s.nodes s.root_refs
    → Consistent
        (execute_root_refs_update scope canonical now s).1.nodes
        (execute_root_refs_update scope canonical now s).1.root_refs
execute_root_refs_update-Consistent scope canonical now s d c =
    by-Outcome (λ x. Consistent x.nodes x.root_refs) c
      (λ plan s' h q. (applied-Consistent scope canonical now s d c plan s' h q).0)
      (execute-Outcome scope canonical now s)

-- An update that throws leaves the store as it was.
pub execute_root_refs_update-err :
    (scope : Scope) (canonical : CanonicalRootRefsUpdate) (now : ℕ) (s : Store) {e : Thrown}
    → (execute_root_refs_update scope canonical now s).0 ≡ err e
    → (execute_root_refs_update scope canonical now s).1 ≡ s
execute_root_refs_update-err scope canonical now s h = go (execute-Outcome scope canonical now s) h
  where
    go :
        {r : Result Thrown RootRefsUpdateResult × Store} {e : Thrown}
        → Outcome scope canonical now s r
        → r.0 ≡ err e
        → r.1 ≡ s
    go (failed e) p = refl
    go (replayed row a b c) p = refl
    go (applied plan s' a b c) p = absurd (err-ne-ok (sym p))

true-ne-false : {X : Type 0} → true ≡ false → X
true-ne-false h = cc

-- A change that an update makes: the revision of the App moves on by one, the root count of each
-- node by its delta, and every other root count stays.
abbrev pub Applied : Scope → CanonicalRootRefsUpdate → Store → Store → ℕ → Type 0
Applied scope canonical s s' revision =
    (revision ≡ or_zero (find scope.app_id s.revisions) + 1)
    × (or_zero (find scope.app_id s'.revisions) ≡ revision)
    × ((key : NodeKey)
        → pos (root_count key s'.nodes)
          ≡ add_delta (root_count key s.nodes) (delta_of scope key canonical.entries))

-- An update that is no replay and succeeds, on a consistent store and with no hash twice, returns
-- the App's revision plus one, stores it, and adds to each node's root count its delta, 0 for the
-- nodes it does not name and for those of other scopes.
pub execute_root_refs_update-Applied :
    (scope : Scope) (canonical : CanonicalRootRefsUpdate) (now : ℕ) (s : Store) {revision : ℕ}
    → Distinct canonical.entries
    → Consistent s.nodes s.root_refs
    → (execute_root_refs_update scope canonical now s).0
      ≡ ok (record { idempotent = false; revision = revision })
    → Applied scope canonical s (execute_root_refs_update scope canonical now s).1 revision
execute_root_refs_update-Applied scope canonical now s {revision} d c h =
    go (execute-Outcome scope canonical now s) h
  where
    go :
        {r : Result Thrown RootRefsUpdateResult × Store}
        → Outcome scope canonical now s r
        → r.0 ≡ ok (record { idempotent = false; revision = revision })
        → Applied scope canonical s r.1 revision
    go (failed e) p = absurd (err-ne-ok p)
    go (replayed row a b q) p =
        absurd (true-ne-false (ap (λ (x : RootRefsUpdateResult). x.idempotent) (ok-injective p)))
    go (applied plan s' a b q) p =
        let (m1, m2, m3, m4, m5, m6) = make_plan-eq-ok scope canonical now s d b in
        let (b1, b2, b3, b4) = batch-eq-some plan s q in
        let v : plan.revision ≡ revision =
          ap (λ (x : RootRefsUpdateResult). x.revision) (ok-injective p) in
        (
          sym v ∙ m6,
          ap or_zero (
                ap (find scope.app_id)
                  (b1 ∙ ap (λ (x : Scope). upsert x.app_id plan.revision s.revisions) m2)
                ∙ find-own-upsert scope.app_id plan.revision s.revisions)
              ∙ v,
          (applied-Consistent scope canonical now s d c plan s' b q).1,
        )

execute-replayed :
    (scope : Scope) (canonical : CanonicalRootRefsUpdate) (now : ℕ) (s : Store) (row : RequestRow)
    → assert_root_ref_cutover s ≡ ok tt
    → find (request_key scope canonical.request_id) s.root_requests ≡ some row
    → same row.payload_hash canonical.payload_hash ≡ true
    → execute_root_refs_update scope canonical now s
      ≡ (ok (record { idempotent = true; revision = row.revision }), s)
unfolding execute_root_refs_update find_request repository_call
execute-replayed scope canonical now s row a h q =
    ap
      (λ x.
        answer_lookup repository scope canonical now
          (repository_call (
            x
            >> ok (request_record (find (request_key scope canonical.request_id) s.root_requests))))
          s)
      a
    ∙ ap (λ o. answer_request repository scope canonical now (request_record o) s) h
    ∙ ap
        (λ b. (
          if not b
              then err (validation 409 idempotency_conflict)
              else ok (record { idempotent = true; revision = row.revision }),
          s,
        ))
        q

-- Once an update in which no hash occurs twice has succeeded, the same request with the same payload
-- answers, at any later time, with the same revision as a replay and leaves the store as it is.
pub execute_root_refs_update-execute_root_refs_update :
    (scope : Scope) (canonical : CanonicalRootRefsUpdate) (now later : ℕ) (s : Store)
    {result : RootRefsUpdateResult}
    → Distinct canonical.entries
    → (execute_root_refs_update scope canonical now s).0 ≡ ok result
    → execute_root_refs_update scope canonical later
        (execute_root_refs_update scope canonical now s).1
      ≡ (
        ok (record { idempotent = true; revision = result.revision }),
        (execute_root_refs_update scope canonical now s).1,
      )
execute_root_refs_update-execute_root_refs_update scope canonical now later s {result} d h =
    go (execute-Outcome scope canonical now s) h
  where
    go :
        {r : Result Thrown RootRefsUpdateResult × Store}
        → Outcome scope canonical now s r
        → r.0 ≡ ok result
        → execute_root_refs_update scope canonical later r.1
          ≡ (ok (record { idempotent = true; revision = result.revision }), r.1)
    go (failed e) p = absurd (err-ne-ok p)
    go (replayed row a b q) p =
        execute-replayed scope canonical later s row a b q
        ∙ ap (λ (x : ℕ). (ok (record { idempotent = true; revision = x }), s))
            (ap (λ (x : RootRefsUpdateResult). x.revision) (ok-injective p))
    go (applied plan s' a b q) p =
        let (m1, m2, m3, m4, m5, m6) = make_plan-eq-ok scope canonical now s d b in
        let (b1, b2, b3, b4) = batch-eq-some plan s q in
        execute-replayed scope canonical later s' (request_row plan) (b4 ∙ a)
          (ap (λ x. find x s'.root_requests)
              (ap (λ x. request_key x canonical.request_id) (sym m2)
                ∙ ap (request_key plan.scope) (sym m3))
            ∙ ap (find (request_key plan.scope plan.request_id)) b3
            ∙ find-own-cons (request_key plan.scope plan.request_id) (request_row plan)
                s.root_requests)
          ((ap (λ x. same x canonical.payload_hash) m4 ∙ same_refl canonical.payload_hash))
        ∙ ap (λ (x : ℕ). (ok (record { idempotent = true; revision = x }), s'))
            (ap (λ (x : RootRefsUpdateResult). x.revision) (ok-injective p))
