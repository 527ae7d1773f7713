-- ===== src/AppGc/Paging.antt =====
-- How the pages of a collection of an App follow each other: packages/service/src/app-gc.ts.
use unicas.Base.{
  ◌+◌, ok-injective, if◌then◌else◌, ℕ, zero, suc, ◌<◌, ◌≡◌, refl, sym, subst, ◌∙◌, ◌⊎◌, inl, inr,
  Bool, true, false, Option, none, some, List, [], ◌∷◌, take, length, Result, ok, ltb, arith,
}
use unicas.Base.Text.{Text, same_refl, before}
use unicas.NodeLease.Direct.{is_empty}
use unicas.Base.Exec.{Exec, lift, reads, throw_when, ◌>>=◌}
use unicas.Base.Exec.Rules.{
  Triple, Triple-ok, Triple-return, Triple-bind, Triple-lift_ok, Triple-throw_when,
}
use unicas.AppGc.Bounds.{Anything, anyhow, given}
use unicas.AppGc.{
  AppGcError, AppGcResult, GcReply, AppGcCursor, json_object, object_of, encode_app_gc_cursor,
  CursorText, encoded, or_default, default_app_gc_max_spaces, default_app_gc_max_nodes_per_space,
  result_of, collect_spaces, collect_page, run_app_garbage_collection, check_order,
  validate_space_page, after_cursor, last_of, next_cursor_of,
}

before-before : (a b c : Text) → before a b ≡ true → before b c ≡ true → before a c ≡ true
unfolding before
before-before [] [] c h g = cc
before-before [] (y ∷ b) [] h g = cc
before-before [] (y ∷ b) (z ∷ c) h g = refl
before-before (x ∷ a) [] c h g = cc
before-before (x ∷ a) (y ∷ b) [] h g = cc
before-before (x ∷ a) (y ∷ b) (z ∷ c) h g = ground (arith, h, g, before-before a b c)

-- What the order of a page says of its first row.
check_order-cons :
    (previous space_id : Text) (rows : List Text)
    → check_order previous (space_id ∷ rows) ≡ ok tt
    → (is_empty space_id ≡ false)
      × (before previous space_id ≡ true)
      × (check_order space_id rows ≡ ok tt)
unfolding check_order
check_order-cons previous space_id rows h = ground (arith, h)

-- The last row of a page that is in order.
last_of-order :
    (n : ℕ) (previous : Text) (rows : List Text)
    → check_order previous rows ≡ ok tt
    → is_empty previous ≡ false
    → (is_empty (last_of previous (take n rows)) ≡ false)
      × ((last_of previous (take n rows) ≡ previous)
          ⊎ (before previous (last_of previous (take n rows)) ≡ true))
unfolding last_of
last_of-order zero previous rows h e = (e, inl refl)
last_of-order (suc n) previous [] h e = (e, inl refl)
last_of-order (suc n) previous (space_id ∷ rows) h e =
    let (filled, after, rest) = check_order-cons previous space_id rows h in
    let (full, later) = last_of-order n space_id rows rest filled in
    (
      full,
      elim later [
        | inl p ↦ inr (subst (λ t. before previous t ≡ true) (sym p) after)
        | inr p ↦ inr (before-before previous space_id _ after p)
      ],
    )

last_of-after :
    (n : ℕ) (previous : Text) (rows : List Text)
    → check_order previous rows ≡ ok tt
    → 0 < n
    → 0 < length rows
    → (is_empty (last_of [] (take n rows)) ≡ false)
      × (before previous (last_of [] (take n rows)) ≡ true)
unfolding last_of
last_of-after zero previous rows h p q = ground (arith, p)
last_of-after (suc n) previous [] h p q = ground (arith, q)
last_of-after (suc n) previous (space_id ∷ rows) h p q =
    let (filled, after, rest) = check_order-cons previous space_id rows h in
    let (full, later) = last_of-order n space_id rows rest filled in
    (
      full,
      elim later [
        | inl e ↦ subst (λ t. before previous t ≡ true) (sym e) after
        | inr e ↦ before-before previous space_id _ after e
      ],
    )

encoded-ok : (o : Option Text) {value : Text} → encoded o ≡ ok (some value) → o ≡ some value
encoded-ok none h = cc
encoded-ok (some value) h = cc

taken :
    (test : Bool) {r : Result AppGcError (Option Text)} {value : Text}
    → (if test then r else ok none) ≡ ok (some value)
    → (test ≡ true) × (r ≡ ok (some value))
taken true h = (refl, h)
taken false h = cc

validate_space_page-ok :
    (rows : List Text) (after : Text) (maximum : ℕ)
    → validate_space_page rows after maximum ≡ ok tt
    → check_order after rows ≡ ok tt
unfolding validate_space_page
validate_space_page-ok rows after maximum h = ground (arith, h)

module _ (text : CursorText) (app_id : Text) where
  -- The cursor is accepted, and continues after the Space `after`.
  Continues : Text → Text → Type 0
  Continues after value =
      (next : Text) × (after_cursor text app_id (some value) ≡ ok next) × (before after next ≡ true)

  module _ (is_given : is_empty app_id ≡ false)
      (decodes : (cursor : AppGcCursor) (value : Text)
        → encode_app_gc_cursor text cursor ≡ some value
        → text.parse value ≡ some (json_object (object_of cursor))) where
    encode-Continues :
        (after space_id value : Text)
        → is_empty space_id ≡ false
        → before after space_id ≡ true
        → encode_app_gc_cursor text (record { app_id = app_id; last_space_id = space_id })
          ≡ some value
        → Continues after value
    unfolding Continues after_cursor
    encode-Continues after space_id value e b h = (
      space_id,
      rw (decodes (record { app_id = app_id; last_space_id = space_id }) value h)
          (ground (arith, is_given, e, same_refl app_id)),
      b,
    )

    next_cursor_of-Continues :
        (max_spaces : ℕ) (rows : List Text) (after value : Text)
        → check_order after rows ≡ ok tt
        → 0 < max_spaces
        → next_cursor_of text app_id max_spaces rows ≡ ok (some value)
        → Continues after value
    unfolding next_cursor_of
    next_cursor_of-Continues max_spaces rows after value h p g =
        let (more, e) = taken (ltb max_spaces (length rows)) g in
        let (filled, later) = last_of-after max_spaces after rows h p (ground (arith, more, p)) in
        encode-Continues after (last_of [] (take max_spaces rows)) value filled later
          (encoded-ok _ e)

module _ {S : Type 0} (fetch : Text → Text → ℕ → Exec S AppGcError GcReply)
    (list_usage_bearing_space_ids : Text → Text → ℕ → S → List Text) (app_id : Text)
    (text : CursorText)
    (decodes : (cursor : AppGcCursor) (value : Text)
      → encode_app_gc_cursor text cursor ≡ some value
      → text.parse value ≡ some (json_object (object_of cursor))) where
  abbrev Leaves : Text → AppGcResult → Type 0
  Leaves after result =
      (value : Text) → result.next_cursor ≡ some value → Continues text app_id after value

  collect_page-Leaves :
      (max_spaces max_nodes : ℕ) (after : Text)
      → is_empty app_id ≡ false
      → 0 < max_spaces
      → Triple
          (Anything fetch app_id)
          (collect_page fetch list_usage_bearing_space_ids app_id text max_spaces max_nodes after)
          (λ result _. Leaves after result)
          (Anything fetch app_id)
  unfolding collect_page
  collect_page-Leaves max_spaces max_nodes after is_given p =
      Triple-bind _ (λ _ _. Unit) _ _ (reads _) _ (anyhow fetch app_id (reads _))
        (λ rows.
          Triple-bind _ (λ _ _. check_order after rows ≡ ok tt) _ _ (lift _) _
            (Triple-lift_ok _ _ _ (validate_space_page rows after (max_spaces + 1))
              (λ _ _ _ h. validate_space_page-ok rows after (max_spaces + 1) h) (λ _ _. tt))
            (λ _. given fetch app_id (λ h.
              Triple-bind _ (λ _ _. Unit) _ _
                (collect_spaces fetch app_id max_nodes (take max_spaces rows) _) _
                (anyhow fetch app_id _)
                (λ totals.
                  Triple-bind _ (λ next _. next_cursor_of text app_id max_spaces rows ≡ ok next) _ _
                    (lift _) _
                    (Triple-lift_ok _ _ _ (next_cursor_of text app_id max_spaces rows)
                      (λ next _ _ g. g) (λ _ _. tt))
                    (λ next. given fetch app_id (λ g.
                      Triple-return _ _ _ (result_of max_spaces rows totals next) (λ _ _ value e.
                        next_cursor_of-Continues text app_id is_given decodes max_spaces rows after
                          value h p
                          (subst (λ n. next_cursor_of text app_id max_spaces rows ≡ ok n) e
                            g))))))))

  guarded :
      {A : Type 0} (test : Bool) (thrown : AppGcError) (next : Unit {0} → Exec S AppGcError A)
      {Q : A → S → Type 0}
      → (test ≡ false → Triple (Anything fetch app_id) (next tt) Q (Anything fetch app_id))
      → Triple (Anything fetch app_id) (throw_when test thrown >>= next) Q (Anything fetch app_id)
  guarded test thrown next h =
      Triple-bind _ _ _ _ (throw_when test thrown) next
        (Triple-throw_when (Anything fetch app_id) test thrown)
        (λ _. given fetch app_id (λ p. h p.1))

  run-Leaves :
      (cursor : Option Text) (max_spaces max_nodes : Option ℕ) (after : Text)
      → after_cursor text app_id cursor ≡ ok after
      → Triple
          (Anything fetch app_id)
          (run_app_garbage_collection fetch list_usage_bearing_space_ids app_id text cursor
            max_spaces max_nodes)
          (λ result _. Leaves after result)
          (Anything fetch app_id)
  unfolding run_app_garbage_collection
  run-Leaves cursor max_spaces max_nodes after h = guarded _ _ _ (λ positive. guarded _ _ _ (λ _.
      guarded _ _ _ (λ is_given.
        Triple-bind _ (λ found _. after_cursor text app_id cursor ≡ ok found) _ _ (lift _) _
          (Triple-lift_ok _ _ _ (after_cursor text app_id cursor) (λ _ _ _ g. g) (λ _ _. tt))
          (λ found. given fetch app_id (λ g.
            subst
              (λ a.
                Triple (Anything fetch app_id)
                  (collect_page fetch list_usage_bearing_space_ids app_id text
                    (or_default max_spaces default_app_gc_max_spaces)
                    (or_default max_nodes default_app_gc_max_nodes_per_space) found)
                  (λ result _. Leaves a result) (Anything fetch app_id))
              (ok-injective (sym g ∙ h))
              (collect_page-Leaves (or_default max_spaces default_app_gc_max_spaces)
                (or_default max_nodes default_app_gc_max_nodes_per_space) found is_given
                (ground (arith, positive))))))))

  -- Where the object of a cursor, once encoded, is parsed as it was: when a collection of an App that starts after
  -- a Space returns a cursor, a call with that cursor is not refused, and it starts after a Space
  -- that comes later.
  pub run_app_garbage_collection-after_cursor :
      (cursor : Option Text) (max_spaces max_nodes : Option ℕ) (after : Text) (s s' : S)
      (result : AppGcResult) (value : Text)
      → after_cursor text app_id cursor ≡ ok after
      → run_app_garbage_collection fetch list_usage_bearing_space_ids app_id text cursor max_spaces
          max_nodes s
        ≡ (ok result, s')
      → result.next_cursor ≡ some value
      → (next : Text) × (after_cursor text app_id (some value) ≡ ok next)
        × (before after next ≡ true)
  unfolding Continues
  run_app_garbage_collection-after_cursor cursor max_spaces max_nodes after s s' result value h r
        e =
      Triple-ok (run-Leaves cursor max_spaces max_nodes after h) s s' result tt r value e
