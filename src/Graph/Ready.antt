-- ===== src/Graph/Ready.antt =====
-- What a readiness check of packages/service-cloudflare/src/node-lease.ts shows, and the loops over
-- the children of packages/service/src/node-lease.ts that make it for each of them.
use unicas.Base.{
  ℕ, ◌≡◌, refl, sym, subst, Bool, true, false, not, Option, none, some, List, [], ◌∷◌, Result, ok,
  if◌then◌else◌, arith, Bool-cases, Option-cases, &&-eq-true, inl, inr, All,
}
use unicas.Base.Text.{Text, same, same→eq}
use unicas.Base.Table.{find}
use unicas.Base.Exec.{throw_when, ◌>>=◌}
use unicas.Base.Exec.Rules.{
  Ends, Triple, Triple-bind, Triple-return, Triple-reads, Triple-error, Triple-weaken,
}
use unicas.Store.{Store, NodeRow}
use unicas.Store.Keys.{Scope, NodeKey, node_key_eq}
use unicas.RootRefs.Adapter.{node_key}
use unicas.NodeLease.Types.{LeaseError}
use unicas.NodeLease.Ready.{check_children}
use unicas.NodeLease.Driven.{UploadInput, includes, children_to_wait_for}
use unicas.NodeLease.Adapter.{Bucket, ready_row, is_some, has_ready_node, is_node_ready}
use unicas.NodeLease.Adapter.Repository.{lease_repository, upload_repository}
use unicas.Graph.{Core, core}
use unicas.Graph.Insert.{HasRow}
use unicas.Graph.Objects.{HasObject}

ready_row-row :
    (key : NodeKey) (nodes : List (NodeKey × NodeRow))
    → is_some (ready_row key nodes) ≡ true
    → (row : NodeRow) × (find key nodes ≡ some row) × (row.ready ≡ true)
unfolding ready_row
ready_row-row key nodes h = elim (Option-cases (find key nodes)) [
  | inl p ↦ absurd (ground (arith, h, p))
  | inr (row, p) ↦ (row, p, ground (arith, h, p))
]

is_some-value : {A : Type 0} (o : Option A) → is_some o ≡ true → (value : A) × (o ≡ some value)
is_some-value none h = cc
is_some-value (some value) h = (value, refl)

-- A ready node has a row and an object.
pub has_ready_node-row :
    (scope : Scope) (hash : Text) (s : Store)
    → has_ready_node scope hash s ≡ true
    → HasRow (node_key scope hash) s.nodes × HasObject (node_key scope hash) s.objects
unfolding has_ready_node
has_ready_node-row scope hash s h =
    let (a, b) =
      &&-eq-true (is_some (ready_row (node_key scope hash) s.nodes))
        (is_some (find (node_key scope hash) s.objects)) h in
    let (row, p, _) = ready_row-row (node_key scope hash) s.nodes a in
    ((row, p), is_some-value (find (node_key scope hash) s.objects) b)

-- The children have rows.
abbrev pub HasRows : Scope → List Text → List (NodeKey × NodeRow) → Type 0
HasRows scope refs nodes = All (λ ref. HasRow (node_key scope ref) nodes) refs

none-waiting :
    (test : Bool) (ref : Text) (children : List Text)
    → (if test then children else ref ∷ children) ≡ []
    → (test ≡ true) × (children ≡ [])
none-waiting true ref children h = (refl, h)
none-waiting false ref children h = cc

-- A child that was seen before has a row, and so has this one.
seen-row :
    (scope : Scope) (ref : Text) (seen : List Text) (s : Store)
    → HasRow (node_key scope ref) s.nodes
    → ((h : Text) → includes h seen ≡ true → HasRow (node_key scope h) s.nodes)
    → (h : Text) → includes h (ref ∷ seen) ≡ true
    → HasRow (node_key scope h) s.nodes
unfolding includes
seen-row scope ref seen s row rows h m = elim (Bool-cases (same ref h)) [
  | inl t ↦ subst (λ x. HasRow (node_key scope x) s.nodes) (same→eq ref h t) row
  | inr t ↦ rows h (ground (arith, m, t))
]

module _ (bucket : Bucket) (committed_at : ℕ) (scope : Scope) (hash : Text)
    (input : UploadInput) where
  no_seen : (s : Store) (h : Text) → includes h [] ≡ true → HasRow (node_key scope h) s.nodes
  unfolding includes
  no_seen s h m = cc

  abbrev waiting : List Text → List Text → Store → Result LeaseError (List Text) × Store
  waiting = children_to_wait_for (upload_repository bucket committed_at) scope hash input

  children-lem :
      (seen refs : List Text) (s : Store)
      → (children : List Text) × (waiting seen refs s ≡ (ok children, s))
        × (children ≡ []
            → ((h : Text) → includes h seen ≡ true → HasRow (node_key scope h) s.nodes)
            → HasRows scope refs s.nodes)
  unfolding children_to_wait_for is_node_ready ◌>>=◌
  children-lem seen [] s = ([], refl, λ e h. tt)
  children-lem seen (ref ∷ refs) s = elim (Bool-cases (includes ref seen)) [
    | inl t ↦
        let (children, e, f) = children-lem seen refs s in
        (children, rw t e, λ z rows. (rows ref t, f z rows))
    | inr t ↦
        let (children, e, f) = children-lem (ref ∷ seen) refs s in
        (
          (if has_ready_node scope ref s then children else ref ∷ children),
          rw (t, e),
          λ z rows.
              let (r, z') = none-waiting (has_ready_node scope ref s) ref children z in
              let row = (has_ready_node-row scope ref s r).0 in
              (row, f z' (seen-row scope ref seen s row rows)),
        )
  ]

  -- No child to wait for: all of them have rows.
  pub children_to_wait_for-Triple :
      (P : Core → Type 0) (refs : List Text)
      → Triple
          (λ s. P (core s))
          (children_to_wait_for (upload_repository bucket committed_at) scope hash input [] refs)
          (λ children s. P (core s) × (children ≡ [] → HasRows scope refs s.nodes))
          (λ s. P (core s))
  children_to_wait_for-Triple P refs = record {
    runs = λ s p.
        let (children, e, f) = children-lem [] refs s in
        subst
          (λ (x : Result LeaseError (List Text) × Store).
            Ends (λ children s. P (core s) × (children ≡ [] → HasRows scope refs s.nodes))
              (λ s. P (core s)) x.0 x.1)
          (sym e) (p, λ z. f z (no_seen s));
  }

-- A guard on a Boolean whose truth shows something.
pub require-Triple :
    (P Q : Core → Type 0) (test : Bool) (thrown : LeaseError)
    → Triple
        (λ s. P (core s) × (test ≡ true → Q (core s)))
        (throw_when (not test) thrown)
        (λ _ s. P (core s) × Q (core s))
        (λ s. P (core s))
require-Triple P Q true thrown = record { runs = λ s (p, q). (p, q refl) }
require-Triple P Q false thrown = record { runs = λ s (p, q). p }

-- A node that is ready has a row and an object.
pub is_node_ready-Triple :
    (P : Core → Type 0) (scope : Scope) (hash : Text)
    → Triple
        (λ s. P (core s))
        (is_node_ready scope hash)
        (λ is_ready s.
          P (core s)
          × (is_ready ≡ true
              → HasRow (node_key scope hash) s.nodes × HasObject (node_key scope hash) s.objects))
        (λ s. P (core s))
unfolding is_node_ready
is_node_ready-Triple P scope hash =
    Triple-reads _ _ _ (has_ready_node scope hash) (λ s p. (p, has_ready_node-row scope hash s))

module _ (bucket : Bucket) (committed_at : ℕ) (scope : Scope) where
  -- The children are ready, or the code throws.
  pub check_children-Triple :
      (P : Core → Type 0) (refs : List Text)
      → Triple
          (λ s. P (core s))
          (check_children (lease_repository bucket committed_at) scope refs)
          (λ _ s. P (core s) × HasRows scope refs s.nodes)
          (λ s. P (core s))
  unfolding check_children
  check_children-Triple P [] = Triple-return _ _ _ tt (λ s p. (p, tt))
  check_children-Triple P (ref ∷ refs) =
      Triple-bind _ _ _ _ (is_node_ready scope ref) _ (is_node_ready-Triple P scope ref)
        (λ is_ready.
          Triple-bind _ _ _ _ (throw_when (not is_ready) _) _
            (require-Triple P
              (λ c. HasRow (node_key scope ref) c.nodes × HasObject (node_key scope ref) c.objects)
              is_ready _)
            (λ _.
              Triple-error _ _ _ _ (λ s p. p.0)
                (Triple-weaken _ _ _ _ _ _ (λ s (p, q). (p, q.0))
                  (λ _ s (p, rest). (p.0, (p.1, rest)))
                  (check_children-Triple (λ c. P c × HasRow (node_key scope ref) c.nodes) refs))))
