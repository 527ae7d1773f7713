-- ===== src/RootRefs/Adapter/Plan.antt =====
-- What a plan that `make_plan` returns says of the tables it was read from.
use unicas.Base.{
  ◌≡◌, refl, subst, ◌⊎◌, ℕ, not, Option, none, some, List, [], ◌∷◌, ok, throw_if, ◌==◌, arith,
  Option-cases, inl, inr, >>=-eq-ok, ok-injective,
}
use unicas.Base.Int.{ℤ, add_delta}
use unicas.Base.Table.{find}
use unicas.Base.Text.{Text, same_iff, same_refl}
use unicas.Store.{NodeRow}
use unicas.Store.Keys.{Scope, NodeKey, text_eq, node_key_eq}
use unicas.RootRefs.Types.{validation, root_ref_busy, RootRefNodeState, RootRefProjectionChange}
use unicas.RootRefs.Apply.{
  node_count, check_count, check_entries, or_zero, projected, plan_projections,
}
use unicas.RootRefs.Adapter.{node_key, with_state, read_nodes, scope_balances, projection_of}

-- No hash occurs twice: the entries come from the fields of an object.
unfoldable pub Distinct : List (Text × ℤ) → Type 0
Distinct [] = Unit {0}
Distinct ((hash, delta) ∷ entries) = (find hash entries ≡ none) × Distinct entries

-- Each entry has a node row, and the plan sets its projection to the row's count plus the delta.
unfoldable pub Pending :
    Scope → List RootRefProjectionChange → List (NodeKey × NodeRow) → List (Text × ℤ) → Type 0
Pending scope changes nodes [] = Unit {0}
Pending scope changes nodes ((hash, delta) ∷ entries) =
    ((row : NodeRow) × (find (node_key scope hash) nodes ≡ some row)
      × (projection_of hash changes
          ≡ some
              (record { hash = hash; ref_count = projected (add_delta row.root_ref_count delta) })))
    × Pending scope changes nodes entries

pub find-scope_balances :
    (scope : Scope) (hash : Text) (rows : List (NodeKey × ℕ))
    → find hash (scope_balances scope rows) ≡ find (node_key scope hash) rows
unfolding find scope_balances
find-scope_balances scope hash [] = refl
find-scope_balances scope hash ((key, count) ∷ rows) =
    ground (arith, find-scope_balances scope hash rows)

abbrev count_of : Option NodeRow → Option ℕ
count_of none = none
count_of (some row) = some row.root_ref_count

node_count-with_state :
    (hash hash' : Text) (o : Option NodeRow) (states : List RootRefNodeState) {n : ℕ}
    → node_count hash (with_state hash' o states) ≡ some n
    → (node_count hash states ≡ some n) ⊎ ((hash' ≡ hash) × (count_of o ≡ some n))
unfolding node_count
node_count-with_state hash hash' none states h = inl h
node_count-with_state hash hash' (some row) states {n} h = ground (arith, same_iff hash' hash)

count_of-find :
    (scope : Scope) (nodes : List (NodeKey × NodeRow)) (hash : Text) (hashes : List Text) {n : ℕ}
    → node_count hash (read_nodes scope nodes hashes) ≡ some n
    → count_of (find (node_key scope hash) nodes) ≡ some n
unfolding node_count read_nodes
count_of-find scope nodes hash [] h = cc
count_of-find scope nodes hash (hash' ∷ hashes) {n} h =
    elim (node_count-with_state hash hash' (find (node_key scope hash') nodes)
      (read_nodes scope nodes hashes) h) [
        | inl p ↦ count_of-find scope nodes hash hashes p
        | inr (q, p) ↦ subst (λ (x : Text). count_of (find (node_key scope x) nodes) ≡ some n) q p
      ]

pub node_count-read_nodes :
    (scope : Scope) (nodes : List (NodeKey × NodeRow)) (hash : Text) (hashes : List Text) {n : ℕ}
    → node_count hash (read_nodes scope nodes hashes) ≡ some n
    → (row : NodeRow) × (find (node_key scope hash) nodes ≡ some row) × (row.root_ref_count ≡ n)
node_count-read_nodes scope nodes hash hashes {n} h =
    elim (Option-cases (find (node_key scope hash) nodes)) [
      | inl p ↦ absurd (ground (arith, count_of-find scope nodes hash hashes h))
      | inr (row, p) ↦ (row, p, ground (arith, count_of-find scope nodes hash hashes h))
    ]

-- A change of another hash in front of the changes.
Pending-cons :
    (scope : Scope) (change : RootRefProjectionChange) (changes : List RootRefProjectionChange)
    (nodes : List (NodeKey × NodeRow)) (entries : List (Text × ℤ))
    → find change.hash entries ≡ none
    → Pending scope changes nodes entries
    → Pending scope (change ∷ changes) nodes entries
unfolding Pending projection_of find
Pending-cons scope change changes nodes [] d p = tt
Pending-cons scope change changes nodes ((hash, delta) ∷ entries) d ((row, q, r), p) = (
  (row, q, ground (arith, same_iff change.hash hash, same_iff hash change.hash)),
  Pending-cons scope change changes nodes entries (ground arith) p,
)

check_count-eq-ok :
    (o : Option ℕ) (delta : ℤ) {u : Unit {0}} → check_count o delta ≡ ok u → (n : ℕ) × (o ≡ some n)
unfolding check_count
check_count-eq-ok none delta h = cc
check_count-eq-ok (some n) delta h = (n, refl)

pub plan_projections-Pending :
    (scope : Scope) (nodes : List (NodeKey × NodeRow)) (hashes : List Text)
    (balances : List (Text × ℕ)) (entries : List (Text × ℤ))
    {changes : List RootRefProjectionChange}
    → Distinct entries
    → check_entries (read_nodes scope nodes hashes) entries ≡ ok tt
    → plan_projections (read_nodes scope nodes hashes) balances entries ≡ ok changes
    → Pending scope changes nodes entries
unfolding Pending Distinct check_entries plan_projections projection_of
plan_projections-Pending scope nodes hashes balances [] d c h = tt
plan_projections-Pending scope nodes hashes balances ((hash, delta) ∷ entries) (d, ds) c h =
    let (u, c1, c2) =
      >>=-eq-ok (check_count (node_count hash (read_nodes scope nodes hashes)) delta) _ c in
    let (v, h1, h2) =
      >>=-eq-ok
        (throw_if
          (not (
            or_zero (find hash balances)
            == or_zero (node_count hash (read_nodes scope nodes hashes))))
          (validation 409 root_ref_busy))
        _ h in
    let (rest, h3, h4) =
      >>=-eq-ok (plan_projections (read_nodes scope nodes hashes) balances entries) _ h2 in
    let (n, c3) = check_count-eq-ok (node_count hash (read_nodes scope nodes hashes)) delta c1 in
    let (row, p, q) = node_count-read_nodes scope nodes hash hashes c3 in
    subst (λ x. Pending scope x nodes ((hash, delta) ∷ entries)) (ok-injective h4)
      (
        (row, p, ground (arith, same_refl hash)),
        Pending-cons scope
            (record {
              hash = hash;
              ref_count = projected (add_delta (or_zero (find hash balances)) delta);
            })
            rest nodes entries d
            (plan_projections-Pending scope nodes hashes balances entries ds c2 h3),
      )
