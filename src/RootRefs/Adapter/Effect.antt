-- ===== src/RootRefs/Adapter/Effect.antt =====
-- What the statements of a commit do to the counts of the nodes and to the projection.
use unicas.Base.{
  ◌+◌, ◌≡◌, refl, sym, subst, ◌∙◌, ap, ◌≢◌, ℕ, false, Option, none, some, List, [], ◌∷◌,
  if◌then◌else◌, ◌==◌, arith, Bool-cases, inl, inr,
}
use unicas.Base.Int.{ℤ, pos, negsuc, add_delta}
use unicas.Base.Table.{
  find, delete, upsert, find-delete, find-update, find-upsert, beq_refl, beq_ne,
}
use unicas.Base.Text.{Text, same_iff}
use unicas.Store.{NodeRow}
use unicas.Store.Keys.{
  Scope, NodeKey, same_scope, same_scope_iff, same_node, same_node_iff, text_eq, node_key_eq,
}
use unicas.RootRefs.Types.{RootRefProjectionChange}
use unicas.RootRefs.Apply.{or_zero, projected}
use unicas.RootRefs.Adapter.{
  node_key, projection_of, ◌>>=◌, add_root_refs, set_root_refs, add_to_row, write_projection,
  write_change, apply_entries,
}
use unicas.RootRefs.Adapter.Plan.{Distinct, Pending}

pub some-injective {ℓ} : {A : Type ℓ} {a b : A} → ◌≡◌ {A = Option A} (some a) (some b) → a ≡ b
some-injective h = cc

pub >>=-eq-some :
    {A B : Type 0} (first : Option A) (next : A → Option B) {b : B}
    → (first >>= next) ≡ some b
    → (x : A) × (first ≡ some x) × (next x ≡ some b)
>>=-eq-some none next commits = cc
>>=-eq-some (some x) next commits = (x, refl, commits)

abbrev count_in : Option NodeRow → ℕ
count_in none = 0
count_in (some row) = row.root_ref_count

-- The root_ref_count of a node, 0 where it has no row.
abbrev pub root_count : NodeKey → List (NodeKey × NodeRow) → ℕ
root_count key nodes = count_in (find key nodes)

-- The projection holds the positive counts of the nodes.
abbrev pub Consistent : List (NodeKey × NodeRow) → List (NodeKey × ℕ) → Type 0
Consistent nodes refs = (key : NodeKey) → or_zero (find key refs) ≡ root_count key nodes

abbrev delta_or_zero : Option ℤ → ℤ
delta_or_zero none = pos 0
delta_or_zero (some delta) = delta

-- The delta that an update has for a node.
unfoldable pub delta_of : Scope → NodeKey → List (Text × ℤ) → ℤ
delta_of scope key entries =
    if same_scope key.scope scope then delta_or_zero (find key.hash entries) else pos 0

unfoldable Elsewhere {ℓ} : {V : Type ℓ} → NodeKey → List (NodeKey × V) → List (NodeKey × V) → Type ℓ
Elsewhere key rows rows' = (j : NodeKey) → key ≢ j → find j rows' ≡ find j rows

set_root_refs-count :
    (key : NodeKey) (z : ℤ) (nodes : List (NodeKey × NodeRow)) {nodes' : List (NodeKey × NodeRow)}
    {row : NodeRow}
    → find key nodes ≡ some row
    → set_root_refs key z nodes ≡ some nodes'
    → (pos (root_count key nodes') ≡ z) × Elsewhere key nodes nodes'
unfolding Elsewhere
set_root_refs-count key (negsuc n) nodes p h = cc
set_root_refs-count key (pos n) nodes p h =
    subst (λ x. (pos (root_count key x) ≡ pos n) × Elsewhere key nodes x) (some-injective h)
      (
        ground (
          arith,
          find-update key key (λ (r : NodeRow). record r { root_ref_count = n }) nodes,
          beq_refl key,
        ),
        λ j ne. ground (
          arith,
          find-update key j (λ (r : NodeRow). record r { root_ref_count = n }) nodes,
          beq_ne ne,
        ),
      )

add_root_refs-count :
    (key : NodeKey) (delta : ℤ) (nodes : List (NodeKey × NodeRow))
    {nodes' : List (NodeKey × NodeRow)} {row : NodeRow}
    → find key nodes ≡ some row
    → add_root_refs key delta nodes ≡ some nodes'
    → (pos (root_count key nodes') ≡ add_delta row.root_ref_count delta)
      × Elsewhere key nodes nodes'
unfolding add_root_refs
add_root_refs-count key delta nodes {nodes'} {row} p h =
    set_root_refs-count key (add_delta row.root_ref_count delta) nodes p
      (sym (ap (λ o. add_to_row key delta o nodes) p) ∙ h)

write_projection-count :
    (key : NodeKey) (n : ℕ) (refs : List (NodeKey × ℕ)) {refs' : List (NodeKey × ℕ)}
    → write_projection key (projected (pos n)) refs ≡ some refs'
    → (or_zero (find key refs') ≡ n) × Elsewhere key refs refs'
unfolding Elsewhere
write_projection-count key n refs {refs'} h = elim (Bool-cases (n == 0)) [
  | inl z ↦
      let e : delete key refs ≡ refs' = ground (arith, h, z) in
      subst (λ x. (or_zero (find key x) ≡ n) × Elsewhere key refs x) e
        (
          ground (arith, find-delete key key refs, beq_refl key, z),
          λ j ne. ground (arith, find-delete key j refs, beq_ne ne),
        )
  | inr z ↦
      let e : upsert key n refs ≡ refs' = ground (arith, h, z) in
      subst (λ x. (or_zero (find key x) ≡ n) × Elsewhere key refs x) e
        (
          ground (arith, find-upsert key key n refs, beq_refl key),
          λ j ne. ground (arith, find-upsert key j n refs, beq_ne ne),
        )
]

Pending-Elsewhere :
    (scope : Scope) (changes : List RootRefProjectionChange) (hash : Text)
    (nodes nodes' : List (NodeKey × NodeRow)) (entries : List (Text × ℤ))
    → Elsewhere (node_key scope hash) nodes nodes'
    → find hash entries ≡ none
    → Pending scope changes nodes entries
    → Pending scope changes nodes' entries
unfolding Pending Elsewhere find
Pending-Elsewhere scope changes hash nodes nodes' [] e d p = tt
Pending-Elsewhere scope changes hash nodes nodes' ((h, delta) ∷ entries) e d ((row, p, q), ps) = (
  (row, e (node_key scope h) (λ x. ground (arith, d, same_iff h hash, x)) ∙ p, q),
  Pending-Elsewhere scope changes hash nodes nodes' entries e (ground (arith, d)) ps,
)

Consistent-Elsewhere :
    (key : NodeKey) (nodes nodes' : List (NodeKey × NodeRow)) (refs refs' : List (NodeKey × ℕ))
    → Elsewhere key nodes nodes'
    → Elsewhere key refs refs'
    → or_zero (find key refs') ≡ root_count key nodes'
    → Consistent nodes refs
    → Consistent nodes' refs'
unfolding Elsewhere
Consistent-Elsewhere key nodes nodes' refs refs' e e' h c j = elim (Bool-cases (same_node key j)) [
  | inl p ↦ subst (λ x. or_zero (find x refs') ≡ root_count x nodes') ((same_node_iff key j).0 p) h
  | inr p ↦ ap or_zero (e' j (ne p)) ∙ c j ∙ sym (ap count_in (e j (ne p)))
]
  where
    ne : same_node key j ≡ false → key ≢ j
    ne p q = ground (arith, same_node_iff key j)

-- One entry.
delta_of-cons :
    (scope : Scope) (hash : Text) (delta : ℤ) (entries : List (Text × ℤ)) (key : NodeKey)
    → delta_of scope key ((hash, delta) ∷ entries)
      ≡ (if same_node (node_key scope hash) key then delta else delta_of scope key entries)
unfolding delta_of find
delta_of-cons scope hash delta entries key = ground (
  arith,
  same_node_iff (node_key scope hash) key,
  same_scope_iff key.scope scope,
  same_scope_iff scope key.scope,
  same_iff hash key.hash,
)

nil-count :
    (scope : Scope) (key : NodeKey) (nodes : List (NodeKey × NodeRow))
    → pos (root_count key nodes) ≡ add_delta (root_count key nodes) (delta_of scope key [])
unfolding delta_of find add_delta
nil-count scope key nodes = ground arith

delta_of-head :
    (scope : Scope) (hash : Text) (entries : List (Text × ℤ))
    → find hash entries ≡ none
    → delta_of scope (node_key scope hash) entries ≡ pos 0
unfolding delta_of
delta_of-head scope hash entries d = ground (arith, d)

pos_zero : {m : ℕ} {z : ℤ} → pos m ≡ z → pos (m + 0) ≡ z
pos_zero h = ground (arith, h)

delta_of-first :
    (scope : Scope) (hash : Text) (delta : ℤ) (entries : List (Text × ℤ))
    → delta_of scope (node_key scope hash) ((hash, delta) ∷ entries) ≡ delta
delta_of-first scope hash delta entries =
    delta_of-cons scope hash delta entries (node_key scope hash)
    ∙ ap (λ b. if b then delta else delta_of scope (node_key scope hash) entries)
        ((same_node_iff (node_key scope hash) (node_key scope hash)).1 refl)

delta_of-rest :
    (scope : Scope) (hash : Text) (delta : ℤ) (entries : List (Text × ℤ)) (key : NodeKey)
    → same_node (node_key scope hash) key ≡ false
    → delta_of scope key ((hash, delta) ∷ entries) ≡ delta_of scope key entries
delta_of-rest scope hash delta entries key h =
    delta_of-cons scope hash delta entries key
    ∙ ap (λ b. if b then delta else delta_of scope key entries) h

entry-count :
    (scope : Scope) (hash : Text) (delta : ℤ) (entries : List (Text × ℤ))
    (nodes nodes' : List (NodeKey × NodeRow)) {row : NodeRow}
    → find (node_key scope hash) nodes ≡ some row
    → pos (root_count (node_key scope hash) nodes') ≡ add_delta row.root_ref_count delta
    → Elsewhere (node_key scope hash) nodes nodes'
    → find hash entries ≡ none
    → (j : NodeKey)
    → add_delta (root_count j nodes') (delta_of scope j entries)
      ≡ add_delta (root_count j nodes) (delta_of scope j ((hash, delta) ∷ entries))
unfolding Elsewhere add_delta
entry-count scope hash delta entries nodes nodes' {row} p n e d j =
    elim (Bool-cases (same_node (node_key scope hash) j)) [
      | inl t ↦
          let q : node_key scope hash ≡ j = (same_node_iff (node_key scope hash) j).0 t in
          subst
            (λ x.
              add_delta (root_count x nodes') (delta_of scope x entries)
              ≡ add_delta (root_count x nodes) (delta_of scope x ((hash, delta) ∷ entries)))
            q
            (ap (add_delta (root_count (node_key scope hash) nodes'))
                (delta_of-head scope hash entries d)
              ∙ pos_zero n
              ∙ ap (λ o. add_delta (count_in o) delta) (sym p)
              ∙ ap (add_delta (root_count (node_key scope hash) nodes))
                  (sym (delta_of-first scope hash delta entries)))
      | inr t ↦
          let q : find j nodes' ≡ find j nodes =
            e j (λ x. ground (arith, same_node_iff (node_key scope hash) j, x, t)) in
          ap (λ o. add_delta (count_in o) (delta_of scope j entries)) q
          ∙ ap (add_delta (root_count j nodes)) (sym (delta_of-rest scope hash delta entries j t))
    ]

-- The entries of an update, each applied to its node and to the projection.
pub apply_entries-Consistent :
    (scope : Scope) (changes : List RootRefProjectionChange) (entries : List (Text × ℤ))
    (nodes nodes' : List (NodeKey × NodeRow)) (refs refs' : List (NodeKey × ℕ))
    → Consistent nodes refs
    → Distinct entries
    → Pending scope changes nodes entries
    → apply_entries scope changes entries nodes refs ≡ some (nodes', refs')
    → Consistent nodes' refs'
      × ((key : NodeKey)
          → pos (root_count key nodes')
            ≡ add_delta (root_count key nodes) (delta_of scope key entries))
unfolding apply_entries Distinct Pending
apply_entries-Consistent scope changes [] nodes nodes' refs refs' c d p h =
    let n : nodes ≡ nodes' = cc in
    let r : refs ≡ refs' = cc in
    (
      subst (λ x. Consistent x refs') n (subst (λ x. Consistent nodes x) r c),
      λ key. ap (λ x. pos (root_count key x)) (sym n) ∙ nil-count scope key nodes,
    )
apply_entries-Consistent scope changes ((hash, delta) ∷ entries) nodes nodes' refs refs' c (d, ds)
      ((row, p, q), ps) h =
    let key = node_key scope hash in
    let (nodes1, a, h1) = >>=-eq-some (add_root_refs key delta nodes) _ h in
    let (refs1, b, h2) = >>=-eq-some (write_change key (projection_of hash changes) refs) _ h1 in
    let (n, e) = add_root_refs-count key delta nodes p a in
    let b' : write_projection key (projected (pos (root_count key nodes1))) refs ≡ some refs1 =
      ap (λ z. write_projection key (projected z) refs) n
      ∙ sym (ap (λ o. write_change key o refs) q)
      ∙ b in
    let (m, e') = write_projection-count key (root_count key nodes1) refs b' in
    let (cs, counts) =
      apply_entries-Consistent scope changes entries nodes1 nodes' refs1 refs'
        (Consistent-Elsewhere key nodes nodes1 refs refs1 e e' m c) ds
        (Pending-Elsewhere scope changes hash nodes nodes1 entries e d ps) h2 in
    (cs, λ j. counts j ∙ entry-count scope hash delta entries nodes nodes1 p n e d j)
