-- ===== src/Graph/Insert.antt =====
-- A committed node in the graph: the batch of `commitNewNode` of
-- packages/service-cloudflare/src/node-lease.ts.
use unicas.Base.{
  ℕ, suc, ◌+◌, ◌≡◌, refl, sym, ap, subst, ◌∙◌, Bool, true, false, Option, none, some, List, [], ◌∷◌,
  if◌then◌else◌, arith, Option-cases, Bool-cases, inl, inr, All,
}
use unicas.Base.Text.{Text}
use unicas.Base.Table.{find, update, find-update, find-cons, beq_refl}
use unicas.Codec.Host.{Digester}
use unicas.Store.{Store, NodeRow, EdgeRow, StoredObject}
use unicas.Store.Keys.{NodeKey, same_node, same_node_iff, node_key_eq}
use unicas.RootRefs.Adapter.{node_key}
use unicas.RootRefs.Adapter.Effect.{some-injective, >>=-eq-some}
use unicas.NodeLease.Types.{NewNode}
use unicas.NodeLease.Adapter.Commit.{
  insert_node, insert_edge, add_child_ref, insert_refs, new_row, new_node_batch,
}
use unicas.Graph.{edge_count, child_count, Intact}
use unicas.Graph.Rows.{update-row}

-- The node has a row.
abbrev pub HasRow : NodeKey → List (NodeKey × NodeRow) → Type 0
HasRow key nodes = (row : NodeRow) × (find key nodes ≡ some row)

update-HasRow :
    (f : NodeRow → NodeRow) (k key : NodeKey) (nodes : List (NodeKey × NodeRow))
    → HasRow key nodes
    → HasRow key (update k f nodes)
update-HasRow f k key nodes (row, h) = elim (Bool-cases (same_node k key)) [
  | inl t ↦ (f row, ground (arith, find-update k key f nodes, h, t))
  | inr t ↦ (row, ground (arith, find-update k key f nodes, h, t))
]

add_child_ref-count :
    (k key : NodeKey) (nodes : List (NodeKey × NodeRow))
    → HasRow k nodes
    → child_count key (add_child_ref k nodes)
      ≡ (if same_node k key then suc (child_count key nodes) else child_count key nodes)
unfolding add_child_ref
add_child_ref-count k key nodes (row, h) = elim (Bool-cases (same_node k key)) [
  | inl t ↦ ground (
    arith,
    find-update k key (λ (r : NodeRow). record r { child_ref_count = r.child_ref_count + 1 }) nodes,
    ap (λ x. find x nodes) ((same_node_iff k key).0 t),
    h,
    t,
  )
  | inr t ↦ ground (
    arith,
    find-update k key (λ (r : NodeRow). record r { child_ref_count = r.child_ref_count + 1 }) nodes,
    t,
  )
]

insert_edge-eq-some :
    (parent : NodeKey) (ordinal : ℕ) (child : Text) (edges : List EdgeRow) {edges' : List EdgeRow}
    → insert_edge parent ordinal child edges ≡ some edges'
    → record { parent = parent; ordinal = ordinal; child = child } ∷ edges ≡ edges'
unfolding insert_edge
insert_edge-eq-some parent ordinal child edges h = ground (arith, h)

add_child_ref-row :
    (k key : NodeKey) (nodes : List (NodeKey × NodeRow)) (row : NodeRow)
    → find key (add_child_ref k nodes) ≡ some row
    → HasRow key nodes
unfolding add_child_ref
add_child_ref-row k key nodes row h =
    update-row (λ (r : NodeRow). record r { child_ref_count = r.child_ref_count + 1 }) k key nodes
      row h

-- A row without its child count.
abbrev uncounted : NodeRow → NodeRow
uncounted row = record row { child_ref_count = 0 }

abbrev pub uncounted_of : Option NodeRow → Option NodeRow
uncounted_of none = none
uncounted_of (some row) = some (uncounted row)

uncounted_of-if :
    (b : Bool) (o : Option NodeRow)
    → uncounted_of (
        if b
        then elim o [
          | none ↦ none
          | some row ↦ some (record row { child_ref_count = row.child_ref_count + 1 })
        ]
        else o)
      ≡ uncounted_of o
uncounted_of-if false o = refl
uncounted_of-if true none = refl
uncounted_of-if true (some row) = refl

insert_refs-uncounted :
    (parent : NodeKey) (index : ℕ) (refs : List Text) (nodes nodes' : List (NodeKey × NodeRow))
    (edges edges' : List EdgeRow) (key : NodeKey)
    → insert_refs parent index refs nodes edges ≡ some (nodes', edges')
    → uncounted_of (find key nodes') ≡ uncounted_of (find key nodes)
unfolding insert_refs add_child_ref
insert_refs-uncounted parent index [] nodes nodes' edges edges' key h =
    let n : nodes ≡ nodes' = cc in ap (λ x. uncounted_of (find key x)) (sym n)
insert_refs-uncounted parent index (ref ∷ refs) nodes nodes' edges edges' key h =
    let k = node_key parent.scope ref in
    let (edges1, e, h1) = >>=-eq-some (insert_edge parent index ref edges) _ h in
    insert_refs-uncounted parent (index + 1) refs (add_child_ref k nodes) nodes' edges1 edges' key
      h1
    ∙ ap uncounted_of (
        find-update k key
          (λ (row : NodeRow). record row { child_ref_count = row.child_ref_count + 1 }) nodes)
    ∙ uncounted_of-if (same_node k key) (find key nodes)

-- The counts agree with the edges.
abbrev Counted : List (NodeKey × NodeRow) → List EdgeRow → Type 0
Counted nodes edges = (key : NodeKey) → edge_count key edges ≡ child_count key nodes

-- Nothing but child counts of rows changes.
abbrev SameRows : List (NodeKey × NodeRow) → List (NodeKey × NodeRow) → Type 0
SameRows nodes nodes' =
    (key : NodeKey) (row : NodeRow) → find key nodes' ≡ some row → HasRow key nodes

All-HasRow :
    (parent k : NodeKey) (refs : List Text) (nodes : List (NodeKey × NodeRow))
    → All (λ ref. HasRow (node_key parent.scope ref) nodes) refs
    → All (λ ref. HasRow (node_key parent.scope ref) (add_child_ref k nodes)) refs
unfolding add_child_ref
All-HasRow parent k [] nodes h = tt
All-HasRow parent k (ref ∷ refs) nodes (h, hs) = (
  update-HasRow (λ (r : NodeRow). record r { child_ref_count = r.child_ref_count + 1 }) k
      (node_key parent.scope ref) nodes h,
  All-HasRow parent k refs nodes hs,
)

edge-Counted :
    (parent : NodeKey) (index : ℕ) (ref : Text) (nodes : List (NodeKey × NodeRow))
    (edges : List EdgeRow)
    → Counted nodes edges
    → HasRow (node_key parent.scope ref) nodes
    → Counted
        (add_child_ref (node_key parent.scope ref) nodes)
        (record { parent = parent; ordinal = index; child = ref } ∷ edges)
unfolding edge_count
edge-Counted parent index ref nodes edges c h key =
    ap (λ n. if same_node (node_key parent.scope ref) key then suc n else n) (c key)
    ∙ sym (add_child_ref-count (node_key parent.scope ref) key nodes h)

pub insert_refs-Counted :
    (parent : NodeKey) (index : ℕ) (refs : List Text) (nodes nodes' : List (NodeKey × NodeRow))
    (edges edges' : List EdgeRow)
    → Counted nodes edges
    → All (λ ref. HasRow (node_key parent.scope ref) nodes) refs
    → insert_refs parent index refs nodes edges ≡ some (nodes', edges')
    → Counted nodes' edges' × SameRows nodes nodes'
unfolding insert_refs
insert_refs-Counted parent index [] nodes nodes' edges edges' c a h =
    let n : nodes ≡ nodes' = cc in
    let e : edges ≡ edges' = cc in
    (
      subst (λ x. Counted nodes' x) e (subst (λ x. Counted x edges) n c),
      λ key row p. (row, ap (find key) n ∙ p),
    )
insert_refs-Counted parent index (ref ∷ refs) nodes nodes' edges edges' c (a, rest) h =
    let k = node_key parent.scope ref in
    let (edges1, e, h1) = >>=-eq-some (insert_edge parent index ref edges) _ h in
    let (c', rows) =
      insert_refs-Counted parent (index + 1) refs (add_child_ref k nodes) nodes' edges1 edges'
        (subst (λ x. Counted (add_child_ref k nodes) x)
          (insert_edge-eq-some parent index ref edges e)
          (edge-Counted parent index ref nodes edges c a))
        (All-HasRow parent k refs nodes rest) h1 in
    (c', λ key row p. let (row1, p1) = rows key row p in add_child_ref-row k key nodes row1 p1)

insert_node-none :
    (key : NodeKey) (row : NodeRow) (nodes : List (NodeKey × NodeRow))
    {nodes' : List (NodeKey × NodeRow)}
    → insert_node key row nodes ≡ some nodes'
    → (find key nodes ≡ none) × ((key, row) ∷ nodes ≡ nodes')
unfolding insert_node
insert_node-none key row nodes h = elim (Option-cases (find key nodes)) [
  | inl p ↦ (p, ground (arith, h, p))
  | inr (old, p) ↦ absurd (ground (arith, h, p))
]

module _ (key : NodeKey) (row : NodeRow) (nodes : List (NodeKey × NodeRow))
    (absent : find key nodes ≡ none) where
  cons-Counted :
      (edges : List EdgeRow)
      → row.child_ref_count ≡ 0
      → Counted nodes edges
      → Counted ((key, row) ∷ nodes) edges
  cons-Counted edges z c k = elim (Bool-cases (same_node key k)) [
    | inl t ↦ ground (
      arith,
      find-cons key k row nodes,
      c k,
      ap (λ x. find x nodes) ((same_node_iff key k).0 t),
      absent,
      z,
      t,
    )
    | inr t ↦ ground (arith, find-cons key k row nodes, c k, t)
  ]

  cons-HasRow : (k : NodeKey) → HasRow k nodes → HasRow k ((key, row) ∷ nodes)
  cons-HasRow k (old, h) = elim (Bool-cases (same_node key k)) [
    | inl t ↦ (row, ground (arith, find-cons key k row nodes, t))
    | inr t ↦ (old, ground (arith, find-cons key k row nodes, t, h))
  ]

  cons-backed :
      (objects : List (NodeKey × StoredObject)) (k : NodeKey) (found : NodeRow)
      → ((k : NodeKey) (row : NodeRow)
          → find k nodes ≡ some row
          → (object : StoredObject) × (find k objects ≡ some object))
      → (object : StoredObject) × (find key objects ≡ some object)
      → find k ((key, row) ∷ nodes) ≡ some found
      → (object : StoredObject) × (find k objects ≡ some object)
  cons-backed objects k found backed (object, q) h = elim (Bool-cases (same_node key k)) [
    | inl t ↦ (object, ap (λ x. find x objects) (sym ((same_node_iff key k).0 t)) ∙ q)
    | inr t ↦ backed k found (ground (arith, find-cons key k row nodes, t, h))
  ]

cons-All :
    (parent key : NodeKey) (row : NodeRow) (nodes : List (NodeKey × NodeRow))
    → find key nodes ≡ none
    → (refs : List Text) → All (λ ref. HasRow (node_key parent.scope ref) nodes) refs
    → All (λ ref. HasRow (node_key parent.scope ref) ((key, row) ∷ nodes)) refs
cons-All parent key row nodes absent [] h = tt
cons-All parent key row nodes absent (ref ∷ refs) (h, hs) = (
  cons-HasRow key row nodes absent (node_key parent.scope ref) h,
  cons-All parent key row nodes absent refs hs,
)

-- The row that a commit inserts, with the child count that it has by then.
abbrev pub Committed : NodeKey → NodeRow → List (NodeKey × NodeRow) → Type 0
Committed key row nodes = uncounted_of (find key nodes) ≡ some row

-- A committed node: its row is new, its children have rows and its object is there.
pub new_node_batch-Intact :
    (digester : Digester) (key : NodeKey) (plan : NewNode) (committed_at : ℕ) (s s' : Store)
    → Intact digester s.nodes s.edges s.objects
    → All (λ ref. HasRow (node_key key.scope ref) s.nodes) plan.refs
    → (object : StoredObject) × (find key s.objects ≡ some object)
    → new_node_batch key plan committed_at s ≡ some s'
    → Intact digester s'.nodes s'.edges s'.objects
      × Committed key (new_row plan committed_at) s'.nodes
      × (s'.objects ≡ s.objects)
unfolding new_node_batch
new_node_batch-Intact digester key plan committed_at s s' intact children object h =
    let row = new_row plan committed_at in
    let (nodes1, a, h1) = >>=-eq-some (insert_node key row s.nodes) _ h in
    let ((nodes', edges'), b, h2) = >>=-eq-some (insert_refs key 0 plan.refs nodes1 s.edges) _ h1 in
    let (absent, e) = insert_node-none key row s.nodes a in
    let b' : insert_refs key 0 plan.refs ((key, row) ∷ s.nodes) s.edges ≡ some (nodes', edges') =
      ap (λ x. insert_refs key 0 plan.refs x s.edges) e ∙ b in
    let (counted, rows) =
      insert_refs-Counted key 0 plan.refs ((key, row) ∷ s.nodes) nodes' s.edges edges'
        (cons-Counted key row s.nodes absent s.edges refl intact.counted)
        (cons-All key key row s.nodes absent plan.refs children) b' in
    subst
      (λ (x : Store).
        Intact digester x.nodes x.edges x.objects
        × Committed key row x.nodes
        × (x.objects ≡ s.objects))
      (some-injective h2)
      (
        record {
          counted = counted;
          backed = λ k found p.
              let (found1, p1) = rows k found p in
              cons-backed key row s.nodes absent s.objects k found1 intact.backed object p1;
          sound = intact.sound;
        },
        insert_refs-uncounted key 0 plan.refs ((key, row) ∷ s.nodes) nodes' s.edges edges' key b'
            ∙ ap uncounted_of (
                find-cons key key row s.nodes
                ∙ ap (λ t. if t then some row else find key s.nodes) (beq_refl key)),
        refl,
      )
