-- ===== src/Graph/Lower.antt =====
-- The statements of a deletion in the graph: what a collected node counted in its children, and the
-- updates that take it away, of packages/service-cloudflare/src/node-gc.ts.
use unicas.Base.{
  ℕ, suc, ◌+◌, ◌-◌, ◌≤◌, ◌≡◌, refl, ap, Option, none, some, List, [], ◌∷◌, if◌then◌else◌, arith,
  Bool-cases, inl, inr,
}
use unicas.Base.Text.{Text, same, same→eq}
use unicas.Base.Table.{find, update, find-update}
use unicas.Store.{NodeRow, EdgeRow}
use unicas.Store.Keys.{Scope, NodeKey, same_node, same_node_iff, node_key_eq}
use unicas.RootRefs.Adapter.{node_key}
use unicas.Gc.{NodeGcChildReference}
use unicas.Gc.Adapter.{count_child, child_counts, delete_edges, lower_row, lower_children}
use unicas.Graph.{edge_child, edge_count, child_count}
use unicas.Graph.Insert.{HasRow}
use unicas.Graph.Rows.{update-row}

-- How often the children name a node.
unfoldable pub refs_to : Scope → NodeKey → List NodeGcChildReference → ℕ
refs_to scope key [] = 0
refs_to scope key (child ∷ children) =
    let rest = refs_to scope key children in
    if same_node (node_key scope child.hash) key then child.count + rest else rest

refs_to-count_child :
    (scope : Scope) (key : NodeKey) (hash : Text) (children : List NodeGcChildReference)
    → refs_to scope key (count_child hash children) ≡ (
        if same_node (node_key scope hash) key
        then suc (refs_to scope key children)
        else refs_to scope key children)
unfolding refs_to count_child
refs_to-count_child scope key hash [] = ground arith
refs_to-count_child scope key hash (child ∷ children) = elim (Bool-cases (same child.hash hash)) [
  | inl t ↦
      let e : same_node (node_key scope child.hash) key ≡ same_node (node_key scope hash) key =
        ap (λ h. same_node (node_key scope h) key) (same→eq child.hash hash t) in
      ground (arith, t, e)
  | inr t ↦ ground (arith, t, refs_to-count_child scope key hash children)
]

-- The edges to a node are those that the deleted parent has and those that stay.
pub edge_count-delete_edges :
    (parent key : NodeKey) (edges : List EdgeRow)
    → edge_count key edges
      ≡ refs_to parent.scope key (child_counts parent edges)
        + edge_count key (delete_edges parent edges)
unfolding edge_count refs_to child_counts delete_edges
edge_count-delete_edges parent key [] = refl
edge_count-delete_edges parent key (edge ∷ edges) =
    elim (Bool-cases (same_node edge.parent parent)) [
      | inl t ↦
          let e : same_node (edge_child edge) key
              ≡ same_node (node_key parent.scope edge.child) key =
            ap (λ (p : NodeKey). same_node (node_key p.scope edge.child) key)
              ((same_node_iff edge.parent parent).0 t) in
          ground (
            arith,
            t,
            e,
            edge_count-delete_edges parent key edges,
            refs_to-count_child parent.scope key edge.child (child_counts parent edges),
          )
      | inr t ↦ ground (arith, t, edge_count-delete_edges parent key edges)
    ]

-- The counts after the updates, which find what they take away.
abbrev pub Lowered :
    Scope → List NodeGcChildReference → List (NodeKey × NodeRow) → List (NodeKey × NodeRow) → Type 0
Lowered scope children nodes nodes' =
    ((key : NodeKey) → child_count key nodes ≡ refs_to scope key children + child_count key nodes')
    × ((key : NodeKey) (row : NodeRow) → find key nodes' ≡ some row → HasRow key nodes)

set_count-count :
    (k key : NodeKey) (n : ℕ) (nodes : List (NodeKey × NodeRow)) (row : NodeRow)
    → find k nodes ≡ some row
    → child_count key (update k (λ (r : NodeRow). record r { child_ref_count = n }) nodes)
      ≡ (if same_node k key then n else child_count key nodes)
set_count-count k key n nodes row h = elim (Bool-cases (same_node k key)) [
  | inl t ↦ ground (
    arith,
    find-update k key (λ (r : NodeRow). record r { child_ref_count = n }) nodes,
    ap (λ x. find x nodes) ((same_node_iff k key).0 t),
    h,
    t,
  )
  | inr t ↦
      ground (arith, find-update k key (λ (r : NodeRow). record r { child_ref_count = n }) nodes, t)
]

-- One update.
abbrev LoweredRow : NodeKey → ℕ → List (NodeKey × NodeRow) → List (NodeKey × NodeRow) → Type 0
LoweredRow k count nodes nodes' =
    ((key : NodeKey)
      → child_count key nodes ≡ (if same_node k key then count else 0) + child_count key nodes')
    × ((key : NodeKey) (row : NodeRow) → find key nodes' ≡ some row → HasRow key nodes)

lower_row-LoweredRow :
    (k : NodeKey) (count : ℕ) (o : Option NodeRow) (nodes : List (NodeKey × NodeRow))
    → find k nodes ≡ o
    → count ≤ child_count k nodes
    → (nodes' : List (NodeKey × NodeRow)) × (lower_row k count o nodes ≡ some nodes')
      × LoweredRow k count nodes nodes'
lower_row-LoweredRow k count none nodes p bound =
    (nodes, refl, (λ key. ground (arith, p, bound), λ key row h. (row, h)))
lower_row-LoweredRow k count (some row) nodes p bound =
    let f : NodeRow → NodeRow = λ r. record r { child_ref_count = row.child_ref_count - count } in
    let fits : count ≤ row.child_ref_count = ground (arith, p, bound) in
    (
      update k f nodes,
      ground (arith, fits),
      (
        λ key. elim (Bool-cases (same_node k key)) [
          | inl t ↦ ground (
            arith,
            set_count-count k key (row.child_ref_count - count) nodes row p,
            ap (λ x. find x nodes) ((same_node_iff k key).0 t),
            p,
            t,
            fits,
          )
          | inr t ↦
              ground (arith, set_count-count k key (row.child_ref_count - count) nodes row p, t)
        ],
        λ key r h. update-row f k key nodes r h,
      ),
    )

head-bound :
    (scope : Scope) (child : NodeGcChildReference) (children : List NodeGcChildReference) (n : ℕ)
    → refs_to scope (node_key scope child.hash) (child ∷ children) ≤ n
    → child.count ≤ n
unfolding refs_to
head-bound scope child children n bound =
    let t = (same_node_iff (node_key scope child.hash) (node_key scope child.hash)).1 refl in
    ground (arith, bound, t)

pub lower_children-Lowered :
    (scope : Scope) (children : List NodeGcChildReference) (nodes : List (NodeKey × NodeRow))
    → ((key : NodeKey) → refs_to scope key children ≤ child_count key nodes)
    → (nodes' : List (NodeKey × NodeRow)) × (lower_children scope children nodes ≡ some nodes')
      × Lowered scope children nodes nodes'
unfolding lower_children refs_to
lower_children-Lowered scope [] nodes bound =
    (nodes, refl, ((λ key. omega arith), λ key row h. (row, h)))
lower_children-Lowered scope (child ∷ children) nodes bound =
    let k = node_key scope child.hash in
    let (nodes1, e, (counts, rows)) =
      lower_row-LoweredRow k child.count (find k nodes) nodes refl
        (head-bound scope child children (child_count k nodes) (bound k)) in
    let (nodes', e', (counts', rows')) =
      lower_children-Lowered scope children nodes1 (λ key. ground (arith, bound key, counts key)) in
    (
      nodes',
      rw (e, e'),
      (
        λ key. ground (arith, counts key, counts' key),
        λ key row h. let (row1, h1) = rows' key row h in rows key row1 h1,
      ),
    )
