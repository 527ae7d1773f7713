-- ===== src/NodeUsage/Ready.antt =====
-- The usage of packages/service/src/node-usage.ts over the tables, on the stores that the operations
-- reach: there every node has its object.
use unicas.Base.{
  ℕ, ◌≡◌, refl, sym, ap, ◌∙◌, Bool-cases, inl, inr, true, Option, none, some, List, [], ◌∷◌, arith,
  length,
}
use unicas.Base.Table.{find}
use unicas.Codec.Host.{TextCoding}
use unicas.Store.{Store, NodeRow, StoredObject}
use unicas.Store.Keys.{
  Scope, NodeKey, same_scope, same_scope_iff, same_node, same_node_iff, node_key_eq,
}
use unicas.NodeLease.Adapter.{Bucket}
use unicas.Graph.Reach.{Reachable, Reachable-IsIntact}
use unicas.NodeUsage.{NodeUsageEntry, CasUsage, read_node_usage}
use unicas.NodeUsage.Adapter.{
  list_nodes, size_of, read_canonical_stored_bytes, cloudflare_node_usage_repository,
}
use unicas.NodeUsage.Sums.{total, missing, when_ready, when_missing, read_node_usage-total}

-- A measure that is 0 at each node with an object is 0 in total.
module _ (scope : Scope) (s : Store) (measure : NodeUsageEntry → ℕ)
    (zero_when_stored : (node : NodeUsageEntry) (bytes : ℕ)
      → read_canonical_stored_bytes scope node.hash s ≡ some bytes
      → measure node ≡ 0) where
  abbrev Backed : List (NodeKey × NodeRow) → Type 0
  Backed nodes =
      (key : NodeKey) (row : NodeRow)
      → find key nodes ≡ some row
      → (object : StoredObject) × (find key s.objects ≡ some object)

  Backed-tail :
      (key : NodeKey) (row : NodeRow) (nodes : List (NodeKey × NodeRow))
      → Backed ((key, row) ∷ nodes)
      → Backed nodes
  unfolding find
  Backed-tail key row nodes backed k r h = elim (Bool-cases (same_node key k)) [
    | inl t ↦ backed k row (rw t)
    | inr t ↦ backed k r (rw t h)
  ]

  Backed-head :
      (key : NodeKey) (row : NodeRow) (nodes : List (NodeKey × NodeRow))
      → find key ((key, row) ∷ nodes) ≡ some row
  unfolding find
  Backed-head key row nodes = rw ((same_node_iff key key).1 refl) refl

  stored-size :
      (key : NodeKey) (object : StoredObject)
      → find key s.objects ≡ some object
      → read_canonical_stored_bytes key.scope key.hash s ≡ some (length object.bytes)
  unfolding read_canonical_stored_bytes
  stored-size key object found = ap size_of found

  total-list_nodes :
      (nodes : List (NodeKey × NodeRow)) → Backed nodes → total measure (list_nodes scope nodes) ≡ 0
  unfolding total list_nodes
  total-list_nodes [] backed = refl
  total-list_nodes ((key, row) ∷ nodes) backed =
      let rest = total-list_nodes nodes (Backed-tail key row nodes backed) in
      elim (Bool-cases (same_scope key.scope scope)) [
        | inl t ↦ rw t (omega (arith, head t, rest))
        | inr t ↦ rw t rest
      ]
    where
      head :
          same_scope key.scope scope ≡ true
          → measure (record {
            hash = key.hash;
            content_size = row.content_size;
            lease_expires_at = row.lease_expires_at;
          })
            ≡ 0
      head t =
          let (object, found) = backed key row (Backed-head key row nodes) in
          zero_when_stored _ (length object.bytes) (
            ap (λ (owner : Scope). read_canonical_stored_bytes owner key.hash s)
              (sym ((same_scope_iff key.scope scope).0 t))
            ∙ stored-size key object found)

missing-stored : (o : Option ℕ) (bytes : ℕ) → o ≡ some bytes → missing o ≡ 0
missing-stored none bytes h = cc
missing-stored (some given) bytes h = refl

when_missing-stored : (o : Option ℕ) (size bytes : ℕ) → o ≡ some bytes → when_missing o size ≡ 0
when_missing-stored none size bytes h = cc
when_missing-stored (some given) size bytes h = refl

-- In every store that the operations reach, the usage of a Space, over the tables and the bucket,
-- counts no node as not ready, and `readyContentBytes` is the content size of the nodes whose
-- object is there.
pub Reachable-read_node_usage :
    (coding : TextCoding) (bucket : Bucket) (s : Store) (scope : Scope)
    → Reachable coding bucket s
    → ((read_node_usage (cloudflare_node_usage_repository s) scope).not_ready_node_count ≡ 0)
      × ((read_node_usage (cloudflare_node_usage_repository s) scope).ready_content_bytes
          ≡ total
              (λ node. when_ready (read_canonical_stored_bytes scope node.hash s) node.content_size)
              (list_nodes scope s.nodes))
Reachable-read_node_usage coding bucket s scope reachable =
    let intact = Reachable-IsIntact coding bucket reachable in
    let usage = read_node_usage-total (cloudflare_node_usage_repository s) scope 0 in
    (
      ap (λ (u : CasUsage). u.not_ready_node_count) usage
          ∙ total-list_nodes scope s _ (λ node bytes h. missing-stored _ bytes h) s.nodes
              intact.backed,
      ap (λ (u : CasUsage). u.ready_content_bytes) usage
          ∙ omega (
            arith,
            total-list_nodes scope s
                (λ node.
                  when_missing (read_canonical_stored_bytes scope node.hash s) node.content_size)
                (λ node bytes h. when_missing-stored _ node.content_size bytes h) s.nodes
                intact.backed,
          ),
    )
