-- ===== src/NodeUsage/Sums.antt =====
-- The usage of packages/service/src/node-usage.ts as sums over the nodes, next to what the schemas of
-- packages/space-protocol say that its fields are.
use unicas.Base.{
  ℕ, ◌+◌, ◌≡◌, refl, ◌∙◌, ◌&&◌, Option, none, some, List, [], ◌∷◌, length, if◌then◌else◌, ltb, leb,
  arith,
}
use unicas.Store.Keys.{Scope}
use unicas.NodeUsage.{
  NodeUsageEntry, NodeUsageRepository, UsageTotals, add_stored, add_node, sum_nodes,
  read_node_usage,
}

-- The sum of a measure of the nodes.
unfoldable pub total : (NodeUsageEntry → ℕ) → List NodeUsageEntry → ℕ
total measure [] = 0
total measure (node ∷ nodes) = measure node + total measure nodes

abbrev pub stored_bytes : Option ℕ → ℕ
stored_bytes none = 0
stored_bytes (some bytes) = bytes

abbrev pub missing : Option ℕ → ℕ
missing none = 1
missing (some bytes) = 0

-- A size, counted where an object is there, and where none is.
abbrev pub when_ready : Option ℕ → ℕ → ℕ
when_ready none size = 0
when_ready (some bytes) size = size

abbrev pub when_missing : Option ℕ → ℕ → ℕ
when_missing none size = size
when_missing (some bytes) size = 0

abbrev leased : NodeUsageEntry → ℕ
leased node = if ltb 0 node.lease_expires_at then 1 else 0

-- The lease lasts at `now`.
abbrev pub unexpired : ℕ → NodeUsageEntry → ℕ
unexpired now node = if ltb now node.lease_expires_at then 1 else 0

-- There was a lease, and it is over at `now`.
abbrev pub expired : ℕ → NodeUsageEntry → ℕ
expired now node = if ltb 0 node.lease_expires_at && leb node.lease_expires_at now then 1 else 0

total-split :
    (f g h : NodeUsageEntry → ℕ) (nodes : List NodeUsageEntry)
    → ((node : NodeUsageEntry) → f node ≡ g node + h node)
    → total f nodes ≡ total g nodes + total h nodes
unfolding total
total-split f g h [] e = refl
total-split f g h (node ∷ nodes) e = omega (arith, e node, total-split f g h nodes e)

unexpired-expired :
    (now : ℕ) (node : NodeUsageEntry) → leased node ≡ unexpired now node + expired now node
unexpired-expired now node = ground arith

ready-missing : (o : Option ℕ) (size : ℕ) → size ≡ when_ready o size + when_missing o size
ready-missing none size = omega arith
ready-missing (some bytes) size = omega arith

module _ (repository : NodeUsageRepository) (scope : Scope) where
  abbrev pub stored : NodeUsageEntry → Option ℕ
  stored node = repository.read_canonical_stored_bytes scope node.hash

  abbrev plus : UsageTotals → List NodeUsageEntry → UsageTotals
  plus totals nodes = record {
    ready_content_bytes = totals.ready_content_bytes + total (λ node. node.content_size) nodes;
    ready_stored_bytes =
        totals.ready_stored_bytes + total (λ node. stored_bytes (stored node)) nodes;
    not_ready_node_count =
        totals.not_ready_node_count + total (λ node. missing (stored node)) nodes;
    leased_node_count = totals.leased_node_count + total leased nodes;
  }

  sum_nodes-total :
      (nodes : List NodeUsageEntry) (totals : UsageTotals)
      → sum_nodes repository scope nodes totals ≡ plus totals nodes
  unfolding sum_nodes total
  sum_nodes-total [] totals = ground arith
  sum_nodes-total (node ∷ nodes) totals =
      sum_nodes-total nodes (add_stored (stored node) (add_node node totals))
      ∙ node_first (stored node) refl
    where
      node_first :
          (o : Option ℕ)
          → o ≡ stored node
          → plus (add_stored o (add_node node totals)) nodes ≡ plus totals (node ∷ nodes)
      node_first none e = ground (arith, e)
      node_first (some bytes) e = ground (arith, e)

  -- The usage at any time: `nodeCount` is the number of the nodes; `readyContentBytes` is the content
  -- size of the nodes whose object is there and also that of the nodes whose object is missing;
  -- `readyStoredBytes` is the size of the objects; `notReadyNodeCount` is the number of nodes without an
  -- object; `leasedNodeCount` is the number of nodes whose lease lasts and also of those whose
  -- lease is over; `reservedBytes` is what the repository answers.
  pub read_node_usage-total :
      (now : ℕ)
      → read_node_usage repository scope ≡ record {
        node_count = length (repository.list_nodes scope);
        ready_content_bytes =
            total (λ node. when_ready (stored node) node.content_size) (repository.list_nodes scope)
            + total
                (λ node. when_missing (stored node) node.content_size)
                (repository.list_nodes scope);
        ready_stored_bytes =
            total (λ node. stored_bytes (stored node)) (repository.list_nodes scope);
        reserved_bytes = repository.read_reserved_bytes scope;
        not_ready_node_count = total (λ node. missing (stored node)) (repository.list_nodes scope);
        leased_node_count =
            total (unexpired now) (repository.list_nodes scope)
            + total (expired now) (repository.list_nodes scope);
      }
  unfolding read_node_usage
  read_node_usage-total now = ground (
    arith,
    sum_nodes-total (repository.list_nodes scope) (record {
      ready_content_bytes = 0;
      ready_stored_bytes = 0;
      not_ready_node_count = 0;
      leased_node_count = 0;
    }),
    total-split (λ node. node.content_size) (λ node. when_ready (stored node) node.content_size)
        (λ node. when_missing (stored node) node.content_size) (repository.list_nodes scope)
        (λ node. ready-missing (stored node) node.content_size),
    total-split leased (unexpired now) (expired now) (repository.list_nodes scope)
        (unexpired-expired now),
  )
