-- ===== src/NodeLease/Adapter/Commit.antt =====
-- `CloudflareNodeLeaseRepository` of packages/service-cloudflare/src/node-lease.ts: the batches that
-- commit a node. `committed_at` is what `Date.now()` returns.
use unicas.Base.{
  ℕ, ◌+◌, Bool, true, false, ◌&&◌, ◌||◌, Option, none, some, List, [], ◌∷◌, ok, ◌==◌, if◌then◌else◌,
}
use unicas.Base.Text.{Text}
use unicas.Base.Table.{find, delete, update}
use unicas.Store.{Store, NodeRow, ReservationRow, EdgeRow}
use unicas.Store.Keys.{Scope, NodeKey, same_node, node_key_eq}
use unicas.RootRefs.Adapter.{node_key, ◌>>=◌}
use unicas.NodeLease.{NodeLeaseRecord}
use unicas.NodeLease.Types.{
  AdoptedCanonicalNodePlan, NewNode, UploadedCanonicalNodeCommit, commit_existing, commit_new,
}
use unicas.NodeLease.Adapter.{Action, run, upsert_reservation, with_reservations}

-- INSERT INTO cas_nodes: the columns that it does not name have their defaults.
abbrev pub new_row : NewNode → ℕ → NodeRow
new_row plan committed_at = record {
  content_size = plan.content_size;
  content_type = plan.content_type;
  lease_started_at = plan.lease.lease_started_at;
  lease_expires_at = plan.lease.lease_expires_at;
  child_ref_count = 0;
  root_ref_count = 0;
  ready = true;
  canonical_stored_bytes = some plan.stored_bytes;
  canonical_observed_at = some committed_at;
}

unfoldable pub insert_node :
    NodeKey → NodeRow → List (NodeKey × NodeRow) → Option (List (NodeKey × NodeRow))
insert_node key row nodes = elim (find key nodes) [
  | none ↦ some ((key, row) ∷ nodes)
  | some old ↦ none
]

unfoldable pub has_edge : NodeKey → ℕ → List EdgeRow → Bool
has_edge parent ordinal [] = false
has_edge parent ordinal (edge ∷ edges) =
    same_node edge.parent parent && edge.ordinal == ordinal || has_edge parent ordinal edges

unfoldable pub insert_edge : NodeKey → ℕ → Text → List EdgeRow → Option (List EdgeRow)
insert_edge parent ordinal child edges =
    if has_edge parent ordinal edges
    then none
    else some (record { parent = parent; ordinal = ordinal; child = child } ∷ edges)

unfoldable pub add_child_ref : NodeKey → List (NodeKey × NodeRow) → List (NodeKey × NodeRow)
add_child_ref key nodes =
    update key (λ (row : NodeRow). record row { child_ref_count = row.child_ref_count + 1 }) nodes

-- The statements of the loop over the refs, from `index` on.
unfoldable pub insert_refs :
    NodeKey
    → ℕ
    → List Text
    → List (NodeKey × NodeRow)
    → List EdgeRow
    → Option (List (NodeKey × NodeRow) × List EdgeRow)
insert_refs parent index [] nodes edges = some (nodes, edges)
insert_refs parent index (ref ∷ refs) nodes edges = do
  edges' ← insert_edge parent index ref edges
  insert_refs parent (index + 1) refs (add_child_ref (node_key parent.scope ref) nodes) edges'

-- The batch of `commitNewNode`, after its first statement.
unfoldable pub new_node_batch : NodeKey → NewNode → ℕ → Store → Option Store
new_node_batch key plan committed_at s = do
  nodes ← insert_node key (new_row plan committed_at) s.nodes
  (nodes', edges) ← insert_refs key 0 plan.refs nodes s.edges
  some (record s {
    nodes = nodes';
    edges = edges;
    reservations = delete key s.reservations;
    sessions = delete key s.sessions;
  })

unfoldable pub commit_new_node : Scope → NewNode → ℕ → Action (Unit {0})
commit_new_node scope plan committed_at s =
    run (new_node_batch (node_key scope plan.hash) plan committed_at s) s

unfoldable pub commit_existing_node : Scope → Text → ℕ → NodeLeaseRecord → ℕ → Action (Unit {0})
commit_existing_node scope hash stored_bytes lease committed_at s =
    let key = node_key scope hash in
    (
      ok tt,
      record s {
        nodes =
            update key
              (λ (row : NodeRow). record row {
                lease_started_at = lease.lease_started_at;
                lease_expires_at = lease.lease_expires_at;
                canonical_stored_bytes = some stored_bytes;
                canonical_observed_at = some committed_at;
              })
              s.nodes;
        reservations = delete key s.reservations;
        sessions = delete key s.sessions;
      },
    )

unfoldable pub commit_uploaded_canonical_node :
    ℕ → Scope → UploadedCanonicalNodeCommit → Action (Unit {0})
commit_uploaded_canonical_node committed_at scope (commit_existing hash stored_bytes lease) =
    commit_existing_node scope hash stored_bytes lease committed_at
commit_uploaded_canonical_node committed_at scope (commit_new plan) =
    commit_new_node scope plan committed_at

abbrev pub adopted_reservation : AdoptedCanonicalNodePlan → ReservationRow
adopted_reservation plan = record {
  stored_bytes = plan.stored_bytes;
  created_at = plan.reservation_created_at;
  expires_at = plan.reservation_expires_at;
}

abbrev pub adopted_node : AdoptedCanonicalNodePlan → NewNode
adopted_node plan = record {
  hash = plan.hash;
  content_size = plan.content_size;
  stored_bytes = plan.stored_bytes;
  content_type = plan.content_type;
  refs = plan.refs;
  lease = plan.lease;
}

-- The batch with the statement on the reservations in front.
abbrev pub adopt_batch :
    NodeKey
    → AdoptedCanonicalNodePlan
    → ℕ
    → Option (List (NodeKey × ReservationRow))
    → Store
    → Option Store
adopt_batch key plan committed_at reservations s = do
  reserved ← with_reservations reservations s
  new_node_batch key (adopted_node plan) committed_at reserved

unfoldable pub commit_adopted_canonical_node :
    ℕ → Scope → AdoptedCanonicalNodePlan → Action (Unit {0})
commit_adopted_canonical_node committed_at scope plan s =
    let key = node_key scope plan.hash in
    run
      (adopt_batch key plan committed_at
        (upsert_reservation key (adopted_reservation plan)
          (λ (old : ReservationRow). record old { stored_bytes = plan.stored_bytes })
          s.reservations)
        s)
      s
