-- ===== src/Tests/Leases.antt =====
-- Runs of lease renewals and of the usage of a Space.
use unicas.Base.{◌+◌, ◌≤◌, ◌≡◌, refl, max, none, some, [], ◌∷◌}
use unicas.Base.Int.{pos}
use unicas.Base.Text.{codes}
use unicas.Store.Keys.{Scope}
use unicas.NodeLease.{
  NodeLeaseRecord, min_lease_ms, max_lease_ms, clamp_lease_duration, next_node_lease, expires_at,
}
use unicas.NodeLease.Renewal.{next_node_lease-next_node_lease}
use unicas.NodeUsage.{NodeUsageRepository, read_node_usage, sum_nodes}
use unicas.NodeUsage.Sums.{
  total, stored_bytes, missing, when_ready, when_missing, unexpired, expired, stored,
  read_node_usage-total,
}

abbrev lease : NodeLeaseRecord
lease = record { lease_started_at = 5; lease_expires_at = 90 }

next_run :
    next_node_lease (some lease) (clamp_lease_duration (pos 1)) 80
    ≡ record { lease_started_at = 5; lease_expires_at = 60080 }
unfolding next_node_lease clamp_lease_duration
next_run = refl

next_node_lease-next_node_lease_example :
    (80 + min_lease_ms
      ≤ (next_node_lease (some lease) (clamp_lease_duration (pos 1)) 80).lease_expires_at)
    × (expires_at (some lease)
        ≤ (next_node_lease (some lease) (clamp_lease_duration (pos 1)) 80).lease_expires_at)
    × ((next_node_lease (some lease) (clamp_lease_duration (pos 1)) 80).lease_expires_at
        ≤ max (expires_at (some lease)) (80 + max_lease_ms))
    × (next_node_lease
          (some (next_node_lease (some lease) (clamp_lease_duration (pos 1)) 80))
          (clamp_lease_duration (pos 1))
          80
        ≡ next_node_lease (some lease) (clamp_lease_duration (pos 1)) 80)
next_node_lease-next_node_lease_example = next_node_lease-next_node_lease (some lease) (pos 1) 80

abbrev scope : Scope
scope = record { app_id = codes "a"; space_id = codes "s" }

abbrev two_nodes : NodeUsageRepository
two_nodes = record {
  list_nodes = λ s.
      record { hash = codes "x"; content_size = 3; lease_expires_at = 0 }
      ∷ record { hash = []; content_size = 4; lease_expires_at = 9 }
      ∷ [];
  read_canonical_stored_bytes = λ s hash. elim hash [ [] ↦ none | c ∷ t ↦ some 60 ];
  read_reserved_bytes = λ s. 7;
}

usage_run : read_node_usage two_nodes scope ≡ record {
  node_count = 2;
  ready_content_bytes = 7;
  ready_stored_bytes = 60;
  reserved_bytes = 7;
  not_ready_node_count = 1;
  leased_node_count = 1;
}
unfolding read_node_usage sum_nodes
usage_run = refl

read_node_usage-total_example : read_node_usage two_nodes scope ≡ record {
  node_count = 2;
  ready_content_bytes =
      total
        (λ node. when_ready (stored two_nodes scope node) node.content_size)
        (two_nodes.list_nodes scope)
      + total
          (λ node. when_missing (stored two_nodes scope node) node.content_size)
          (two_nodes.list_nodes scope);
  ready_stored_bytes =
      total (λ node. stored_bytes (stored two_nodes scope node)) (two_nodes.list_nodes scope);
  reserved_bytes = 7;
  not_ready_node_count =
      total (λ node. missing (stored two_nodes scope node)) (two_nodes.list_nodes scope);
  leased_node_count =
      total (unexpired 20) (two_nodes.list_nodes scope)
      + total (expired 20) (two_nodes.list_nodes scope);
}
read_node_usage-total_example = read_node_usage-total two_nodes scope 20

-- A node without an object and a node whose lease was over at 20 are counted.
excess :
    (total
        (λ node. when_missing (stored two_nodes scope node) node.content_size)
        (two_nodes.list_nodes scope)
      ≡ 4)
    × (total (expired 20) (two_nodes.list_nodes scope) ≡ 1)
unfolding total
excess = (refl, refl)
