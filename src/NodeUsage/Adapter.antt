-- ===== src/NodeUsage/Adapter.antt =====
-- `CloudflareNodeUsageRepository` of packages/service-cloudflare/src/node-usage.ts over the tables and
-- the bucket.
use unicas.Base.{ℕ, ◌+◌, Option, none, some, List, [], ◌∷◌, if◌then◌else◌, length}
use unicas.Base.Table.{find}
use unicas.Base.Text.{Text}
use unicas.Store.{Store, NodeRow, ReservationRow, StoredObject}
use unicas.Store.Keys.{Scope, NodeKey, same_scope, node_key_eq}
use unicas.RootRefs.Adapter.{node_key}
use unicas.NodeUsage.{NodeUsageEntry, NodeUsageRepository}

-- The rows of a Space.
unfoldable pub list_nodes : Scope → List (NodeKey × NodeRow) → List NodeUsageEntry
list_nodes scope [] = []
list_nodes scope ((key, row) ∷ nodes) =
    let rest = list_nodes scope nodes in
    if same_scope key.scope scope
    then record {
      hash = key.hash;
      content_size = row.content_size;
      lease_expires_at = row.lease_expires_at;
    }
      ∷ rest
    else rest

abbrev pub size_of : Option StoredObject → Option ℕ
size_of none = none
size_of (some object) = some (length object.bytes)

-- `head`
unfoldable pub read_canonical_stored_bytes : Scope → Text → Store → Option ℕ
read_canonical_stored_bytes scope hash s = size_of (find (node_key scope hash) s.objects)

-- COALESCE(SUM(stored_bytes), 0)
unfoldable pub read_reserved_bytes : Scope → List (NodeKey × ReservationRow) → ℕ
read_reserved_bytes scope [] = 0
read_reserved_bytes scope ((key, row) ∷ reservations) =
    let rest = read_reserved_bytes scope reservations in
    if same_scope key.scope scope then row.stored_bytes + rest else rest

abbrev pub cloudflare_node_usage_repository : Store → NodeUsageRepository
cloudflare_node_usage_repository s = record {
  list_nodes = λ scope. list_nodes scope s.nodes;
  read_canonical_stored_bytes = λ scope hash. read_canonical_stored_bytes scope hash s;
  read_reserved_bytes = λ scope. read_reserved_bytes scope s.reservations;
}
