-- ===== src/Gc/Adapter.antt =====
-- `CloudflareNodeGcRepository` of packages/service-cloudflare/src/node-gc.ts over the tables. The
-- order in which the database yields the rows of a query without ORDER BY is the parameter
-- `arrange`, and the time of an observation is `observed_at`.
use unicas.Base.{
  ℕ, ◌+◌, ◌-◌, Bool, false, not, ◌&&◌, ◌||◌, Option, none, some, List, [], ◌∷◌, take, Result, ok,
  err, if◌then◌else◌, ltb, leb, ◌==◌,
}
use unicas.Base.Table.{find, delete, update}
use unicas.Base.Text.{Text, same}
use unicas.Store.{Store, NodeRow, ReservationRow, EdgeRow}
use unicas.Store.Keys.{Scope, NodeKey, same_scope, same_node, node_key_eq}
use unicas.RootRefs.Adapter.{node_key, ◌>>=◌}
use unicas.Gc.{GcError, repository_error, NodeGcChildReference, NodeGcDeletion, NodeGcRepository}

abbrev pub is_live : ℕ → Option ReservationRow → Bool
is_live now none = false
is_live now (some reservation) = ltb now reservation.expires_at

-- EXISTS a reservation that has not expired.
unfoldable pub is_reserved : ℕ → NodeKey → List (NodeKey × ReservationRow) → Bool
is_reserved now key reservations = is_live now (find key reservations)

abbrev pub is_collectable : ℕ → NodeRow → Bool
is_collectable now row =
    row.child_ref_count == 0 && row.root_ref_count == 0 && leb row.lease_expires_at now

unfoldable pub eligible_hashes :
    Scope → ℕ → List (NodeKey × ReservationRow) → List (NodeKey × NodeRow) → List Text
eligible_hashes scope now reservations [] = []
eligible_hashes scope now reservations ((key, row) ∷ nodes) =
    let rest = eligible_hashes scope now reservations nodes in
    if same_scope key.scope scope
      && is_collectable now row
      && not (is_reserved now key reservations)
    then key.hash ∷ rest
    else rest

unfoldable pub count_child : Text → List NodeGcChildReference → List NodeGcChildReference
count_child hash [] = record { hash = hash; count = 1 } ∷ []
count_child hash (child ∷ children) =
    let rest = count_child hash children in
    if same child.hash hash
    then record child { count = child.count + 1 } ∷ children
    else child ∷ rest

-- GROUP BY child_hash.
unfoldable pub child_counts : NodeKey → List EdgeRow → List NodeGcChildReference
unfolding count_child
child_counts parent [] = []
child_counts parent (edge ∷ edges) =
    let rest = child_counts parent edges in
    if same_node edge.parent parent then count_child edge.child rest else rest

abbrev pub deletion_of :
    Text → ℕ → Bool → List NodeGcChildReference → Option NodeRow → Option NodeGcDeletion
deletion_of hash now reserved children none = none
deletion_of hash now reserved children (some row) =
    if reserved
      || (ltb 0 row.child_ref_count || (ltb 0 row.root_ref_count || ltb now row.lease_expires_at))
    then none
    else some (record { hash = hash; content_size = row.content_size; child_references = children })

unfoldable pub read_still_expired_unreferenced : Scope → Text → ℕ → Store → Option NodeGcDeletion
unfolding child_counts
read_still_expired_unreferenced scope hash now s =
    deletion_of hash now (is_reserved now (node_key scope hash) s.reservations)
      (child_counts (node_key scope hash) s.edges) (find (node_key scope hash) s.nodes)

unfoldable pub delete_canonical_content : ℕ → Scope → Text → Store → Store
delete_canonical_content observed_at scope hash s = record s {
  objects = delete (node_key scope hash) s.objects;
  nodes =
      update (node_key scope hash)
        (λ (row : NodeRow). record row {
          canonical_stored_bytes = none;
          canonical_observed_at = some observed_at;
        })
        s.nodes;
}

unfoldable pub delete_edges : NodeKey → List EdgeRow → List EdgeRow
delete_edges parent [] = []
delete_edges parent (edge ∷ edges) =
    let rest = delete_edges parent edges in
    if same_node edge.parent parent then rest else edge ∷ rest

abbrev pub lower_row :
    NodeKey → ℕ → Option NodeRow → List (NodeKey × NodeRow) → Option (List (NodeKey × NodeRow))
lower_row key count none nodes = some nodes
lower_row key count (some row) nodes =
    if ltb row.child_ref_count count
    then none
    else some (
        update key (λ (r : NodeRow). record r { child_ref_count = row.child_ref_count - count })
          nodes)

-- The updates of the children. CHECK (child_ref_count >= 0) refuses one that goes below 0.
unfoldable pub lower_children :
    Scope → List NodeGcChildReference → List (NodeKey × NodeRow) → Option (List (NodeKey × NodeRow))
lower_children scope [] nodes = some nodes
lower_children scope (child ∷ children) nodes = do
  nodes' ←
      lower_row (node_key scope child.hash) child.count (find (node_key scope child.hash) nodes)
        nodes
  lower_children scope children nodes'

abbrev pub commit_nodes :
    NodeKey → Option (List (NodeKey × NodeRow)) → Store → Result GcError (Unit {0}) × Store
commit_nodes key none s = (err repository_error, s)
commit_nodes key (some nodes) s =
    (ok tt, record s { edges = delete_edges key s.edges; nodes = nodes })

unfoldable pub commit_deletion : Scope → NodeGcDeletion → Store → Result GcError (Unit {0}) × Store
unfolding lower_children
commit_deletion scope deletion s =
    commit_nodes (node_key scope deletion.hash)
      (lower_children scope deletion.child_references
        (delete (node_key scope deletion.hash) s.nodes))
      s

abbrev pub cloudflare_node_gc_repository : (List Text → List Text) → ℕ → NodeGcRepository Store
cloudflare_node_gc_repository arrange observed_at = record {
  find_expired_unreferenced = λ scope now max_nodes s.
      take max_nodes (arrange (eligible_hashes scope now s.reservations s.nodes));
  read_still_expired_unreferenced = read_still_expired_unreferenced;
  delete_canonical_content = delete_canonical_content observed_at;
  commit_deletion = commit_deletion;
}
