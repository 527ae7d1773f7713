-- ===== src/Tests/Gc.antt =====
-- Runs of a collection on a Space with an expired parent and its child, which a Root Ref holds.
use unicas.Base.{◌≡◌, refl, ℕ, true, inl, inr, none, some, [], ◌∷◌, Result, ok, arith}
use unicas.Base.Table.{find, delete, update}
use unicas.Base.Text.{codes, same}
use unicas.Codec.Bytes.{Bytes}
use unicas.Store.{StoredObject, Store, NodeRow, empty_store}
use unicas.Store.Keys.{Scope, NodeKey, node_key_eq}
use unicas.Gc.{
  GcError, CasGcResult, collect_one, collect_candidates, collect_expired_unreferenced_nodes,
}
use unicas.Gc.Adapter.{
  is_reserved, eligible_hashes, count_child, child_counts, read_still_expired_unreferenced,
  delete_canonical_content, delete_edges, lower_children, commit_deletion,
  cloudflare_node_gc_repository,
}
use unicas.Gc.Kept.{held, held_of}
use unicas.Gc.Safety.{collect_expired_unreferenced_nodes-Protected}

abbrev scope : Scope
scope = record { app_id = codes "a"; space_id = codes "s" }

abbrev parent : NodeKey
parent = record { scope = scope; hash = codes "p" }

abbrev child : NodeKey
child = record { scope = scope; hash = codes "c" }

abbrev row : ℕ → ℕ → NodeRow
row children roots = record {
  content_size = 5;
  content_type = codes "a/b";
  lease_started_at = 0;
  lease_expires_at = 10;
  child_ref_count = children;
  root_ref_count = roots;
  ready = true;
  canonical_stored_bytes = none;
  canonical_observed_at = none;
}

abbrev unchecked : Bytes → StoredObject
unchecked bytes = record { bytes = bytes; sha256 = none }

abbrev pub family : Store
family = record empty_store {
  nodes = (parent, row 0 0) ∷ (child, row 1 1) ∷ [];
  edges = record { parent = parent; ordinal = 0; child = codes "c" } ∷ [];
  objects = (parent, unchecked (1 ∷ [])) ∷ (child, unchecked (2 ∷ [])) ∷ [];
}

abbrev after : Result GcError CasGcResult × Store
after =
    collect_expired_unreferenced_nodes (cloudflare_node_gc_repository (λ hashes. hashes) 20) scope
      20 none family

after_run : after.0 ≡ ok (record { examined = 1; deleted = 1; reclaimed_content_bytes = 5 })
unfolding collect_expired_unreferenced_nodes collect_candidates collect_one is_reserved
    eligible_hashes count_child child_counts read_still_expired_unreferenced
    delete_canonical_content delete_edges lower_children commit_deletion find delete update same
after_run = refl

parent_run : find parent after.1.nodes ≡ none
unfolding collect_expired_unreferenced_nodes collect_candidates collect_one is_reserved
    eligible_hashes count_child child_counts read_still_expired_unreferenced
    delete_canonical_content delete_edges lower_children commit_deletion find delete update same
parent_run = refl

child_row : find child family.nodes ≡ some (row 1 1)
unfolding find same
child_row = refl

collect_expired_unreferenced_nodes-Protected_example :
    (held_of (find child after.1.nodes) ≡ some (held (row 1 1)))
    × (find child after.1.objects ≡ find child family.objects)
collect_expired_unreferenced_nodes-Protected_example =
    collect_expired_unreferenced_nodes-Protected (λ hashes. hashes) 20 scope 20 none family child
      child_row (inr (inl (omega arith)))
