-- ===== src/Tests/Uploads.antt =====
-- Runs of uploads in a Space: a leaf, and then a parent that refers to it.
use unicas.Base.{
  ◌%◌, ◌≤◌, ◌≡◌, refl, true, some, [], ◌∷◌, ◌++◌, replicate, length, append-nil, flatten, Result,
  arith,
}
use unicas.Base.Text.{Text, codes, same}
use unicas.Base.Table.{find, delete, update, upsert}
use unicas.Base.Exec.{recover, ◌>>=◌}
use unicas.Codec.Bytes.{Bytes, le_value}
use unicas.Codec.Host.{Digester, ascii_coding}
use unicas.Codec.Binary.{decode_header}
use unicas.Codec.Binary.Numbers.{number_of_u64}
use unicas.Codec.Digest.{hash_to_hex, hex_bytes, hex_byte, hex_digit}
use unicas.Codec.Validation.{
  no_limits, validate_hash, resolve_limit, validate_canonical_node_size, validate_content_type,
  validate_decoded_header,
}
use unicas.Codec.Stream.{read_chunks, read_exactly, hex_refs, parse_canonical_node_stream}
use unicas.Store.{Store, NodeRow, EdgeRow, StoredObject, empty_store}
use unicas.Store.Keys.{Scope, node_key_eq}
use unicas.RootRefs.Adapter.{node_key}
use unicas.NodeLease.{next_node_lease}
use unicas.NodeLease.Types.{LeaseError, CasLeaseResult}
use unicas.NodeLease.Ready.{validate_lease_hash, inspect_canonical_node, check_children}
use unicas.NodeLease.Canonical.{
  reserve_upload, begin_canonical_node_lease, upload_canonical_node, finalize_canonical_node_lease,
  lease_canonical_node,
}
use unicas.NodeLease.Driven.{has_digest}
use unicas.NodeLease.Adapter.{
  Bucket, ready_row, read_canonical_node_lease, read_canonical_prefix, has_ready_node,
  is_node_ready, upsert_reservation, reserve_canonical_upload, read_canonical_bytes, put_object,
  put_canonical_object,
}
use unicas.NodeLease.Adapter.Commit.{
  insert_node, has_edge, insert_edge, add_child_ref, insert_refs, new_node_batch, commit_new_node,
  commit_uploaded_canonical_node,
}
use unicas.NodeLease.Adapter.Repository.{canonical_repository}
use unicas.Graph.{core, IsIntact}
use unicas.Graph.Reach.{
  Reachable, at_start, after_step, canonical_leased, Reachable-IsIntact, Reachable-edge,
}

abbrev pub scope : Scope
scope = record { app_id = codes "a"; space_id = codes "s" }

-- A digest that tells lengths apart.
abbrev pub length_digester : Digester
length_digester = record {
  sha256 = λ b. length b % 256 ∷ replicate 31 7;
  sha256_length = λ b. refl;
  sha256_bytes = λ b. omega arith;
}

pub flatten_one : (bytes : Bytes) → flatten (bytes ∷ []) ≡ bytes
unfolding flatten
flatten_one bytes = append-nil bytes

abbrev pub bucket : Bucket
bucket = record {
  digester = length_digester;
  chunked = λ bytes. bytes ∷ [];
  flatten_chunked = λ bytes. flatten_one bytes;
  checksum_first = true;
}

abbrev leaf_header : Bytes
leaf_header =
    0x55 ∷ 0x44 ∷ 1 ∷ 0 ∷ 0 ∷ 0 ∷ 0 ∷ 0 ∷ 3 ∷ 0 ∷ 0 ∷ 0 ∷ 0 ∷ 0 ∷ 0 ∷ 0 ∷ 0 ∷ 0 ∷ 0 ∷ 0 ∷ 3 ∷ 0 ∷ 0
    ∷ 0 ∷ []

abbrev parent_header : Bytes
parent_header =
    0x55 ∷ 0x44 ∷ 1 ∷ 0 ∷ 0 ∷ 0 ∷ 0 ∷ 0 ∷ 3 ∷ 0 ∷ 0 ∷ 0 ∷ 0 ∷ 0 ∷ 0 ∷ 0 ∷ 1 ∷ 0 ∷ 0 ∷ 0 ∷ 3 ∷ 0 ∷ 0
    ∷ 0 ∷ []

abbrev pub leaf : Bytes
leaf = leaf_header ++ (codes "a/b" ++ (1 ∷ 2 ∷ 3 ∷ []))

abbrev parent : Bytes
parent = parent_header ++ (codes "a/b" ++ ((30 ∷ replicate 31 7) ++ (1 ∷ 2 ∷ 3 ∷ [])))

abbrev sevens : Text
sevens = codes "07070707070707070707070707070707070707070707070707070707070707"

abbrev pub leaf_hash : Text
leaf_hash = codes "1e" ++ sevens

abbrev parent_hash : Text
parent_hash = codes "3e" ++ sevens

abbrev pub with_leaf : Store
with_leaf =
    (lease_canonical_node ascii_coding (canonical_repository bucket 50) scope leaf_hash 60000
      (leaf ∷ []) (some 30) no_limits 40 45 empty_store).1

abbrev pub parent_run : Result LeaseError CasLeaseResult × Store
parent_run =
    lease_canonical_node ascii_coding (canonical_repository bucket 60) scope parent_hash 60000
      (parent ∷ []) (some 62) no_limits 50 55 with_leaf

pub reached : Reachable ascii_coding bucket parent_run.1
reached =
    after_step with_leaf parent_run.1
      (after_step empty_store with_leaf at_start (
        canonical_leased 50 scope leaf_hash 60000 (leaf ∷ []) (some 30) no_limits 40 45
          empty_store))
      (canonical_leased 60 scope parent_hash 60000 (parent ∷ []) (some 62) no_limits 50 55
        with_leaf)

Reachable-IsIntact_example : IsIntact length_digester (core parent_run.1)
Reachable-IsIntact_example = Reachable-IsIntact ascii_coding bucket reached

abbrev leaf_edge : EdgeRow
leaf_edge = record { parent = node_key scope parent_hash; ordinal = 0; child = leaf_hash }

edges_run : parent_run.1.edges ≡ leaf_edge ∷ []
unfolding lease_canonical_node begin_canonical_node_lease validate_lease_hash validate_hash
    reserve_upload upload_canonical_node finalize_canonical_node_lease inspect_canonical_node
    parse_canonical_node_stream read_exactly read_chunks decode_header number_of_u64
    validate_decoded_header validate_canonical_node_size resolve_limit validate_content_type
    hex_refs hash_to_hex hex_bytes hex_byte hex_digit check_children read_canonical_node_lease
    ready_row is_node_ready has_ready_node reserve_canonical_upload upsert_reservation
    put_canonical_object put_object read_canonical_prefix read_canonical_bytes
    commit_uploaded_canonical_node commit_new_node new_node_batch insert_node insert_refs
    insert_edge has_edge add_child_ref next_node_lease find delete update upsert same recover ◌>>=◌
    flatten le_value
edges_run = refl

Reachable-edge_example :
    (row : NodeRow) × (object : StoredObject) × (find (node_key scope leaf_hash) parent_run.1.nodes
      ≡ some row)
    × (1 ≤ row.child_ref_count)
    × (find (node_key scope leaf_hash) parent_run.1.objects ≡ some object)
    × (has_digest length_digester object.bytes leaf_hash ≡ true)
Reachable-edge_example =
    Reachable-edge ascii_coding bucket parent_run.1 leaf_edge [] [] reached edges_run
