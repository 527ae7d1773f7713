-- ===== src/Tests/Leased.antt =====
-- Runs of leases, of validations, of direct uploads and of collections of leased nodes.
use unicas.Base.{◌≤◌, ◌≡◌, refl, ap, true, none, some, [], ◌∷◌, flatten, Result, ok, arith}
use unicas.Base.Int.{pos}
use unicas.Base.Text.{codes, same}
use unicas.Base.Table.{find, delete, update, upsert}
use unicas.Base.Exec.{recover, ◌>>=◌}
use unicas.Codec.Bytes.{le_value}
use unicas.Codec.Host.{ascii_coding}
use unicas.Codec.Binary.{decode_header}
use unicas.Codec.Binary.Numbers.{number_of_u64}
use unicas.Codec.Digest.{hash_to_hex, hex_bytes, hex_byte, hex_digit}
use unicas.Codec.Validation.{
  no_limits, validate_hash, resolve_limit, validate_canonical_node_size, validate_content_type,
  validate_decoded_header,
}
use unicas.Codec.Stream.{read_chunks, read_exactly, hex_refs, parse_canonical_node_stream}
use unicas.Store.{Store, StoredObject, empty_store}
use unicas.Store.Keys.{node_key_eq}
use unicas.RootRefs.Adapter.{node_key}
use unicas.NodeLease.{next_node_lease, clamp_lease_duration}
use unicas.NodeLease.Types.{LeaseError, CasLeaseResult, LeaseDrivenNodeUploadResult, upload_ready}
use unicas.NodeLease.Ready.{validate_lease_hash, inspect_canonical_node, check_children}
use unicas.NodeLease.Canonical.{
  reserve_upload, begin_canonical_node_lease, upload_canonical_node, finalize_canonical_node_lease,
  lease_canonical_node,
}
use unicas.NodeLease.Ready.{renew_existing, adopt_orphan, lease_ready_node}
use unicas.NodeLease.Driven.{UploadInput, has_digest}
use unicas.NodeLease.Adapter.{
  ready_row, read_canonical_node_lease, read_canonical_prefix, has_ready_node, is_node_ready,
  upsert_reservation, reserve_canonical_upload, read_canonical_bytes, put_object,
  put_canonical_object,
}
use unicas.NodeLease.Adapter.Commit.{
  insert_node, has_edge, insert_edge, add_child_ref, insert_refs, new_node_batch, commit_new_node,
  commit_uploaded_canonical_node,
}
use unicas.NodeLease.Adapter.Repository.{canonical_repository}
use unicas.Store.{LeaseDrivenUploadValidation}
use unicas.Gc.{CasGcResult, collect_expired_unreferenced_nodes}
use unicas.Gc.Adapter.{cloudflare_node_gc_repository}
use unicas.Gc.Kept.{Held, held_of}
use unicas.NodeLease.Types.{
  CanonicalDirectUploadSession, CanonicalDirectUploadPrepareResult, prepare_upload, admit_upload,
}
use unicas.NodeLease.Direct.{
  ready_if_found, open_session, prepare_canonical_node_upload,
  admit_canonical_node_upload_finalization,
}
use unicas.NodeLease.Driven.{
  validate_lease_driven_upload, create_lease_driven_upload, replace_lease_driven_upload,
  children_to_wait_for, forget_upload, publish_node, publish_validated_lease_driven_upload, stage,
}
use unicas.NodeLease.Upload.{create_first, upload_new, lease_driven_node_upload}
use unicas.NodeLease.Validation.{AcceptedUpload, validate_lease_driven_upload-ok}
use unicas.NodeLease.Session.{admit-prepare_canonical_node_upload}
use unicas.NodeLease.Adapter.{
  read_node_lease, read_canonical_object, renew_node_lease, put_verified_canonical_bytes,
  read_canonical_upload_session, session_taken, upsert_session, reserve_canonical_upload_session,
}
use unicas.NodeLease.Adapter.Uploads.{
  read_lease_driven_upload, count_in_scope, count_lease_driven_uploads, upload_taken, insert_upload,
  find_generation, stage_lease_driven_upload_validation, read_temporary_upload_object,
  read_temporary_upload_bytes, delete_temporary_upload_object, delete_lease_driven_upload,
}
use unicas.NodeLease.Adapter.Uploads
use unicas.NodeLease.Adapter.Repository.{lease_repository, direct_repository, upload_repository}
use unicas.Graph.{core, IsIntact}
use unicas.Graph.Publish.{Leased}
use unicas.Graph.Leases.{
  lease_driven_node_upload-Leased, lease_ready_node-Leased, lease_canonical_node-Leased,
}
use unicas.NodeUsage.{read_node_usage}
use unicas.NodeUsage.Adapter.{
  list_nodes, read_canonical_stored_bytes, cloudflare_node_usage_repository,
}
use unicas.NodeUsage.Sums.{total, when_ready}
use unicas.NodeUsage.Ready.{Reachable-read_node_usage}
use unicas.Graph.Survive.{lease_driven_node_upload-collect}
use unicas.Graph.Collect.{collect_expired_unreferenced_nodes-Intact}
use unicas.Graph.Reach.{
  at_start, after_step, temporary_written, canonical_leased, Reachable-IsIntact,
}
use unicas.Tests.Uploads.{
  scope, bucket, leaf, leaf_hash, with_leaf, parent_run, length_digester, reached,
}

empty-IsIntact : IsIntact length_digester (core empty_store)
empty-IsIntact = Reachable-IsIntact ascii_coding bucket at_start

abbrev first_lease : CasLeaseResult
first_lease = record {
  hash = leaf_hash;
  lease = record { lease_started_at = 45; lease_expires_at = 60045 };
}

abbrev leaf_run : Result LeaseError CasLeaseResult × Store
leaf_run =
    lease_canonical_node ascii_coding (canonical_repository bucket 50) scope leaf_hash 60000
      (leaf ∷ []) (some 30) no_limits 40 45 empty_store

leaf_ok : leaf_run.0 ≡ ok first_lease
unfolding lease_canonical_node begin_canonical_node_lease validate_lease_hash validate_hash
    reserve_upload upload_canonical_node finalize_canonical_node_lease inspect_canonical_node
    parse_canonical_node_stream read_exactly read_chunks decode_header number_of_u64
    validate_decoded_header validate_canonical_node_size resolve_limit validate_content_type
    hex_refs hash_to_hex hex_bytes hex_byte hex_digit check_children read_canonical_node_lease
    ready_row is_node_ready has_ready_node reserve_canonical_upload upsert_reservation
    put_canonical_object put_object read_canonical_prefix read_canonical_bytes
    commit_uploaded_canonical_node commit_new_node new_node_batch insert_node insert_refs
    insert_edge has_edge add_child_ref next_node_lease find delete update upsert same recover ◌>>=◌
    flatten le_value
leaf_ok = refl

lease_canonical_node-Leased_example :
    IsIntact length_digester (core leaf_run.1)
    × (leaf_hash ≡ leaf_hash)
    × Leased (node_key scope leaf_hash) first_lease.lease (core leaf_run.1)
lease_canonical_node-Leased_example =
    lease_canonical_node-Leased ascii_coding bucket 50 scope leaf_hash empty_store leaf_run.1
      first_lease empty-IsIntact 60000 (leaf ∷ []) (some 30) no_limits 40 45
      (ap (λ r. (r, leaf_run.1)) leaf_ok)

-- A renewal of the leaf.
abbrev renewal_run : Result LeaseError CasLeaseResult × Store
renewal_run =
    lease_ready_node ascii_coding (lease_repository bucket 60) scope leaf_hash 60000 no_limits 100
      with_leaf

abbrev second_lease : CasLeaseResult
second_lease = record {
  hash = leaf_hash;
  lease = record { lease_started_at = 45; lease_expires_at = 60100 };
}

renewal_ok : renewal_run.0 ≡ ok second_lease
unfolding lease_ready_node renew_existing read_node_lease renew_node_lease lease_canonical_node
    begin_canonical_node_lease validate_lease_hash validate_hash reserve_upload
    upload_canonical_node finalize_canonical_node_lease inspect_canonical_node
    parse_canonical_node_stream read_exactly read_chunks decode_header number_of_u64
    validate_decoded_header validate_canonical_node_size resolve_limit validate_content_type
    hex_refs hash_to_hex hex_bytes hex_byte hex_digit check_children read_canonical_node_lease
    ready_row is_node_ready has_ready_node reserve_canonical_upload upsert_reservation
    put_canonical_object put_object read_canonical_prefix read_canonical_bytes
    commit_uploaded_canonical_node commit_new_node new_node_batch insert_node insert_refs
    insert_edge has_edge add_child_ref next_node_lease find delete update upsert same recover ◌>>=◌
    flatten le_value
renewal_ok = refl

with_leaf-IsIntact : IsIntact length_digester (core with_leaf)
with_leaf-IsIntact = Reachable-IsIntact ascii_coding bucket (
    after_step empty_store with_leaf at_start
      (canonical_leased 50 scope leaf_hash 60000 (leaf ∷ []) (some 30) no_limits 40 45 empty_store))

-- An upload that is there when it is asked for.
abbrev uploaded : Store
uploaded = record empty_store { temporary_objects = (codes "t", leaf) ∷ [] }

uploaded-IsIntact : IsIntact length_digester (core uploaded)
uploaded-IsIntact = Reachable-IsIntact ascii_coding bucket (
    after_step empty_store uploaded at_start
      (temporary_written ((codes "t", leaf) ∷ []) empty_store))

abbrev input : UploadInput
input = record {
  lease_duration_ms = pos 60000;
  identifiers = λ call. record { generation = codes "g"; temporary_object_key = codes "t" };
  limits = no_limits;
  upload_session_ms = none;
  upload_cleanup_ms = none;
  max_active_uploads = none;
  now = 45;
}

abbrev upload_run : Result LeaseError LeaseDrivenNodeUploadResult × Store
upload_run =
    lease_driven_node_upload ascii_coding length_digester (upload_repository bucket 50) scope
      leaf_hash input uploaded

upload_ok : upload_run.0 ≡ ok (upload_ready first_lease)
unfolding lease_driven_node_upload upload_new create_first create_lease_driven_upload
    replace_lease_driven_upload validate_lease_driven_upload children_to_wait_for publish_node
    publish_validated_lease_driven_upload forget_upload stage clamp_lease_duration
    read_canonical_object read_lease_driven_upload count_in_scope count_lease_driven_uploads
    upload_taken insert_upload find_generation stage_lease_driven_upload_validation
    read_temporary_upload_object read_temporary_upload_bytes delete_temporary_upload_object
    delete_lease_driven_upload put_verified_canonical_bytes Uploads.replace_lease_driven_upload
    lease_canonical_node begin_canonical_node_lease validate_lease_hash validate_hash reserve_upload
    upload_canonical_node finalize_canonical_node_lease inspect_canonical_node
    parse_canonical_node_stream read_exactly read_chunks decode_header number_of_u64
    validate_decoded_header validate_canonical_node_size resolve_limit validate_content_type
    hex_refs hash_to_hex hex_bytes hex_byte hex_digit check_children read_canonical_node_lease
    ready_row is_node_ready has_ready_node reserve_canonical_upload upsert_reservation
    put_canonical_object put_object read_canonical_prefix read_canonical_bytes
    commit_uploaded_canonical_node commit_new_node new_node_batch insert_node insert_refs
    insert_edge has_edge add_child_ref next_node_lease find delete update upsert same recover ◌>>=◌
    flatten le_value
upload_ok = refl

lease_driven_node_upload-Leased_example :
    IsIntact length_digester (core upload_run.1)
    × (leaf_hash ≡ leaf_hash)
    × Leased (node_key scope leaf_hash) first_lease.lease (core upload_run.1)
lease_driven_node_upload-Leased_example =
    lease_driven_node_upload-Leased ascii_coding bucket 50 scope leaf_hash uploaded upload_run.1
      first_lease uploaded-IsIntact input (ap (λ r. (r, upload_run.1)) upload_ok)

lease_ready_node-Leased_example :
    IsIntact length_digester (core renewal_run.1)
    × (leaf_hash ≡ leaf_hash)
    × Leased (node_key scope leaf_hash) second_lease.lease (core renewal_run.1)
lease_ready_node-Leased_example =
    lease_ready_node-Leased ascii_coding bucket 60 scope leaf_hash with_leaf renewal_run.1
      second_lease with_leaf-IsIntact 60000 no_limits 100 (ap (λ r. (r, renewal_run.1)) renewal_ok)

-- A collection while the lease lasts.
abbrev collected : Store
collected =
    (collect_expired_unreferenced_nodes (cloudflare_node_gc_repository (λ hashes. hashes) 70) scope
      1000 (some 10) upload_run.1).1

lease_driven_node_upload-collect_example :
    (node : Held) × (object : StoredObject) × (held_of
        (find (node_key scope leaf_hash) collected.nodes)
      ≡ some node)
    × (node.lease_expires_at ≡ 60045)
    × (find (node_key scope leaf_hash) collected.objects ≡ some object)
    × (has_digest length_digester object.bytes leaf_hash ≡ true)
lease_driven_node_upload-collect_example =
    lease_driven_node_upload-collect ascii_coding bucket 50 scope leaf_hash input uploaded
      upload_run.1 first_lease (λ hashes. hashes) 70 scope 1000 (some 10) uploaded-IsIntact
      (ap (λ r. (r, upload_run.1)) upload_ok) (omega arith)

-- A collection after the lease.
collect_expired_unreferenced_nodes-Intact_example :
    (result : CasGcResult) × ((collect_expired_unreferenced_nodes
        (cloudflare_node_gc_repository (λ hashes. hashes) 70)
        scope
        90000
        (some 10)
        parent_run.1).0
      ≡ ok result)
    × (result.examined ≤ 10)
    × IsIntact length_digester (
        core
          (collect_expired_unreferenced_nodes
            (cloudflare_node_gc_repository (λ hashes. hashes) 70)
            scope
            90000
            (some 10)
            parent_run.1).1)
collect_expired_unreferenced_nodes-Intact_example =
    collect_expired_unreferenced_nodes-Intact (λ hashes. hashes) 70 length_digester scope 90000
      (some 10) parent_run.1 (Reachable-IsIntact ascii_coding bucket reached) refl (omega arith)

abbrev leaf_validation : LeaseDrivenUploadValidation
leaf_validation = record {
  content_size = 3;
  content_type = codes "a/b";
  refs = [];
  stored_bytes = 30;
}

validation_ok :
    validate_lease_driven_upload ascii_coding length_digester leaf_hash leaf no_limits
    ≡ ok leaf_validation
unfolding validate_lease_driven_upload parse_canonical_node_stream read_exactly read_chunks
    decode_header number_of_u64 validate_decoded_header validate_canonical_node_size resolve_limit
    validate_content_type hex_refs hash_to_hex hex_bytes hex_byte hex_digit same le_value
validation_ok = refl

validate_lease_driven_upload-ok_example :
    AcceptedUpload ascii_coding length_digester leaf_hash leaf no_limits leaf_validation
validate_lease_driven_upload-ok_example =
    validate_lease_driven_upload-ok ascii_coding length_digester leaf_hash leaf no_limits
      leaf_validation validation_ok

-- A direct upload that is prepared and admitted.
abbrev prepared : Result LeaseError CanonicalDirectUploadPrepareResult × Store
prepared =
    prepare_canonical_node_upload ascii_coding (direct_repository bucket 50) scope leaf_hash 60000
      no_limits 30 (record { upload_id = codes "u"; temporary_object_key = codes "t" }) none 40 45
      empty_store

abbrev session : CanonicalDirectUploadSession
session = record {
  hash = leaf_hash;
  upload_id = codes "u";
  temporary_object_key = codes "t";
  stored_bytes = 30;
  lease_duration_ms = 60000;
  created_at = 45;
  expires_at = 900045;
}

prepared_ok : prepared.0 ≡ ok (prepare_upload session none)
unfolding prepare_canonical_node_upload ready_if_found open_session lease_ready_node adopt_orphan
    read_node_lease read_canonical_object read_canonical_upload_session session_taken upsert_session
    reserve_canonical_upload_session validate_lease_hash validate_hash ready_row upsert_reservation
    find upsert same recover ◌>>=◌
prepared_ok = refl

missing_ok :
    ready_if_found ascii_coding
      (direct_repository bucket 50)
      scope
      leaf_hash
      60000
      no_limits
      100
      prepared.1
    ≡ (ok none, prepared.1)
unfolding prepare_canonical_node_upload ready_if_found open_session lease_ready_node adopt_orphan
    read_node_lease read_canonical_object read_canonical_upload_session session_taken upsert_session
    reserve_canonical_upload_session validate_lease_hash validate_hash ready_row upsert_reservation
    find upsert same recover ◌>>=◌
missing_ok = refl

admit-prepare_canonical_node_upload_example :
    admit_canonical_node_upload_finalization ascii_coding
      (direct_repository bucket 50)
      scope
      leaf_hash
      60000
      no_limits
      (codes "u")
      100
      200
      prepared.1
    ≡ (ok (admit_upload session), prepared.1)
admit-prepare_canonical_node_upload_example =
    admit-prepare_canonical_node_upload ascii_coding bucket 50 scope leaf_hash 60000 no_limits 30
      (record { upload_id = codes "u"; temporary_object_key = codes "t" }) none 40 45 empty_store
      prepared.1 session none 100 200 (ap (λ r. (r, prepared.1)) prepared_ok) missing_ok
      (omega arith)

-- The usage after the uploads of a leaf and its parent.
Reachable-read_node_usage_example :
    ((read_node_usage (cloudflare_node_usage_repository parent_run.1) scope).not_ready_node_count
      ≡ 0)
    × ((read_node_usage (cloudflare_node_usage_repository parent_run.1) scope).ready_content_bytes
        ≡ total
            (λ node.
              when_ready
                (read_canonical_stored_bytes scope node.hash parent_run.1)
                node.content_size)
            (list_nodes scope parent_run.1.nodes))
Reachable-read_node_usage_example =
    Reachable-read_node_usage ascii_coding bucket parent_run.1 scope reached
