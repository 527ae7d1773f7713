-- ===== src/NodeLease/Driven.antt =====
-- packages/service/src/node-lease.ts: `leaseDrivenNodeUpload`, a state machine over the upload record
-- of a node, its temporary object and its canonical object. The instrumentation, which runs the
-- validation it is given, is left out. `identifiers` are those that the n-th call of
-- `createIdentifiers` returns.
use unicas.Base.{
  ℕ, ◌+◌, Bool, false, not, ◌||◌, Option, none, some, List, [], ◌∷◌, Result, ok, err, length, ltb,
  if◌then◌else◌,
}
use unicas.Base.Int.{ℤ}
use unicas.Base.Text.{Text, same}
use unicas.Base.Exec.{Exec, return, throw, lift, recover, ◌>>=◌, ◌>>◌, throw_when}
use unicas.Codec.Bytes.{Bytes}
use unicas.Codec.Host.{TextCoding, Digester}
use unicas.Codec.Errors.{CodecError}
use unicas.Codec.Digest.{hash_to_hex}
use unicas.Codec.Validation.{CanonicalNodeLimits}
use unicas.Codec.Stream.{ParsedCanonicalNodeStream, parse_canonical_node_stream}
use unicas.Store.{
  SpaceNodeUploadRejection, node_too_large_code, node_digest_mismatch_code,
  invalid_canonical_node_code, exceeds_size_limit, digest_did_not_match, codec_message,
  LeaseDrivenUploadValidation,
}
use unicas.Store.Keys.{Scope}
use unicas.NodeLease.{next_node_lease, clamp_lease_duration}
use unicas.NodeLease.Types.{
  LeaseError, node_op_error, empty_identifiers, conflict, storage, byte_limit,
  default_upload_cleanup_ms, CasLeaseResult, CanonicalOrphanObject, commit_new,
  LeaseDrivenUploadRecord, LeaseDrivenNodeUploadResult, upload_ready, awaiting_upload,
  awaiting_replacement_upload, validated_awaiting_children, LeaseDrivenNodeUploadRepository,
}
use unicas.NodeLease.Direct.{is_empty, session_ms}

pub record UploadIdentifiers : Type 0 where
  pub generation : Text
  pub temporary_object_key : Text

-- The values of `input` beside the repository, the scope and the hash.
pub record UploadInput : Type 0 where
  pub lease_duration_ms : ℤ
  pub identifiers : ℕ → UploadIdentifiers
  pub limits : CanonicalNodeLimits
  pub upload_session_ms : Option ℕ
  pub upload_cleanup_ms : Option ℕ
  pub max_active_uploads : Option ℕ
  pub now : ℕ

abbrev pub or_default : Option ℕ → ℕ → ℕ
or_default none fallback = fallback
or_default (some given) fallback = given

-- An accepted validation is `ok`, a rejection is `err`.
abbrev pub Verdict : Type 0
Verdict = Result SpaceNodeUploadRejection LeaseDrivenUploadValidation

abbrev pub verdict_of : Bytes → Result CodecError ParsedCanonicalNodeStream → Verdict
verdict_of bytes (ok parsed) = ok (record {
  stored_bytes = length bytes;
  content_size = parsed.content_size;
  content_type = parsed.content_type;
  refs = parsed.refs;
})
verdict_of bytes (err thrown) =
    err (record { code = invalid_canonical_node_code; message = codec_message thrown })

-- `hashToHex` of a digest of 32 bytes throws nothing.
abbrev pub has_digest : Digester → Bytes → Text → Bool
has_digest digester bytes hash = elim (hash_to_hex (digester.sha256 bytes)) [
  | ok actual ↦ same actual hash
  | err _ ↦ false
]

unfoldable pub validate_lease_driven_upload :
    TextCoding → Digester → Text → Bytes → CanonicalNodeLimits → Verdict
validate_lease_driven_upload coding digester hash bytes limits =
    if ltb (byte_limit limits) (length bytes)
    then err (record { code = node_too_large_code; message = exceeds_size_limit })
    else if not (has_digest digester bytes hash)
    then err (record { code = node_digest_mismatch_code; message = digest_did_not_match })
    else verdict_of bytes
        (parse_canonical_node_stream coding (bytes ∷ []) (some (length bytes)) limits)

unfoldable pub includes : Text → List Text → Bool
includes hash [] = false
includes hash (h ∷ hashes) = same h hash || includes hash hashes

abbrev pub awaiting : LeaseDrivenUploadRecord → LeaseDrivenNodeUploadResult
awaiting upload = elim upload.rejection [
  | none ↦ awaiting_upload upload
  | some rejection ↦ awaiting_replacement_upload upload rejection
]

module _ (hash : Text) (input : UploadInput) where
  -- The record of the call `call` of `createIdentifiers`.
  unfoldable pub create_lease_driven_upload :
      ℕ → Option SpaceNodeUploadRejection → Result LeaseError LeaseDrivenUploadRecord
  create_lease_driven_upload call rejection =
      let identifiers = input.identifiers call in
      let expires_at = input.now + session_ms input.upload_session_ms in
      if is_empty identifiers.generation || is_empty identifiers.temporary_object_key
      then err empty_identifiers
      else ok (record {
        hash = hash;
        generation = identifiers.generation;
        temporary_object_key = identifiers.temporary_object_key;
        created_at = input.now;
        expires_at = expires_at;
        cleanup_at = expires_at + or_default input.upload_cleanup_ms default_upload_cleanup_ms;
        rejection = rejection;
        validation = none;
      })

module _ {S : Type 0} (repository : LeaseDrivenNodeUploadRepository S) (scope : Scope) (hash : Text)
    (input : UploadInput) where
  unfoldable pub replace_lease_driven_upload :
      Option Text → LeaseDrivenUploadRecord → Exec S LeaseError (Unit {0})
  replace_lease_driven_upload expected_generation upload = do
    replaced ← repository.replace_lease_driven_upload scope expected_generation upload
    throw_when (not replaced) (node_op_error 409 conflict)

  -- `.catch(() => undefined)`
  unfoldable pub discard_temporary : Text → Exec S LeaseError (Unit {0})
  discard_temporary temporary_object_key =
      recover (repository.delete_temporary_upload_object scope temporary_object_key)
        (λ _. return tt)

  -- The loop over the refs of `publishValidatedLeaseDrivenUpload`; `seen` is its set.
  unfoldable pub children_to_wait_for : List Text → List Text → Exec S LeaseError (List Text)
  children_to_wait_for seen [] = return []
  children_to_wait_for seen (child_hash ∷ refs) =
      if includes child_hash seen then children_to_wait_for seen refs else do
        is_ready ← repository.canonical.leases.is_node_ready scope child_hash
        children ← children_to_wait_for (child_hash ∷ seen) refs
        return (if is_ready then children else child_hash ∷ children)

  abbrev pub require_canonical : Option CanonicalOrphanObject → Exec S LeaseError (Unit {0})
  require_canonical none = throw (node_op_error 503 storage)
  require_canonical (some object) = return tt

  abbrev pub store_bytes : Option Bytes → Exec S LeaseError (Unit {0})
  store_bytes (some bytes) = repository.put_verified_canonical_bytes scope hash bytes
  store_bytes none = do
    object ← repository.canonical.leases.read_canonical_object scope hash
    require_canonical object

  abbrev pub bytes_to_store :
      Option Bytes → LeaseDrivenUploadRecord → Exec S LeaseError (Option Bytes)
  bytes_to_store (some bytes) upload = return (some bytes)
  bytes_to_store none upload =
      repository.read_temporary_upload_bytes scope upload.temporary_object_key

  abbrev pub new_lease : CasLeaseResult
  new_lease = record {
    hash = hash;
    lease = next_node_lease none (clamp_lease_duration input.lease_duration_ms) input.now;
  }

  -- The deletions after the commit, whose errors are dropped.
  unfoldable pub forget_upload : LeaseDrivenUploadRecord → Exec S LeaseError (Unit {0})
  forget_upload upload =
      recover
        (do
          repository.delete_temporary_upload_object scope upload.temporary_object_key
          repository.delete_lease_driven_upload scope hash upload.generation)
        (λ _. return tt)

  -- All children are ready.
  unfoldable pub publish_node :
      LeaseDrivenUploadRecord
      → LeaseDrivenUploadValidation
      → Option Bytes
      → Exec S LeaseError LeaseDrivenNodeUploadResult
  publish_node upload validation validated_bytes = do
    bytes ← bytes_to_store validated_bytes upload
    store_bytes bytes
    repository.canonical.commit_uploaded_canonical_node scope (
        commit_new (record {
          hash = hash;
          content_size = validation.content_size;
          stored_bytes = validation.stored_bytes;
          content_type = validation.content_type;
          refs = validation.refs;
          lease = new_lease.lease;
        }))
    forget_upload upload
    return (upload_ready new_lease)

  abbrev pub publish_unless_waiting :
      LeaseDrivenUploadRecord
      → LeaseDrivenUploadValidation
      → Option Bytes
      → List Text
      → Exec S LeaseError LeaseDrivenNodeUploadResult
  publish_unless_waiting upload validation validated_bytes [] =
      publish_node upload validation validated_bytes
  publish_unless_waiting upload validation validated_bytes (child_hash ∷ child_hashes) =
      return (validated_awaiting_children (child_hash ∷ child_hashes))

  unfoldable pub publish_validated_lease_driven_upload :
      LeaseDrivenUploadRecord
      → LeaseDrivenUploadValidation
      → Option Bytes
      → Exec S LeaseError LeaseDrivenNodeUploadResult
  publish_validated_lease_driven_upload upload validation validated_bytes = do
    child_hashes ← children_to_wait_for [] validation.refs
    publish_unless_waiting upload validation validated_bytes child_hashes

  unfoldable pub replace_rejected_lease_driven_upload :
      LeaseDrivenUploadRecord
      → SpaceNodeUploadRejection
      → ℕ
      → Exec S LeaseError LeaseDrivenNodeUploadResult
  replace_rejected_lease_driven_upload upload rejection call = do
    replacement ← lift (create_lease_driven_upload hash input call (some rejection))
    replace_lease_driven_upload (some upload.generation) replacement
    discard_temporary upload.temporary_object_key
    return (awaiting_replacement_upload replacement rejection)

  -- Records that the bytes of the upload are valid.
  unfoldable pub stage :
      LeaseDrivenUploadRecord → LeaseDrivenUploadValidation → Exec S LeaseError (Unit {0})
  stage upload validation = do
    staged ← repository.stage_lease_driven_upload_validation scope hash upload.generation validation
    throw_when (not staged) (node_op_error 409 conflict)
