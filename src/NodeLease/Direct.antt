-- ===== src/NodeLease/Direct.antt =====
-- packages/service/src/node-lease.ts: direct uploads, `prepareCanonicalNodeUpload` and
-- `admitCanonicalNodeUploadFinalization`. The clock is read twice, by `leaseReadyNode` and by the
-- step itself; the identifiers that `createIdentifiers` returns are a parameter.
use unicas.Base.{
  ℕ, ◌+◌, Bool, true, false, not, ◌||◌, Option, none, some, length, ltb, leb, ◌==◌, if◌then◌else◌,
}
use unicas.Base.Text.{Text, same}
use unicas.Base.Exec.{Exec, return, throw, lift, recover, ◌>>=◌, ◌>>◌, throw_when}
use unicas.Codec.Host.{TextCoding}
use unicas.Codec.Validation.{CanonicalNodeLimits, is_safe}
use unicas.Store.Keys.{Scope}
use unicas.NodeLease.Types.{
  LeaseError, node_op_error, empty_identifiers, not_found, upload_conflict, upload_expired,
  upload_invalid, byte_limit, default_upload_session_ms, CasLeaseResult,
  CanonicalDirectUploadSession, CanonicalDirectUploadPrepareResult, prepare_ready, prepare_upload,
  CanonicalDirectUploadFinalizeAdmission, admit_ready, admit_upload,
  CanonicalDirectUploadRepository,
}
use unicas.NodeLease.Ready.{validate_lease_hash, lease_ready_node}

pub record DirectIdentifiers : Type 0 where
  pub upload_id : Text
  pub temporary_object_key : Text

abbrev pub is_empty : Text → Bool
is_empty text = length text == 0

abbrev pub session_ms : Option ℕ → ℕ
session_ms none = default_upload_session_ms
session_ms (some upload_session_ms) = upload_session_ms

abbrev pub is_not_found : LeaseError → Bool
is_not_found (node_op_error _ not_found) = true
is_not_found _ = false

module _ {S : Type 0} (coding : TextCoding) (repository : CanonicalDirectUploadRepository S)
    (scope : Scope) (hash : Text) (lease_duration_ms : ℕ) (limits : CanonicalNodeLimits) where
  -- `leaseReadyNode`, where a node that is not found is no error.
  unfoldable pub ready_if_found : ℕ → Exec S LeaseError (Option CasLeaseResult)
  ready_if_found now =
      recover
        (do
          result ← lease_ready_node coding repository.leases scope hash lease_duration_ms limits now
          return (some result))
        (λ thrown. if is_not_found thrown then return none else throw thrown)

  abbrev pub new_session : ℕ → DirectIdentifiers → Option ℕ → ℕ → CanonicalDirectUploadSession
  new_session stored_bytes identifiers upload_session_ms now = record {
    hash = hash;
    upload_id = identifiers.upload_id;
    temporary_object_key = identifiers.temporary_object_key;
    stored_bytes = stored_bytes;
    lease_duration_ms = lease_duration_ms;
    created_at = now;
    expires_at = now + session_ms upload_session_ms;
  }

  -- A new session, in place of an expired one if there is one.
  unfoldable pub open_session :
      ℕ
      → DirectIdentifiers
      → Option ℕ
      → ℕ
      → Option Text
      → Exec S LeaseError CanonicalDirectUploadPrepareResult
  open_session stored_bytes identifiers upload_session_ms now replaced = do
    throw_when (is_empty identifiers.upload_id || is_empty identifiers.temporary_object_key)
        empty_identifiers
    repository.reserve_canonical_upload_session scope
        (new_session stored_bytes identifiers upload_session_ms now)
    return (prepare_upload (new_session stored_bytes identifiers upload_session_ms now) replaced)

  abbrev pub reuse_session :
      ℕ → CanonicalDirectUploadSession → Exec S LeaseError CanonicalDirectUploadPrepareResult
  reuse_session stored_bytes session = do
    throw_when (not (session.stored_bytes == stored_bytes)) (node_op_error 409 upload_conflict)
    return (prepare_upload session none)

  abbrev pub session_for :
      ℕ
      → DirectIdentifiers
      → Option ℕ
      → ℕ
      → Option CanonicalDirectUploadSession
      → Exec S LeaseError CanonicalDirectUploadPrepareResult
  session_for stored_bytes identifiers upload_session_ms now none =
      open_session stored_bytes identifiers upload_session_ms now none
  session_for stored_bytes identifiers upload_session_ms now (some existing) =
      if ltb now existing.expires_at
      then reuse_session stored_bytes existing
      else open_session stored_bytes identifiers upload_session_ms now
          (some existing.temporary_object_key)

  abbrev pub prepare_missing :
      ℕ
      → DirectIdentifiers
      → Option ℕ
      → ℕ
      → Option CasLeaseResult
      → Exec S LeaseError CanonicalDirectUploadPrepareResult
  prepare_missing stored_bytes identifiers upload_session_ms now (some result) =
      return (prepare_ready result)
  prepare_missing stored_bytes identifiers upload_session_ms now none = do
    throw_when (not (is_safe stored_bytes) || ltb stored_bytes 1) (node_op_error 400 upload_invalid)
    throw_when (ltb (byte_limit limits) stored_bytes) (node_op_error 413 upload_invalid)
    existing ← repository.read_canonical_upload_session scope hash
    session_for stored_bytes identifiers upload_session_ms now existing

  unfoldable pub prepare_canonical_node_upload :
      ℕ
      → DirectIdentifiers
      → Option ℕ
      → ℕ
      → ℕ
      → Exec S LeaseError CanonicalDirectUploadPrepareResult
  prepare_canonical_node_upload stored_bytes identifiers upload_session_ms leased_at now = do
    lift (validate_lease_hash hash)
    found ← ready_if_found leased_at
    prepare_missing stored_bytes identifiers upload_session_ms now found

  abbrev pub admit_session :
      Text
      → ℕ
      → Option CanonicalDirectUploadSession
      → Exec S LeaseError CanonicalDirectUploadFinalizeAdmission
  admit_session upload_id now none = throw (node_op_error 400 upload_invalid)
  admit_session upload_id now (some session) = do
    throw_when (not (same session.upload_id upload_id)) (node_op_error 400 upload_invalid)
    throw_when (leb session.expires_at now) (node_op_error 410 upload_expired)
    return (admit_upload session)

  abbrev pub admit_missing :
      Text → ℕ → Option CasLeaseResult → Exec S LeaseError CanonicalDirectUploadFinalizeAdmission
  admit_missing upload_id now (some result) = return (admit_ready result)
  admit_missing upload_id now none = do
    session ← repository.read_canonical_upload_session scope hash
    admit_session upload_id now session

  unfoldable pub admit_canonical_node_upload_finalization :
      Text → ℕ → ℕ → Exec S LeaseError CanonicalDirectUploadFinalizeAdmission
  admit_canonical_node_upload_finalization upload_id leased_at now = do
    lift (validate_lease_hash hash)
    found ← ready_if_found leased_at
    admit_missing upload_id now found
