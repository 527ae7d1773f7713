-- ===== src/NodeLease/Types.antt =====
-- The records, unions and errors of packages/service/src/node-lease.ts and node-errors.ts. The
-- message of an error is left out, but for those of the codec, whose constructor stands for it. Times
-- and lengths are whole numbers; a stream is the list of its chunks; `null` is `none`.
use unicas.Base.{ℕ, ◌*◌, Bool, Option, none, some, List, Result, ok, err}
use unicas.Base.Text.{Text}
use unicas.Base.Exec.{Exec}
use unicas.Codec.Bytes.{Bytes}
use unicas.Codec.Errors.{CodecError}
use unicas.Codec.Validation.{CanonicalNodeLimits, max_canonical_node_bytes, max_node_refs_limit}
use unicas.Store.{SpaceNodeUploadRejection, LeaseDrivenUploadValidation}
use unicas.Store.Keys.{Scope}
use unicas.NodeLease.{NodeLeaseRecord}

abbrev pub default_upload_session_ms : ℕ
default_upload_session_ms = 15 * 60 * 1000

abbrev pub default_upload_cleanup_ms : ℕ
default_upload_cleanup_ms = 24 * 60 * 60 * 1000

abbrev pub default_max_active_uploads : ℕ
default_max_active_uploads = 1024

pub data NodeOpErrorCode : Type 0 where
  invalid_request not_found not_ready conflict : NodeOpErrorCode
  upload_conflict upload_incomplete digest_mismatch upload_expired : NodeOpErrorCode
  upload_invalid upload_limit storage : NodeOpErrorCode

-- What the code throws: a NodeOpError with its status and code, an error of the codec, the plain
-- errors of this file and of the adapter, the TypeError of empty identifiers, and a statement that the
-- database or a write that the bucket refuses.
pub data LeaseError : Type 0 where
  node_op_error : ℕ → NodeOpErrorCode → LeaseError
  codec_error : CodecError → LeaseError
  node_disappeared object_conflict empty_identifiers : LeaseError
  database_error checksum_mismatch : LeaseError

abbrev pub of_codec : {A : Type 0} → Result CodecError A → Result LeaseError A
of_codec (ok value) = ok value
of_codec (err thrown) = err (codec_error thrown)

-- `limits?.maxCanonicalNodeBytes ?? MAX_CANONICAL_NODE_BYTES`
abbrev pub byte_limit : CanonicalNodeLimits → ℕ
byte_limit limits = elim limits.max_canonical_node_bytes [
  | none ↦ max_canonical_node_bytes
  | some bound ↦ bound
]

-- `limits?.maxNodeRefs ?? MAX_NODE_REFS`
abbrev pub ref_limit : CanonicalNodeLimits → ℕ
ref_limit limits = elim limits.max_node_refs [ none ↦ max_node_refs_limit | some bound ↦ bound ]

pub record CanonicalOrphanObject : Type 0 where
  pub stored_bytes : ℕ
  pub sha256_hex : Option Text

pub record AdoptedCanonicalNodePlan : Type 0 where
  pub hash : Text
  pub content_size : ℕ
  pub content_type : Text
  pub refs : List Text
  pub stored_bytes : ℕ
  pub lease : NodeLeaseRecord
  pub reservation_created_at : ℕ
  pub reservation_expires_at : ℕ

pub record CanonicalNodeLeaseRecord : Type 0 where
  pub lease : NodeLeaseRecord
  pub content_size : ℕ
  pub content_type : Text

-- A `CanonicalNodeLeaseRecord` extends a `NodeLeaseRecord`.
abbrev pub lease_of : Option CanonicalNodeLeaseRecord → Option NodeLeaseRecord
lease_of none = none
lease_of (some record_) = some record_.lease

pub record CanonicalUploadReservation : Type 0 where
  pub hash : Text
  pub stored_bytes : ℕ
  pub created_at : ℕ
  pub expires_at : ℕ

pub record CanonicalNodeUploadPlan : Type 0 where
  pub hash : Text
  pub stored_bytes : ℕ
  pub lease_duration_ms : ℕ

pub record CanonicalDirectUploadSession : Type 0 where
  pub hash : Text
  pub upload_id : Text
  pub temporary_object_key : Text
  pub stored_bytes : ℕ
  pub lease_duration_ms : ℕ
  pub created_at : ℕ
  pub expires_at : ℕ

-- The `ready` field, which is always true, is left out.
pub record CasLeaseResult : Type 0 where
  pub hash : Text
  pub lease : NodeLeaseRecord

pub data CanonicalDirectUploadPrepareResult : Type 0 where
  prepare_ready : CasLeaseResult → CanonicalDirectUploadPrepareResult
  prepare_upload : CanonicalDirectUploadSession → Option Text → CanonicalDirectUploadPrepareResult

pub data CanonicalDirectUploadFinalizeAdmission : Type 0 where
  admit_ready : CasLeaseResult → CanonicalDirectUploadFinalizeAdmission
  admit_upload : CanonicalDirectUploadSession → CanonicalDirectUploadFinalizeAdmission

pub data CanonicalNodeLeaseBeginResult : Type 0 where
  begin_ready : CasLeaseResult → CanonicalNodeLeaseBeginResult
  begin_upload : CanonicalNodeUploadPlan → CanonicalNodeLeaseBeginResult

pub record NewNode : Type 0 where
  pub hash : Text
  pub content_size : ℕ
  pub stored_bytes : ℕ
  pub content_type : Text
  pub refs : List Text
  pub lease : NodeLeaseRecord

pub data UploadedCanonicalNodeCommit : Type 0 where
  commit_existing : Text → ℕ → NodeLeaseRecord → UploadedCanonicalNodeCommit
  commit_new : NewNode → UploadedCanonicalNodeCommit

pub record ParsedUploadedNodeMetadata : Type 0 where
  pub content_size : ℕ
  pub content_type : Text
  pub refs : List Text

pub record LeaseDrivenUploadRecord : Type 0 where
  pub hash : Text
  pub generation : Text
  pub temporary_object_key : Text
  pub created_at : ℕ
  pub expires_at : ℕ
  pub cleanup_at : ℕ
  pub rejection : Option SpaceNodeUploadRejection
  pub validation : Option LeaseDrivenUploadValidation

pub record LeaseDrivenUploadObject : Type 0 where
  pub stored_bytes : ℕ

pub data LeaseDrivenNodeUploadResult : Type 0 where
  upload_ready : CasLeaseResult → LeaseDrivenNodeUploadResult
  awaiting_upload : LeaseDrivenUploadRecord → LeaseDrivenNodeUploadResult
  awaiting_replacement_upload :
      LeaseDrivenUploadRecord → SpaceNodeUploadRejection → LeaseDrivenNodeUploadResult
  validated_awaiting_children : List Text → LeaseDrivenNodeUploadResult

-- The repositories, over the state `S` that they keep.
pub record NodeLeaseRepository (S : Type 0) : Type 0 where
  pub read_node_lease : Scope → Text → Exec S LeaseError (Option NodeLeaseRecord)
  pub read_canonical_object : Scope → Text → Exec S LeaseError (Option CanonicalOrphanObject)
  pub read_canonical_prefix : Scope → Text → ℕ → Exec S LeaseError (Option (List Bytes))
  pub is_node_ready : Scope → Text → Exec S LeaseError Bool
  pub renew_node_lease : Scope → Text → NodeLeaseRecord → Exec S LeaseError (Unit {0})
  pub commit_adopted_canonical_node :
      Scope → AdoptedCanonicalNodePlan → Exec S LeaseError (Unit {0})

pub record CanonicalNodeLeaseRepository (S : Type 0) : Type 0 where
  pub leases : NodeLeaseRepository S
  pub read_canonical_node_lease : Scope → Text → Exec S LeaseError (Option CanonicalNodeLeaseRecord)
  pub read_node_refs : Scope → Text → Exec S LeaseError (List Text)
  pub reserve_canonical_upload : Scope → CanonicalUploadReservation → Exec S LeaseError (Unit {0})
  pub put_canonical_object : Scope → Text → List Bytes → Exec S LeaseError (Unit {0})
  pub commit_uploaded_canonical_node :
      Scope → UploadedCanonicalNodeCommit → Exec S LeaseError (Unit {0})

pub record CanonicalDirectUploadRepository (S : Type 0) : Type 0 where
  pub leases : NodeLeaseRepository S
  pub read_canonical_upload_session :
      Scope → Text → Exec S LeaseError (Option CanonicalDirectUploadSession)
  pub reserve_canonical_upload_session :
      Scope → CanonicalDirectUploadSession → Exec S LeaseError (Unit {0})
  pub delete_canonical_upload_session : Scope → Text → Text → Exec S LeaseError (Unit {0})

pub record LeaseDrivenNodeUploadRepository (S : Type 0) : Type 0 where
  pub canonical : CanonicalNodeLeaseRepository S
  pub count_lease_driven_uploads : Scope → Exec S LeaseError ℕ
  pub read_canonical_bytes : Scope → Text → Exec S LeaseError (Option Bytes)
  pub read_lease_driven_upload : Scope → Text → Exec S LeaseError (Option LeaseDrivenUploadRecord)
  pub replace_lease_driven_upload :
      Scope → Option Text → LeaseDrivenUploadRecord → Exec S LeaseError Bool
  pub stage_lease_driven_upload_validation :
      Scope → Text → Text → LeaseDrivenUploadValidation → Exec S LeaseError Bool
  pub read_temporary_upload_object :
      Scope → Text → Exec S LeaseError (Option LeaseDrivenUploadObject)
  pub read_temporary_upload_bytes : Scope → Text → Exec S LeaseError (Option Bytes)
  pub delete_temporary_upload_object : Scope → Text → Exec S LeaseError (Unit {0})
  pub delete_lease_driven_upload : Scope → Text → Text → Exec S LeaseError (Unit {0})
  pub put_verified_canonical_bytes : Scope → Text → Bytes → Exec S LeaseError (Unit {0})
