-- ===== src/Store.antt =====
-- The tables and objects that packages/service-cloudflare/src keeps: the D1 tables of schema.ts as
-- association lists by their primary keys, the canonical objects of the R2 bucket by the scope and
-- hash of which appCanonicalNodeKey (do-names.ts) builds their key, and its temporary objects by
-- their key, which is taken to be the key of no canonical object. The usage projection, which
-- triggers of schema.ts keep, is not part of it. A column with a default that is never written here
-- is left out.
pub mod Keys
use unicas.Base.{ℕ, Bool, true, false, List, [], Option, none, some}
use unicas.Base.Text.{Text}
use unicas.Codec.Bytes.{Bytes}
use unicas.Codec.Errors.{CodecError}
use Keys.{Scope, NodeKey, RequestKey, TemporaryKey}

-- A row of cas_nodes.
pub record NodeRow : Type 0 where
  pub content_size : ℕ
  pub content_type : Text
  pub lease_started_at : ℕ
  pub lease_expires_at : ℕ
  pub child_ref_count : ℕ
  pub root_ref_count : ℕ
  pub ready : Bool
  pub canonical_stored_bytes : Option ℕ
  pub canonical_observed_at : Option ℕ

-- A row of cas_upload_reservations.
pub record ReservationRow : Type 0 where
  pub stored_bytes : ℕ
  pub created_at : ℕ
  pub expires_at : ℕ

-- A row of cas_app_root_events.
pub record EventRow : Type 0 where
  pub payload_hash : Text
  pub changes_json : Text
  pub applied_at : ℕ

-- A row of cas_app_root_requests.
pub record RequestRow : Type 0 where
  pub payload_hash : Text
  pub revision : ℕ
  pub applied_at : ℕ

-- An edge row: the parent, the ordinal and the child in the parent's scope.
pub record EdgeRow : Type 0 where
  pub parent : NodeKey
  pub ordinal : ℕ
  pub child : Text

-- A row of cas_direct_upload_sessions.
pub record SessionRow : Type 0 where
  pub upload_id : Text
  pub temporary_object_key : Text
  pub stored_bytes : ℕ
  pub lease_duration_ms : ℕ
  pub created_at : ℕ
  pub expires_at : ℕ

pub data SpaceNodeUploadRejectionCode : Type 0 where
  node_too_large_code node_digest_mismatch_code : SpaceNodeUploadRejectionCode
  invalid_canonical_node_code node_conflict_code : SpaceNodeUploadRejectionCode

-- The message of a rejection: one of the two fixed texts, or that of an error of the codec.
pub data RejectionMessage : Type 0 where
  exceeds_size_limit digest_did_not_match : RejectionMessage
  codec_message : CodecError → RejectionMessage

pub record SpaceNodeUploadRejection : Type 0 where
  pub code : SpaceNodeUploadRejectionCode
  pub message : RejectionMessage

pub record LeaseDrivenUploadValidation : Type 0 where
  pub content_size : ℕ
  pub content_type : Text
  pub refs : List Text
  pub stored_bytes : ℕ

-- A row of cas_node_uploads. The two columns of a rejection are null together, and so are the four
-- of a validation; `refs_json` is read back as the list that was written.
pub record UploadRow : Type 0 where
  pub generation : Text
  pub temporary_object_key : Text
  pub created_at : ℕ
  pub expires_at : ℕ
  pub cleanup_at : ℕ
  pub rejection : Option SpaceNodeUploadRejection
  pub validation : Option LeaseDrivenUploadValidation

-- An object of the bucket with the checksum that the bucket recorded when it was put.
pub record StoredObject : Type 0 where
  pub bytes : Bytes
  pub sha256 : Option Bytes

pub record Store : Type 0 where
  pub nodes : List (NodeKey × NodeRow)
  pub edges : List EdgeRow
  pub reservations : List (NodeKey × ReservationRow)
  pub revisions : List (Text × ℕ)
  pub root_refs : List (NodeKey × ℕ)
  pub root_events : List (Text × ℕ × RequestKey × EventRow)
  pub root_requests : List (RequestKey × RequestRow)
  pub cutover_marker : Bool
  pub legacy_rows : Bool
  pub objects : List (NodeKey × StoredObject)
  pub sessions : List (NodeKey × SessionRow)
  pub uploads : List (NodeKey × UploadRow)
  pub cleanups : List (TemporaryKey × ℕ)
  pub temporary_objects : List (Text × Bytes)

abbrev pub empty_store : Store
empty_store = record {
  nodes = [];
  edges = [];
  reservations = [];
  revisions = [];
  root_refs = [];
  root_events = [];
  root_requests = [];
  cutover_marker = true;
  legacy_rows = false;
  objects = [];
  sessions = [];
  uploads = [];
  cleanups = [];
  temporary_objects = [];
}
