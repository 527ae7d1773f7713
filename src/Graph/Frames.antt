-- ===== src/Graph/Frames.antt =====
-- The operations of `CloudflareNodeLeaseRepository` of packages/service-cloudflare/src/node-lease.ts
-- that leave the nodes, the edges and the canonical objects as they are.
use unicas.Base.{ℕ, ◌+◌, ◌-◌, ◌==◌, refl, Option, none, some, List, [], ◌∷◌, arith}
use unicas.Base.Text.{Text}
use unicas.Base.Exec.{reads, lift, return}
use unicas.Base.Exec.Rules.{Frame, Frame-reads, Frame-bind, Frame-lift, Frame-return, Frame-if}
use unicas.Codec.Bytes.{Bytes}
use unicas.Codec.Digest.{hash_to_hex}
use unicas.Store.{StoredObject, LeaseDrivenUploadValidation}
use unicas.Store.Keys.{Scope, NodeKey}
use unicas.NodeLease.Types.{
  of_codec, CanonicalUploadReservation, CanonicalDirectUploadSession, LeaseDrivenUploadRecord,
}
use unicas.NodeLease.Adapter.{
  orphan_of, recorded_hex, read_canonical_object, reserve_canonical_upload,
  reserve_canonical_upload_session, delete_canonical_upload_session,
}
use unicas.NodeLease.Adapter.Uploads.{
  insert_upload, replace_upload, replace_lease_driven_upload, stage_lease_driven_upload_validation,
  delete_temporary_upload_object, delete_lease_driven_upload,
}
use unicas.NodeLease.Adapter.Cleanup.{
  ExpiredUpload, delete_expired, delete_all_expired, delete_all_superseded, clean_superseded,
  cleanup_expired_lease_driven_uploads,
}
use unicas.Graph.{core}

recorded_hex-Frame :
    (object : StoredObject) (digest : Option Bytes) → Frame core (recorded_hex object digest)
recorded_hex-Frame object none = Frame-return core _
recorded_hex-Frame object (some digest) =
    Frame-bind core (lift (of_codec (hash_to_hex digest))) _ (Frame-lift core _)
      (λ hex. Frame-return core _)

pub orphan_of-Frame : (object : Option StoredObject) → Frame core (orphan_of object)
orphan_of-Frame none = Frame-return core none
orphan_of-Frame (some object) = recorded_hex-Frame object object.sha256

pub read_canonical_object-Frame :
    (scope : Scope) (hash : Text) → Frame core (read_canonical_object scope hash)
unfolding read_canonical_object
read_canonical_object-Frame scope hash =
    Frame-bind core (reads _) orphan_of (Frame-reads core _) orphan_of-Frame

pub reserve_canonical_upload-Frame :
    (scope : Scope) (reservation : CanonicalUploadReservation)
    → Frame core (reserve_canonical_upload scope reservation)
unfolding reserve_canonical_upload
reserve_canonical_upload-Frame scope reservation = record { same_view = λ s. ground arith }

pub reserve_canonical_upload_session-Frame :
    (scope : Scope) (session : CanonicalDirectUploadSession)
    → Frame core (reserve_canonical_upload_session scope session)
unfolding reserve_canonical_upload_session
reserve_canonical_upload_session-Frame scope session = record { same_view = λ s. ground arith }

pub delete_canonical_upload_session-Frame :
    (scope : Scope) (hash upload_id : Text)
    → Frame core (delete_canonical_upload_session scope hash upload_id)
unfolding delete_canonical_upload_session
delete_canonical_upload_session-Frame scope hash upload_id = record {
  same_view = λ s. ground arith;
}

insert_upload-Frame :
    (key : NodeKey) (upload : LeaseDrivenUploadRecord) → Frame core (insert_upload key upload)
unfolding insert_upload
insert_upload-Frame key upload = record { same_view = λ s. ground arith }

replace_upload-Frame :
    (key : NodeKey) (generation : Text) (upload : LeaseDrivenUploadRecord)
    → Frame core (replace_upload key generation upload)
unfolding replace_upload
replace_upload-Frame key generation upload = record { same_view = λ s. ground arith }

pub replace_lease_driven_upload-Frame :
    (scope : Scope) (expected : Option Text) (upload : LeaseDrivenUploadRecord)
    → Frame core (replace_lease_driven_upload scope expected upload)
unfolding replace_lease_driven_upload
replace_lease_driven_upload-Frame scope none upload = insert_upload-Frame _ upload
replace_lease_driven_upload-Frame scope (some generation) upload =
    replace_upload-Frame _ generation upload

pub stage_lease_driven_upload_validation-Frame :
    (scope : Scope) (hash generation : Text) (validation : LeaseDrivenUploadValidation)
    → Frame core (stage_lease_driven_upload_validation scope hash generation validation)
unfolding stage_lease_driven_upload_validation
stage_lease_driven_upload_validation-Frame scope hash generation validation = record {
  same_view = λ s. ground arith;
}

pub delete_temporary_upload_object-Frame :
    (scope : Scope) (key : Text) → Frame core (delete_temporary_upload_object scope key)
unfolding delete_temporary_upload_object
delete_temporary_upload_object-Frame scope key = record { same_view = λ s. refl }

pub delete_lease_driven_upload-Frame :
    (scope : Scope) (hash generation : Text)
    → Frame core (delete_lease_driven_upload scope hash generation)
unfolding delete_lease_driven_upload
delete_lease_driven_upload-Frame scope hash generation = record { same_view = λ s. ground arith }

delete_expired-Frame :
    (scope : Scope) (expired : ExpiredUpload) → Frame core (delete_expired scope expired)
unfolding delete_expired
delete_expired-Frame scope expired = record { same_view = λ s. ground arith }

delete_all_expired-Frame :
    (scope : Scope) (expired : List ExpiredUpload) (deleted : ℕ)
    → Frame core (delete_all_expired scope expired deleted)
unfolding delete_all_expired
delete_all_expired-Frame scope [] deleted = Frame-return core deleted
delete_all_expired-Frame scope (e ∷ rest) deleted =
    Frame-bind core (delete_temporary_upload_object scope e.temporary_object_key) _
      (delete_temporary_upload_object-Frame scope e.temporary_object_key)
      (λ _.
        Frame-bind core (delete_expired scope e) _ (delete_expired-Frame scope e)
          (λ changes. delete_all_expired-Frame scope rest (deleted + changes)))

delete_all_superseded-Frame :
    (scope : Scope) (superseded : List (Text × ℕ)) (deleted : ℕ)
    → Frame core (delete_all_superseded scope superseded deleted)
unfolding delete_all_superseded
delete_all_superseded-Frame scope [] deleted = Frame-return core deleted
delete_all_superseded-Frame scope ((key, at) ∷ rest) deleted =
    Frame-bind core (delete_temporary_upload_object scope key) _
      (delete_temporary_upload_object-Frame scope key)
      (λ _. delete_all_superseded-Frame scope rest (deleted + 1))

pub cleanup_expired_lease_driven_uploads-Frame :
    (scope : Scope) (now limit : ℕ)
    → Frame core (cleanup_expired_lease_driven_uploads scope now limit)
unfolding cleanup_expired_lease_driven_uploads clean_superseded
cleanup_expired_lease_driven_uploads-Frame scope now limit =
    Frame-bind core (reads _) _ (Frame-reads core _) (λ rows.
      Frame-bind core (delete_all_expired scope rows 0) _ (delete_all_expired-Frame scope rows 0)
        (λ deleted.
          Frame-if core (limit - deleted == 0) (return deleted)
            (clean_superseded scope now (limit - deleted) deleted) (Frame-return core deleted)
            (Frame-bind core (reads _) _ (Frame-reads core _)
              (λ superseded. delete_all_superseded-Frame scope superseded deleted))))
