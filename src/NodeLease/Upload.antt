-- ===== src/NodeLease/Upload.antt =====
-- packages/service/src/node-lease.ts: the steps of `leaseDrivenNodeUpload`, for a ready node, for a
-- canonical object without a row and for an upload. `call` counts the calls of `createIdentifiers`
-- that were made before.
use unicas.Base.{ℕ, Option, none, some, ok, err, ltb, leb, if◌then◌else◌}
use unicas.Base.Text.{Text}
use unicas.Base.Exec.{Exec, return, throw, lift, ◌>>=◌, ◌>>◌, throw_when}
use unicas.Codec.Bytes.{Bytes}
use unicas.Codec.Host.{TextCoding, Digester}
use unicas.Store.{node_too_large_code, exceeds_size_limit, LeaseDrivenUploadValidation}
use unicas.Store.Keys.{Scope}
use unicas.NodeLease.{NodeLeaseRecord, next_node_lease, clamp_lease_duration}
use unicas.NodeLease.Types.{
  LeaseError, node_op_error, storage, upload_limit, byte_limit, default_max_active_uploads,
  CanonicalNodeLeaseRecord, CanonicalOrphanObject, LeaseDrivenUploadRecord, LeaseDrivenUploadObject,
  LeaseDrivenNodeUploadResult, upload_ready, LeaseDrivenNodeUploadRepository,
}
use unicas.NodeLease.Ready.{validate_lease_hash}
use unicas.NodeLease.Driven.{
  UploadInput, or_default, Verdict, validate_lease_driven_upload, create_lease_driven_upload,
  replace_lease_driven_upload, discard_temporary, publish_validated_lease_driven_upload,
  replace_rejected_lease_driven_upload, awaiting, stage,
}

-- An upload record and the number of calls of `createIdentifiers` so far.
pub record Opened : Type 0 where
  pub upload : LeaseDrivenUploadRecord
  pub calls : ℕ

module _ {S : Type 0} (coding : TextCoding) (digester : Digester)
    (repository : LeaseDrivenNodeUploadRepository S) (scope : Scope) (hash : Text)
    (input : UploadInput) where
  -- Bytes that were found valid.
  abbrev pub stage_and_publish :
      LeaseDrivenUploadRecord
      → LeaseDrivenUploadValidation
      → Option Bytes
      → Exec S LeaseError LeaseDrivenNodeUploadResult
  stage_and_publish upload validation validated_bytes = do
    stage repository scope hash input upload validation
    publish_validated_lease_driven_upload repository scope hash input
        (record upload { validation = some validation }) validation validated_bytes

  -- A new record where there is none.
  unfoldable pub create_first : Exec S LeaseError LeaseDrivenUploadRecord
  create_first = do
    upload ← lift (create_lease_driven_upload hash input 0 none)
    replace_lease_driven_upload repository scope hash input none upload
    return upload

  abbrev pub first_if_none :
      Option LeaseDrivenUploadRecord → Exec S LeaseError LeaseDrivenUploadRecord
  first_if_none none = create_first
  first_if_none (some upload) = return upload

  abbrev pub recover_orphan :
      LeaseDrivenUploadRecord → Verdict → Exec S LeaseError LeaseDrivenNodeUploadResult
  recover_orphan upload (ok validation) = stage_and_publish upload validation none
  recover_orphan upload (err rejection) = throw (node_op_error 503 storage)

  abbrev pub recover_bytes :
      LeaseDrivenUploadRecord → Option Bytes → Exec S LeaseError LeaseDrivenNodeUploadResult
  recover_bytes upload none = throw (node_op_error 503 storage)
  recover_bytes upload (some bytes) =
      recover_orphan upload (validate_lease_driven_upload coding digester hash bytes input.limits)

  abbrev pub publish_orphan :
      LeaseDrivenUploadRecord
      → Option LeaseDrivenUploadValidation
      → Exec S LeaseError LeaseDrivenNodeUploadResult
  publish_orphan upload (some validation) =
      publish_validated_lease_driven_upload repository scope hash input upload validation none
  publish_orphan upload none = do
    bytes ← repository.read_canonical_bytes scope hash
    recover_bytes upload bytes

  -- A canonical object without a row.
  unfoldable pub upload_orphan :
      Option LeaseDrivenUploadRecord → Exec S LeaseError LeaseDrivenNodeUploadResult
  upload_orphan found = do upload ← first_if_none found; publish_orphan upload upload.validation

  abbrev pub open_upload : Option LeaseDrivenUploadRecord → Exec S LeaseError Opened
  open_upload (some upload) = return (record { upload = upload; calls = 0 })
  open_upload none = do
    active_uploads ← repository.count_lease_driven_uploads scope
    throw_when (leb (or_default input.max_active_uploads default_max_active_uploads) active_uploads)
        (node_op_error 429 upload_limit)
    upload ← create_first
    return (record { upload = upload; calls = 1 })

  -- Nothing has been uploaded yet: an expired session is replaced.
  unfoldable pub await_upload : Opened → Exec S LeaseError LeaseDrivenNodeUploadResult
  await_upload opened =
      if leb opened.upload.expires_at input.now
      then (do
        replacement ←
            lift (create_lease_driven_upload hash input opened.calls opened.upload.rejection)
        replace_lease_driven_upload repository scope hash input (some opened.upload.generation)
            replacement
        discard_temporary repository scope hash input opened.upload.temporary_object_key
        return (awaiting replacement))
      else return (awaiting opened.upload)

  abbrev pub missing_temporary :
      Opened → Option LeaseDrivenUploadValidation → Exec S LeaseError LeaseDrivenNodeUploadResult
  missing_temporary opened (some validation) = throw (node_op_error 503 storage)
  missing_temporary opened none = await_upload opened

  abbrev pub judge_bytes : Opened → Bytes → Verdict → Exec S LeaseError LeaseDrivenNodeUploadResult
  judge_bytes opened bytes (ok validation) = stage_and_publish opened.upload validation (some bytes)
  judge_bytes opened bytes (err rejection) =
      replace_rejected_lease_driven_upload repository scope hash input opened.upload rejection
        opened.calls

  abbrev pub judge_read : Opened → Option Bytes → Exec S LeaseError LeaseDrivenNodeUploadResult
  judge_read opened none = return (awaiting opened.upload)
  judge_read opened (some bytes) =
      judge_bytes opened bytes
        (validate_lease_driven_upload coding digester hash bytes input.limits)

  abbrev pub judge_temporary :
      Opened
      → LeaseDrivenUploadObject
      → Option LeaseDrivenUploadValidation
      → Exec S LeaseError LeaseDrivenNodeUploadResult
  judge_temporary opened temporary (some validation) =
      publish_validated_lease_driven_upload repository scope hash input opened.upload validation
        none
  judge_temporary opened temporary none =
      if ltb (byte_limit input.limits) temporary.stored_bytes
      then replace_rejected_lease_driven_upload repository scope hash input opened.upload
          (record { code = node_too_large_code; message = exceeds_size_limit }) opened.calls
      else do
        bytes ← repository.read_temporary_upload_bytes scope opened.upload.temporary_object_key
        judge_read opened bytes

  abbrev pub judge_upload :
      Opened → Option LeaseDrivenUploadObject → Exec S LeaseError LeaseDrivenNodeUploadResult
  judge_upload opened none = missing_temporary opened opened.upload.validation
  judge_upload opened (some temporary) = judge_temporary opened temporary opened.upload.validation

  unfoldable pub upload_new :
      Option LeaseDrivenUploadRecord → Exec S LeaseError LeaseDrivenNodeUploadResult
  upload_new found = do
    opened ← open_upload found
    temporary ← repository.read_temporary_upload_object scope opened.upload.temporary_object_key
    judge_upload opened temporary

  abbrev pub upload_without_row :
      Option CanonicalOrphanObject
      → Option LeaseDrivenUploadRecord
      → Exec S LeaseError LeaseDrivenNodeUploadResult
  upload_without_row none found = upload_new found
  upload_without_row (some object) found = upload_orphan found

  abbrev renewed : CanonicalNodeLeaseRecord → NodeLeaseRecord
  renewed existing =
      next_node_lease (some existing.lease) (clamp_lease_duration input.lease_duration_ms) input.now

  abbrev pub renew_with_object :
      CanonicalNodeLeaseRecord
      → Option CanonicalOrphanObject
      → Exec S LeaseError LeaseDrivenNodeUploadResult
  renew_with_object existing none = throw (node_op_error 503 storage)
  renew_with_object existing (some object) = do
    repository.canonical.leases.renew_node_lease scope hash (renewed existing)
    return (upload_ready (record { hash = hash; lease = renewed existing }))

  abbrev pub upload_or_renew :
      Option CanonicalNodeLeaseRecord
      → Option CanonicalOrphanObject
      → Exec S LeaseError LeaseDrivenNodeUploadResult
  upload_or_renew (some existing) canonical = renew_with_object existing canonical
  upload_or_renew none canonical = do
    found ← repository.read_lease_driven_upload scope hash
    upload_without_row canonical found

  unfoldable pub lease_driven_node_upload : Exec S LeaseError LeaseDrivenNodeUploadResult
  lease_driven_node_upload = do
    lift (validate_lease_hash hash)
    existing ← repository.canonical.read_canonical_node_lease scope hash
    canonical ← repository.canonical.leases.read_canonical_object scope hash
    upload_or_renew existing canonical
