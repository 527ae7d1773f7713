-- ===== src/Graph/Upload.antt =====
-- `leaseDrivenNodeUpload` of packages/service/src/node-lease.ts over the Cloudflare repository: it
-- keeps the graph intact, and a node that it calls ready is there with its lease.
use unicas.Base.{ℕ, ◌≡◌, refl, not, Option, none, some, ok, err, leb}
use unicas.Base.Text.{Text}
use unicas.Base.Exec.{Exec, reads, return, lift, throw_when, ◌>>=◌}
use unicas.Base.Exec.Rules.{
  Frame, Frame-bind, Frame-recover, Frame-return, Frame-reads, Frame-lift, Frame-throw_when, Triple,
  Triple-bind, Triple-return, Triple-throw, Triple-if, Triple-error, Triple-weaken, Triple-Frame,
}
use unicas.Codec.Bytes.{Bytes}
use unicas.Codec.Host.{TextCoding}
use unicas.Store.{Store, LeaseDrivenUploadValidation, SpaceNodeUploadRejection}
use unicas.Store.Keys.{Scope, node_key_eq}
use unicas.RootRefs.Adapter.{node_key}
use unicas.NodeLease.{NodeLeaseRecord, next_node_lease, clamp_lease_duration}
use unicas.NodeLease.Types.{
  LeaseError, CanonicalOrphanObject, CanonicalNodeLeaseRecord, LeaseDrivenUploadRecord,
  LeaseDrivenUploadObject, LeaseDrivenNodeUploadResult, LeaseDrivenNodeUploadRepository,
}
use unicas.NodeLease.Ready.{validate_lease_hash}
use unicas.NodeLease.Driven.{
  UploadInput, Verdict, validate_lease_driven_upload, create_lease_driven_upload,
  replace_lease_driven_upload, discard_temporary, replace_rejected_lease_driven_upload, awaiting,
  stage,
}
use unicas.NodeLease.Upload.{
  Opened, stage_and_publish, create_first, first_if_none, recover_orphan, recover_bytes,
  publish_orphan, upload_orphan, open_upload, await_upload, missing_temporary, judge_bytes,
  judge_read, judge_temporary, judge_upload, upload_new, upload_without_row, renew_with_object,
  upload_or_renew, lease_driven_node_upload,
}
use unicas.NodeLease.Adapter.{
  Bucket, read_canonical_object, read_canonical_bytes, renew_node_lease, read_canonical_node_lease,
}
use unicas.NodeLease.Adapter.Uploads.{
  count_lease_driven_uploads, read_lease_driven_upload, read_temporary_upload_object,
  read_temporary_upload_bytes,
}
use unicas.NodeLease.Adapter.Repository.{upload_repository}
use unicas.Graph.{core, IsIntact}
use unicas.Graph.Frames.{
  replace_lease_driven_upload-Frame, stage_lease_driven_upload_validation-Frame,
  delete_temporary_upload_object-Frame,
}
use unicas.Graph.Renew.{ReadyRow, Known, read_canonical_node_lease-Triple, renew_node_lease-Triple}
use unicas.Graph.Publish.{
  Found, Safe, read_canonical_object-Triple, publish_validated_lease_driven_upload-Triple,
}

module _ (coding : TextCoding) (bucket : Bucket) (committed_at : ℕ) (scope : Scope) (hash : Text)
    (input : UploadInput) where
  abbrev repository : LeaseDrivenNodeUploadRepository Store
  repository = upload_repository bucket committed_at

  abbrev Held : Store → Type 0
  Held s = IsIntact bucket.digester (core s)

  abbrev Keeps : Exec Store LeaseError LeaseDrivenNodeUploadResult → Type 0
  Keeps m = Triple Held m (Safe bucket committed_at scope hash input) Held

  -- A step that leaves the graph as it is, before one that keeps it.
  after-Frame :
      {A : Type 0} (m : Exec Store LeaseError A)
      (next : A → Exec Store LeaseError LeaseDrivenNodeUploadResult)
      → Frame core m
      → ((value : A) → Keeps (next value))
      → Keeps (m >>= next)
  after-Frame m next h k =
      Triple-bind _ (λ _ s. Held s) _ _ m next (Triple-Frame core (IsIntact bucket.digester) m h) k

  replace-Frame :
      (expected : Option Text) (upload : LeaseDrivenUploadRecord)
      → Frame core (replace_lease_driven_upload repository scope hash input expected upload)
  unfolding replace_lease_driven_upload
  replace-Frame expected upload =
      Frame-bind core _ _ (replace_lease_driven_upload-Frame scope expected upload)
        (λ replaced. Frame-throw_when core (not replaced) _)

  discard-Frame :
      (temporary_object_key : Text)
      → Frame core (discard_temporary repository scope hash input temporary_object_key)
  unfolding discard_temporary
  discard-Frame temporary_object_key =
      Frame-recover core _ _ (delete_temporary_upload_object-Frame scope temporary_object_key)
        (λ _. Frame-return core tt)

  stage_and_publish-Keeps :
      (upload : LeaseDrivenUploadRecord) (validation : LeaseDrivenUploadValidation)
      (given : Option Bytes)
      → Keeps (
          stage_and_publish coding bucket.digester repository scope hash input upload validation
            given)
  unfolding stage
  stage_and_publish-Keeps upload validation given =
      after-Frame (stage repository scope hash input upload validation) _
        (Frame-bind core _ _
          (stage_lease_driven_upload_validation-Frame scope hash upload.generation validation)
          (λ staged. Frame-throw_when core (not staged) _))
        (λ _.
          publish_validated_lease_driven_upload-Triple bucket committed_at scope hash input
            (record upload { validation = some validation }) validation given)

  replace_rejected-Keeps :
      (upload : LeaseDrivenUploadRecord) (rejection : SpaceNodeUploadRejection) (calls : ℕ)
      → Keeps
          (replace_rejected_lease_driven_upload repository scope hash input upload rejection calls)
  unfolding replace_rejected_lease_driven_upload
  replace_rejected-Keeps upload rejection calls =
      after-Frame (lift (create_lease_driven_upload hash input calls (some rejection))) _
        (Frame-lift core _)
        (λ replacement. after-Frame _ _ (replace-Frame (some upload.generation) replacement) (λ _.
          after-Frame _ _ (discard-Frame upload.temporary_object_key)
            (λ _. Triple-return _ _ _ _ (λ s p. (p, tt)))))

  create_first-Frame : Frame core (create_first coding bucket.digester repository scope hash input)
  unfolding create_first
  create_first-Frame =
      Frame-bind core (lift (create_lease_driven_upload hash input 0 none)) _ (Frame-lift core _)
        (λ upload. Frame-bind core _ _ (replace-Frame none upload) (λ _. Frame-return core upload))

  -- A canonical object without a row.
  recover_orphan-Keeps :
      (upload : LeaseDrivenUploadRecord) (verdict : Verdict)
      → Keeps (recover_orphan coding bucket.digester repository scope hash input upload verdict)
  recover_orphan-Keeps upload (ok validation) = stage_and_publish-Keeps upload validation none
  recover_orphan-Keeps upload (err rejection) = Triple-throw _ _ _ _ (λ s p. p)

  recover_bytes-Keeps :
      (upload : LeaseDrivenUploadRecord) (bytes : Option Bytes)
      → Keeps (recover_bytes coding bucket.digester repository scope hash input upload bytes)
  recover_bytes-Keeps upload none = Triple-throw _ _ _ _ (λ s p. p)
  recover_bytes-Keeps upload (some bytes) =
      recover_orphan-Keeps upload
        (validate_lease_driven_upload coding bucket.digester hash bytes input.limits)

  publish_orphan-Keeps :
      (upload : LeaseDrivenUploadRecord) (validation : Option LeaseDrivenUploadValidation)
      → Keeps (publish_orphan coding bucket.digester repository scope hash input upload validation)
  unfolding read_canonical_bytes
  publish_orphan-Keeps upload (some validation) =
      publish_validated_lease_driven_upload-Triple bucket committed_at scope hash input upload
        validation none
  publish_orphan-Keeps upload none =
      after-Frame (reads _) _ (Frame-reads core _) (recover_bytes-Keeps upload)

  first_if_none-Frame :
      (found : Option LeaseDrivenUploadRecord)
      → Frame core (first_if_none coding bucket.digester repository scope hash input found)
  first_if_none-Frame none = create_first-Frame
  first_if_none-Frame (some upload) = Frame-return core upload

  upload_orphan-Keeps :
      (found : Option LeaseDrivenUploadRecord)
      → Keeps (upload_orphan coding bucket.digester repository scope hash input found)
  unfolding upload_orphan
  upload_orphan-Keeps found =
      after-Frame _ _ (first_if_none-Frame found)
        (λ upload. publish_orphan-Keeps upload upload.validation)

  awaiting-Safe :
      (upload : LeaseDrivenUploadRecord) (rejection : Option SpaceNodeUploadRejection) (s : Store)
      → upload.rejection ≡ rejection
      → Held s
      → Safe bucket committed_at scope hash input (awaiting upload) s
  awaiting-Safe upload none s e p = rw e (p, tt)
  awaiting-Safe upload (some rejection) s e p = rw e (p, tt)

  awaiting-Keeps : (upload : LeaseDrivenUploadRecord) → Keeps (return (awaiting upload))
  awaiting-Keeps upload =
      Triple-return _ _ _ _ (λ s p. awaiting-Safe upload upload.rejection s refl p)

  -- A new upload.
  open_upload-Frame :
      (found : Option LeaseDrivenUploadRecord)
      → Frame core (open_upload coding bucket.digester repository scope hash input found)
  unfolding count_lease_driven_uploads
  open_upload-Frame (some upload) = Frame-return core _
  open_upload-Frame none = Frame-bind core (reads _) _ (Frame-reads core _) (λ active.
      Frame-bind core (throw_when _ _) _ (Frame-throw_when core _ _)
        (λ _. Frame-bind core _ _ create_first-Frame (λ upload. Frame-return core _)))

  await_upload-Keeps :
      (opened : Opened)
      → Keeps (await_upload coding bucket.digester repository scope hash input opened)
  unfolding await_upload
  await_upload-Keeps opened =
      Triple-if _ _ _ (leb opened.upload.expires_at input.now) _ _
        (after-Frame
          (lift (create_lease_driven_upload hash input opened.calls opened.upload.rejection)) _
          (Frame-lift core _)
          (λ replacement.
            after-Frame _ _ (replace-Frame (some opened.upload.generation) replacement) (λ _.
              after-Frame _ _ (discard-Frame opened.upload.temporary_object_key)
                (λ _. awaiting-Keeps replacement))))
        (awaiting-Keeps opened.upload)

  judge_bytes-Keeps :
      (opened : Opened) (bytes : Bytes) (verdict : Verdict)
      → Keeps (judge_bytes coding bucket.digester repository scope hash input opened bytes verdict)
  judge_bytes-Keeps opened bytes (ok validation) =
      stage_and_publish-Keeps opened.upload validation (some bytes)
  judge_bytes-Keeps opened bytes (err rejection) =
      replace_rejected-Keeps opened.upload rejection opened.calls

  judge_read-Keeps :
      (opened : Opened) (bytes : Option Bytes)
      → Keeps (judge_read coding bucket.digester repository scope hash input opened bytes)
  judge_read-Keeps opened none = awaiting-Keeps opened.upload
  judge_read-Keeps opened (some bytes) =
      judge_bytes-Keeps opened bytes
        (validate_lease_driven_upload coding bucket.digester hash bytes input.limits)

  judge_temporary-Keeps :
      (opened : Opened) (temporary : LeaseDrivenUploadObject)
      (validation : Option LeaseDrivenUploadValidation)
      → Keeps (
          judge_temporary coding bucket.digester repository scope hash input opened temporary
            validation)
  unfolding read_temporary_upload_bytes
  judge_temporary-Keeps opened temporary (some validation) =
      publish_validated_lease_driven_upload-Triple bucket committed_at scope hash input
        opened.upload validation none
  judge_temporary-Keeps opened temporary none =
      Triple-if _ _ _ _ _ _ (replace_rejected-Keeps opened.upload _ opened.calls)
        (after-Frame (reads _) _ (Frame-reads core _) (judge_read-Keeps opened))

  judge_upload-Keeps :
      (opened : Opened) (temporary : Option LeaseDrivenUploadObject)
      → Keeps (judge_upload coding bucket.digester repository scope hash input opened temporary)
  judge_upload-Keeps opened none = missing-Keeps opened opened.upload.validation
    where
      missing-Keeps :
          (opened : Opened) (validation : Option LeaseDrivenUploadValidation)
          → Keeps (
              missing_temporary coding bucket.digester repository scope hash input opened
                validation)
      missing-Keeps opened (some validation) = Triple-throw _ _ _ _ (λ s p. p)
      missing-Keeps opened none = await_upload-Keeps opened
  judge_upload-Keeps opened (some temporary) =
      judge_temporary-Keeps opened temporary opened.upload.validation

  upload_new-Keeps :
      (found : Option LeaseDrivenUploadRecord)
      → Keeps (upload_new coding bucket.digester repository scope hash input found)
  unfolding upload_new read_temporary_upload_object
  upload_new-Keeps found =
      after-Frame _ _ (open_upload-Frame found)
        (λ opened. after-Frame (reads _) _ (Frame-reads core _) (judge_upload-Keeps opened))

  -- A node with a row.
  abbrev lease_after : CanonicalNodeLeaseRecord → NodeLeaseRecord
  lease_after existing =
      next_node_lease (some existing.lease) (clamp_lease_duration input.lease_duration_ms) input.now

  renew_with_object-Keeps :
      (existing : CanonicalNodeLeaseRecord) (canonical : Option CanonicalOrphanObject)
      → Triple
          (λ s.
            (Held s × ReadyRow (node_key scope hash) (core s))
            × Found (node_key scope hash) canonical (core s))
          (renew_with_object coding bucket.digester repository scope hash input existing canonical)
          (Safe bucket committed_at scope hash input)
          Held
  renew_with_object-Keeps existing none = Triple-throw _ _ _ _ (λ s p. p.0.0)
  renew_with_object-Keeps existing (some object) =
      Triple-bind _ _ _ _ (renew_node_lease scope hash (lease_after existing)) _
        (renew_node_lease-Triple bucket scope hash (lease_after existing))
        (λ _. Triple-return _ _ _ _ (λ s (intact, leased). (intact, (refl, leased))))

  upload_without_row-Keeps :
      (canonical : Option CanonicalOrphanObject) (found : Option LeaseDrivenUploadRecord)
      → Keeps
          (upload_without_row coding bucket.digester repository scope hash input canonical found)
  upload_without_row-Keeps none found = upload_new-Keeps found
  upload_without_row-Keeps (some object) found = upload_orphan-Keeps found

  upload_or_renew-Keeps :
      (existing : Option CanonicalNodeLeaseRecord) (canonical : Option CanonicalOrphanObject)
      → Triple
          (λ s.
            (Held s × Known (node_key scope hash) existing (core s))
            × Found (node_key scope hash) canonical (core s))
          (upload_or_renew coding bucket.digester repository scope hash input existing canonical)
          (Safe bucket committed_at scope hash input)
          Held
  unfolding read_lease_driven_upload
  upload_or_renew-Keeps (some existing) canonical = renew_with_object-Keeps existing canonical
  upload_or_renew-Keeps none canonical =
      Triple-weaken _ _ _ _ _ _ (λ s p. p.0.0) (λ _ s p. p)
        (after-Frame (reads _) _ (Frame-reads core _) (upload_without_row-Keeps canonical))

  -- From a store whose graph is intact, a call of the upload step leaves it intact, whether it
  -- returns or throws; and a node that it calls ready has a ready row with the lease that it returns
  -- and an object.
  pub lease_driven_node_upload-Safe :
      Triple
        (λ s. IsIntact bucket.digester (core s))
        (lease_driven_node_upload coding bucket.digester
          (upload_repository bucket committed_at)
          scope
          hash
          input)
        (Safe bucket committed_at scope hash input)
        (λ s. IsIntact bucket.digester (core s))
  unfolding lease_driven_node_upload
  lease_driven_node_upload-Safe =
      after-Frame (lift (validate_lease_hash hash)) _ (Frame-lift core _) (λ _.
        Triple-bind _ _ _ _ (read_canonical_node_lease scope hash) _
          (read_canonical_node_lease-Triple (IsIntact bucket.digester) scope hash)
          (λ existing.
            Triple-bind _ _ _ _ (read_canonical_object scope hash) _
              (Triple-error _ _ _ _ (λ s p. p.0)
                (read_canonical_object-Triple
                  (λ c. IsIntact bucket.digester c × Known (node_key scope hash) existing c) scope
                  hash))
              (λ canonical. upload_or_renew-Keeps existing canonical)))
