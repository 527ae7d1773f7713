-- ===== src/Graph/Publish.antt =====
-- The publication of a validated upload, `publishValidatedLeaseDrivenUpload` of
-- packages/service/src/node-lease.ts over the Cloudflare repository: it keeps the graph intact, and
-- a node that it calls ready is there with its lease.
use unicas.Base.{ℕ, ◌≡◌, refl, ap, ◌∙◌, true, Option, none, some, List, [], ◌∷◌}
use unicas.Base.Text.{Text}
use unicas.Base.Table.{find}
use unicas.Base.Exec.{reads, lift}
use unicas.Base.Exec.Rules.{
  Triple-lift, Frame, Frame-bind, Frame-recover, Frame-return, Frame-reads, Ends, Triple,
  Triple-bind, Triple-return, Triple-throw, Triple-reads, Triple-error, Triple-weaken, Triple-Frame,
}
use unicas.Codec.Bytes.{Bytes}
use unicas.Codec.Digest.{hash_to_hex}
use unicas.Store.{Store, NodeRow, StoredObject, LeaseDrivenUploadValidation}
use unicas.Store.Keys.{Scope, NodeKey, node_key_eq}
use unicas.RootRefs.Adapter.{node_key}
use unicas.NodeLease.{NodeLeaseRecord}
use unicas.NodeLease.Types.{
  of_codec, NewNode, CanonicalOrphanObject, LeaseDrivenUploadRecord, LeaseDrivenNodeUploadResult,
  upload_ready, awaiting_upload, awaiting_replacement_upload, validated_awaiting_children,
  LeaseDrivenNodeUploadRepository,
}
use unicas.NodeLease.Driven.{
  UploadInput, bytes_to_store, store_bytes, require_canonical, forget_upload, publish_node,
  publish_unless_waiting, publish_validated_lease_driven_upload, new_lease, children_to_wait_for,
}
use unicas.NodeLease.Adapter.{Bucket, run, orphan_of, recorded_hex, read_canonical_object}
use unicas.NodeLease.Adapter.Commit.{
  new_row, new_node_batch, commit_new_node, commit_uploaded_canonical_node,
}
use unicas.NodeLease.Adapter.Uploads.{read_temporary_upload_bytes, delete_temporary_upload_object}
use unicas.NodeLease.Adapter.Repository.{upload_repository}
use unicas.Graph.{Core, core, IsIntact}
use unicas.Graph.Insert.{uncounted_of, new_node_batch-Intact}
use unicas.Graph.Frames.{delete_temporary_upload_object-Frame, delete_lease_driven_upload-Frame}
use unicas.Graph.Objects.{HasObject, Guarded, Stored, put_verified_canonical_bytes-Triple}
use unicas.Graph.Ready.{HasRows, children_to_wait_for-Triple}

-- The node is ready under the lease.
pub record Leased (key : NodeKey) (lease : NodeLeaseRecord) (c : Core) : Type 0 where
  pub row : NodeRow
  pub object : StoredObject
  pub stored : find key c.objects ≡ some object
  pub found : find key c.nodes ≡ some row
  pub is_ready : row.ready ≡ true
  pub started : row.lease_started_at ≡ lease.lease_started_at
  pub expires : row.lease_expires_at ≡ lease.lease_expires_at

Committed-row :
    (plan : NewNode) (committed_at : ℕ) (o : Option NodeRow)
    → uncounted_of o ≡ some (new_row plan committed_at)
    → (row : NodeRow) × (o ≡ some row)
      × (row.ready ≡ true)
      × (row.lease_started_at ≡ plan.lease.lease_started_at)
      × (row.lease_expires_at ≡ plan.lease.lease_expires_at)
Committed-row plan committed_at none h = cc
Committed-row plan committed_at (some row) h = (row, refl, cc, cc, cc)

-- A read of an object.
abbrev pub Found : NodeKey → Option CanonicalOrphanObject → Core → Type 0
Found key none c = Unit
Found key (some object) c = HasObject key c.objects

module _ (P : Core → Type 0) (scope : Scope) (hash : Text) where
  abbrev key : NodeKey
  key = node_key scope hash

  recorded_hex-Triple :
      (object : StoredObject) (digest : Option Bytes)
      → Triple
          (λ s. P (core s) × (find key s.objects ≡ some object))
          (recorded_hex object digest)
          (λ found s. P (core s) × Found key found (core s))
          (λ s. P (core s))
  recorded_hex-Triple object none = Triple-return _ _ _ _ (λ s (p, h). (p, (object, h)))
  recorded_hex-Triple object (some digest) =
      Triple-bind _ (λ _ s. P (core s) × (find key s.objects ≡ some object)) _ _
        (lift (of_codec (hash_to_hex digest))) _
        (Triple-lift _ _ _ (of_codec (hash_to_hex digest)) (λ hex s p. p) (λ s p. p.0))
        (λ hex. Triple-return _ _ _ _ (λ s (p, h). (p, (object, h))))

  orphan_of-Triple :
      (found : Option StoredObject)
      → Triple
          (λ s. P (core s) × (find key s.objects ≡ found))
          (orphan_of found)
          (λ object s. P (core s) × Found key object (core s))
          (λ s. P (core s))
  orphan_of-Triple none = Triple-return _ _ _ none (λ s p. (p.0, tt))
  orphan_of-Triple (some object) = recorded_hex-Triple object object.sha256

  pub read_canonical_object-Triple :
      Triple
        (λ s. P (core s))
        (read_canonical_object scope hash)
        (λ found s. P (core s) × Found key found (core s))
        (λ s. P (core s))
  unfolding read_canonical_object
  read_canonical_object-Triple =
      Triple-bind _ (λ found s. P (core s) × (find key s.objects ≡ found)) _ _ (reads _) orphan_of
        (Triple-reads _ _ _ _ (λ s p. (p, refl))) orphan_of-Triple

  pub require_canonical-Triple :
      (repository : LeaseDrivenNodeUploadRepository Store) (input : UploadInput)
      (found : Option CanonicalOrphanObject)
      → Triple
          (λ s. P (core s) × Found key found (core s))
          (require_canonical repository scope hash input found)
          (λ _ s. P (core s) × HasObject key s.objects)
          (λ s. P (core s))
  require_canonical-Triple repository input none = Triple-throw _ _ _ _ (λ s p. p.0)
  require_canonical-Triple repository input (some object) = Triple-return _ _ _ tt (λ s p. p)

-- A commit of a new node whose children have rows and whose object is there.
module _ (bucket : Bucket) (committed_at : ℕ) (scope : Scope) (plan : NewNode) where
  abbrev pub IntactBefore : Core → Type 0
  IntactBefore = Stored bucket (HasRows scope plan.refs) (node_key scope plan.hash)

  -- The batch runs on `before`; where it fails, `s` stays.
  pub run-Ends :
      (s before : Store) (batch : Option Store)
      → new_node_batch (node_key scope plan.hash) plan committed_at before ≡ batch
      → IsIntact bucket.digester (core s)
      → IntactBefore (core before)
      → Ends
          (λ _ s.
            IsIntact bucket.digester (core s)
            × Leased (node_key scope plan.hash) plan.lease (core s))
          (λ s. IsIntact bucket.digester (core s))
          (run batch s).0
          (run batch s).1
  run-Ends s before none e kept ((intact, children), object) = kept
  run-Ends s before (some s') e kept ((intact, children), (object, stored)) =
      let (intact', committed, same_objects) =
        new_node_batch-Intact bucket.digester (node_key scope plan.hash) plan committed_at before s'
          intact children (object, stored) e in
      let (row, found, is_ready, started, expires) =
        Committed-row plan committed_at (find (node_key scope plan.hash) s'.nodes) committed in
      (
        intact',
        record {
          row = row;
          object = object;
          stored = ap (find (node_key scope plan.hash)) same_objects ∙ stored;
          found = found;
          is_ready = is_ready;
          started = started;
          expires = expires;
        },
      )

  pub commit_new_node-Triple :
      Triple
        (λ s. IntactBefore (core s))
        (commit_new_node scope plan committed_at)
        (λ _ s.
          IsIntact bucket.digester (core s) × Leased (node_key scope plan.hash) plan.lease (core s))
        (λ s. IsIntact bucket.digester (core s))
  unfolding commit_new_node
  commit_new_node-Triple = record {
    runs = λ s p.
        run-Ends s s (new_node_batch (node_key scope plan.hash) plan committed_at s) refl p.0.0 p;
  }

-- A node that is called ready is there under the lease that is returned.
abbrev pub Outcome : Scope → Text → LeaseDrivenNodeUploadResult → Core → Type 0
Outcome scope hash (upload_ready result) c =
    (result.hash ≡ hash) × Leased (node_key scope hash) result.lease c
Outcome scope hash (awaiting_upload upload) c = Unit
Outcome scope hash (awaiting_replacement_upload upload rejection) c = Unit
Outcome scope hash (validated_awaiting_children child_hashes) c = Unit

module _ (bucket : Bucket) (committed_at : ℕ) (scope : Scope) (hash : Text)
    (input : UploadInput) where
  abbrev repository : LeaseDrivenNodeUploadRepository Store
  repository = upload_repository bucket committed_at

  abbrev pub Safe : LeaseDrivenNodeUploadResult → Store → Type 0
  Safe result s = IsIntact bucket.digester (core s) × Outcome scope hash result (core s)

  bytes_to_store-Frame :
      (given : Option Bytes) (upload : LeaseDrivenUploadRecord)
      → Frame core (bytes_to_store repository scope hash input given upload)
  unfolding read_temporary_upload_bytes
  bytes_to_store-Frame none upload = Frame-reads core _
  bytes_to_store-Frame (some bytes) upload = Frame-return core _

  store_bytes-Triple :
      (N : List (NodeKey × NodeRow) → Type 0) (bytes : Option Bytes)
      → Triple
          (λ s. Guarded bucket N (core s))
          (store_bytes repository scope hash input bytes)
          (λ _ s. Stored bucket N (node_key scope hash) (core s))
          (λ s. Guarded bucket N (core s))
  store_bytes-Triple N (some bytes) = put_verified_canonical_bytes-Triple bucket N scope hash bytes
  store_bytes-Triple N none =
      Triple-bind _ _ _ _ (read_canonical_object scope hash) _
        (read_canonical_object-Triple (Guarded bucket N) scope hash)
        (λ found. require_canonical-Triple (Guarded bucket N) scope hash repository input found)

  forget_upload-Frame :
      (upload : LeaseDrivenUploadRecord)
      → Frame core (forget_upload repository scope hash input upload)
  unfolding forget_upload
  forget_upload-Frame upload =
      Frame-recover core _ _
        (Frame-bind core (delete_temporary_upload_object scope upload.temporary_object_key) _
          (delete_temporary_upload_object-Frame scope upload.temporary_object_key)
          (λ _. delete_lease_driven_upload-Frame scope hash upload.generation))
        (λ _. Frame-return core tt)

  publish_node-Triple :
      (upload : LeaseDrivenUploadRecord) (validation : LeaseDrivenUploadValidation)
      (given : Option Bytes)
      → Triple
          (λ s. Guarded bucket (HasRows scope validation.refs) (core s))
          (publish_node repository scope hash input upload validation given)
          Safe
          (λ s. IsIntact bucket.digester (core s))
  unfolding publish_node commit_uploaded_canonical_node
  publish_node-Triple upload validation given =
      Triple-bind _ (λ _ s. Guarded bucket (HasRows scope validation.refs) (core s)) _ _
        (bytes_to_store repository scope hash input given upload) _
        (Triple-error _ _ _ _ (λ s p. p.0)
          (Triple-Frame core (Guarded bucket (HasRows scope validation.refs)) _
            (bytes_to_store-Frame given upload)))
        (λ bytes.
          Triple-bind _ _ _ _ (store_bytes repository scope hash input bytes) _
            (Triple-error _ _ _ _ (λ s p. p.0)
              (store_bytes-Triple (HasRows scope validation.refs) bytes))
            (λ _.
              Triple-bind _ _ _ _ (commit_new_node scope _ committed_at) _
                (commit_new_node-Triple bucket committed_at scope _)
                (λ _.
                  Triple-bind _ _ _ _ (forget_upload repository scope hash input upload) _
                    (Triple-error _ _ _ _ (λ s p. p.0)
                      (Triple-Frame core
                        (λ c.
                          IsIntact bucket.digester c
                          × Leased (node_key scope hash)
                              (new_lease repository scope hash input).lease c)
                        _ (forget_upload-Frame upload)))
                    (λ _. Triple-return _ _ _ _ (λ s (intact, leased). (intact, (refl, leased)))))))

  publish_unless_waiting-Triple :
      (upload : LeaseDrivenUploadRecord) (validation : LeaseDrivenUploadValidation)
      (given : Option Bytes) (children : List Text)
      → Triple
          (λ s.
            IsIntact bucket.digester (core s)
            × (children ≡ [] → HasRows scope validation.refs s.nodes))
          (publish_unless_waiting repository scope hash input upload validation given children)
          Safe
          (λ s. IsIntact bucket.digester (core s))
  publish_unless_waiting-Triple upload validation given [] =
      Triple-weaken _ _ _ _ _ _ (λ s (p, rows). (p, rows refl)) (λ _ s p. p)
        (publish_node-Triple upload validation given)
  publish_unless_waiting-Triple upload validation given (child ∷ children) =
      Triple-return _ _ _ _ (λ s (p, rows). (p, tt))

  pub publish_validated_lease_driven_upload-Triple :
      (upload : LeaseDrivenUploadRecord) (validation : LeaseDrivenUploadValidation)
      (given : Option Bytes)
      → Triple
          (λ s. IsIntact bucket.digester (core s))
          (publish_validated_lease_driven_upload repository scope hash input upload validation
            given)
          Safe
          (λ s. IsIntact bucket.digester (core s))
  unfolding publish_validated_lease_driven_upload
  publish_validated_lease_driven_upload-Triple upload validation given =
      Triple-bind _ _ _ _ (children_to_wait_for repository scope hash input [] validation.refs) _
        (children_to_wait_for-Triple bucket committed_at scope hash input (IsIntact bucket.digester)
          validation.refs)
        (publish_unless_waiting-Triple upload validation given)
