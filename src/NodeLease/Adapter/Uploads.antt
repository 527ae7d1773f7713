-- ===== src/NodeLease/Adapter/Uploads.antt =====
-- `CloudflareNodeLeaseRepository` of packages/service-cloudflare/src/node-lease.ts: the rows of
-- lease-driven uploads and their temporary objects.
use unicas.Base.{
  ℕ, suc, Bool, true, false, not, ◌&&◌, ◌||◌, Option, none, some, List, [], ◌∷◌, length, Result, ok,
  err, if◌then◌else◌,
}
use unicas.Base.Text.{Text, same}
use unicas.Base.Table.{find, delete, update, upsert}
use unicas.Base.Exec.{reads}
use unicas.Codec.Bytes.{Bytes}
use unicas.Store.{Store, ReservationRow, UploadRow, LeaseDrivenUploadValidation}
use unicas.Store.Keys.{
  Scope, NodeKey, TemporaryKey, same_scope, same_node, node_key_eq, temporary_key_eq, text_eq,
}
use unicas.RootRefs.Adapter.{node_key}
use unicas.NodeLease.Types.{
  LeaseError, database_error, LeaseDrivenUploadRecord, LeaseDrivenUploadObject,
}
use unicas.NodeLease.Adapter.{Action, upsert_reservation}

unfoldable pub read_lease_driven_upload : Scope → Text → Action (Option LeaseDrivenUploadRecord)
read_lease_driven_upload scope hash = reads λ s. elim (find (node_key scope hash) s.uploads) [
  | none ↦ none
  | some row ↦ some (record {
    hash = hash;
    generation = row.generation;
    temporary_object_key = row.temporary_object_key;
    created_at = row.created_at;
    expires_at = row.expires_at;
    cleanup_at = row.cleanup_at;
    rejection = row.rejection;
    validation = row.validation;
  })
]

unfoldable pub count_in_scope : Scope → List (NodeKey × UploadRow) → ℕ
count_in_scope scope [] = 0
count_in_scope scope ((key, row) ∷ rows) =
    let rest = count_in_scope scope rows in if same_scope key.scope scope then suc rest else rest

unfoldable pub count_lease_driven_uploads : Scope → Action ℕ
count_lease_driven_uploads scope = reads λ s. count_in_scope scope s.uploads

abbrev pub upload_row : LeaseDrivenUploadRecord → UploadRow
upload_row upload = record {
  generation = upload.generation;
  temporary_object_key = upload.temporary_object_key;
  created_at = upload.created_at;
  expires_at = upload.expires_at;
  cleanup_at = upload.cleanup_at;
  rejection = upload.rejection;
  validation = upload.validation;
}

-- Another row violates UNIQUE (temporary_object_key).
unfoldable pub upload_taken : NodeKey → Text → List (NodeKey × UploadRow) → Bool
upload_taken key temporary_object_key [] = false
upload_taken key temporary_object_key ((other, row) ∷ rows) =
    not (same_node other key) && same row.temporary_object_key temporary_object_key
    || upload_taken key temporary_object_key rows

-- INSERT ... ON CONFLICT DO NOTHING
unfoldable pub insert_upload : NodeKey → LeaseDrivenUploadRecord → Action Bool
insert_upload key upload s = elim (find key s.uploads) [
  | some row ↦ (ok false, s)
  | none ↦
      if upload_taken key upload.temporary_object_key s.uploads
      then (err database_error, s)
      else (ok true, record s { uploads = (key, upload_row upload) ∷ s.uploads })
]

-- The row of a node in a generation.
unfoldable pub find_generation : NodeKey → Text → List (NodeKey × UploadRow) → Option UploadRow
find_generation key generation rows = elim (find key rows) [
  | none ↦ none
  | some row ↦ if same row.generation generation then some row else none
]

abbrev pub temporary_key : Scope → Text → TemporaryKey
temporary_key scope object_key = record { scope = scope; object_key = object_key }

-- The temporary object of the old generation is queued for its cleanup.
unfoldable pub replace_upload : NodeKey → Text → LeaseDrivenUploadRecord → Action Bool
replace_upload key generation upload s = elim (find_generation key generation s.uploads) [
  | none ↦ (ok false, s)
  | some row ↦
      if upload_taken key upload.temporary_object_key s.uploads then (err database_error, s) else (
        ok true,
        record s {
          cleanups =
              upsert (temporary_key key.scope row.temporary_object_key) row.cleanup_at s.cleanups;
          uploads = update key (λ _. upload_row upload) s.uploads;
        },
      )
]

unfoldable pub replace_lease_driven_upload :
    Scope → Option Text → LeaseDrivenUploadRecord → Action Bool
replace_lease_driven_upload scope none upload = insert_upload (node_key scope upload.hash) upload
replace_lease_driven_upload scope (some generation) upload =
    replace_upload (node_key scope upload.hash) generation upload

abbrev pub staged_with :
    NodeKey
    → LeaseDrivenUploadValidation
    → Option (List (NodeKey × ReservationRow))
    → Store
    → Result LeaseError Bool × Store
staged_with key validation none s = (err database_error, s)
staged_with key validation (some reservations) s = (
  ok true,
  record s {
    uploads =
        update key (λ (row : UploadRow). record row { validation = some validation }) s.uploads;
    reservations = reservations;
  },
)

-- The validation is written and the bytes are reserved until the cleanup.
unfoldable pub stage_lease_driven_upload_validation :
    Scope → Text → Text → LeaseDrivenUploadValidation → Action Bool
stage_lease_driven_upload_validation scope hash generation validation s =
    let key = node_key scope hash in
    elim (find_generation key generation s.uploads) [
      | none ↦ (ok false, s)
      | some row ↦
          let reservation : ReservationRow = record {
            stored_bytes = validation.stored_bytes;
            created_at = row.created_at;
            expires_at = row.cleanup_at;
          } in
          staged_with key validation
            (upsert_reservation key reservation (λ _. reservation) s.reservations) s
    ]

unfoldable pub read_temporary_upload_object : Scope → Text → Action (Option LeaseDrivenUploadObject)
read_temporary_upload_object scope temporary_object_key = reads λ s.
    elim (find temporary_object_key s.temporary_objects) [
      | none ↦ none
      | some bytes ↦ some (record { stored_bytes = length bytes })
    ]

unfoldable pub read_temporary_upload_bytes : Scope → Text → Action (Option Bytes)
read_temporary_upload_bytes scope temporary_object_key =
    reads λ s. find temporary_object_key s.temporary_objects

unfoldable pub delete_temporary_upload_object : Scope → Text → Action (Unit {0})
delete_temporary_upload_object scope temporary_object_key s = (
  ok tt,
  record s {
    temporary_objects = delete temporary_object_key s.temporary_objects;
    cleanups = delete (temporary_key scope temporary_object_key) s.cleanups;
  },
)

abbrev pub delete_if : NodeKey → Option UploadRow → Store → Store
delete_if key none s = s
delete_if key (some row) s = record s { uploads = delete key s.uploads }

unfoldable pub delete_lease_driven_upload : Scope → Text → Text → Action (Unit {0})
delete_lease_driven_upload scope hash generation s =
    let key = node_key scope hash in
    (ok tt, delete_if key (find_generation key generation s.uploads) s)
