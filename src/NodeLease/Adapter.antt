-- ===== src/NodeLease/Adapter.antt =====
-- `CloudflareNodeLeaseRepository` of packages/service-cloudflare/src/node-lease.ts over the tables
-- and the bucket: reads, renewals, objects and upload sessions. Timing and the ready cache, which
-- nothing reads, are left out. A statement fails where a constraint of its table does, a write to the
-- bucket where the checksum of its bytes is not the one asked for. The two unique columns of a table
-- are unique among the rows of other nodes: identifiers are not used twice for one node.
pub mod Commit
pub mod Uploads
pub mod Cleanup
pub mod Repository
use unicas.Base.{
  ℕ, Bool, true, false, not, ◌&&◌, ◌||◌, Option, none, some, List, [], ◌∷◌, take, length, leb, ◌==◌,
  if◌then◌else◌, ◌≡◌, flatten, map, sort_by, Result, ok, err,
}
use unicas.Base.Text.{Text, same}
use unicas.Base.Table.{find, delete, update, upsert}
use unicas.Base.Exec.{Exec, return, throw, lift, reads, ◌>>=◌, ◌>>◌, throw_when}
use unicas.Codec.Bytes.{Bytes}
use unicas.Codec.Host.{Digester}
use unicas.Codec.Digest.{hash_to_hex}
use unicas.Store.{Store, NodeRow, ReservationRow, EdgeRow, SessionRow, StoredObject}
use unicas.Store.Keys.{Scope, NodeKey, same_node, node_key_eq}
use unicas.RootRefs.Adapter.{node_key}
use unicas.NodeLease.{NodeLeaseRecord}
use unicas.NodeLease.Types.{
  LeaseError, database_error, checksum_mismatch, object_conflict, of_codec, CanonicalOrphanObject,
  CanonicalNodeLeaseRecord, CanonicalUploadReservation, CanonicalDirectUploadSession,
}
use unicas.NodeLease.Driven.{has_digest}

-- What the adapter takes from its bucket: SHA-256, the chunks in which it yields bytes, and whether a
-- conditional write of a key that is there compares the checksum before it answers null.
pub record Bucket : Type 0 where
  pub digester : Digester
  pub chunked : Bytes → List Bytes
  pub flatten_chunked : (bytes : Bytes) → flatten (chunked bytes) ≡ bytes
  pub checksum_first : Bool

abbrev pub Action : Type 0 → Type 0
Action A = Exec Store LeaseError A

-- A statement or a batch of statements: `none` is a constraint that fails.
abbrev pub run : Option Store → Store → Result LeaseError (Unit {0}) × Store
run none s = (err database_error, s)
run (some s') s = (ok tt, s')

abbrev pub lease_record : NodeRow → NodeLeaseRecord
lease_record row = record {
  lease_started_at = row.lease_started_at;
  lease_expires_at = row.lease_expires_at;
}

-- WHERE ... AND ready = 1
unfoldable pub ready_row : NodeKey → List (NodeKey × NodeRow) → Option NodeRow
ready_row key nodes = elim (find key nodes) [
  | none ↦ none
  | some row ↦ if row.ready then some row else none
]

unfoldable pub read_node_lease : Scope → Text → Action (Option NodeLeaseRecord)
read_node_lease scope hash = reads λ s. elim (ready_row (node_key scope hash) s.nodes) [
  | none ↦ none
  | some row ↦ some (lease_record row)
]

unfoldable pub read_canonical_node_lease : Scope → Text → Action (Option CanonicalNodeLeaseRecord)
read_canonical_node_lease scope hash = reads λ s. elim (ready_row (node_key scope hash) s.nodes) [
  | none ↦ none
  | some row ↦ some (record {
    lease = lease_record row;
    content_size = row.content_size;
    content_type = row.content_type;
  })
]

unfoldable pub edges_of : NodeKey → List EdgeRow → List EdgeRow
edges_of parent [] = []
edges_of parent (edge ∷ edges) =
    let rest = edges_of parent edges in if same_node edge.parent parent then edge ∷ rest else rest

unfoldable pub read_node_refs : Scope → Text → Action (List Text)
read_node_refs scope hash = reads λ s.
    map (λ (edge : EdgeRow). edge.child)
      (sort_by (λ (a b : EdgeRow). leb a.ordinal b.ordinal)
        (edges_of (node_key scope hash) s.edges))

abbrev pub recorded_hex : StoredObject → Option Bytes → Action (Option CanonicalOrphanObject)
recorded_hex object none =
    return (some (record { stored_bytes = length object.bytes; sha256_hex = none }))
recorded_hex object (some digest) = do
  hex ← lift (of_codec (hash_to_hex digest))
  return (some (record { stored_bytes = length object.bytes; sha256_hex = some hex }))

abbrev pub orphan_of : Option StoredObject → Action (Option CanonicalOrphanObject)
orphan_of none = return none
orphan_of (some object) = recorded_hex object object.sha256

unfoldable pub read_canonical_object : Scope → Text → Action (Option CanonicalOrphanObject)
read_canonical_object scope hash = do
  object ← reads (λ s. find (node_key scope hash) s.objects)
  orphan_of object

unfoldable pub read_canonical_bytes : Scope → Text → Action (Option Bytes)
read_canonical_bytes scope hash = reads λ s. elim (find (node_key scope hash) s.objects) [
  | none ↦ none
  | some object ↦ some object.bytes
]

unfoldable pub read_canonical_prefix : Bucket → Scope → Text → ℕ → Action (Option (List Bytes))
read_canonical_prefix bucket scope hash prefix_length = reads λ s.
    elim (find (node_key scope hash) s.objects) [
      | none ↦ none
      | some object ↦ some (bucket.chunked (take prefix_length object.bytes))
    ]

abbrev pub is_some {ℓ} : {A : Type ℓ} → Option A → Bool
is_some none = false
is_some (some value) = true

-- The row and the object are there.
unfoldable pub has_ready_node : Scope → Text → Store → Bool
has_ready_node scope hash s =
    is_some (ready_row (node_key scope hash) s.nodes)
    && is_some (find (node_key scope hash) s.objects)

unfoldable pub is_node_ready : Scope → Text → Action Bool
is_node_ready scope hash = reads (has_ready_node scope hash)

unfoldable pub renew_node_lease : Scope → Text → NodeLeaseRecord → Action (Unit {0})
renew_node_lease scope hash lease s = (
  ok tt,
  record s {
    nodes =
        update (node_key scope hash)
          (λ (row : NodeRow). record row {
            lease_started_at = lease.lease_started_at;
            lease_expires_at = lease.lease_expires_at;
          })
          s.nodes;
  },
)

-- INSERT ... ON CONFLICT DO UPDATE SET some columns of a reservation. CHECK (stored_bytes > 0).
unfoldable pub upsert_reservation :
    NodeKey
    → ReservationRow
    → (ReservationRow → ReservationRow)
    → List (NodeKey × ReservationRow)
    → Option (List (NodeKey × ReservationRow))
upsert_reservation key row set_columns rows =
    if row.stored_bytes == 0
    then none
    else some (upsert key (elim (find key rows) [ none ↦ row | some old ↦ set_columns old ]) rows)

abbrev pub with_reservations : Option (List (NodeKey × ReservationRow)) → Store → Option Store
with_reservations none s = none
with_reservations (some rows) s = some (record s { reservations = rows })

unfoldable pub reserve_canonical_upload : Scope → CanonicalUploadReservation → Action (Unit {0})
reserve_canonical_upload scope reservation s =
    run
      (with_reservations
        (upsert_reservation (node_key scope reservation.hash)
          (record {
            stored_bytes = reservation.stored_bytes;
            created_at = reservation.created_at;
            expires_at = reservation.expires_at;
          })
          (λ (old : ReservationRow). record old {
            stored_bytes = reservation.stored_bytes;
            expires_at = reservation.expires_at;
          })
          s.reservations)
        s)
      s

unfoldable pub read_canonical_upload_session :
    Scope → Text → Action (Option CanonicalDirectUploadSession)
read_canonical_upload_session scope hash = reads λ s. elim (find (node_key scope hash) s.sessions) [
  | none ↦ none
  | some row ↦ some (record {
    hash = hash;
    upload_id = row.upload_id;
    temporary_object_key = row.temporary_object_key;
    stored_bytes = row.stored_bytes;
    lease_duration_ms = row.lease_duration_ms;
    created_at = row.created_at;
    expires_at = row.expires_at;
  })
]

-- Another row violates UNIQUE (upload_id) or UNIQUE (temporary_object_key).
unfoldable pub session_taken : NodeKey → SessionRow → List (NodeKey × SessionRow) → Bool
session_taken key row [] = false
session_taken key row ((other, held) ∷ rows) =
    not (same_node other key)
      && (same held.upload_id row.upload_id
          || same held.temporary_object_key row.temporary_object_key)
    || session_taken key row rows

-- The row of the session, under its constraints.
unfoldable pub upsert_session :
    NodeKey → SessionRow → List (NodeKey × SessionRow) → Option (List (NodeKey × SessionRow))
upsert_session key row rows =
    if row.stored_bytes == 0 || (row.lease_duration_ms == 0 || session_taken key row rows)
    then none
    else some (upsert key row rows)

abbrev pub session_row : CanonicalDirectUploadSession → SessionRow
session_row session = record {
  upload_id = session.upload_id;
  temporary_object_key = session.temporary_object_key;
  stored_bytes = session.stored_bytes;
  lease_duration_ms = session.lease_duration_ms;
  created_at = session.created_at;
  expires_at = session.expires_at;
}

abbrev pub with_session :
    Option (List (NodeKey × SessionRow))
    → Option (List (NodeKey × ReservationRow))
    → Store
    → Option Store
with_session none reservations s = none
with_session (some sessions) none s = none
with_session (some sessions) (some reservations) s =
    some (record s { sessions = sessions; reservations = reservations })

unfoldable pub reserve_canonical_upload_session :
    Scope → CanonicalDirectUploadSession → Action (Unit {0})
reserve_canonical_upload_session scope session s =
    let key = node_key scope session.hash in
    let reservation : ReservationRow = record {
      stored_bytes = session.stored_bytes;
      created_at = session.created_at;
      expires_at = session.expires_at;
    } in
    run
      (with_session (upsert_session key (session_row session) s.sessions)
        (upsert_reservation key reservation (λ _. reservation) s.reservations) s)
      s

abbrev session_matches : Text → Option SessionRow → Bool
session_matches upload_id none = false
session_matches upload_id (some row) = same row.upload_id upload_id

unfoldable pub delete_canonical_upload_session : Scope → Text → Text → Action (Unit {0})
delete_canonical_upload_session scope hash upload_id s =
    let key = node_key scope hash in
    if session_matches upload_id (find key s.sessions)
    then (
      ok tt,
      record s { reservations = delete key s.reservations; sessions = delete key s.sessions },
    )
    else (ok tt, s)

-- The write for a key with `found` there, of bytes that have the checksum or not.
abbrev pub put_at : Bucket → NodeKey → Bytes → Bool → Option StoredObject → Action Bool
put_at bucket key bytes true none s = (
  ok true,
  record s {
    objects =
        (key, record { bytes = bytes; sha256 = some (bucket.digester.sha256 bytes) }) ∷ s.objects;
  },
)
put_at bucket key bytes false none s = (err checksum_mismatch, s)
put_at bucket key bytes matches (some object) s =
    if bucket.checksum_first && not matches then (err checksum_mismatch, s) else (ok false, s)

-- A conditional `put` under a checksum: whether the bytes were stored. With a key that is there it
-- answers null.
unfoldable pub put_object : Bucket → NodeKey → Text → Bytes → Action Bool
put_object bucket key hash bytes s =
    put_at bucket key bytes (has_digest bucket.digester bytes hash) (find key s.objects) s

abbrev pub check_object : Bucket → Text → Option Bytes → Action (Unit {0})
check_object bucket hash none = throw object_conflict
check_object bucket hash (some bytes) =
    throw_when (not (has_digest bucket.digester bytes hash)) object_conflict

-- Null is answered for the same bytes and for other bytes.
abbrev pub verify_existing : Bucket → Scope → Text → Bool → Action (Unit {0})
verify_existing bucket scope hash stored =
    if stored
    then return tt
    else do existing ← read_canonical_bytes scope hash; check_object bucket hash existing

unfoldable pub put_verified_canonical_bytes : Bucket → Scope → Text → Bytes → Action (Unit {0})
put_verified_canonical_bytes bucket scope hash bytes = do
  stored ← put_object bucket (node_key scope hash) hash bytes
  verify_existing bucket scope hash stored

-- The body is stored as it streams in; an error is logged and thrown on.
unfoldable pub put_canonical_object : Bucket → Scope → Text → List Bytes → Action (Unit {0})
put_canonical_object bucket scope hash body = do
  stored ← put_object bucket (node_key scope hash) hash (flatten body)
  verify_existing bucket scope hash stored
