-- ===== src/NodeLease/Ready.antt =====
-- packages/service/src/node-lease.ts: `leaseReadyNode` renews the lease of a ready node, or adopts a
-- canonical object without a row. `now` is what its clock reads.
use unicas.Base.{
  ℕ, ◌+◌, ◌*◌, min, Bool, not, ◌||◌, Option, none, some, List, [], ◌∷◌, Result, ok, err, ltb,
}
use unicas.Base.Text.{Text, same}
use unicas.Base.Exec.{Exec, return, throw, lift, recover, ◌>>=◌, ◌>>◌, throw_when}
use unicas.Codec.Bytes.{Bytes}
use unicas.Codec.Host.{TextCoding}
use unicas.Codec.Binary.{header_size, max_content_type_length, hash_size}
use unicas.Codec.Validation.{CanonicalNodeLimits, validate_hash}
use unicas.Codec.Stream.{ParsedCanonicalNodeStream, parse_canonical_node_stream}
use unicas.Store.Keys.{Scope}
use unicas.NodeLease.{NodeLeaseRecord, max_lease_ms, next_node_lease}
use unicas.NodeLease.Types.{
  LeaseError, node_op_error, node_disappeared, invalid_request, not_found, not_ready, conflict,
  of_codec, byte_limit, ref_limit, CanonicalOrphanObject, CasLeaseResult, NodeLeaseRepository,
}

abbrev refuse_hash : Result LeaseError (Unit {0}) → Result LeaseError (Unit {0})
refuse_hash (ok _) = ok tt
refuse_hash (err _) = err (node_op_error 400 invalid_request)

unfoldable pub validate_lease_hash : Text → Result LeaseError (Unit {0})
validate_lease_hash hash = refuse_hash (of_codec (validate_hash hash))

abbrev prefix_limit : CanonicalNodeLimits → ℕ
prefix_limit limits = header_size + max_content_type_length + ref_limit limits * hash_size

abbrev recorded_as : Option Text → Text → Bool
recorded_as none hash = Bool.false
recorded_as (some recorded) hash = same recorded hash

-- The object is missing, larger than a node may be, or not recorded under its hash.
abbrev pub is_unusable : Option CanonicalOrphanObject → CanonicalNodeLimits → Text → Bool
is_unusable none limits hash = Bool.true
is_unusable (some object) limits hash =
    ltb (byte_limit limits) object.stored_bytes || not (recorded_as object.sha256_hex hash)

abbrev pub object_bytes : Option CanonicalOrphanObject → ℕ
object_bytes none = 0
object_bytes (some object) = object.stored_bytes

module _ {S : Type 0} (coding : TextCoding) (repository : NodeLeaseRepository S) (scope : Scope)
    (limits : CanonicalNodeLimits) where
  abbrev pub parse_found : Option (List Bytes) → ℕ → Exec S LeaseError ParsedCanonicalNodeStream
  parse_found none stored_bytes = throw node_disappeared
  parse_found (some source) stored_bytes =
      lift (of_codec (parse_canonical_node_stream coding source (some stored_bytes) limits))

  unfoldable pub inspect_canonical_node : Text → ℕ → Exec S LeaseError ParsedCanonicalNodeStream
  inspect_canonical_node hash stored_bytes = do
    found ← repository.read_canonical_prefix scope hash (min stored_bytes (prefix_limit limits))
    parse_found found stored_bytes

module _ {S : Type 0} (repository : NodeLeaseRepository S) (scope : Scope) where
  -- The loop that refuses a child that is not ready.
  unfoldable pub check_children : List Text → Exec S LeaseError (Unit {0})
  check_children [] = return tt
  check_children (child_hash ∷ refs) = do
    is_ready ← repository.is_node_ready scope child_hash
    throw_when (not is_ready) (node_op_error 409 not_ready)
    check_children refs

  -- A node with a row.
  unfoldable pub renew_existing : Text → ℕ → ℕ → NodeLeaseRecord → Exec S LeaseError CasLeaseResult
  renew_existing hash lease_duration_ms now existing = do
    is_ready ← repository.is_node_ready scope hash
    throw_when (not is_ready) (node_op_error 409 not_ready)
    repository.renew_node_lease scope hash (next_node_lease (some existing) lease_duration_ms now)
    return (record { hash = hash; lease = next_node_lease (some existing) lease_duration_ms now })

module _ {S : Type 0} (coding : TextCoding) (repository : NodeLeaseRepository S) (scope : Scope)
    (hash : Text) (lease_duration_ms : ℕ) (limits : CanonicalNodeLimits) (now : ℕ) where
  -- A canonical object without a row.
  unfoldable pub adopt_orphan : Exec S LeaseError CasLeaseResult
  adopt_orphan = do
    object ← repository.read_canonical_object scope hash
    throw_when (is_unusable object limits hash) (node_op_error 404 not_found)
    parsed ←
        recover (inspect_canonical_node coding repository scope limits hash (object_bytes object))
          (λ _. throw (node_op_error 409 conflict))
    check_children repository scope parsed.refs
    repository.commit_adopted_canonical_node scope (record {
      hash = hash;
      content_size = parsed.content_size;
      content_type = parsed.content_type;
      refs = parsed.refs;
      stored_bytes = object_bytes object;
      lease = next_node_lease none lease_duration_ms now;
      reservation_created_at = now;
      reservation_expires_at = now + max_lease_ms;
    })
    return (record { hash = hash; lease = next_node_lease none lease_duration_ms now })

  abbrev pub renew_or_adopt : Option NodeLeaseRecord → Exec S LeaseError CasLeaseResult
  renew_or_adopt none = adopt_orphan
  renew_or_adopt (some existing) =
      renew_existing repository scope hash lease_duration_ms now existing

  unfoldable pub lease_ready_node : Exec S LeaseError CasLeaseResult
  lease_ready_node = do
    lift (validate_lease_hash hash)
    existing ← repository.read_node_lease scope hash
    renew_or_adopt existing
