-- ===== src/NodeLease/Canonical.antt =====
-- packages/service/src/node-lease.ts: the upload of a canonical node in three steps, and
-- `leaseCanonicalNode`, which composes them. What is left of a body that is not read is cancelled,
-- which is not modelled. A step that reads its clock at most once has it as `now`.
use unicas.Base.{
  ℕ, ◌+◌, Bool, true, false, not, ◌&&◌, ◌||◌, Option, none, some, List, [], ◌∷◌, ltb, ◌==◌,
  if◌then◌else◌,
}
use unicas.Base.Text.{Text, same}
use unicas.Base.Exec.{Exec, return, throw, lift, recover, ◌>>=◌, ◌>>◌, throw_when}
use unicas.Codec.Bytes.{Bytes}
use unicas.Codec.Host.{TextCoding}
use unicas.Codec.Errors.{node_too_large}
use unicas.Codec.Validation.{CanonicalNodeLimits}
use unicas.Codec.Stream.{ParsedCanonicalNodeStream}
use unicas.Store.Keys.{Scope}
use unicas.NodeLease.{NodeLeaseRecord, max_lease_ms, next_node_lease}
use unicas.NodeLease.Types.{
  LeaseError, node_op_error, codec_error, invalid_request, conflict, byte_limit, lease_of,
  CanonicalNodeLeaseRecord, CanonicalNodeUploadPlan, CasLeaseResult, CanonicalNodeLeaseBeginResult,
  begin_ready, begin_upload, UploadedCanonicalNodeCommit, commit_existing, commit_new,
  ParsedUploadedNodeMetadata, CanonicalNodeLeaseRepository,
}
use unicas.NodeLease.Ready.{validate_lease_hash, inspect_canonical_node, check_children}

unfoldable pub same_refs : List Text → List Text → Bool
same_refs [] [] = true
same_refs [] (r ∷ right) = false
same_refs (l ∷ left) [] = false
same_refs (l ∷ left) (r ∷ right) = same l r && same_refs left right

-- `message.includes("too large") ? 413 : 400`
abbrev pub refusal_status : LeaseError → ℕ
refusal_status (codec_error node_too_large) = 413
refusal_status _ = 400

abbrev differs_from : CanonicalNodeLeaseRecord → ParsedUploadedNodeMetadata → List Text → Bool
differs_from existing parsed refs =
    not (existing.content_size == parsed.content_size)
    || (not (same existing.content_type parsed.content_type) || not (same_refs refs parsed.refs))

abbrev pub commit_plan_of :
    CanonicalNodeUploadPlan
    → ParsedUploadedNodeMetadata
    → Option CanonicalNodeLeaseRecord
    → NodeLeaseRecord
    → UploadedCanonicalNodeCommit
commit_plan_of plan parsed none lease = commit_new (record {
  hash = plan.hash;
  content_size = parsed.content_size;
  stored_bytes = plan.stored_bytes;
  content_type = parsed.content_type;
  refs = parsed.refs;
  lease = lease;
})
commit_plan_of plan parsed (some existing) lease = commit_existing plan.hash plan.stored_bytes lease

module _ {S : Type 0} (repository : CanonicalNodeLeaseRepository S) (scope : Scope) where
  abbrev pub ready_or_missing : Text → Option CanonicalNodeLeaseRecord → Exec S LeaseError Bool
  ready_or_missing hash none = return false
  ready_or_missing hash (some existing) = repository.leases.is_node_ready scope hash

  -- The upload fence.
  unfoldable pub reserve_upload :
      Text
      → ℕ
      → Option ℕ
      → CanonicalNodeLimits
      → ℕ
      → Exec S LeaseError CanonicalNodeLeaseBeginResult
  reserve_upload hash lease_duration_ms none limits now = throw (node_op_error 411 invalid_request)
  reserve_upload hash lease_duration_ms (some declared_length) limits now = do
    throw_when (ltb (byte_limit limits) declared_length) (node_op_error 413 invalid_request)
    repository.reserve_canonical_upload scope (record {
      hash = hash;
      stored_bytes = declared_length;
      created_at = now;
      expires_at = now + max_lease_ms;
    })
    return (
        begin_upload (record {
          hash = hash;
          stored_bytes = declared_length;
          lease_duration_ms = lease_duration_ms;
        }))

  abbrev pub renew_ready :
      Text
      → ℕ
      → ℕ
      → Option CanonicalNodeLeaseRecord
      → Exec S LeaseError CanonicalNodeLeaseBeginResult
  renew_ready hash lease_duration_ms now existing = do
    repository.leases.renew_node_lease scope hash
        (next_node_lease (lease_of existing) lease_duration_ms now)
    return (
        begin_ready (record {
          hash = hash;
          lease = next_node_lease (lease_of existing) lease_duration_ms now;
        }))

  unfoldable pub begin_canonical_node_lease :
      Text
      → ℕ
      → Option ℕ
      → CanonicalNodeLimits
      → ℕ
      → Exec S LeaseError CanonicalNodeLeaseBeginResult
  begin_canonical_node_lease hash lease_duration_ms declared_length limits now = do
    lift (validate_lease_hash hash)
    existing ← repository.read_canonical_node_lease scope hash
    is_ready ← ready_or_missing hash existing
    if is_ready
        then renew_ready hash lease_duration_ms now existing
        else reserve_upload hash lease_duration_ms declared_length limits now

  unfoldable pub upload_canonical_node :
      CanonicalNodeUploadPlan → List Bytes → Exec S LeaseError (Unit {0})
  upload_canonical_node plan body =
      recover (repository.put_canonical_object scope plan.hash body)
        (λ _. throw (node_op_error 400 invalid_request))

  -- A row that is there already must have the same immutable metadata.
  abbrev pub check_immutable :
      Text
      → ParsedUploadedNodeMetadata
      → Option CanonicalNodeLeaseRecord
      → Exec S LeaseError (Unit {0})
  check_immutable hash parsed none = return tt
  check_immutable hash parsed (some existing) = do
    refs ← repository.read_node_refs scope hash
    throw_when (differs_from existing parsed refs) (node_op_error 409 conflict)

module _ {S : Type 0} (coding : TextCoding) (repository : CanonicalNodeLeaseRepository S)
    (scope : Scope) where
  abbrev metadata_of : ParsedCanonicalNodeStream → ParsedUploadedNodeMetadata
  metadata_of parsed = record {
    content_size = parsed.content_size;
    content_type = parsed.content_type;
    refs = parsed.refs;
  }

  abbrev pub parsed_or_inspected :
      CanonicalNodeUploadPlan
      → CanonicalNodeLimits
      → Option ParsedUploadedNodeMetadata
      → Exec S LeaseError ParsedUploadedNodeMetadata
  parsed_or_inspected plan limits (some parsed) = return parsed
  parsed_or_inspected plan limits none =
      recover
        (do
          parsed ←
              inspect_canonical_node coding repository.leases scope limits plan.hash
                plan.stored_bytes
          return (metadata_of parsed))
        (λ thrown. throw (node_op_error (refusal_status thrown) invalid_request))

  unfoldable pub finalize_canonical_node_lease :
      CanonicalNodeUploadPlan
      → CanonicalNodeLimits
      → Option ParsedUploadedNodeMetadata
      → ℕ
      → Exec S LeaseError CasLeaseResult
  finalize_canonical_node_lease plan limits supplied now = do
    lift (validate_lease_hash plan.hash)
    existing ← repository.read_canonical_node_lease scope plan.hash
    parsed ← parsed_or_inspected plan limits supplied
    check_immutable repository scope plan.hash parsed existing
    check_children repository.leases scope parsed.refs
    repository.commit_uploaded_canonical_node scope (
        commit_plan_of plan parsed existing
          (next_node_lease (lease_of existing) plan.lease_duration_ms now))
    return (record {
      hash = plan.hash;
      lease = next_node_lease (lease_of existing) plan.lease_duration_ms now;
    })

  -- What follows the first step; its clock is read again.
  abbrev pub complete_upload :
      CanonicalNodeLimits
      → List Bytes
      → ℕ
      → CanonicalNodeLeaseBeginResult
      → Exec S LeaseError CasLeaseResult
  complete_upload limits body now (begin_ready result) = return result
  complete_upload limits body now (begin_upload plan) = do
    upload_canonical_node repository scope plan body
    finalize_canonical_node_lease plan limits none now

  unfoldable pub lease_canonical_node :
      Text
      → ℕ
      → List Bytes
      → Option ℕ
      → CanonicalNodeLimits
      → ℕ
      → ℕ
      → Exec S LeaseError CasLeaseResult
  lease_canonical_node hash lease_duration_ms body declared_length limits begun_at finalized_at = do
    begin ←
        begin_canonical_node_lease repository scope hash lease_duration_ms declared_length limits
          begun_at
    complete_upload limits body finalized_at begin
