-- ===== src/RootRefs/Types.antt =====
-- The records of packages/service/src/root-refs.ts. An error keeps its class, status and code.
use unicas.Base.{ℕ, Bool, Option, List, Result}
use unicas.Base.Int.{ℤ}
use unicas.Base.Text.{Text}
use unicas.Store.Keys.{Scope}

pub data RootRefsErrorCode : Type 0 where
  root_ref_invalid node_not_found node_not_ready negative_aggregate idempotency_conflict :
      RootRefsErrorCode
  root_ref_busy : RootRefsErrorCode

-- What may be thrown: RootRefsValidationError, RootRefsRetryableError, or any other error.
pub data Thrown : Type 0 where
  validation : ℕ → RootRefsErrorCode → Thrown
  retryable : Thrown
  other : Thrown

pub record CanonicalRootRefsUpdate : Type 0 where
  pub request_id : Text
  pub changes_json : Text
  pub payload_hash : Text
  pub entries : List (Text × ℤ)

pub record RootRefRequestRecord : Type 0 where
  pub payload_hash : Text
  pub revision : ℕ

pub record RootRefNodeState : Type 0 where
  pub hash : Text
  pub root_ref_count : ℕ

pub record RootRefAppState : Type 0 where
  pub revision : ℕ
  pub balances : List (Text × ℕ)

-- `ref_count` is `none` where the projection row is deleted.
pub record RootRefProjectionChange : Type 0 where
  pub hash : Text
  pub ref_count : Option ℕ

pub record RootRefCommitPlan : Type 0 where
  pub scope : Scope
  pub request_id : Text
  pub payload_hash : Text
  pub changes_json : Text
  pub entries : List (Text × ℤ)
  pub expected_revision : ℕ
  pub revision : ℕ
  pub projections : List RootRefProjectionChange
  pub applied_at : ℕ

pub data CommitResult : Type 0 where
  committed revision_conflict : CommitResult

-- A repository over the states `S`: what reads returns a value, and `commit` the next state too.
pub record RootRefRepository (S : Type 0) : Type 0 where
  pub find_request : Scope → Text → S → Result Thrown (Option RootRefRequestRecord)
  pub read_nodes : Scope → List Text → S → Result Thrown (List RootRefNodeState)
  pub find_unready_node : Scope → List Text → S → Result Thrown (Option Text)
  pub read_app_state : Scope → S → Result Thrown RootRefAppState
  pub commit : RootRefCommitPlan → S → Result Thrown CommitResult × S

pub record RootRefsUpdateResult : Type 0 where
  pub idempotent : Bool
  pub revision : ℕ
