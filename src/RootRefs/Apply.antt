-- ===== src/RootRefs/Apply.antt =====
-- `applyRootRefsUpdate` of packages/service/src/root-refs.ts.
use unicas.Base.{
  ℕ, ◌+◌, Bool, true, false, not, Option, none, some, List, [], ◌∷◌, map, Result, ok, err, ◌>>=◌,
  ◌>>◌, throw_if, if◌then◌else◌, ltb, ◌==◌,
}
use unicas.Base.Int.{ℤ, pos, negsuc, add_delta}
use unicas.Base.Table.{find}
use unicas.Base.Text.{Text, same}
use unicas.Codec.Validation.{is_safe}
use unicas.Store.Keys.{Scope, text_eq}
use unicas.RootRefs.Types.{
  Thrown, validation, retryable, other, CanonicalRootRefsUpdate, RootRefNodeState,
  RootRefProjectionChange, RootRefCommitPlan, RootRefRepository, RootRefsUpdateResult, CommitResult,
  committed, revision_conflict, root_ref_invalid, node_not_found, node_not_ready,
  negative_aggregate, idempotency_conflict, root_ref_busy, RootRefRequestRecord,
}

-- `repositoryCall`: any error but the two of this module becomes retryable.
unfoldable pub rethrow : Thrown → Thrown
rethrow (validation status code) = validation status code
rethrow retryable = retryable
rethrow other = retryable

unfoldable pub repository_call {ℓ} : {A : Type ℓ} → Result Thrown A → Result Thrown A
unfolding rethrow
repository_call (ok a) = ok a
repository_call (err e) = err (rethrow e)

-- `nodes.get(hash)` of the Map built from the list: a later node of one hash replaces an earlier.
unfoldable pub node_count : Text → List RootRefNodeState → Option ℕ
node_count hash [] = none
node_count hash (node ∷ nodes) = elim (node_count hash nodes) [
  | some n ↦ some n
  | none ↦ if same node.hash hash then some node.root_ref_count else none
]

-- The check of one entry against the count of its node.
unfoldable pub check_count : Option ℕ → ℤ → Result Thrown (Unit {0})
check_count none delta = err (validation 404 node_not_found)
check_count (some n) delta = elim (add_delta n delta) [
  | negsuc _ ↦ err (validation 409 negative_aggregate)
  | pos m ↦ throw_if (not (is_safe m)) (validation 400 root_ref_invalid)
]

unfoldable pub check_entries : List RootRefNodeState → List (Text × ℤ) → Result Thrown (Unit {0})
check_entries nodes [] = ok tt
check_entries nodes ((hash, delta) ∷ entries) = do
  check_count (node_count hash nodes) delta
  check_entries nodes entries

abbrev pub is_positive : ℤ → Bool
is_positive (pos n) = ltb 0 n
is_positive (negsuc n) = false

unfoldable pub positive_hashes : List (Text × ℤ) → List Text
positive_hashes [] = []
positive_hashes ((hash, delta) ∷ entries) =
    let rest = positive_hashes entries in if is_positive delta then hash ∷ rest else rest

abbrev pub or_zero : Option ℕ → ℕ
or_zero none = 0
or_zero (some n) = n

-- A count of zero deletes the projection row. A negative one has been refused before.
abbrev pub projected : ℤ → Option ℕ
projected (pos n) = if n == 0 then none else some n
projected (negsuc n) = none

unfoldable pub plan_projections :
    List RootRefNodeState
    → List (Text × ℕ)
    → List (Text × ℤ)
    → Result Thrown (List RootRefProjectionChange)
plan_projections nodes balances [] = ok []
plan_projections nodes balances ((hash, delta) ∷ entries) = do
  let balance = or_zero (find hash balances)
  throw_if (not (balance == or_zero (node_count hash nodes))) (validation 409 root_ref_busy)
  rest ← plan_projections nodes balances entries
  ok (record { hash = hash; ref_count = projected (add_delta balance delta) } ∷ rest)

module _ {S : Type 0} (repository : RootRefRepository S) (scope : Scope)
    (canonical : CanonicalRootRefsUpdate) (now : ℕ) where
  unfoldable pub find_unready : List Text → S → Result Thrown (Option Text)
  find_unready [] s = ok none
  find_unready (hash ∷ hashes) s =
      repository_call (repository.find_unready_node scope (hash ∷ hashes) s)

  abbrev pub refuse_unready : Option Text → Result Thrown (Unit {0})
  refuse_unready none = ok tt
  refuse_unready (some hash) = err (validation 409 node_not_ready)

  -- From the node lookup to the plan.
  unfoldable pub make_plan : S → Result Thrown RootRefCommitPlan
  unfolding find_unready
  make_plan s = do
    nodes ←
        repository_call
          (repository.read_nodes scope (map (λ (entry : Text × ℤ). entry.0) canonical.entries) s)
    check_entries nodes canonical.entries
    unready ← find_unready (positive_hashes canonical.entries) s
    refuse_unready unready
    app ← repository_call (repository.read_app_state scope s)
    throw_if (not (is_safe (app.revision + 1))) (validation 409 root_ref_busy)
    projections ← plan_projections nodes app.balances canonical.entries
    ok (record {
      scope = scope;
      request_id = canonical.request_id;
      payload_hash = canonical.payload_hash;
      changes_json = canonical.changes_json;
      entries = canonical.entries;
      expected_revision = app.revision;
      revision = app.revision + 1;
      projections = projections;
      applied_at = now;
    })

  abbrev pub commit_outcome :
      RootRefCommitPlan → Result Thrown CommitResult → Result Thrown RootRefsUpdateResult
  commit_outcome plan r = do
    result ← repository_call r
    elim result [
      | committed ↦ ok (record { idempotent = false; revision = plan.revision })
      | revision_conflict ↦ err retryable
    ]

  abbrev pub commit_plan :
      Result Thrown RootRefCommitPlan → S → Result Thrown RootRefsUpdateResult × S
  commit_plan (err e) s = (err e, s)
  commit_plan (ok plan) s = let (r, s') = repository.commit plan s in (commit_outcome plan r, s')

  abbrev pub answer_request :
      Option RootRefRequestRecord → S → Result Thrown RootRefsUpdateResult × S
  answer_request none s = commit_plan (make_plan s) s
  answer_request (some existing) s = (
    if not (same existing.payload_hash canonical.payload_hash)
        then err (validation 409 idempotency_conflict)
        else ok (record { idempotent = true; revision = existing.revision }),
    s,
  )

  abbrev pub answer_lookup :
      Result Thrown (Option RootRefRequestRecord) → S → Result Thrown RootRefsUpdateResult × S
  answer_lookup (err e) s = (err e, s)
  answer_lookup (ok existing) s = answer_request existing s

  unfoldable pub apply_root_refs_update : S → Result Thrown RootRefsUpdateResult × S
  unfolding make_plan
  apply_root_refs_update s =
      answer_lookup (repository_call (repository.find_request scope canonical.request_id s)) s
