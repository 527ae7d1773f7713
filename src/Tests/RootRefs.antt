-- ===== src/Tests/RootRefs.antt =====
-- Runs of the Root Ref updates, on concrete stores.
use unicas.Base.{
  ◌+◌, if◌then◌else◌, Result, ltb, ◌≡◌, refl, ℕ, true, false, none, [], ◌∷◌, ok, err, arith,
}
use unicas.Base.Int.{pos, negsuc, add_delta}
use unicas.Base.Table.{find, delete, update, upsert}
use unicas.Base.Text.{same}
use unicas.Store.{StoredObject, Store, NodeRow, empty_store}
use unicas.Store.Keys.{Scope, NodeKey, same_node_iff, text_eq, node_key_eq}
use unicas.RootRefs.Retry.{
  Retried, with_root_refs_retry, attempts, default_retry_options, with_root_refs_retry_lem,
}
use unicas.RootRefs.Types.{
  Thrown, retryable, CanonicalRootRefsUpdate, validation, negative_aggregate, idempotency_conflict,
}
use unicas.RootRefs.Apply.{
  apply_root_refs_update, make_plan, rethrow, repository_call, node_count, check_count,
  check_entries, positive_hashes, plan_projections, find_unready,
}
use unicas.RootRefs.Adapter.{
  assert_root_ref_cutover, find_request, read_nodes, find_unready_node, scope_balances,
  read_app_state, set_revision, add_root_refs, projection_of, apply_entries, has_event,
  insert_event, insert_request, commit_batch, execute_root_refs_update,
}
use unicas.RootRefs.Adapter.Plan.{Distinct}
use unicas.RootRefs.Adapter.Effect.{Consistent, root_count}
use unicas.RootRefs.Adapter.Update.{
  Applied, execute_root_refs_update-Consistent, execute_root_refs_update-err,
  execute_root_refs_update-Applied, execute_root_refs_update-execute_root_refs_update,
}

abbrev app : Scope
app = record { app_id = 97 ∷ []; space_id = 115 ∷ [] }

abbrev key_a : NodeKey
key_a = record { scope = app; hash = 49 ∷ [] }

abbrev key_b : NodeKey
key_b = record { scope = app; hash = 50 ∷ [] }

abbrev row : ℕ → NodeRow
row n = record {
  content_size = 0;
  content_type = [];
  lease_started_at = 0;
  lease_expires_at = 10;
  child_ref_count = 0;
  root_ref_count = n;
  ready = true;
  canonical_stored_bytes = none;
  canonical_observed_at = none;
}

abbrev no_bytes : StoredObject
no_bytes = record { bytes = []; sha256 = none }

abbrev two_nodes : Store
two_nodes = record empty_store {
  nodes = (key_a, row 2) ∷ (key_b, row 0) ∷ [];
  root_refs = (key_a, 2) ∷ [];
  objects = (key_a, no_bytes) ∷ (key_b, no_bytes) ∷ [];
}

abbrev move : CanonicalRootRefsUpdate
move = record {
  request_id = 114 ∷ [];
  changes_json = [];
  payload_hash = 104 ∷ [];
  entries = (49 ∷ [], negsuc 1) ∷ (50 ∷ [], pos 3) ∷ [];
}

abbrev too_much : CanonicalRootRefsUpdate
too_much = record move { entries = (49 ∷ [], negsuc 2) ∷ [] }

two_nodes-Consistent : Consistent two_nodes.nodes two_nodes.root_refs
unfolding find
two_nodes-Consistent key = ground (arith, same_node_iff key_a key, same_node_iff key_b key)

move-Distinct : Distinct move.entries
unfolding Distinct find same
move-Distinct = (refl, (refl, tt))

move_run :
    (execute_root_refs_update app move 7 two_nodes).0
    ≡ ok (record { idempotent = false; revision = 1 })
unfolding execute_root_refs_update apply_root_refs_update make_plan rethrow repository_call
    node_count check_count check_entries positive_hashes plan_projections find_unready
    assert_root_ref_cutover find_request read_nodes find_unready_node scope_balances read_app_state
    set_revision add_root_refs projection_of apply_entries has_event insert_event insert_request
    commit_batch find delete update upsert same add_delta
move_run = refl

counts_run : root_count key_a (execute_root_refs_update app move 7 two_nodes).1.nodes ≡ 0
unfolding execute_root_refs_update apply_root_refs_update make_plan rethrow repository_call
    node_count check_count check_entries positive_hashes plan_projections find_unready
    assert_root_ref_cutover find_request read_nodes find_unready_node scope_balances read_app_state
    set_revision add_root_refs projection_of apply_entries has_event insert_event insert_request
    commit_batch find delete update upsert same add_delta
counts_run = refl

too_much_run :
    (execute_root_refs_update app too_much 7 two_nodes).0 ≡ err (validation 409 negative_aggregate)
unfolding execute_root_refs_update apply_root_refs_update make_plan rethrow repository_call
    node_count check_count check_entries positive_hashes plan_projections find_unready
    assert_root_ref_cutover find_request read_nodes find_unready_node scope_balances read_app_state
    set_revision add_root_refs projection_of apply_entries has_event insert_event insert_request
    commit_batch find delete update upsert same add_delta
too_much_run = refl

conflict_run :
    (execute_root_refs_update app
      (record move { payload_hash = [] })
      8
      (execute_root_refs_update app move 7 two_nodes).1).0
    ≡ err (validation 409 idempotency_conflict)
unfolding execute_root_refs_update apply_root_refs_update make_plan rethrow repository_call
    node_count check_count check_entries positive_hashes plan_projections find_unready
    assert_root_ref_cutover find_request read_nodes find_unready_node scope_balances read_app_state
    set_revision add_root_refs projection_of apply_entries has_event insert_event insert_request
    commit_batch find delete update upsert same add_delta
conflict_run = refl

execute_root_refs_update-Consistent_example :
    Consistent
      (execute_root_refs_update app move 7 two_nodes).1.nodes
      (execute_root_refs_update app move 7 two_nodes).1.root_refs
execute_root_refs_update-Consistent_example =
    execute_root_refs_update-Consistent app move 7 two_nodes move-Distinct two_nodes-Consistent

execute_root_refs_update-err_example :
    (execute_root_refs_update app too_much 7 two_nodes).1 ≡ two_nodes
execute_root_refs_update-err_example =
    execute_root_refs_update-err app too_much 7 two_nodes too_much_run

execute_root_refs_update-Applied_example :
    Applied app move two_nodes (execute_root_refs_update app move 7 two_nodes).1 1
execute_root_refs_update-Applied_example =
    execute_root_refs_update-Applied app move 7 two_nodes move-Distinct two_nodes-Consistent
      move_run

execute_root_refs_update-execute_root_refs_update_example :
    execute_root_refs_update app move 9 (execute_root_refs_update app move 7 two_nodes).1 ≡ (
      ok (record { idempotent = true; revision = 1 }),
      (execute_root_refs_update app move 7 two_nodes).1,
    )
execute_root_refs_update-execute_root_refs_update_example =
    execute_root_refs_update-execute_root_refs_update app move 7 9 two_nodes move-Distinct move_run

abbrev third_time : ℕ → Result Thrown ℕ × ℕ
third_time n = (if ltb n 2 then err retryable else ok n, n + 1)

third_time_run :
    with_root_refs_retry third_time default_retry_options (λ attempt delay. delay) 0
    ≡ (ok 2, 25 ∷ 50 ∷ [], 3)
unfolding with_root_refs_retry attempts
third_time_run = refl

with_root_refs_retry_lem_example :
    Retried third_time default_retry_options
      (λ attempt delay. delay)
      0
      0
      (with_root_refs_retry third_time default_retry_options (λ attempt delay. delay) 0)
with_root_refs_retry_lem_example =
    with_root_refs_retry_lem third_time default_retry_options (λ attempt delay. delay) 0
