-- ===== src/RootRefs/Adapter.antt =====
-- `CloudflareRootRefRepository` of packages/service-cloudflare/src/root-refs.ts over the tables. A
-- batch is one transaction: a statement that violates a constraint undoes it all, and throws.
pub mod Plan
pub mod Effect
pub mod Outcome
pub mod Update
use unicas.Base.{
  ◌>>◌, ℕ, ◌+◌, Bool, true, false, not, ◌&&◌, ◌||◌, Option, none, some, List, [], ◌∷◌, Result, ok,
  err, if◌then◌else◌, ◌==◌,
}
use unicas.Base.Int.{ℤ, pos, negsuc, add_delta}
use unicas.Base.Table.{find, delete, update, upsert}
use unicas.Base.Text.{Text, same}
use unicas.Store.Keys.{
  Scope, NodeKey, RequestKey, same_scope, same_request, text_eq, node_key_eq, request_key_eq,
}
use unicas.Store.{Store, NodeRow, EventRow, RequestRow}
use unicas.RootRefs.Types.{
  Thrown, other, CanonicalRootRefsUpdate, RootRefNodeState, RootRefAppState,
  RootRefProjectionChange, RootRefCommitPlan, RootRefRepository, RootRefsUpdateResult, CommitResult,
  committed, RootRefRequestRecord,
}
use unicas.RootRefs.Apply.{or_zero, apply_root_refs_update}

abbrev pub node_key : Scope → Text → NodeKey
node_key scope hash = record { scope = scope; hash = hash }

abbrev pub request_key : Scope → Text → RequestKey
request_key scope request_id = record { scope = scope; request_id = request_id }

-- root-cutover.ts: no writer runs while legacy rows wait for the cutover.
unfoldable pub assert_root_ref_cutover : Store → Result Thrown (Unit {0})
assert_root_ref_cutover s =
    if s.cutover_marker then ok tt else if s.legacy_rows then err other else ok tt

abbrev pub request_record : Option RequestRow → Option RootRefRequestRecord
request_record none = none
request_record (some row) =
    some (record { payload_hash = row.payload_hash; revision = row.revision })

unfoldable pub find_request : Scope → Text → Store → Result Thrown (Option RootRefRequestRecord)
unfolding assert_root_ref_cutover
find_request scope request_id s = do
  assert_root_ref_cutover s
  ok (request_record (find (request_key scope request_id) s.root_requests))

abbrev pub with_state : Text → Option NodeRow → List RootRefNodeState → List RootRefNodeState
with_state hash none states = states
with_state hash (some row) states =
    record { hash = hash; root_ref_count = row.root_ref_count } ∷ states

unfoldable pub read_nodes : Scope → List (NodeKey × NodeRow) → List Text → List RootRefNodeState
read_nodes scope nodes [] = []
read_nodes scope nodes (hash ∷ hashes) =
    with_state hash (find (node_key scope hash) nodes) (read_nodes scope nodes hashes)

-- The first hash without a canonical object.
unfoldable pub find_unready_node : Scope → List Text → Store → Option Text
find_unready_node scope [] s = none
find_unready_node scope (hash ∷ hashes) s =
    let rest = find_unready_node scope hashes s in
    elim (find (node_key scope hash) s.objects) [ none ↦ some hash | some bytes ↦ rest ]

-- The rows of one scope.
unfoldable pub scope_balances : Scope → List (NodeKey × ℕ) → List (Text × ℕ)
scope_balances scope [] = []
scope_balances scope ((key, count) ∷ rows) =
    let rest = scope_balances scope rows in
    if same_scope key.scope scope then (key.hash, count) ∷ rest else rest

unfoldable pub read_app_state : Scope → Store → RootRefAppState
unfolding scope_balances
read_app_state scope s = record {
  revision = or_zero (find scope.app_id s.revisions);
  balances = scope_balances scope s.root_refs;
}

-- INSERT OR IGNORE of revision 0, then the update that is NULL, and aborts, on another revision.
unfoldable pub set_revision : Text → ℕ → ℕ → List (Text × ℕ) → Option (List (Text × ℕ))
set_revision app_id expected revision revisions =
    if or_zero (find app_id revisions) == expected
    then some (upsert app_id revision revisions)
    else none

abbrev pub set_root_refs :
    NodeKey → ℤ → List (NodeKey × NodeRow) → Option (List (NodeKey × NodeRow))
set_root_refs key (negsuc _) nodes = none
set_root_refs key (pos n) nodes =
    some (update key (λ (row : NodeRow). record row { root_ref_count = n }) nodes)

abbrev pub add_to_row :
    NodeKey → ℤ → Option NodeRow → List (NodeKey × NodeRow) → Option (List (NodeKey × NodeRow))
add_to_row key delta none nodes = some nodes
add_to_row key delta (some row) nodes = set_root_refs key (add_delta row.root_ref_count delta) nodes

-- The update is refused by CHECK (root_ref_count >= 0), and does nothing where there is no row.
unfoldable pub add_root_refs :
    NodeKey → ℤ → List (NodeKey × NodeRow) → Option (List (NodeKey × NodeRow))
add_root_refs key delta nodes = add_to_row key delta (find key nodes) nodes

unfoldable pub projection_of : Text → List RootRefProjectionChange → Option RootRefProjectionChange
projection_of hash [] = none
projection_of hash (change ∷ changes) =
    if same change.hash hash then some change else projection_of hash changes

-- A row of a count of 0 is refused by CHECK (ref_count > 0).
abbrev pub write_projection : NodeKey → Option ℕ → List (NodeKey × ℕ) → Option (List (NodeKey × ℕ))
write_projection key none refs = some (delete key refs)
write_projection key (some n) refs = if n == 0 then none else some (upsert key n refs)

abbrev pub write_change :
    NodeKey → Option RootRefProjectionChange → List (NodeKey × ℕ) → Option (List (NodeKey × ℕ))
write_change key none refs = none
write_change key (some change) refs = write_projection key change.ref_count refs

infixl 5 ◌>>=◌
abbrev pub ◌>>=◌ : {A B : Type 0} → Option A → (A → Option B) → Option B
none >>= next = none
some x >>= next = next x

-- The loop over `plan.entries`: one statement on cas_nodes and one on cas_app_root_refs for each.
unfoldable pub apply_entries :
    Scope
    → List RootRefProjectionChange
    → List (Text × ℤ)
    → List (NodeKey × NodeRow)
    → List (NodeKey × ℕ)
    → Option (List (NodeKey × NodeRow) × List (NodeKey × ℕ))
apply_entries scope changes [] nodes refs = some (nodes, refs)
apply_entries scope changes ((hash, delta) ∷ entries) nodes refs = do
  nodes' ← add_root_refs (node_key scope hash) delta nodes
  refs' ← write_change (node_key scope hash) (projection_of hash changes) refs
  apply_entries scope changes entries nodes' refs'

abbrev pub Events : Type 0
Events = List (Text × ℕ × RequestKey × EventRow)

-- PRIMARY KEY (app_id, revision) and UNIQUE (app_id, space_id, request_id).
unfoldable pub has_event : Text → ℕ → RequestKey → Events → Bool
has_event app_id revision request [] = false
has_event app_id revision request ((app, rev, req, row) ∷ events) =
    same app app_id && rev == revision
    || (same_request req request || has_event app_id revision request events)

unfoldable pub insert_event : Text → ℕ → RequestKey → EventRow → Events → Option Events
unfolding has_event
insert_event app_id revision request row events =
    if has_event app_id revision request events
    then none
    else some ((app_id, revision, request, row) ∷ events)

unfoldable pub insert_request :
    RequestKey
    → RequestRow
    → List (RequestKey × RequestRow)
    → Option (List (RequestKey × RequestRow))
insert_request key row requests = elim (find key requests) [
  | some old ↦ none
  | none ↦ some ((key, row) ∷ requests)
]

abbrev pub event_row : RootRefCommitPlan → EventRow
event_row plan = record {
  payload_hash = plan.payload_hash;
  changes_json = plan.changes_json;
  applied_at = plan.applied_at;
}

abbrev pub request_row : RootRefCommitPlan → RequestRow
request_row plan = record {
  payload_hash = plan.payload_hash;
  revision = plan.revision;
  applied_at = plan.applied_at;
}

unfoldable pub commit_batch : RootRefCommitPlan → Store → Option Store
unfolding set_revision apply_entries insert_event insert_request
commit_batch plan s = do
  let request = request_key plan.scope plan.request_id
  revisions ← set_revision plan.scope.app_id plan.expected_revision plan.revision s.revisions
  (nodes, refs) ← apply_entries plan.scope plan.projections plan.entries s.nodes s.root_refs
  events ← insert_event plan.scope.app_id plan.revision request (event_row plan) s.root_events
  requests ← insert_request request (request_row plan) s.root_requests
  some (record s {
    revisions = revisions;
    nodes = nodes;
    root_refs = refs;
    root_events = events;
    root_requests = requests;
  })

abbrev pub batch_result : Option Store → Store → Result Thrown CommitResult × Store
batch_result none s = (err other, s)
batch_result (some s') s = (ok committed, s')

abbrev pub commit : RootRefCommitPlan → Store → Result Thrown CommitResult × Store
commit plan s = batch_result (commit_batch plan s) s

abbrev pub cloudflare_root_ref_repository : RootRefRepository Store
cloudflare_root_ref_repository = record {
  find_request = find_request;
  read_nodes = λ scope hashes s. ok (read_nodes scope s.nodes hashes);
  find_unready_node = λ scope hashes s. ok (find_unready_node scope hashes s);
  read_app_state = λ scope s. ok (read_app_state scope s);
  commit = commit;
}

unfoldable pub execute_root_refs_update :
    Scope → CanonicalRootRefsUpdate → ℕ → Store → Result Thrown RootRefsUpdateResult × Store
unfolding apply_root_refs_update
execute_root_refs_update scope canonical now s =
    apply_root_refs_update cloudflare_root_ref_repository scope canonical now s
