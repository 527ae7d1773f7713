-- ===== src/RootRefs/Adapter/Outcome.antt =====
-- How `executeRootRefsUpdate` of packages/service-cloudflare/src/root-refs.ts can end, and what a
-- plan and a batch that commits say of the tables.
use unicas.Base.{
  map, throw_if, ◌≡◌, refl, sym, subst, ◌∙◌, ap, ℕ, ◌+◌, Bool, true, false, not, Option, none, some,
  List, ◌∷◌, Result, ok, err, >>=-eq-ok, Result-cases, ◌>>◌, ok-injective, if◌then◌else◌, arith,
  inl, inr,
}
use unicas.Base.Int.{ℤ}
use unicas.Base.Table.{Eq, beq_refl, find-upsert, find-cons, find, upsert}
use unicas.Base.Text.{Text, same}
use unicas.Store.{Store, RequestRow}
use unicas.Store.Keys.{Scope, RequestKey, text_eq, node_key_eq, request_key_eq}
use unicas.RootRefs.Types.{
  root_ref_busy, RootRefRepository, Thrown, CanonicalRootRefsUpdate, RootRefCommitPlan,
  RootRefsUpdateResult, validation, idempotency_conflict, retryable,
}
use unicas.Codec.Validation.{is_safe}
use unicas.RootRefs.Apply.{
  rethrow, or_zero, check_entries, find_unready, refuse_unready, positive_hashes, plan_projections,
  make_plan, commit_plan, answer_request, answer_lookup, commit_outcome, repository_call,
}
use unicas.RootRefs.Adapter.{
  request_record, read_nodes, read_app_state, scope_balances, request_key, batch_result,
  cloudflare_root_ref_repository, find_request, assert_root_ref_cutover, set_revision, insert_event,
  insert_request, event_row, request_row, apply_entries, commit_batch, execute_root_refs_update,
}
use unicas.RootRefs.Adapter.Plan.{Distinct, Pending, plan_projections-Pending}
use unicas.RootRefs.Adapter.Effect.{some-injective, >>=-eq-some}

abbrev pub repository : RootRefRepository Store
repository = cloudflare_root_ref_repository

module _ {K V : Type 0} ⦃e : Eq K⦄ where
  pub find-own-upsert : (k : K) (v : V) (t : List (K × V)) → find k (upsert k v t) ≡ some v
  find-own-upsert k v t = ground (arith, find-upsert k k v t, beq_refl k)

  pub find-own-cons : (k : K) (v : V) (t : List (K × V)) → find k ((k, v) ∷ t) ≡ some v
  find-own-cons k v t = ground (arith, find-cons k k v t, beq_refl k)

set_revision-eq-some :
    (app_id : Text) (expected revision : ℕ) (revisions : List (Text × ℕ))
    {revisions' : List (Text × ℕ)}
    → set_revision app_id expected revision revisions ≡ some revisions'
    → revisions' ≡ upsert app_id revision revisions
unfolding set_revision
set_revision-eq-some app_id expected revision revisions h = ground (arith, h)

insert_request-eq-some :
    (key : RequestKey) (row : RequestRow) (requests : List (RequestKey × RequestRow))
    {requests' : List (RequestKey × RequestRow)}
    → insert_request key row requests ≡ some requests'
    → requests' ≡ (key, row) ∷ requests
unfolding insert_request
insert_request-eq-some key row requests h = ground (arith, h)

-- What a batch that commits has written.
pub batch-eq-some :
    (plan : RootRefCommitPlan) (s : Store) {s' : Store}
    → commit_batch plan s ≡ some s'
    → (s'.revisions ≡ upsert plan.scope.app_id plan.revision s.revisions)
      × (apply_entries plan.scope plan.projections plan.entries s.nodes s.root_refs
          ≡ some (s'.nodes, s'.root_refs))
      × (s'.root_requests
          ≡ (request_key plan.scope plan.request_id, request_row plan) ∷ s.root_requests)
      × (assert_root_ref_cutover s' ≡ assert_root_ref_cutover s)
unfolding commit_batch assert_root_ref_cutover
batch-eq-some plan s {s'} h =
    let (revisions, a, h1) =
      >>=-eq-some (set_revision plan.scope.app_id plan.expected_revision plan.revision s.revisions)
        _ h in
    let ((nodes, refs), b, h2) =
      >>=-eq-some (apply_entries plan.scope plan.projections plan.entries s.nodes s.root_refs) _
        h1 in
    let (events, c, h3) =
      >>=-eq-some
        (insert_event plan.scope.app_id plan.revision (request_key plan.scope plan.request_id)
          (event_row plan) s.root_events)
        _ h2 in
    let (requests, d, h4) =
      >>=-eq-some
        (insert_request (request_key plan.scope plan.request_id) (request_row plan) s.root_requests)
        _ h3 in
    let a' =
      set_revision-eq-some plan.scope.app_id plan.expected_revision plan.revision s.revisions a in
    let d' =
      insert_request-eq-some (request_key plan.scope plan.request_id) (request_row plan)
        s.root_requests d in
    let e : record s {
      revisions = revisions;
      nodes = nodes;
      root_refs = refs;
      root_events = events;
      root_requests = requests;
    }
        ≡ s' =
      some-injective h4 in
    (
      sym (ap (λ (x : Store). x.revisions) e) ∙ a',
      b ∙ ap (λ (x : Store). some (x.nodes, x.root_refs)) e,
      sym (ap (λ (x : Store). x.root_requests) e) ∙ d',
      sym (ap assert_root_ref_cutover e),
    )

-- A plan carries the update it was made for, one revision further, and is pending on the tables.
pub make_plan-eq-ok :
    (scope : Scope) (canonical : CanonicalRootRefsUpdate) (now : ℕ) (s : Store)
    {plan : RootRefCommitPlan}
    → Distinct canonical.entries
    → make_plan repository scope canonical now s ≡ ok plan
    → Pending scope plan.projections s.nodes canonical.entries
      × (plan.scope ≡ scope)
      × (plan.request_id ≡ canonical.request_id)
      × (plan.payload_hash ≡ canonical.payload_hash)
      × (plan.entries ≡ canonical.entries)
      × (plan.revision ≡ or_zero (find scope.app_id s.revisions) + 1)
unfolding make_plan read_app_state repository_call
make_plan-eq-ok scope canonical now s {plan} d h =
    let hashes = map (λ (entry : Text × ℤ). entry.0) canonical.entries in
    let nodes = read_nodes scope s.nodes hashes in
    let (u1, a, h1) = >>=-eq-ok (check_entries nodes canonical.entries) _ h in
    let (unready, b, h2) =
      >>=-eq-ok (find_unready repository scope canonical now (positive_hashes canonical.entries) s)
        _ h1 in
    let (u2, c, h3) = >>=-eq-ok (refuse_unready repository scope canonical now unready) _ h2 in
    let (u3, e, h4) =
      >>=-eq-ok
        (throw_if (not (is_safe (or_zero (find scope.app_id s.revisions) + 1)))
          (validation 409 root_ref_busy))
        _ h3 in
    let (projections, f, h5) =
      >>=-eq-ok (plan_projections nodes (scope_balances scope s.root_refs) canonical.entries) _
        h4 in
    let g : record {
      scope = scope;
      request_id = canonical.request_id;
      payload_hash = canonical.payload_hash;
      changes_json = canonical.changes_json;
      entries = canonical.entries;
      expected_revision = or_zero (find scope.app_id s.revisions);
      revision = or_zero (find scope.app_id s.revisions) + 1;
      projections = projections;
      applied_at = now;
    }
        ≡ plan =
      ok-injective h5 in
    (
      subst (λ (x : RootRefCommitPlan). Pending scope x.projections s.nodes canonical.entries) g
          (plan_projections-Pending scope s.nodes hashes (scope_balances scope s.root_refs)
            canonical.entries d a f),
      sym (ap (λ (x : RootRefCommitPlan). x.scope) g),
      sym (ap (λ (x : RootRefCommitPlan). x.request_id) g),
      sym (ap (λ (x : RootRefCommitPlan). x.payload_hash) g),
      sym (ap (λ (x : RootRefCommitPlan). x.entries) g),
      sym (ap (λ (x : RootRefCommitPlan). x.revision) g),
    )

-- How an update ends: with an error, as a replay of a request, or with a batch that commits.
pub data Outcome (scope : Scope) (canonical : CanonicalRootRefsUpdate) (now : ℕ) (s : Store)
    : Result Thrown RootRefsUpdateResult × Store → Type 0 where
  failed : (e : Thrown) → Outcome scope canonical now s (err e, s)
  replayed :
      (row : RequestRow)
      → assert_root_ref_cutover s ≡ ok tt
      → find (request_key scope canonical.request_id) s.root_requests ≡ some row
      → same row.payload_hash canonical.payload_hash ≡ true
      → Outcome scope canonical now s
          (ok (record { idempotent = true; revision = row.revision }), s)
  applied :
      (plan : RootRefCommitPlan) (s' : Store)
      → assert_root_ref_cutover s ≡ ok tt
      → make_plan repository scope canonical now s ≡ ok plan
      → commit_batch plan s ≡ some s'
      → Outcome scope canonical now s
          (ok (record { idempotent = false; revision = plan.revision }), s')

module _ (scope : Scope) (canonical : CanonicalRootRefsUpdate) (now : ℕ) (s : Store) where
  batch-Outcome :
      (plan : RootRefCommitPlan) (o : Option Store)
      → assert_root_ref_cutover s ≡ ok tt
      → make_plan repository scope canonical now s ≡ ok plan
      → commit_batch plan s ≡ o
      → Outcome scope canonical now s (
          let (r, s') = batch_result o s in
          (commit_outcome repository scope canonical now plan r, s'))
  unfolding repository_call rethrow
  batch-Outcome plan none a h q = failed retryable
  batch-Outcome plan (some s') a h q = applied plan s' a h q

  plan-Outcome :
      (p : Result Thrown RootRefCommitPlan)
      → assert_root_ref_cutover s ≡ ok tt
      → make_plan repository scope canonical now s ≡ p
      → Outcome scope canonical now s (commit_plan repository scope canonical now p s)
  plan-Outcome (err e) a h = failed e
  plan-Outcome (ok plan) a h = batch-Outcome plan (commit_batch plan s) a h refl

  row-Outcome :
      (row : RequestRow) (b : Bool)
      → assert_root_ref_cutover s ≡ ok tt
      → find (request_key scope canonical.request_id) s.root_requests ≡ some row
      → same row.payload_hash canonical.payload_hash ≡ b
      → Outcome scope canonical now s (
        if not b
            then err (validation 409 idempotency_conflict)
            else ok (record { idempotent = true; revision = row.revision }),
        s,
      )
  row-Outcome row true a h q = replayed row a h q
  row-Outcome row false a h q = failed (validation 409 idempotency_conflict)

  answer-Outcome :
      (o : Option RequestRow)
      → assert_root_ref_cutover s ≡ ok tt
      → find (request_key scope canonical.request_id) s.root_requests ≡ o
      → Outcome scope canonical now s
          (answer_request repository scope canonical now (request_record o) s)
  answer-Outcome none a h = plan-Outcome (make_plan repository scope canonical now s) a refl
  answer-Outcome (some row) a h =
      row-Outcome row (same row.payload_hash canonical.payload_hash) a h refl

  pub execute-Outcome :
      Outcome scope canonical now s (execute_root_refs_update scope canonical now s)
  unfolding execute_root_refs_update find_request repository_call rethrow
  execute-Outcome = elim (Result-cases (assert_root_ref_cutover s)) [
    | inl (u, a) ↦
        subst looked_up (sym a)
          (answer-Outcome (find (request_key scope canonical.request_id) s.root_requests) a refl)
    | inr (e, a) ↦ subst looked_up (sym a) (failed (rethrow e))
  ]
    where
      looked_up : Result Thrown (Unit {0}) → Type 0
      looked_up x = Outcome scope canonical now s (
          answer_lookup repository scope canonical now
            (repository_call (
              x
              >> ok
                  (request_record (find (request_key scope canonical.request_id) s.root_requests))))
            s)
