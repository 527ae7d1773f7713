-- ===== src/Graph/RootRefs.antt =====
-- A Root Ref update, packages/service-cloudflare/src/root-refs.ts, in the graph.
use unicas.Base.{ℕ, ◌≡◌, refl, subst, Option, none, some, List, [], ◌∷◌}
use unicas.Base.Int.{ℤ, pos, negsuc, add_delta}
use unicas.Base.Text.{Text}
use unicas.Base.Table.{find}
use unicas.Codec.Host.{Digester}
use unicas.Store.{Store, NodeRow, EdgeRow, StoredObject}
use unicas.Store.Keys.{Scope, NodeKey, node_key_eq}
use unicas.RootRefs.Types.{CanonicalRootRefsUpdate, RootRefCommitPlan, RootRefProjectionChange}
use unicas.RootRefs.Adapter.{
  node_key, set_revision, set_root_refs, add_to_row, add_root_refs, write_change, projection_of,
  apply_entries, insert_event, insert_request, event_row, request_row, request_key, commit_batch,
  execute_root_refs_update,
}
use unicas.RootRefs.Adapter.Effect.{some-injective, >>=-eq-some}
use unicas.RootRefs.Adapter.Outcome.{execute-Outcome}
use unicas.RootRefs.Adapter.Update.{by-Outcome}
use unicas.Graph.{core, IsIntact, Intact}
use unicas.Graph.Rows.{update-Intact}

module _ (digester : Digester) (edges : List EdgeRow)
    (objects : List (NodeKey × StoredObject)) where
  abbrev With : List (NodeKey × NodeRow) → Type 0
  With nodes = Intact digester nodes edges objects

  set_root_refs-Intact :
      (key : NodeKey) (z : ℤ) (nodes : List (NodeKey × NodeRow)) {nodes' : List (NodeKey × NodeRow)}
      → With nodes
      → set_root_refs key z nodes ≡ some nodes'
      → With nodes'
  set_root_refs-Intact key (negsuc n) nodes p h = cc
  set_root_refs-Intact key (pos n) nodes p h = subst With (some-injective h) (
      update-Intact digester (λ (row : NodeRow). record row { root_ref_count = n }) key nodes edges
        objects (λ row. refl) p)

  add_to_row-Intact :
      (key : NodeKey) (delta : ℤ) (o : Option NodeRow) (nodes : List (NodeKey × NodeRow))
      {nodes' : List (NodeKey × NodeRow)}
      → With nodes
      → add_to_row key delta o nodes ≡ some nodes'
      → With nodes'
  add_to_row-Intact key delta none nodes p h = subst With (some-injective h) p
  add_to_row-Intact key delta (some row) nodes p h =
      set_root_refs-Intact key (add_delta row.root_ref_count delta) nodes p h

  apply_entries-Intact :
      (scope : Scope) (changes : List RootRefProjectionChange) (entries : List (Text × ℤ))
      (nodes nodes' : List (NodeKey × NodeRow)) (refs refs' : List (NodeKey × ℕ))
      → With nodes
      → apply_entries scope changes entries nodes refs ≡ some (nodes', refs')
      → With nodes'
  unfolding apply_entries add_root_refs
  apply_entries-Intact scope changes [] nodes nodes' refs refs' p h =
      let e : nodes ≡ nodes' = cc in subst With e p
  apply_entries-Intact scope changes ((hash, delta) ∷ entries) nodes nodes' refs refs' p h =
      let key = node_key scope hash in
      let (nodes1, a, h1) = >>=-eq-some (add_root_refs key delta nodes) _ h in
      let (refs1, b, h2) = >>=-eq-some (write_change key (projection_of hash changes) refs) _ h1 in
      apply_entries-Intact scope changes entries nodes1 nodes' refs1 refs'
        (add_to_row-Intact key delta (find key nodes) nodes p a) h2

batch-Intact :
    (digester : Digester) (plan : RootRefCommitPlan) (s s' : Store)
    → IsIntact digester (core s)
    → commit_batch plan s ≡ some s'
    → IsIntact digester (core s')
unfolding commit_batch
batch-Intact digester plan s s' p h =
    let (revisions, a, h1) =
      >>=-eq-some (set_revision plan.scope.app_id plan.expected_revision plan.revision s.revisions)
        _ h in
    let ((nodes, refs), b, h2) =
      >>=-eq-some (apply_entries plan.scope plan.projections plan.entries s.nodes s.root_refs) _
        h1 in
    let (events, c, h3) =
      >>=-eq-some
        (insert_event plan.scope.app_id plan.revision (request_key plan.scope plan.request_id)
          (event_row plan) s.root_events)
        _ h2 in
    let (requests, d, h4) =
      >>=-eq-some
        (insert_request (request_key plan.scope plan.request_id) (request_row plan) s.root_requests)
        _ h3 in
    subst (λ (x : Store). IsIntact digester (core x)) (some-injective h4)
      (apply_entries-Intact digester s.edges s.objects plan.scope plan.projections plan.entries
        s.nodes nodes s.root_refs refs p b)

-- A Root Ref update keeps the graph intact.
pub execute_root_refs_update-Intact :
    (digester : Digester) (scope : Scope) (canonical : CanonicalRootRefsUpdate) (now : ℕ)
    (s : Store)
    → IsIntact digester (core s)
    → IsIntact digester (core (execute_root_refs_update scope canonical now s).1)
execute_root_refs_update-Intact digester scope canonical now s p =
    by-Outcome (λ x. IsIntact digester (core x)) p
      (λ plan s' h q. batch-Intact digester plan s s' p q) (execute-Outcome scope canonical now s)
