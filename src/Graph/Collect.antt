-- ===== src/Graph/Collect.antt =====
-- A collection over the Cloudflare repository, packages/service/src/gc.ts and
-- packages/service-cloudflare/src/node-gc.ts, in the graph: it keeps it intact and does not fail.
use unicas.Base.{
  err-ne-ok, length-take, ℕ, ◌≤◌, ◌≡◌, ◌≢◌, refl, sym, ap, subst, ◌∙◌, Bool, true, false, not, ◌||◌,
  Option, none, some, List, [], ◌∷◌, take, length, Result, ok, err, if◌then◌else◌, ◌==◌, arith,
  Bool-cases, inl, inr,
}
use unicas.Base.Text.{Text}
use unicas.Base.Table.{find, update, delete, find-delete}
use unicas.Codec.Host.{Digester}
use unicas.Codec.Validation.{is_safe}
use unicas.Store.{Store, NodeRow, EdgeRow, StoredObject}
use unicas.Store.Keys.{Scope, NodeKey, same_node, same_node_iff, node_key_eq}
use unicas.RootRefs.Adapter.{node_key}
use unicas.Gc.{
  deletion_size, gc_result, GcError, NodeGcChildReference, NodeGcDeletion, NodeGcRepository, Tally,
  CasGcResult, add_deletion, perform, collect_one, resume, collect_candidates, or_default,
  collect_expired_unreferenced_nodes,
}
use unicas.Gc.Adapter.{
  is_reserved, child_counts, deletion_of, read_still_expired_unreferenced, delete_canonical_content,
  delete_edges, lower_children, commit_nodes, commit_deletion, eligible_hashes,
  cloudflare_node_gc_repository,
}
use unicas.Graph.{core, IsIntact, Intact, count_of, child_count}
use unicas.Graph.Rows.{update-Intact, child_count-update}
use unicas.Graph.Lower.{refs_to, edge_count-delete_edges, Lowered, lower_children-Lowered}

deletion_of-eq-some :
    (hash : Text) (now : ℕ) (reserved : Bool) (children : List NodeGcChildReference)
    (o : Option NodeRow) (deletion : NodeGcDeletion)
    → deletion_of hash now reserved children o ≡ some deletion
    → (row : NodeRow) × (o ≡ some row)
      × (row.child_ref_count ≡ 0)
      × (deletion.hash ≡ hash)
      × (deletion.child_references ≡ children)
deletion_of-eq-some hash now reserved children none deletion h = cc
deletion_of-eq-some hash now reserved children (some row) deletion h =
    (row, refl, ground (arith, h), ground (arith, h), ground (arith, h))

delete-count :
    (key k : NodeKey) (nodes : List (NodeKey × NodeRow))
    → child_count key nodes ≡ 0
    → child_count k (delete key nodes) ≡ child_count k nodes
delete-count key k nodes z = elim (Bool-cases (same_node key k)) [
  | inl t ↦ ground (
    arith,
    find-delete key k nodes,
    t,
    ap (λ x. child_count x nodes) ((same_node_iff key k).0 t),
    z,
  )
  | inr t ↦ ground (arith, find-delete key k nodes, t)
]

delete-found :
    {V : Type 0} (key k : NodeKey) (rows : List (NodeKey × V)) (row : V)
    → find k (delete key rows) ≡ some row
    → (find k rows ≡ some row) × (same_node key k ≡ false)
delete-found key k rows row h = elim (Bool-cases (same_node key k)) [
  | inl t ↦ absurd (ground (arith, h, find-delete key k rows, t))
  | inr t ↦ (ground (arith, h, find-delete key k rows, t), t)
]

delete-kept :
    {V : Type 0} (key k : NodeKey) (rows : List (NodeKey × V)) (row : V)
    → same_node key k ≡ false
    → find k rows ≡ some row
    → find k (delete key rows) ≡ some row
delete-kept key k rows row t h = ground (arith, h, find-delete key k rows, t)

-- A node without edges to it is taken out, with its edges and its object.
delete-Intact :
    (digester : Digester) (key : NodeKey) (nodes nodes' : List (NodeKey × NodeRow))
    (edges : List EdgeRow) (objects : List (NodeKey × StoredObject))
    → Intact digester nodes edges objects
    → child_count key nodes ≡ 0
    → Lowered key.scope (child_counts key edges) (delete key nodes) nodes'
    → Intact digester nodes' (delete_edges key edges) (delete key objects)
delete-Intact digester key nodes nodes' edges objects intact z (counts, rows) = record {
  counted = λ k. ground (
    arith,
    edge_count-delete_edges key k edges,
    intact.counted k,
    counts k,
    delete-count key k nodes z,
  );
  backed = λ k row h.
      let (row1, h1) = rows k row h in
      let (h2, other) = delete-found key k nodes row1 h1 in
      let (object, stored) = intact.backed k row1 h2 in
      (object, delete-kept key k objects object other stored);
  sound = λ k object h. intact.sound k object (delete-found key k objects object h).0;
}

refs_to-bound :
    (digester : Digester) (key : NodeKey) (nodes : List (NodeKey × NodeRow)) (edges : List EdgeRow)
    (objects : List (NodeKey × StoredObject))
    → Intact digester nodes edges objects
    → child_count key nodes ≡ 0
    → (k : NodeKey)
    → refs_to key.scope k (child_counts key edges) ≤ child_count k (delete key nodes)
refs_to-bound digester key nodes edges objects intact z k =
    ground
      (arith, edge_count-delete_edges key k edges, intact.counted k, delete-count key k nodes z)

module _ (arrange : List Text → List Text) (observed_at : ℕ) (digester : Digester) (scope : Scope)
    (now : ℕ) where
  abbrev repository : NodeGcRepository Store
  repository = cloudflare_node_gc_repository arrange observed_at

  -- The computation returns, and the graph is intact.
  abbrev Succeeds : {A : Type 0} → Result GcError A × Store → Type 0
  Succeeds {A} (r, s) = ((value : A) × (r ≡ ok value)) × IsIntact digester (core s)

  perform-Succeeds :
      (deletion : NodeGcDeletion) (s : Store)
      → IsIntact digester (core s)
      → child_count (node_key scope deletion.hash) s.nodes ≡ 0
      → deletion.child_references ≡ child_counts (node_key scope deletion.hash) s.edges
      → Succeeds (perform repository scope now (some deletion) s)
  unfolding delete_canonical_content commit_deletion
  perform-Succeeds deletion s intact z children =
      let key = node_key scope deletion.hash in
      let observed : NodeRow → NodeRow = λ row. record row {
        canonical_stored_bytes = none;
        canonical_observed_at = some observed_at;
      } in
      let nodes = update key observed s.nodes in
      let intact' : Intact digester nodes s.edges s.objects =
        update-Intact digester observed key s.nodes s.edges s.objects (λ row. refl) intact in
      let z' : child_count key nodes ≡ 0 =
        child_count-update observed (λ row. refl) key key s.nodes ∙ z in
      let (nodes', e, lowered) =
        lower_children-Lowered scope (child_counts key s.edges) (delete key nodes)
          (refs_to-bound digester key nodes s.edges s.objects intact' z') in
      let e' : lower_children scope deletion.child_references (delete key nodes) ≡ some nodes' =
        ap (λ c. lower_children scope c (delete key nodes)) children ∙ e in
      let s' = delete_canonical_content observed_at scope deletion.hash s in
      subst
        (λ o. Succeeds (
          deletion_size repository scope now deletion (commit_nodes key o s').0,
          (commit_nodes key o s').1,
        ))
        (sym e')
        (
          (some deletion.content_size, refl),
          delete-Intact digester key nodes nodes' s.edges s.objects intact' z' lowered,
        )

  perform_read-Succeeds :
      (hash : Text) (o : Option NodeGcDeletion) (s : Store)
      → read_still_expired_unreferenced scope hash now s ≡ o
      → IsIntact digester (core s)
      → Succeeds (perform repository scope now o s)
  unfolding read_still_expired_unreferenced
  perform_read-Succeeds hash none s h intact = ((none, refl), intact)
  perform_read-Succeeds hash (some deletion) s h intact =
      let (row, found, z, same_hash, children) =
        deletion_of-eq-some hash now (is_reserved now (node_key scope hash) s.reservations)
          (child_counts (node_key scope hash) s.edges) (find (node_key scope hash) s.nodes) deletion
          h in
      perform-Succeeds deletion s intact
        (ap (λ x. child_count (node_key scope x) s.nodes) same_hash ∙ ap count_of found ∙ z)
        (children ∙ ap (λ x. child_counts (node_key scope x) s.edges) (sym same_hash))

  resume-Succeeds :
      (r : Result GcError (Option ℕ)) (tally : Tally) (next : Tally → Result GcError Tally × Store)
      (s : Store)
      → (size : Option ℕ) × (r ≡ ok size)
      → ((tally' : Tally) → Succeeds (next tally'))
      → Succeeds (resume repository scope now r tally next s)
  resume-Succeeds (ok size) tally next s h f = f (add_deletion tally size)
  resume-Succeeds (err e) tally next s (size, h) f = absurd (err-ne-ok h)

  collect_candidates-Succeeds :
      (hashes : List Text) (tally : Tally) (s : Store)
      → IsIntact digester (core s)
      → Succeeds (collect_candidates repository scope now hashes tally s)
  unfolding collect_candidates collect_one
  collect_candidates-Succeeds [] tally s intact = ((tally, refl), intact)
  collect_candidates-Succeeds (hash ∷ hashes) tally s intact =
      let o = read_still_expired_unreferenced scope hash now s in
      let (returned, intact') = perform_read-Succeeds hash o s refl intact in
      resume-Succeeds (perform repository scope now o s).0 tally
        (λ tally'.
          collect_candidates repository scope now hashes tally'
            (perform repository scope now o s).1)
        (perform repository scope now o s).1 returned
        (λ tally'.
          collect_candidates-Succeeds hashes tally' (perform repository scope now o s).1 intact')

  gc_result-ok :
      (examined : ℕ) (r : Result GcError Tally)
      → (tally : Tally) × (r ≡ ok tally)
      → (result : CasGcResult) × (gc_result repository scope now examined r ≡ ok result)
        × (result.examined ≡ examined)
  gc_result-ok examined (ok tally) h = (_, refl, refl)
  gc_result-ok examined (err e) (tally, h) = absurd (err-ne-ok h)

either-IsIntact :
    {A : Type 0} (digester : Digester) (test : Bool) (x y : A × Store)
    → IsIntact digester (core x.1)
    → IsIntact digester (core y.1)
    → IsIntact digester (core (if test then x else y).1)
either-IsIntact digester true x y p q = p
either-IsIntact digester false x y p q = q

-- Whatever the limit, a collection keeps the graph intact.
pub collect_expired_unreferenced_nodes-IsIntact :
    (arrange : List Text → List Text) (observed_at : ℕ) (digester : Digester) (scope : Scope)
    (now : ℕ) (max_nodes : Option ℕ) (s : Store)
    → IsIntact digester (core s)
    → IsIntact digester (
        core
          (collect_expired_unreferenced_nodes
            (cloudflare_node_gc_repository arrange observed_at)
            scope
            now
            max_nodes
            s).1)
unfolding collect_expired_unreferenced_nodes
collect_expired_unreferenced_nodes-IsIntact arrange observed_at digester scope now max_nodes s
      intact =
    either-IsIntact digester (not (is_safe (or_default max_nodes)) || or_default max_nodes == 0) _ _
      intact
      (collect_candidates-Succeeds arrange observed_at digester scope now
        (take (or_default max_nodes) (arrange (eligible_hashes scope now s.reservations s.nodes)))
        (record { deleted = 0; reclaimed = 0 }) s intact).1

-- From a store whose graph is intact, a collection with a valid limit returns a result and leaves
-- the graph intact; it examines no more nodes than the limit. It does not fail: no child count goes
-- below zero.
pub collect_expired_unreferenced_nodes-Intact :
    (arrange : List Text → List Text) (observed_at : ℕ) (digester : Digester) (scope : Scope)
    (now : ℕ) (max_nodes : Option ℕ) (s : Store)
    → IsIntact digester (core s)
    → is_safe (or_default max_nodes) ≡ true
    → or_default max_nodes ≢ 0
    → (result : CasGcResult) × ((collect_expired_unreferenced_nodes
          (cloudflare_node_gc_repository arrange observed_at)
          scope
          now
          max_nodes
          s).0
        ≡ ok result)
      × (result.examined ≤ or_default max_nodes)
      × IsIntact digester (
          core
            (collect_expired_unreferenced_nodes
              (cloudflare_node_gc_repository arrange observed_at)
              scope
              now
              max_nodes
              s).1)
unfolding collect_expired_unreferenced_nodes
collect_expired_unreferenced_nodes-Intact arrange observed_at digester scope now max_nodes s intact
      safe positive =
    let valid : (not (is_safe (or_default max_nodes)) || or_default max_nodes == 0) ≡ false =
      ground (arith, safe, positive) in
    let candidates =
      take (or_default max_nodes) (arrange (eligible_hashes scope now s.reservations s.nodes)) in
    let (returned, intact') =
      collect_candidates-Succeeds arrange observed_at digester scope now candidates
        (record { deleted = 0; reclaimed = 0 }) s intact in
    let (result, e, examined) =
      gc_result-ok arrange observed_at digester scope now (length candidates) _ returned in
    (
      result,
      rw valid e,
      ground (
        arith,
        examined,
        length-take (or_default max_nodes)
            (arrange (eligible_hashes scope now s.reservations s.nodes)),
      ),
      rw valid intact',
    )
