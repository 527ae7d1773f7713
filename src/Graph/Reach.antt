-- ===== src/Graph/Reach.antt =====
-- The stores that the operations of packages/service and packages/service-cloudflare reach from the
-- empty tables, each operation run to its end before the next, as a Space's mutation gate does. The
-- upload in three steps is one operation: nothing comes between its steps.
use unicas.Base.{
  ℕ, ◌≤◌, ◌≡◌, refl, sym, ap, subst, ◌∙◌, true, Option, none, some, List, [], ◌∷◌, ◌++◌, Result, ok,
  err, arith,
}
use unicas.Base.Text.{Text}
use unicas.Base.Table.{find}
use unicas.Base.Exec.{Exec}
use unicas.Base.Exec.Rules.{Ends, Triple, Frame}
use unicas.Codec.Bytes.{Bytes}
use unicas.Codec.Host.{TextCoding}
use unicas.Codec.Validation.{CanonicalNodeLimits}
use unicas.Store.{Store, EdgeRow, NodeRow, StoredObject, empty_store}
use unicas.Store.Keys.{Scope, same_node_iff, node_key_eq}
use unicas.RootRefs.Types.{CanonicalRootRefsUpdate}
use unicas.RootRefs.Adapter.{execute_root_refs_update}
use unicas.Gc.{collect_expired_unreferenced_nodes}
use unicas.Gc.Adapter.{cloudflare_node_gc_repository}
use unicas.NodeLease.Types.{LeaseError}
use unicas.NodeLease.Driven.{UploadInput, has_digest}
use unicas.NodeLease.Upload.{lease_driven_node_upload}
use unicas.NodeLease.Ready.{lease_ready_node}
use unicas.NodeLease.Canonical.{lease_canonical_node}
use unicas.NodeLease.Direct.{
  DirectIdentifiers, prepare_canonical_node_upload, admit_canonical_node_upload_finalization,
}
use unicas.NodeLease.Adapter.{Bucket, delete_canonical_upload_session}
use unicas.NodeLease.Adapter.Cleanup.{cleanup_expired_lease_driven_uploads}
use unicas.NodeLease.Adapter.Repository.{
  lease_repository, canonical_repository, direct_repository, upload_repository,
}
use unicas.Graph.{core, IsIntact, edge_child, edge_count, count_of, child_count}
use unicas.Graph.Frames.{
  cleanup_expired_lease_driven_uploads-Frame, delete_canonical_upload_session-Frame,
}
use unicas.Graph.Upload.{lease_driven_node_upload-Safe}
use unicas.Graph.Adopt.{lease_ready_node-LeasedAs}
use unicas.Graph.Canonical.{lease_canonical_node-LeasedAs}
use unicas.Graph.Direct.{
  prepare_canonical_node_upload-Keeps, admit_canonical_node_upload_finalization-Keeps,
}
use unicas.Graph.Collect.{collect_expired_unreferenced_nodes-IsIntact}
use unicas.Graph.RootRefs.{execute_root_refs_update-Intact}

-- One operation, with the parameters that it is called with. A temporary object is written by a
-- client, by the address that it was given.
pub data Step (coding : TextCoding) (bucket : Bucket) : Store → Store → Type 0 where
  node_uploaded :
      (committed_at : ℕ) (scope : Scope) (hash : Text) (input : UploadInput) (s : Store)
      → Step coding bucket s
          (lease_driven_node_upload coding bucket.digester
            (upload_repository bucket committed_at)
            scope
            hash
            input
            s).1
  node_leased :
      (committed_at : ℕ) (scope : Scope) (hash : Text) (lease_duration_ms : ℕ)
      (limits : CanonicalNodeLimits) (now : ℕ) (s : Store)
      → Step coding bucket s
          (lease_ready_node coding
            (lease_repository bucket committed_at)
            scope
            hash
            lease_duration_ms
            limits
            now
            s).1
  canonical_leased :
      (committed_at : ℕ) (scope : Scope) (hash : Text) (lease_duration_ms : ℕ) (body : List Bytes)
      (declared_length : Option ℕ) (limits : CanonicalNodeLimits) (begun_at finalized_at : ℕ)
      (s : Store)
      → Step coding bucket s
          (lease_canonical_node coding
            (canonical_repository bucket committed_at)
            scope
            hash
            lease_duration_ms
            body
            declared_length
            limits
            begun_at
            finalized_at
            s).1
  upload_prepared :
      (committed_at : ℕ) (scope : Scope) (hash : Text) (lease_duration_ms : ℕ)
      (limits : CanonicalNodeLimits) (stored_bytes : ℕ) (identifiers : DirectIdentifiers)
      (upload_session_ms : Option ℕ) (leased_at now : ℕ) (s : Store)
      → Step coding bucket s
          (prepare_canonical_node_upload coding
            (direct_repository bucket committed_at)
            scope
            hash
            lease_duration_ms
            limits
            stored_bytes
            identifiers
            upload_session_ms
            leased_at
            now
            s).1
  upload_admitted :
      (committed_at : ℕ) (scope : Scope) (hash : Text) (lease_duration_ms : ℕ)
      (limits : CanonicalNodeLimits) (upload_id : Text) (leased_at now : ℕ) (s : Store)
      → Step coding bucket s
          (admit_canonical_node_upload_finalization coding
            (direct_repository bucket committed_at)
            scope
            hash
            lease_duration_ms
            limits
            upload_id
            leased_at
            now
            s).1
  session_deleted :
      (scope : Scope) (hash upload_id : Text) (s : Store)
      → Step coding bucket s (delete_canonical_upload_session scope hash upload_id s).1
  uploads_cleaned :
      (scope : Scope) (now limit : ℕ) (s : Store)
      → Step coding bucket s (cleanup_expired_lease_driven_uploads scope now limit s).1
  temporary_written :
      (temporary_objects : List (Text × Bytes)) (s : Store)
      → Step coding bucket s (record s { temporary_objects = temporary_objects })
  root_refs_updated :
      (scope : Scope) (canonical : CanonicalRootRefsUpdate) (now : ℕ) (s : Store)
      → Step coding bucket s (execute_root_refs_update scope canonical now s).1
  nodes_collected :
      (arrange : List Text → List Text) (observed_at : ℕ) (scope : Scope) (now : ℕ)
      (max_nodes : Option ℕ) (s : Store)
      → Step coding bucket s
          (collect_expired_unreferenced_nodes
            (cloudflare_node_gc_repository arrange observed_at)
            scope
            now
            max_nodes
            s).1

pub data Reachable (coding : TextCoding) (bucket : Bucket) : Store → Type 0 where
  at_start : Reachable coding bucket empty_store
  after_step :
      (s s' : Store)
      → Reachable coding bucket s
      → Step coding bucket s s'
      → Reachable coding bucket s'

module _ (coding : TextCoding) (bucket : Bucket) where
  abbrev Holds : Store → Type 0
  Holds s = IsIntact bucket.digester (core s)

  Ends-Holds :
      {A : Type 0} (Q : A → Store → Type 0) (result : Result LeaseError A) (s : Store)
      → ((value : A) (s : Store) → Q value s → Holds s)
      → Ends Q Holds result s
      → Holds s
  Ends-Holds Q (ok value) s f h = f value s h
  Ends-Holds Q (err thrown) s f h = h

  run-Holds :
      {A : Type 0} (Q : A → Store → Type 0) (m : Exec Store LeaseError A) (s : Store)
      → ((value : A) (s : Store) → Q value s → Holds s)
      → Triple Holds m Q Holds
      → Holds s
      → Holds (m s).1
  run-Holds Q m s f t p = Ends-Holds Q (m s).0 (m s).1 f (t.runs s p)

  Frame-Holds :
      {A : Type 0} (m : Exec Store LeaseError A) (s : Store)
      → Frame core m
      → Holds s
      → Holds (m s).1
  Frame-Holds m s h p = subst (IsIntact bucket.digester) (sym (h.same_view s)) p

  -- Every operation keeps the graph intact.
  pub Step-IsIntact : {s s' : Store} → Step coding bucket s s' → Holds s → Holds s'
  Step-IsIntact (node_uploaded committed_at scope hash input s) p =
      run-Holds _ _ s (λ _ s q. q.0)
        (lease_driven_node_upload-Safe coding bucket committed_at scope hash input) p
  Step-IsIntact (node_leased committed_at scope hash duration limits now s) p =
      run-Holds _ _ s (λ _ s q. q.0)
        (lease_ready_node-LeasedAs coding bucket committed_at scope limits hash duration now) p
  Step-IsIntact
        (canonical_leased committed_at scope hash duration body declared limits begun ended s) p =
      run-Holds _ _ s (λ _ s q. q.0)
        (lease_canonical_node-LeasedAs coding bucket committed_at scope limits hash duration body
          declared begun ended)
        p
  Step-IsIntact
        (upload_prepared committed_at scope hash duration limits bytes ids session leased now s) p =
      run-Holds _ _ s (λ _ s q. q)
        (prepare_canonical_node_upload-Keeps coding bucket committed_at scope hash duration limits
          bytes ids session leased now)
        p
  Step-IsIntact (upload_admitted committed_at scope hash duration limits upload_id leased now s) p =
      run-Holds _ _ s (λ _ s q. q)
        (admit_canonical_node_upload_finalization-Keeps coding bucket committed_at scope hash
          duration limits upload_id leased now)
        p
  Step-IsIntact (session_deleted scope hash upload_id s) p =
      Frame-Holds _ s (delete_canonical_upload_session-Frame scope hash upload_id) p
  Step-IsIntact (uploads_cleaned scope now limit s) p =
      Frame-Holds _ s (cleanup_expired_lease_driven_uploads-Frame scope now limit) p
  Step-IsIntact (temporary_written temporary_objects s) p = p
  Step-IsIntact (root_refs_updated scope canonical now s) p =
      execute_root_refs_update-Intact bucket.digester scope canonical now s p
  Step-IsIntact (nodes_collected arrange observed_at scope now max_nodes s) p =
      collect_expired_unreferenced_nodes-IsIntact arrange observed_at bucket.digester scope now
        max_nodes s p

  empty-IsIntact : Holds empty_store
  unfolding edge_count find
  empty-IsIntact = record {
    counted = λ key. refl;
    backed = λ key row h. cc;
    sound = λ key object h. cc;
  }

  -- In every store that the operations reach, each node counts the edges to it, each row has an
  -- object and each object has the digest that it is stored under.
  pub Reachable-IsIntact :
      {s : Store} → Reachable coding bucket s → IsIntact bucket.digester (core s)
  Reachable-IsIntact at_start = empty-IsIntact
  Reachable-IsIntact (after_step t s r step) = Step-IsIntact step (Reachable-IsIntact r)

edge_count-positive :
    (edge : EdgeRow) (earlier later : List EdgeRow)
    → 1 ≤ edge_count (edge_child edge) (earlier ++ (edge ∷ later))
unfolding edge_count
edge_count-positive edge [] later =
    let t = (same_node_iff (edge_child edge) (edge_child edge)).1 refl in ground (arith, t)
edge_count-positive edge (e ∷ earlier) later =
    ground (arith, edge_count-positive edge earlier later)

counted-row :
    (o : Option NodeRow)
    → 1 ≤ count_of o
    → (row : NodeRow) × (o ≡ some row) × (1 ≤ row.child_ref_count)
counted-row none h = absurd (omega arith)
counted-row (some row) h = (row, refl, h)

-- In every store that the operations reach, no reference dangles: the child of each edge has a row
-- that counts a reference, and an object whose digest is the child's hash.
pub Reachable-edge :
    (coding : TextCoding) (bucket : Bucket) (s : Store) (edge : EdgeRow)
    (earlier later : List EdgeRow)
    → Reachable coding bucket s
    → s.edges ≡ earlier ++ (edge ∷ later)
    → (row : NodeRow) × (object : StoredObject) × (find (edge_child edge) s.nodes ≡ some row)
      × (1 ≤ row.child_ref_count)
      × (find (edge_child edge) s.objects ≡ some object)
      × (has_digest bucket.digester object.bytes edge.child ≡ true)
Reachable-edge coding bucket s edge earlier later reachable e =
    let intact = Reachable-IsIntact coding bucket reachable in
    let key = edge_child edge in
    let positive : 1 ≤ child_count key s.nodes =
      subst (λ n. 1 ≤ n) (ap (edge_count key) (sym e) ∙ intact.counted key)
        (edge_count-positive edge earlier later) in
    let (row, found, counts) = counted-row (find key s.nodes) positive in
    let (object, stored) = intact.backed key row found in
    (row, object, found, counts, stored, intact.sound key object stored)
