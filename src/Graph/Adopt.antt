-- ===== src/Graph/Adopt.antt =====
-- `leaseReadyNode` of packages/service/src/node-lease.ts over the Cloudflare repository: it keeps the
-- graph intact, and the node that it leases is there.
use unicas.Base.{ℕ, ◌≡◌, refl, not, Option, none, some, List}
use unicas.Base.Text.{Text}
use unicas.Base.Exec.{reads, lift, recover, throw_when}
use unicas.Base.Exec.Rules.{
  Frame, Frame-bind, Frame-recover, Frame-throw, Frame-reads, Frame-lift, Ends, Triple, Triple-bind,
  Triple-return, Triple-error, Triple-weaken, Triple-Frame, Triple-throw_when,
}
use unicas.Codec.Bytes.{Bytes}
use unicas.Codec.Host.{TextCoding}
use unicas.Codec.Validation.{CanonicalNodeLimits}
use unicas.Store.{Store, ReservationRow}
use unicas.Store.Keys.{Scope, NodeKey, node_key_eq}
use unicas.RootRefs.Adapter.{node_key}
use unicas.NodeLease.{NodeLeaseRecord, next_node_lease}
use unicas.NodeLease.Types.{
  node_op_error, not_found, CanonicalOrphanObject, CasLeaseResult, AdoptedCanonicalNodePlan,
  NodeLeaseRepository,
}
use unicas.NodeLease.Ready.{
  is_unusable, object_bytes, parse_found, inspect_canonical_node, check_children, renew_existing,
  adopt_orphan, renew_or_adopt, lease_ready_node, validate_lease_hash,
}
use unicas.NodeLease.Adapter.{
  Bucket, run, read_node_lease, read_canonical_object, read_canonical_prefix, is_node_ready,
  renew_node_lease,
}
use unicas.NodeLease.Adapter.Commit.{adopt_batch, adopted_node, commit_adopted_canonical_node}
use unicas.NodeLease.Adapter.Repository.{lease_repository}
use unicas.Graph.{Core, core, IsIntact}
use unicas.Graph.Objects.{HasObject}
use unicas.Graph.Insert.{HasRow}
use unicas.Graph.Ready.{require-Triple, is_node_ready-Triple, check_children-Triple}
use unicas.Graph.Publish.{Leased, Found, IntactBefore, run-Ends, read_canonical_object-Triple}
use unicas.Graph.Renew.{ReadyRow, Known, read_node_lease-Triple, renew_node_lease-Triple}

-- A leased node is there under the lease that is returned.
abbrev pub LeasedAs : Bucket → Scope → Text → CasLeaseResult → Store → Type 0
LeasedAs bucket scope hash result s =
    IsIntact bucket.digester (core s)
    × (result.hash ≡ hash)
    × Leased (node_key scope hash) result.lease (core s)

module _ (bucket : Bucket) (committed_at : ℕ) (scope : Scope)
    (plan : AdoptedCanonicalNodePlan) where
  adopt-Ends :
      (s : Store) (reservations : Option (List (NodeKey × ReservationRow)))
      → IntactBefore bucket committed_at scope (adopted_node plan) (core s)
      → Ends
          (λ _ s.
            IsIntact bucket.digester (core s)
            × Leased (node_key scope plan.hash) plan.lease (core s))
          (λ s. IsIntact bucket.digester (core s))
          (run (adopt_batch (node_key scope plan.hash) plan committed_at reservations s) s).0
          (run (adopt_batch (node_key scope plan.hash) plan committed_at reservations s) s).1
  adopt-Ends s none p = p.0.0
  adopt-Ends s (some rows) p =
      run-Ends bucket committed_at scope (adopted_node plan) s (record s { reservations = rows }) _
        refl p.0.0 p

  pub commit_adopted_canonical_node-Triple :
      Triple
        (λ s. IntactBefore bucket committed_at scope (adopted_node plan) (core s))
        (commit_adopted_canonical_node committed_at scope plan)
        (λ _ s.
          IsIntact bucket.digester (core s) × Leased (node_key scope plan.hash) plan.lease (core s))
        (λ s. IsIntact bucket.digester (core s))
  unfolding commit_adopted_canonical_node
  commit_adopted_canonical_node-Triple = record { runs = λ s p. adopt-Ends s _ p }

module _ (coding : TextCoding) (bucket : Bucket) (committed_at : ℕ) (scope : Scope)
    (limits : CanonicalNodeLimits) where
  abbrev repository : NodeLeaseRepository Store
  repository = lease_repository bucket committed_at

  parse_found-Frame :
      (source : Option (List Bytes)) (stored_bytes : ℕ)
      → Frame core (parse_found coding repository scope limits source stored_bytes)
  parse_found-Frame none stored_bytes = Frame-throw core _
  parse_found-Frame (some source) stored_bytes = Frame-lift core _

  pub inspect_canonical_node-Frame :
      (hash : Text) (stored_bytes : ℕ)
      → Frame core (inspect_canonical_node coding repository scope limits hash stored_bytes)
  unfolding inspect_canonical_node read_canonical_prefix
  inspect_canonical_node-Frame hash stored_bytes =
      Frame-bind core (reads _) _ (Frame-reads core _)
        (λ found. parse_found-Frame found stored_bytes)

  usable-Triple :
      (hash : Text) (found : Option CanonicalOrphanObject)
      → Triple
          (λ s. IsIntact bucket.digester (core s) × Found (node_key scope hash) found (core s))
          (throw_when (is_unusable found limits hash) (node_op_error 404 not_found))
          (λ _ s. IsIntact bucket.digester (core s) × HasObject (node_key scope hash) s.objects)
          (λ s. IsIntact bucket.digester (core s))
  usable-Triple hash none = record { runs = λ s p. p.0 }
  usable-Triple hash (some object) =
      Triple-error _ _ _ _ (λ s p. p.0)
        (Triple-weaken _ _ _ _ _ _ (λ s p. p) (λ _ s p. p.0)
          (Triple-throw_when
            (λ s. IsIntact bucket.digester (core s) × HasObject (node_key scope hash) s.objects) _
            _))

  -- A guard and a renewal.
  pub renew_existing-Triple :
      (hash : Text) (lease_duration_ms now : ℕ) (existing : NodeLeaseRecord)
      → Triple
          (λ s. IsIntact bucket.digester (core s) × ReadyRow (node_key scope hash) (core s))
          (renew_existing repository scope hash lease_duration_ms now existing)
          (LeasedAs bucket scope hash)
          (λ s. IsIntact bucket.digester (core s))
  unfolding renew_existing
  renew_existing-Triple hash lease_duration_ms now existing =
      let P : Core → Type 0 = λ c. IsIntact bucket.digester c × ReadyRow (node_key scope hash) c in
      Triple-bind _ _ _ _ (is_node_ready scope hash) _
        (Triple-error _ _ _ _ (λ s p. p.0) (is_node_ready-Triple P scope hash))
        (λ is_ready.
          Triple-bind _ _ _ _ (throw_when (not is_ready) _) _
            (Triple-error _ _ _ _ (λ s p. p.0)
              (require-Triple P
                (λ c.
                  HasRow (node_key scope hash) c.nodes × HasObject (node_key scope hash) c.objects)
                is_ready _))
            (λ _.
              Triple-bind _ _ _ _ (renew_node_lease scope hash _) _
                (Triple-weaken _ _ _ _ _ _ (λ s (p, (row, object)). (p, object)) (λ _ s p. p)
                  (renew_node_lease-Triple bucket scope hash
                    (next_node_lease (some existing) lease_duration_ms now)))
                (λ _. Triple-return _ _ _ _ (λ s (intact, leased). (intact, refl, leased)))))

  adopt_orphan-Triple :
      (hash : Text) (lease_duration_ms now : ℕ)
      → Triple
          (λ s. IsIntact bucket.digester (core s))
          (adopt_orphan coding repository scope hash lease_duration_ms limits now)
          (LeasedAs bucket scope hash)
          (λ s. IsIntact bucket.digester (core s))
  unfolding adopt_orphan
  adopt_orphan-Triple hash lease_duration_ms now =
      let P : Core → Type 0 =
        λ c. IsIntact bucket.digester c × HasObject (node_key scope hash) c.objects in
      Triple-bind _ _ _ _ (read_canonical_object scope hash) _
        (read_canonical_object-Triple (IsIntact bucket.digester) scope hash)
        (λ object. Triple-bind _ _ _ _ (throw_when _ _) _ (usable-Triple hash object) (λ _.
          Triple-bind _ (λ _ s. P (core s)) _ _ (recover _ _) _
            (Triple-error _ _ _ _ (λ s p. p.0)
              (Triple-Frame core P _ (
                Frame-recover core _ _ (inspect_canonical_node-Frame hash (object_bytes object))
                  (λ _. Frame-throw core _))))
            (λ parsed.
              Triple-bind _ _ _ _ (check_children repository scope parsed.refs) _
                (Triple-error _ _ _ _ (λ s p. p.0)
                  (check_children-Triple bucket committed_at scope P parsed.refs))
                (λ _.
                  Triple-bind _ _ _ _ (commit_adopted_canonical_node committed_at scope _) _
                    (Triple-weaken _ _ _ _ _ _
                      (λ s ((intact, object), rows). ((intact, rows), object)) (λ _ s p. p)
                      (commit_adopted_canonical_node-Triple bucket committed_at scope _))
                    (λ _. Triple-return _ _ _ _ (λ s (intact, leased). (intact, refl, leased)))))))

  renew_or_adopt-Triple :
      (hash : Text) (lease_duration_ms now : ℕ) (existing : Option NodeLeaseRecord)
      → Triple
          (λ s. IsIntact bucket.digester (core s) × Known (node_key scope hash) existing (core s))
          (renew_or_adopt coding repository scope hash lease_duration_ms limits now existing)
          (LeasedAs bucket scope hash)
          (λ s. IsIntact bucket.digester (core s))
  renew_or_adopt-Triple hash lease_duration_ms now none =
      Triple-weaken _ _ _ _ _ _ (λ s p. p.0) (λ _ s p. p)
        (adopt_orphan-Triple hash lease_duration_ms now)
  renew_or_adopt-Triple hash lease_duration_ms now (some existing) =
      renew_existing-Triple hash lease_duration_ms now existing

  -- From a store whose graph is intact, leasing a ready node leaves it intact, whether it returns or
  -- throws; and the node that it returns has a ready row with the lease that it returns and an
  -- object.
  pub lease_ready_node-LeasedAs :
      (hash : Text) (lease_duration_ms now : ℕ)
      → Triple
          (λ s. IsIntact bucket.digester (core s))
          (lease_ready_node coding
            (lease_repository bucket committed_at)
            scope
            hash
            lease_duration_ms
            limits
            now)
          (LeasedAs bucket scope hash)
          (λ s. IsIntact bucket.digester (core s))
  unfolding lease_ready_node
  lease_ready_node-LeasedAs hash lease_duration_ms now =
      Triple-bind _ (λ _ s. IsIntact bucket.digester (core s)) _ _ (lift (validate_lease_hash hash))
        _ (Triple-Frame core (IsIntact bucket.digester) _ (Frame-lift core _))
        (λ _.
          Triple-bind _ _ _ _ (read_node_lease scope hash) _
            (read_node_lease-Triple (IsIntact bucket.digester) scope hash)
            (renew_or_adopt-Triple hash lease_duration_ms now))
