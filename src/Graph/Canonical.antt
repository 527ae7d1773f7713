-- ===== src/Graph/Canonical.antt =====
-- The three steps of a canonical upload of packages/service/src/node-lease.ts over the Cloudflare
-- repository: they keep the graph intact, and the node that they lease is there.
use unicas.Base.{
  ℕ, ◌≡◌, refl, subst, Bool, true, false, Option, none, some, List, arith, if◌then◌else◌,
}
use unicas.Base.Text.{Text}
use unicas.Base.Table.{find-update, beq_refl}
use unicas.Base.Exec.{reads, lift, throw_when}
use unicas.Base.Exec.Rules.{
  Frame, Frame-bind, Frame-recover, Frame-throw, Frame-return, Frame-reads, Frame-lift,
  Frame-throw_when, Triple, Triple-bind, Triple-return, Triple-throw, Triple-recover, Triple-error,
  Triple-weaken, Triple-Frame, Triple-throw_when,
}
use unicas.Codec.Bytes.{Bytes}
use unicas.Codec.Host.{TextCoding}
use unicas.Codec.Validation.{CanonicalNodeLimits}
use unicas.Store.{Store, NodeRow}
use unicas.Store.Keys.{Scope, node_key_eq}
use unicas.RootRefs.Adapter.{node_key}
use unicas.NodeLease.{NodeLeaseRecord, next_node_lease}
use unicas.NodeLease.Types.{
  CanonicalNodeLeaseRecord, CanonicalNodeLeaseBeginResult, begin_ready, begin_upload,
  CanonicalNodeUploadPlan, ParsedUploadedNodeMetadata, CanonicalNodeLeaseRepository, lease_of,
}
use unicas.NodeLease.Ready.{validate_lease_hash, check_children}
use unicas.NodeLease.Canonical.{
  commit_plan_of, check_immutable, ready_or_missing, reserve_upload, renew_ready,
  begin_canonical_node_lease, upload_canonical_node, parsed_or_inspected,
  finalize_canonical_node_lease, complete_upload, lease_canonical_node,
}
use unicas.NodeLease.Adapter.{
  Bucket, read_canonical_node_lease, read_node_refs, renew_node_lease, reserve_canonical_upload,
  put_canonical_object,
}
use unicas.NodeLease.Adapter.Commit.{commit_existing_node, commit_uploaded_canonical_node}
use unicas.NodeLease.Adapter.Repository.{canonical_repository}
use unicas.Graph.{Core, core, IsIntact}
use unicas.Graph.Rows.{update-Intact}
use unicas.Graph.Frames.{reserve_canonical_upload-Frame}
use unicas.Graph.Objects.{HasObject, put_canonical_object-Triple}
use unicas.Graph.Ready.{HasRows, is_node_ready-Triple, check_children-Triple}
use unicas.Graph.Publish.{Leased, commit_new_node-Triple}
use unicas.Graph.Renew.{ReadyRow, Known, read_canonical_node_lease-Triple, renew_node_lease-Triple}
use unicas.Graph.Adopt.{LeasedAs, inspect_canonical_node-Frame}

module _ (bucket : Bucket) (scope : Scope) (hash : Text) (stored_bytes : ℕ)
    (lease : NodeLeaseRecord) (committed_at : ℕ) where
  -- A ready row with an object, renewed and observed.
  pub commit_existing_node-Triple :
      Triple
        (λ s.
          (IsIntact bucket.digester (core s) × ReadyRow (node_key scope hash) (core s))
          × HasObject (node_key scope hash) s.objects)
        (commit_existing_node scope hash stored_bytes lease committed_at)
        (λ _ s. IsIntact bucket.digester (core s) × Leased (node_key scope hash) lease (core s))
        (λ s. IsIntact bucket.digester (core s))
  unfolding commit_existing_node
  commit_existing_node-Triple = record {
    runs = λ s ((intact, (row, found, is_ready)), (object, stored)).
        let key = node_key scope hash in
        let f : NodeRow → NodeRow = λ row. record row {
          lease_started_at = lease.lease_started_at;
          lease_expires_at = lease.lease_expires_at;
          canonical_stored_bytes = some stored_bytes;
          canonical_observed_at = some committed_at;
        } in
        (
          update-Intact bucket.digester f key s.nodes s.edges s.objects (λ row. refl) intact,
          record {
            row = f row;
            object = object;
            stored = stored;
            found = ground (arith, find-update key key f s.nodes, beq_refl key, found);
            is_ready = is_ready;
            started = refl;
            expires = refl;
          },
        );
  }

module _ (bucket : Bucket) (committed_at : ℕ) (scope : Scope) (hash : Text) where
  abbrev repository : CanonicalNodeLeaseRepository Store
  repository = canonical_repository bucket committed_at

  abbrev IntactNow : Store → Type 0
  IntactNow s = IsIntact bucket.digester (core s)

  abbrev KnownAs : Option CanonicalNodeLeaseRecord → Core → Type 0
  KnownAs existing c = IsIntact bucket.digester c × Known (node_key scope hash) existing c

  ready_or_missing-Triple :
      (existing : Option CanonicalNodeLeaseRecord)
      → Triple
          (λ s. KnownAs existing (core s))
          (ready_or_missing repository scope hash existing)
          (λ is_ready s.
            KnownAs existing (core s)
            × (is_ready ≡ true
                → ReadyRow (node_key scope hash) (core s)
                  × HasObject (node_key scope hash) s.objects))
          IntactNow
  ready_or_missing-Triple none = Triple-return _ _ _ false (λ s p. (p, λ t. cc))
  ready_or_missing-Triple (some existing) =
      Triple-error _ _ _ _ (λ s p. p.0)
        (Triple-weaken _ _ _ _ _ _ (λ s p. p) (λ _ s (p, q). (p, λ t. (p.1, (q t).1)))
          (is_node_ready-Triple (KnownAs (some existing)) scope hash))

  -- A node that the first step calls ready is there with its lease.
  abbrev pub Begun : CanonicalNodeLeaseBeginResult → Store → Type 0
  Begun (begin_ready result) s = LeasedAs bucket scope hash result s
  Begun (begin_upload plan) s = IntactNow s × (plan.hash ≡ hash)

  reserve_upload-Triple :
      (lease_duration_ms : ℕ) (declared_length : Option ℕ) (limits : CanonicalNodeLimits) (now : ℕ)
      → Triple IntactNow
          (reserve_upload repository scope hash lease_duration_ms declared_length limits now)
          Begun
          IntactNow
  unfolding reserve_upload
  reserve_upload-Triple lease_duration_ms none limits now = Triple-throw _ _ _ _ (λ s p. p)
  reserve_upload-Triple lease_duration_ms (some declared_length) limits now =
      Triple-bind _ _ _ _ (throw_when _ _) _ (Triple-throw_when IntactNow _ _) (λ _.
        Triple-bind _ (λ _ s. IntactNow s) _ _ (reserve_canonical_upload scope _) _
          (Triple-weaken _ _ _ _ _ _ (λ s p. p.0) (λ _ s p. p)
            (Triple-Frame core (IsIntact bucket.digester) _
              (reserve_canonical_upload-Frame scope _)))
          (λ _. Triple-return _ _ _ _ (λ s p. (p, refl))))

  begin_branch-Triple :
      (lease_duration_ms : ℕ) (declared_length : Option ℕ) (limits : CanonicalNodeLimits) (now : ℕ)
      (existing : Option CanonicalNodeLeaseRecord) (is_ready : Bool)
      → Triple
          (λ s.
            KnownAs existing (core s)
            × (is_ready ≡ true
                → ReadyRow (node_key scope hash) (core s)
                  × HasObject (node_key scope hash) s.objects))
          (if is_ready
            then renew_ready repository scope hash lease_duration_ms now existing
            else reserve_upload repository scope hash lease_duration_ms declared_length limits now)
          Begun
          IntactNow
  begin_branch-Triple lease_duration_ms declared_length limits now existing true =
      Triple-bind _ _ _ _ (renew_node_lease scope hash _) _
        (Triple-weaken _ _ _ _ _ _ (λ s (p, q). ((p.0, (q refl).0), (q refl).1)) (λ _ s p. p)
          (renew_node_lease-Triple bucket scope hash
            (next_node_lease (lease_of existing) lease_duration_ms now)))
        (λ _. Triple-return _ _ _ _ (λ s (intact, leased). (intact, refl, leased)))
  begin_branch-Triple lease_duration_ms declared_length limits now existing false =
      Triple-weaken _ _ _ _ _ _ (λ s p. p.0.0) (λ _ s p. p)
        (reserve_upload-Triple lease_duration_ms declared_length limits now)

  begin_canonical_node_lease-Begun :
      (lease_duration_ms : ℕ) (declared_length : Option ℕ) (limits : CanonicalNodeLimits) (now : ℕ)
      → Triple IntactNow
          (begin_canonical_node_lease repository scope hash lease_duration_ms declared_length limits
            now)
          Begun
          IntactNow
  unfolding begin_canonical_node_lease
  begin_canonical_node_lease-Begun lease_duration_ms declared_length limits now =
      Triple-bind _ (λ _ s. IntactNow s) _ _ (lift (validate_lease_hash hash)) _
        (Triple-Frame core (IsIntact bucket.digester) _ (Frame-lift core _))
        (λ _.
          Triple-bind _ _ _ _ (read_canonical_node_lease scope hash) _
            (read_canonical_node_lease-Triple (IsIntact bucket.digester) scope hash)
            (λ existing.
              Triple-bind _ _ _ _ (ready_or_missing repository scope hash existing) _
                (ready_or_missing-Triple existing)
                (begin_branch-Triple lease_duration_ms declared_length limits now existing)))

module _ (coding : TextCoding) (bucket : Bucket) (committed_at : ℕ) (scope : Scope)
    (plan : CanonicalNodeUploadPlan) (limits : CanonicalNodeLimits) where
  abbrev canonical : CanonicalNodeLeaseRepository Store
  canonical = canonical_repository bucket committed_at

  abbrev WithObject : Core → Type 0
  WithObject c = IsIntact bucket.digester c × HasObject (node_key scope plan.hash) c.objects

  -- After the second step the object is there.
  upload_canonical_node-Triple :
      (body : List Bytes)
      → Triple
          (λ s. IsIntact bucket.digester (core s))
          (upload_canonical_node canonical scope plan body)
          (λ _ s. WithObject (core s))
          (λ s. IsIntact bucket.digester (core s))
  unfolding upload_canonical_node
  upload_canonical_node-Triple body =
      Triple-recover _ _ _ (put_canonical_object bucket scope plan.hash body) _
        (λ s. IsIntact bucket.digester (core s))
        (Triple-error _ _ _ _ (λ s p. p.0)
          (Triple-weaken _ _ _ _ _ _ (λ s p. (p, tt)) (λ _ s p. (p.0.0, p.1))
            (put_canonical_object-Triple bucket (λ _. Unit) scope plan.hash body)))
        (λ _. Triple-throw _ _ _ _ (λ s p. p))

  parsed_or_inspected-Frame :
      (supplied : Option ParsedUploadedNodeMetadata)
      → Frame core (parsed_or_inspected coding canonical scope plan limits supplied)
  parsed_or_inspected-Frame (some parsed) = Frame-return core parsed
  parsed_or_inspected-Frame none =
      Frame-recover core _ _
        (Frame-bind core _ _
          (inspect_canonical_node-Frame coding bucket committed_at scope limits plan.hash
            plan.stored_bytes)
          (λ parsed. Frame-return core _))
        (λ thrown. Frame-throw core _)

  check_immutable-Frame :
      (parsed : ParsedUploadedNodeMetadata) (existing : Option CanonicalNodeLeaseRecord)
      → Frame core (check_immutable canonical scope plan.hash parsed existing)
  unfolding read_node_refs
  check_immutable-Frame parsed none = Frame-return core tt
  check_immutable-Frame parsed (some existing) =
      Frame-bind core (reads _) _ (Frame-reads core _) (λ refs. Frame-throw_when core _ _)

  abbrev KnownObject : Option CanonicalNodeLeaseRecord → Core → Type 0
  KnownObject existing c = WithObject c × Known (node_key scope plan.hash) existing c

  commit-Triple :
      (parsed : ParsedUploadedNodeMetadata) (existing : Option CanonicalNodeLeaseRecord)
      (lease : NodeLeaseRecord)
      → Triple
          (λ s. KnownObject existing (core s) × HasRows scope parsed.refs s.nodes)
          (commit_uploaded_canonical_node committed_at scope
            (commit_plan_of plan parsed existing lease))
          (λ _ s.
            IsIntact bucket.digester (core s) × Leased (node_key scope plan.hash) lease (core s))
          (λ s. IsIntact bucket.digester (core s))
  unfolding commit_uploaded_canonical_node
  commit-Triple parsed none lease =
      Triple-weaken _ _ _ _ _ _ (λ s (p, rows). ((p.0.0, rows), p.0.1)) (λ _ s p. p)
        (commit_new_node-Triple bucket committed_at scope _)
  commit-Triple parsed (some existing) lease =
      Triple-weaken _ _ _ _ _ _ (λ s (p, rows). ((p.0.0, p.1), p.0.1)) (λ _ s p. p)
        (commit_existing_node-Triple bucket scope plan.hash plan.stored_bytes lease committed_at)

  finalize_canonical_node_lease-Triple :
      (supplied : Option ParsedUploadedNodeMetadata) (now : ℕ)
      → Triple
          (λ s. WithObject (core s))
          (finalize_canonical_node_lease coding canonical scope plan limits supplied now)
          (LeasedAs bucket scope plan.hash)
          (λ s. IsIntact bucket.digester (core s))
  unfolding finalize_canonical_node_lease
  finalize_canonical_node_lease-Triple supplied now =
      Triple-bind _ (λ _ s. WithObject (core s)) _ _ (lift (validate_lease_hash plan.hash)) _
        (Triple-error _ _ _ _ (λ s p. p.0) (Triple-Frame core WithObject _ (Frame-lift core _)))
        (λ _.
          Triple-bind _ _ _ _ (read_canonical_node_lease scope plan.hash) _
            (Triple-error _ _ _ _ (λ s p. p.0)
              (read_canonical_node_lease-Triple WithObject scope plan.hash))
            (λ existing.
              Triple-bind _ (λ _ s. KnownObject existing (core s)) _ _
                (parsed_or_inspected coding canonical scope plan limits supplied) _
                (Triple-error _ _ _ _ (λ s p. p.0.0)
                  (Triple-Frame core (KnownObject existing) _ (parsed_or_inspected-Frame supplied)))
                (λ parsed.
                  Triple-bind _ (λ _ s. KnownObject existing (core s)) _ _
                    (check_immutable canonical scope plan.hash parsed existing) _
                    (Triple-error _ _ _ _ (λ s p. p.0.0)
                      (Triple-Frame core (KnownObject existing) _
                        (check_immutable-Frame parsed existing)))
                    (λ _.
                      Triple-bind _ _ _ _ (check_children canonical.leases scope parsed.refs) _
                        (Triple-error _ _ _ _ (λ s p. p.0.0)
                          (check_children-Triple bucket committed_at scope (KnownObject existing)
                            parsed.refs))
                        (λ _.
                          Triple-bind _ _ _ _ (commit_uploaded_canonical_node committed_at scope _)
                            _ (commit-Triple parsed existing _)
                            (λ _.
                              Triple-return _ _ _ _
                                (λ s (intact, leased). (intact, refl, leased))))))))

module _ (coding : TextCoding) (bucket : Bucket) (committed_at : ℕ) (scope : Scope)
    (limits : CanonicalNodeLimits) where
  abbrev uploads : CanonicalNodeLeaseRepository Store
  uploads = canonical_repository bucket committed_at

  complete_upload-Triple :
      (hash : Text) (body : List Bytes) (now : ℕ) (begin : CanonicalNodeLeaseBeginResult)
      → Triple
          (Begun bucket committed_at scope hash begin)
          (complete_upload coding uploads scope limits body now begin)
          (LeasedAs bucket scope hash)
          (λ s. IsIntact bucket.digester (core s))
  complete_upload-Triple hash body now (begin_ready result) = Triple-return _ _ _ _ (λ s p. p)
  complete_upload-Triple hash body now (begin_upload plan) = record {
    runs = λ s (intact, e).
        (subst
            (λ h.
              Triple (λ s. IsIntact bucket.digester (core s))
                (complete_upload coding uploads scope limits body now (begin_upload plan))
                (LeasedAs bucket scope h) (λ s. IsIntact bucket.digester (core s)))
            e
            (Triple-bind _ _ _ _ (upload_canonical_node uploads scope plan body) _
              (upload_canonical_node-Triple coding bucket committed_at scope plan limits body)
              (λ _.
                finalize_canonical_node_lease-Triple coding bucket committed_at scope plan limits
                  none now))).runs
          s intact;
  }

  -- From a store whose graph is intact, leasing a canonical node leaves it intact, whether it returns
  -- or throws; and the node that it returns has a ready row with the lease that it returns and an
  -- object.
  pub lease_canonical_node-LeasedAs :
      (hash : Text) (lease_duration_ms : ℕ) (body : List Bytes) (declared_length : Option ℕ)
      (begun_at finalized_at : ℕ)
      → Triple
          (λ s. IsIntact bucket.digester (core s))
          (lease_canonical_node coding
            (canonical_repository bucket committed_at)
            scope
            hash
            lease_duration_ms
            body
            declared_length
            limits
            begun_at
            finalized_at)
          (LeasedAs bucket scope hash)
          (λ s. IsIntact bucket.digester (core s))
  unfolding lease_canonical_node
  lease_canonical_node-LeasedAs hash lease_duration_ms body declared_length begun_at finalized_at =
      Triple-bind _ _ _ _
        (begin_canonical_node_lease uploads scope hash lease_duration_ms declared_length limits
          begun_at)
        _
        (begin_canonical_node_lease-Begun bucket committed_at scope hash lease_duration_ms
          declared_length limits begun_at)
        (complete_upload-Triple hash body finalized_at)
