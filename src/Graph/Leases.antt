-- ===== src/Graph/Leases.antt =====
-- What a lease of packages/service/src/node-lease.ts that was granted says of the tables and the
-- bucket.
use unicas.Base.{ℕ, ◌≡◌, Option, List, ok}
use unicas.Base.Text.{Text}
use unicas.Base.Exec.Rules.{Triple-ok}
use unicas.Codec.Bytes.{Bytes}
use unicas.Codec.Host.{TextCoding}
use unicas.Codec.Validation.{CanonicalNodeLimits}
use unicas.Store.{Store}
use unicas.Store.Keys.{Scope}
use unicas.RootRefs.Adapter.{node_key}
use unicas.NodeLease.Types.{CasLeaseResult, upload_ready}
use unicas.NodeLease.Driven.{UploadInput}
use unicas.NodeLease.Upload.{lease_driven_node_upload}
use unicas.NodeLease.Ready.{lease_ready_node}
use unicas.NodeLease.Canonical.{lease_canonical_node}
use unicas.NodeLease.Adapter.{Bucket}
use unicas.NodeLease.Adapter.Repository.{lease_repository, canonical_repository, upload_repository}
use unicas.Graph.{core, IsIntact}
use unicas.Graph.Publish.{Leased}
use unicas.Graph.Upload.{lease_driven_node_upload-Safe}
use unicas.Graph.Adopt.{lease_ready_node-LeasedAs}
use unicas.Graph.Canonical.{lease_canonical_node-LeasedAs}

module _ (coding : TextCoding) (bucket : Bucket) (committed_at : ℕ) (scope : Scope) (hash : Text)
    (s s' : Store) (result : CasLeaseResult) (intact : IsIntact bucket.digester (core s)) where
  -- From a store whose graph is intact, an upload step that answers `ready` leaves it intact, and the
  -- node that it was called for then has a ready row with exactly the lease that it answers, and an
  -- object.
  pub lease_driven_node_upload-Leased :
      (input : UploadInput)
      → lease_driven_node_upload coding bucket.digester
          (upload_repository bucket committed_at)
          scope
          hash
          input
          s
        ≡ (ok (upload_ready result), s')
      → IsIntact bucket.digester (core s')
        × (result.hash ≡ hash)
        × Leased (node_key scope hash) result.lease (core s')
  lease_driven_node_upload-Leased input h =
      let (kept, (same_hash, leased)) =
        Triple-ok (lease_driven_node_upload-Safe coding bucket committed_at scope hash input) s s'
          (upload_ready result) intact h in
      (kept, same_hash, leased)

  -- From a store whose graph is intact, leasing a ready node or adopting a canonical object without a
  -- row, when it returns, leaves the graph intact, and the node then has a ready row with exactly the
  -- lease that it returns, and an object.
  pub lease_ready_node-Leased :
      (lease_duration_ms : ℕ) (limits : CanonicalNodeLimits) (now : ℕ)
      → lease_ready_node coding
          (lease_repository bucket committed_at)
          scope
          hash
          lease_duration_ms
          limits
          now
          s
        ≡ (ok result, s')
      → IsIntact bucket.digester (core s')
        × (result.hash ≡ hash)
        × Leased (node_key scope hash) result.lease (core s')
  lease_ready_node-Leased lease_duration_ms limits now h =
      Triple-ok
        (lease_ready_node-LeasedAs coding bucket committed_at scope limits hash lease_duration_ms
          now)
        s s' result intact h

  -- From a store whose graph is intact, beginning, uploading and finalizing a canonical node, when it
  -- returns, leaves the graph intact, and the node then has a ready row with exactly the lease that it
  -- returns, and an object.
  pub lease_canonical_node-Leased :
      (lease_duration_ms : ℕ) (body : List Bytes) (declared_length : Option ℕ)
      (limits : CanonicalNodeLimits) (begun_at finalized_at : ℕ)
      → lease_canonical_node coding
          (canonical_repository bucket committed_at)
          scope
          hash
          lease_duration_ms
          body
          declared_length
          limits
          begun_at
          finalized_at
          s
        ≡ (ok result, s')
      → IsIntact bucket.digester (core s')
        × (result.hash ≡ hash)
        × Leased (node_key scope hash) result.lease (core s')
  lease_canonical_node-Leased lease_duration_ms body declared_length limits begun_at finalized_at
        h =
      Triple-ok
        (lease_canonical_node-LeasedAs coding bucket committed_at scope limits hash
          lease_duration_ms body declared_length begun_at finalized_at)
        s s' result intact h
