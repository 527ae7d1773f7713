-- ===== src/Graph/Survive.antt =====
-- A leased node and the collections that follow: packages/service/src/node-lease.ts together with
-- packages/service/src/gc.ts over the Cloudflare repositories.
use unicas.Base.{ℕ, ◌<◌, ◌≡◌, sym, subst, ◌∙◌, true, Option, some, List, ok, inr}
use unicas.Base.Text.{Text}
use unicas.Base.Table.{find}
use unicas.Codec.Host.{TextCoding}
use unicas.Store.{Store, StoredObject}
use unicas.Store.Keys.{Scope, node_key_eq}
use unicas.RootRefs.Adapter.{node_key}
use unicas.Gc.{collect_expired_unreferenced_nodes}
use unicas.Gc.Adapter.{cloudflare_node_gc_repository}
use unicas.Gc.Kept.{Held, held, held_of}
use unicas.Gc.Safety.{collect_expired_unreferenced_nodes-Protected}
use unicas.NodeLease.Types.{CasLeaseResult, upload_ready}
use unicas.NodeLease.Driven.{UploadInput, has_digest}
use unicas.NodeLease.Upload.{lease_driven_node_upload}
use unicas.NodeLease.Adapter.{Bucket}
use unicas.NodeLease.Adapter.Repository.{upload_repository}
use unicas.Graph.{core, IsIntact}
use unicas.Graph.Leases.{lease_driven_node_upload-Leased}

-- A node that an upload step leased, on a store whose graph is intact, survives a collection of any
-- Space before the lease expires: its row keeps the lease, and its object has the node's digest.
pub lease_driven_node_upload-collect :
    (coding : TextCoding) (bucket : Bucket) (committed_at : ℕ) (scope : Scope) (hash : Text)
    (input : UploadInput) (s s' : Store) (result : CasLeaseResult) (arrange : List Text → List Text)
    (observed_at : ℕ) (collected : Scope) (now : ℕ) (max_nodes : Option ℕ)
    → IsIntact bucket.digester (core s)
    → lease_driven_node_upload coding bucket.digester
        (upload_repository bucket committed_at)
        scope
        hash
        input
        s
      ≡ (ok (upload_ready result), s')
    → now < result.lease.lease_expires_at
    → (node : Held) × (object : StoredObject) × (held_of (
          find
            (node_key scope hash)
            (collect_expired_unreferenced_nodes
              (cloudflare_node_gc_repository arrange observed_at)
              collected
              now
              max_nodes
              s').1.nodes)
        ≡ some node)
      × (node.lease_expires_at ≡ result.lease.lease_expires_at)
      × (find
            (node_key scope hash)
            (collect_expired_unreferenced_nodes
              (cloudflare_node_gc_repository arrange observed_at)
              collected
              now
              max_nodes
              s').1.objects
          ≡ some object)
      × (has_digest bucket.digester object.bytes hash ≡ true)
lease_driven_node_upload-collect coding bucket committed_at scope hash input s s' result arrange
      observed_at collected now max_nodes intact h early =
    let key = node_key scope hash in
    let (intact', same_hash, leased) =
      lease_driven_node_upload-Leased coding bucket committed_at scope hash s s' result intact input
        h in
    let (kept, same_object) =
      collect_expired_unreferenced_nodes-Protected arrange observed_at collected now max_nodes s'
        key leased.found (inr (inr (subst (λ t. now < t) (sym leased.expires) early))) in
    (
      held leased.row,
      leased.object,
      kept,
      leased.expires,
      same_object ∙ leased.stored,
      intact'.sound key leased.object leased.stored,
    )
