-- ===== src/Graph.antt =====
-- The graph of the nodes that packages/service-cloudflare/src keeps in the tables of schema.ts: the
-- child counts of the rows against the edges, and the rows against the objects.
pub mod Rows
pub mod Insert
pub mod Frames
pub mod Objects
pub mod Ready
pub mod Publish
pub mod Renew
pub mod Upload
pub mod Adopt
pub mod Canonical
pub mod Lower
pub mod Collect
pub mod RootRefs
pub mod Direct
pub mod Reach
pub mod Leases
pub mod Survive
use unicas.Base.{ℕ, suc, ◌≡◌, true, Option, none, some, List, [], ◌∷◌, if◌then◌else◌}
use unicas.Base.Text.{Text}
use unicas.Base.Table.{find}
use unicas.Codec.Host.{Digester}
use unicas.Store.{Store, NodeRow, EdgeRow, StoredObject}
use unicas.Store.Keys.{NodeKey, same_node, node_key_eq}
use unicas.RootRefs.Adapter.{node_key}
use unicas.NodeLease.Driven.{has_digest}

abbrev pub edge_child : EdgeRow → NodeKey
edge_child edge = node_key edge.parent.scope edge.child

-- The number of edges to a node.
unfoldable pub edge_count : NodeKey → List EdgeRow → ℕ
edge_count key [] = 0
edge_count key (edge ∷ edges) =
    let rest = edge_count key edges in if same_node (edge_child edge) key then suc rest else rest

abbrev pub count_of : Option NodeRow → ℕ
count_of none = 0
count_of (some row) = row.child_ref_count

-- The child_ref_count of a node, 0 where it has no row.
abbrev pub child_count : NodeKey → List (NodeKey × NodeRow) → ℕ
child_count key nodes = count_of (find key nodes)

-- Every node counts the edges to it, so that an edge leads to a row; every row has an object; and
-- every object has the digest that it is stored under.
pub record Intact (digester : Digester) (nodes : List (NodeKey × NodeRow)) (edges : List EdgeRow)
    (objects : List (NodeKey × StoredObject)) : Type 0 where
  pub counted : (key : NodeKey) → edge_count key edges ≡ child_count key nodes
  pub backed :
      (key : NodeKey) (row : NodeRow)
      → find key nodes ≡ some row
      → (object : StoredObject) × (find key objects ≡ some object)
  pub sound :
      (key : NodeKey) (object : StoredObject)
      → find key objects ≡ some object
      → has_digest digester object.bytes key.hash ≡ true

-- The part of the store that the graph is.
pub record Core : Type 0 where
  pub nodes : List (NodeKey × NodeRow)
  pub edges : List EdgeRow
  pub objects : List (NodeKey × StoredObject)

abbrev pub core : Store → Core
core s = record { nodes = s.nodes; edges = s.edges; objects = s.objects }

abbrev pub IsIntact : Digester → Core → Type 0
IsIntact digester c = Intact digester c.nodes c.edges c.objects
