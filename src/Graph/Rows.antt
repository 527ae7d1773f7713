-- ===== src/Graph/Rows.antt =====
-- What the statements on the nodes and the edges of schema.ts do to the child counts.
use unicas.Base.{
  ◌≡◌, refl, sym, ap, ◌∙◌, Bool, true, false, Option, none, some, List, if◌then◌else◌, arith,
  Option-cases, inl, inr,
}
use unicas.Base.Table.{find, update, find-update}
use unicas.Codec.Host.{Digester}
use unicas.Store.{NodeRow, EdgeRow, StoredObject}
use unicas.Store.Keys.{NodeKey, same_node, node_key_eq}
use unicas.Graph.{count_of, child_count, Intact}

module _ (f : NodeRow → NodeRow)
    (same_count : (row : NodeRow) → (f row).child_ref_count ≡ row.child_ref_count) where
  count_of-if :
      (b : Bool) (o : Option NodeRow)
      → count_of (if b then elim o [ none ↦ none | some v ↦ some (f v) ] else o) ≡ count_of o
  count_of-if false o = refl
  count_of-if true none = refl
  count_of-if true (some row) = same_count row

  pub child_count-update :
      (k key : NodeKey) (nodes : List (NodeKey × NodeRow))
      → child_count key (update k f nodes) ≡ child_count key nodes
  child_count-update k key nodes =
      ap count_of (find-update k key f nodes) ∙ count_of-if (same_node k key) (find key nodes)

-- A row after an update was a row before.
pub update-row :
    (f : NodeRow → NodeRow) (k key : NodeKey) (nodes : List (NodeKey × NodeRow)) (row : NodeRow)
    → find key (update k f nodes) ≡ some row
    → (before_row : NodeRow) × (find key nodes ≡ some before_row)
update-row f k key nodes row h = elim (Option-cases (find key nodes)) [
  | inl p ↦ absurd (ground (arith, h, p, find-update k key f nodes))
  | inr q ↦ q
]

-- A renewal of a lease, an observation of an object or a change of a root count.
pub update-Intact :
    (digester : Digester) (f : NodeRow → NodeRow) (k : NodeKey) (nodes : List (NodeKey × NodeRow))
    (edges : List EdgeRow) (objects : List (NodeKey × StoredObject))
    → ((row : NodeRow) → (f row).child_ref_count ≡ row.child_ref_count)
    → Intact digester nodes edges objects
    → Intact digester (update k f nodes) edges objects
update-Intact digester f k nodes edges objects same_count intact = record {
  counted = λ key. intact.counted key ∙ sym (child_count-update f same_count k key nodes);
  backed = λ key row h.
      let (before_row, p) = update-row f k key nodes row h in intact.backed key before_row p;
  sound = intact.sound;
}
