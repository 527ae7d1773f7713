-- ===== src/Gc/Kept.antt =====
-- What the statements of `CloudflareNodeGcRepository` of packages/service-cloudflare/src/node-gc.ts
-- leave as it is.
use unicas.Base.{
  ◌≡◌, refl, sym, ap, ◌∙◌, ◌≢◌, ℕ, ◌-◌, ◌<◌, Bool, true, false, ◌⊎◌, Option, none, some, List, [],
  ◌∷◌, if◌then◌else◌, ltb, arith,
}
use unicas.Base.Table.{find, delete, update, find-delete, find-update, beq_ne}
use unicas.Base.Text.{Text}
use unicas.Store.{Store, NodeRow, ReservationRow, StoredObject}
use unicas.Store.Keys.{Scope, NodeKey, same_node, node_key_eq}
use unicas.RootRefs.Adapter.{node_key}
use unicas.RootRefs.Adapter.Effect.{>>=-eq-some, some-injective}
use unicas.Gc.{NodeGcChildReference, NodeGcDeletion}
use unicas.Gc.Adapter.{
  delete_canonical_content, lower_row, lower_children, commit_nodes, commit_deletion,
}

-- What of a node row a collection leaves as it is.
pub record Held : Type 0 where
  pub content_size : ℕ
  pub content_type : Text
  pub lease_expires_at : ℕ
  pub root_ref_count : ℕ

abbrev pub held : NodeRow → Held
held row = record {
  content_size = row.content_size;
  content_type = row.content_type;
  lease_expires_at = row.lease_expires_at;
  root_ref_count = row.root_ref_count;
}

abbrev pub held_of : Option NodeRow → Option Held
held_of none = none
held_of (some row) = some (held row)

-- A node that an unexpired lease, a Root Ref or an unexpired reservation holds.
abbrev pub Protected : ℕ → Bool → Held → Type 0
Protected now reserved node =
    (reserved ≡ true) ⊎ ((0 < node.root_ref_count) ⊎ (now < node.lease_expires_at))

-- Node, object and reservations of a key are as given.
abbrev pub Kept :
    NodeKey → Held → Option StoredObject → List (NodeKey × ReservationRow) → Store → Type 0
Kept key node object reservations s =
    (held_of (find key s.nodes) ≡ some node)
    × (find key s.objects ≡ object)
    × (s.reservations ≡ reservations)

module _ (f : NodeRow → NodeRow) (same_held : (row : NodeRow) → held (f row) ≡ held row) where
  held_of-if :
      (b : Bool) (o : Option NodeRow)
      → held_of (if b then elim o [ none ↦ none | some v ↦ some (f v) ] else o) ≡ held_of o
  held_of-if false o = refl
  held_of-if true none = refl
  held_of-if true (some row) = ap some (same_held row)

  update-held :
      (k key : NodeKey) (nodes : List (NodeKey × NodeRow))
      → held_of (find key (update k f nodes)) ≡ held_of (find key nodes)
  update-held k key nodes =
      ap held_of (find-update k key f nodes) ∙ held_of-if (same_node k key) (find key nodes)

module _ {V : Type 0} where
  find-delete_other :
      {k key : NodeKey} (rows : List (NodeKey × V))
      → k ≢ key
      → find key (delete k rows) ≡ find key rows
  find-delete_other {k} {key} rows ne =
      find-delete k key rows ∙ ap (λ b. if b then none else find key rows) (beq_ne ne)

pub some_if :
    {A : Type 0} (test : Bool) {a b : A} → (if test then none else some a) ≡ some b → a ≡ b
some_if test h = ground (arith, h)

pub none-ne-some : {A : Type 0} {a : A} → ◌≡◌ {A = Option A} none (some a) → ⊥
none-ne-some h = cc

lower_row-held :
    (k : NodeKey) (count : ℕ) (o : Option NodeRow) (nodes : List (NodeKey × NodeRow))
    (key : NodeKey) {nodes' : List (NodeKey × NodeRow)}
    → lower_row k count o nodes ≡ some nodes'
    → held_of (find key nodes') ≡ held_of (find key nodes)
lower_row-held k count none nodes key h = ap (λ t. held_of (find key t)) (sym (some-injective h))
lower_row-held k count (some row) nodes key h =
    ap (λ t. held_of (find key t)) (sym (some_if (ltb row.child_ref_count count) h))
    ∙ update-held (λ (r : NodeRow). record r { child_ref_count = row.child_ref_count - count })
        (λ r. refl) k key nodes

lower_children-held :
    (scope : Scope) (children : List NodeGcChildReference) (nodes : List (NodeKey × NodeRow))
    (key : NodeKey) {nodes' : List (NodeKey × NodeRow)}
    → lower_children scope children nodes ≡ some nodes'
    → held_of (find key nodes') ≡ held_of (find key nodes)
unfolding lower_children
lower_children-held scope [] nodes key h = ap (λ t. held_of (find key t)) (sym (some-injective h))
lower_children-held scope (child ∷ children) nodes key h =
    let (nodes1, a, b) =
      >>=-eq-some
        (lower_row (node_key scope child.hash) child.count (find (node_key scope child.hash) nodes)
          nodes)
        _ h in
    lower_children-held scope children nodes1 key b
    ∙ lower_row-held (node_key scope child.hash) child.count
        (find (node_key scope child.hash) nodes) nodes key a

module _ (key : NodeKey) (node : Held) (object : Option StoredObject)
    (reservations : List (NodeKey × ReservationRow)) where
  abbrev IsKept : Store → Type 0
  IsKept s = Kept key node object reservations s

  pub delete_canonical_content-Kept :
      (observed_at : ℕ) (scope : Scope) (hash : Text) (s : Store)
      → node_key scope hash ≢ key
      → IsKept s
      → IsKept (delete_canonical_content observed_at scope hash s)
  unfolding delete_canonical_content
  delete_canonical_content-Kept observed_at scope hash s ne (a, b, c) = (
    update-held
          (λ (row : NodeRow). record row {
            canonical_stored_bytes = none;
            canonical_observed_at = some observed_at;
          })
          (λ row. refl) (node_key scope hash) key s.nodes
        ∙ a,
    find-delete_other s.objects ne ∙ b,
    c,
  )

  commit_nodes-Kept :
      (k : NodeKey) (o : Option (List (NodeKey × NodeRow))) (s : Store)
      → ((nodes : List (NodeKey × NodeRow))
          → o ≡ some nodes
          → held_of (find key nodes) ≡ held_of (find key s.nodes))
      → IsKept s
      → IsKept (commit_nodes k o s).1
  commit_nodes-Kept k none s f p = p
  commit_nodes-Kept k (some nodes) s f (a, b, c) = (f nodes refl ∙ a, b, c)

  pub commit_deletion-Kept :
      (scope : Scope) (deletion : NodeGcDeletion) (s : Store)
      → node_key scope deletion.hash ≢ key
      → IsKept s
      → IsKept (commit_deletion scope deletion s).1
  unfolding commit_deletion
  commit_deletion-Kept scope deletion s ne p =
      commit_nodes-Kept (node_key scope deletion.hash)
        (lower_children scope deletion.child_references
          (delete (node_key scope deletion.hash) s.nodes))
        s
        (λ nodes h.
          lower_children-held scope deletion.child_references
            (delete (node_key scope deletion.hash) s.nodes) key h
          ∙ ap held_of (find-delete_other s.nodes ne))
        p
