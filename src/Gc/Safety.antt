-- ===== src/Gc/Safety.antt =====
-- What a collection may not touch: packages/service/src/gc.ts over packages/service-cloudflare/src/node-gc.ts.
use unicas.Base.{
  take, ◌≡◌, refl, sym, ap, subst, ◌∙◌, ◌≢◌, ℕ, Bool, true, false, not, ◌||◌, Option, none, some,
  List, [], ◌∷◌, Result, ok, err, if◌then◌else◌, ltb, ◌==◌, arith,
}
use unicas.Base.Table.{find}
use unicas.Base.Text.{Text}
use unicas.Store.{Store, NodeRow, ReservationRow, StoredObject}
use unicas.Store.Keys.{Scope, NodeKey, node_key_eq}
use unicas.RootRefs.Adapter.{node_key}
use unicas.RootRefs.Adapter.Effect.{some-injective}
use unicas.Codec.Validation.{is_safe}
use unicas.Gc.{
  invalid_max_nodes, or_default, GcError, NodeGcChildReference, NodeGcDeletion, NodeGcRepository,
  Tally, add_deletion, CasGcResult, perform, collect_one, resume, collect_candidates, collect_found,
  collect_expired_unreferenced_nodes,
}
use unicas.Gc.Adapter.{
  eligible_hashes, is_reserved, deletion_of, child_counts, read_still_expired_unreferenced,
  delete_canonical_content, cloudflare_node_gc_repository,
}
use unicas.Gc.Kept.{
  Held, held, held_of, Protected, Kept, delete_canonical_content-Kept, commit_deletion-Kept,
  some_if, none-ne-some,
}

module _ (arrange : List Text → List Text) (observed_at : ℕ) (scope : Scope) (now : ℕ)
    (key : NodeKey) (node : Held) (object : Option StoredObject)
    (reservations : List (NodeKey × ReservationRow))
    (protected : Protected now (is_reserved now key reservations) node) where
  abbrev repository : NodeGcRepository Store
  repository = cloudflare_node_gc_repository arrange observed_at

  resume-Kept :
      (r : Result GcError (Option ℕ)) (tally : Tally) (next : Tally → Result GcError Tally × Store)
      (s : Store)
      → Kept key node object reservations s
      → ((tally' : Tally) → Kept key node object reservations (next tally').1)
      → Kept key node object reservations (resume repository scope now r tally next s).1
  resume-Kept (err e) tally next s p f = p
  resume-Kept (ok size) tally next s p f = f (add_deletion tally size)

  -- The read in front of a deletion refuses a protected node.
  deletion_of-none :
      (hash : Text) (children : List NodeGcChildReference) (o : Option NodeRow)
      → held_of o ≡ some node
      → deletion_of hash now (is_reserved now key reservations) children o ≡ none
  deletion_of-none hash children none h = refl
  deletion_of-none hash children (some row) h =
      held_row (
        subst (Protected now (is_reserved now key reservations)) (sym (some-injective h)) protected)
    where
      held_row :
          Protected now (is_reserved now key reservations) (held row)
          → deletion_of hash now (is_reserved now key reservations) children (some row) ≡ none
      held_row p = ground (arith, p)

  deletion_of-hash :
      (hash : Text) (reserved : Bool) (children : List NodeGcChildReference) (o : Option NodeRow)
      {deletion : NodeGcDeletion}
      → deletion_of hash now reserved children o ≡ some deletion
      → deletion.hash ≡ hash
  deletion_of-hash hash reserved children none h = cc
  deletion_of-hash hash reserved children (some row) h = sym (
      ap (λ (d : NodeGcDeletion). d.hash)
        (some_if
          (reserved
            || (ltb 0 row.child_ref_count
                || (ltb 0 row.root_ref_count || ltb now row.lease_expires_at)))
          h))

  perform-Kept :
      (hash : Text) (o : Option NodeGcDeletion) (s : Store)
      → ((deletion : NodeGcDeletion) → o ≡ some deletion → node_key scope deletion.hash ≢ key)
      → Kept key node object reservations s
      → Kept key node object reservations (perform repository scope now o s).1
  perform-Kept hash none s ne p = p
  perform-Kept hash (some deletion) s ne p =
      commit_deletion-Kept key node object reservations scope deletion
        (delete_canonical_content observed_at scope deletion.hash s) (ne deletion refl)
        (delete_canonical_content-Kept key node object reservations observed_at scope deletion.hash
          s (ne deletion refl) p)

  still-other :
      (hash : Text) (s : Store)
      → Kept key node object reservations s
      → (deletion : NodeGcDeletion)
      → read_still_expired_unreferenced scope hash now s ≡ some deletion
      → node_key scope deletion.hash ≢ key
  unfolding read_still_expired_unreferenced
  still-other hash s (a, b, c) deletion h same_key =
      let q : node_key scope hash ≡ key =
        ap (node_key scope) (
          sym (
            deletion_of-hash hash (is_reserved now (node_key scope hash) s.reservations)
              (child_counts (node_key scope hash) s.edges) (find (node_key scope hash) s.nodes) h))
        ∙ same_key in
      none-ne-some (
        sym (deletion_of-none hash (child_counts key s.edges) (find key s.nodes) a)
        ∙ ap
            (λ t.
              deletion_of hash now (is_reserved now key t) (child_counts key s.edges)
                (find key s.nodes))
            (sym c)
        ∙ ap
            (λ k.
              deletion_of hash now (is_reserved now k s.reservations) (child_counts k s.edges)
                (find k s.nodes))
            (sym q)
        ∙ h)

  collect_candidates-Kept :
      (hashes : List Text) (tally : Tally) (s : Store)
      → Kept key node object reservations s
      → Kept key node object reservations (collect_candidates repository scope now hashes tally s).1
  unfolding collect_candidates collect_one
  collect_candidates-Kept [] tally s p = p
  collect_candidates-Kept (hash ∷ hashes) tally s p =
      resume-Kept (collect_one repository scope now hash s).0 tally
        (λ tally'.
          collect_candidates repository scope now hashes tally'
            (collect_one repository scope now hash s).1)
        (collect_one repository scope now hash s).1 q
        (λ tally'.
          collect_candidates-Kept hashes tally' (collect_one repository scope now hash s).1 q)
    where
      q : Kept key node object reservations (collect_one repository scope now hash s).1
      q =
          perform-Kept hash (read_still_expired_unreferenced scope hash now s) s
            (still-other hash s p) p

either-Kept :
    (key : NodeKey) (node : Held) (object : Option StoredObject)
    (reservations : List (NodeKey × ReservationRow)) (test : Bool)
    (x y : Result GcError CasGcResult × Store)
    → Kept key node object reservations x.1
    → Kept key node object reservations y.1
    → Kept key node object reservations (if test then x else y).1
either-Kept key node object reservations true x y p q = p
either-Kept key node object reservations false x y p q = q

-- A node that is held by an unexpired lease, by a Root Ref or by an unexpired reservation survives a
-- collection: its row keeps its size, type, lease and root count, and its object is the same,
-- whether the collection succeeds or throws, and in whatever order the database yields candidates.
pub collect_expired_unreferenced_nodes-Protected :
    (arrange : List Text → List Text) (observed_at : ℕ) (scope : Scope) (now : ℕ)
    (max_nodes : Option ℕ) (s : Store) (key : NodeKey) {row : NodeRow}
    → find key s.nodes ≡ some row
    → Protected now (is_reserved now key s.reservations) (held row)
    → (held_of (
          find key
            (collect_expired_unreferenced_nodes
              (cloudflare_node_gc_repository arrange observed_at)
              scope
              now
              max_nodes
              s).1.nodes)
        ≡ some (held row))
      × (find key
            (collect_expired_unreferenced_nodes
              (cloudflare_node_gc_repository arrange observed_at)
              scope
              now
              max_nodes
              s).1.objects
          ≡ find key s.objects)
unfolding collect_expired_unreferenced_nodes
collect_expired_unreferenced_nodes-Protected arrange observed_at scope now max_nodes s key {row} h
      p =
    let held_by = held row in
    let start : Kept key held_by (find key s.objects) s.reservations s =
      (ap held_of h, refl, refl) in
    let (a, b, c) =
      either-Kept key (held row) (find key s.objects) s.reservations
        (not (is_safe (or_default max_nodes)) || or_default max_nodes == 0)
        (err invalid_max_nodes, s)
        (collect_found (cloudflare_node_gc_repository arrange observed_at) scope now
          (take (or_default max_nodes) (arrange (eligible_hashes scope now s.reservations s.nodes)))
          s)
        start
        (collect_candidates-Kept arrange observed_at scope now key (held row) (find key s.objects)
          s.reservations p
          (take (or_default max_nodes) (arrange (eligible_hashes scope now s.reservations s.nodes)))
          (record { deleted = 0; reclaimed = 0 }) s start) in
    (a, b)
