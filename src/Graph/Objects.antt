-- ===== src/Graph/Objects.antt =====
-- Canonical objects in the graph: the conditional writes and the reads of an object of
-- packages/service-cloudflare/src/node-lease.ts.
use unicas.Base.{
  ◌≡◌, refl, sym, ap, ◌∙◌, Bool, true, false, not, ◌&&◌, Option, none, some, List, ◌∷◌,
  if◌then◌else◌, arith, Bool-cases, inl, inr, flatten,
}
use unicas.Base.Text.{Text}
use unicas.Base.Table.{find, find-cons, beq_refl}
use unicas.Base.Exec.{reads, return}
use unicas.Base.Exec.Rules.{
  Frame, Frame-reads, Frame-bind, Frame-throw, Frame-throw_when, Ends, Triple, Triple-bind,
  Frame-return, Frame-if, Triple-error, Triple-Frame,
}
use unicas.Codec.Bytes.{Bytes}
use unicas.Store.{Store, NodeRow, EdgeRow, StoredObject}
use unicas.Store.Keys.{Scope, NodeKey, same_node, same_node_iff, node_key_eq}
use unicas.RootRefs.Adapter.{node_key}
use unicas.NodeLease.Driven.{has_digest}
use unicas.NodeLease.Adapter.{
  Bucket, verify_existing, put_at, put_object, check_object, read_canonical_bytes,
  put_verified_canonical_bytes, put_canonical_object,
}
use unicas.Graph.{Core, core, IsIntact, Intact}

abbrev pub HasObject : NodeKey → List (NodeKey × StoredObject) → Type 0
HasObject key objects = (object : StoredObject) × (find key objects ≡ some object)

cons-HasObject :
    (key k : NodeKey) (object : StoredObject) (objects : List (NodeKey × StoredObject))
    → HasObject k objects
    → HasObject k ((key, object) ∷ objects)
cons-HasObject key k object objects (old, h) = elim (Bool-cases (same_node key k)) [
  | inl t ↦ (object, ground (arith, find-cons key k object objects, t))
  | inr t ↦ (old, ground (arith, find-cons key k object objects, t, h))
]

module _ (bucket : Bucket) where
  cons_sound :
      (key k : NodeKey) (object found : StoredObject) (objects : List (NodeKey × StoredObject))
      → has_digest bucket.digester object.bytes key.hash ≡ true
      → ((k : NodeKey) (object : StoredObject)
          → find k objects ≡ some object
          → has_digest bucket.digester object.bytes k.hash ≡ true)
      → find k ((key, object) ∷ objects) ≡ some found
      → has_digest bucket.digester found.bytes k.hash ≡ true
  cons_sound key k object found objects m sound h = elim (Bool-cases (same_node key k)) [
    | inl t ↦
        let e : object ≡ found = ground (arith, find-cons key k object objects, h, t) in
        ap (λ (o : StoredObject). has_digest bucket.digester o.bytes k.hash) (sym e)
        ∙ ap (λ (x : NodeKey). has_digest bucket.digester object.bytes x.hash)
            (sym ((same_node_iff key k).0 t))
        ∙ m
    | inr t ↦ sound k found (ground (arith, find-cons key k object objects, h, t))
  ]

  cons-Intact :
      (key : NodeKey) (object : StoredObject) (nodes : List (NodeKey × NodeRow))
      (edges : List EdgeRow) (objects : List (NodeKey × StoredObject))
      → has_digest bucket.digester object.bytes key.hash ≡ true
      → Intact bucket.digester nodes edges objects
      → Intact bucket.digester nodes edges ((key, object) ∷ objects)
  cons-Intact key object nodes edges objects m intact = record {
    counted = intact.counted;
    backed = λ k row h. cons-HasObject key k object objects (intact.backed k row h);
    sound = λ k found h. cons_sound key k object found objects m intact.sound h;
  }

module _ (bucket : Bucket) (N : List (NodeKey × NodeRow) → Type 0) where
  -- The graph is intact, and the nodes are as `N` says.
  abbrev pub Guarded : Core → Type 0
  Guarded c = IsIntact bucket.digester c × N c.nodes

  abbrev pub Stored : NodeKey → Core → Type 0
  Stored key c = Guarded c × HasObject key c.objects

  put_at-Ends :
      (scope : Scope) (hash : Text) (bytes : Bytes) (matches : Bool) (found : Option StoredObject)
      (s : Store)
      → has_digest bucket.digester bytes hash ≡ matches
      → find (node_key scope hash) s.objects ≡ found
      → Guarded (core s)
      → Ends
          (λ _ s. Stored (node_key scope hash) (core s))
          (λ s. Guarded (core s))
          (put_at bucket (node_key scope hash) bytes matches found s).0
          (put_at bucket (node_key scope hash) bytes matches found s).1
  put_at-Ends scope hash bytes true none s m f (intact, n) =
      let key = node_key scope hash in
      let object : StoredObject = record {
        bytes = bytes;
        sha256 = some (bucket.digester.sha256 bytes);
      } in
      (
        (cons-Intact bucket key object s.nodes s.edges s.objects m intact, n),
        (
          object,
          find-cons key key object s.objects
              ∙ ap (λ t. if t then some object else find key s.objects) (beq_refl key),
        ),
      )
  put_at-Ends scope hash bytes false none s m f guarded = guarded
  put_at-Ends scope hash bytes matches (some object) s m f guarded =
      elim (Bool-cases (bucket.checksum_first && not matches)) [
        | inl t ↦ rw t guarded
        | inr t ↦ rw t (guarded, (object, f))
      ]

  pub put_object-Triple :
      (scope : Scope) (hash : Text) (bytes : Bytes)
      → Triple
          (λ s. Guarded (core s))
          (put_object bucket (node_key scope hash) hash bytes)
          (λ _ s. Stored (node_key scope hash) (core s))
          (λ s. Guarded (core s))
  unfolding put_object
  put_object-Triple scope hash bytes = record {
    runs = λ s.
        put_at-Ends scope hash bytes (has_digest bucket.digester bytes hash)
          (find (node_key scope hash) s.objects) s refl refl;
  }

  check_object-Frame :
      (hash : Text) (found : Option Bytes) → Frame core (check_object bucket hash found)
  check_object-Frame hash none = Frame-throw core _
  check_object-Frame hash (some bytes) = Frame-throw_when core _ _

  verify_existing-Triple :
      (scope : Scope) (hash : Text) (stored : Bool)
      → Triple
          (λ s. Stored (node_key scope hash) (core s))
          (verify_existing bucket scope hash stored)
          (λ _ s. Stored (node_key scope hash) (core s))
          (λ s. Stored (node_key scope hash) (core s))
  unfolding read_canonical_bytes
  verify_existing-Triple scope hash stored =
      Triple-Frame core (Stored (node_key scope hash)) (verify_existing bucket scope hash stored) (
        Frame-if core stored (return tt) _ (Frame-return core tt) (
          Frame-bind core (reads _) _ (Frame-reads core _)
            (λ found. check_object-Frame hash found)))

  -- After a write that did not throw, the object is there; after one that did, nothing is lost.
  pub put_verified_canonical_bytes-Triple :
      (scope : Scope) (hash : Text) (bytes : Bytes)
      → Triple
          (λ s. Guarded (core s))
          (put_verified_canonical_bytes bucket scope hash bytes)
          (λ _ s. Stored (node_key scope hash) (core s))
          (λ s. Guarded (core s))
  unfolding put_verified_canonical_bytes
  put_verified_canonical_bytes-Triple scope hash bytes =
      Triple-bind _ _ _ _ (put_object bucket (node_key scope hash) hash bytes) _
        (put_object-Triple scope hash bytes)
        (λ stored. Triple-error _ _ _ _ (λ s h. h.0) (verify_existing-Triple scope hash stored))

  pub put_canonical_object-Triple :
      (scope : Scope) (hash : Text) (body : List Bytes)
      → Triple
          (λ s. Guarded (core s))
          (put_canonical_object bucket scope hash body)
          (λ _ s. Stored (node_key scope hash) (core s))
          (λ s. Guarded (core s))
  unfolding put_canonical_object
  put_canonical_object-Triple scope hash body =
      Triple-bind _ _ _ _ (put_object bucket (node_key scope hash) hash (flatten body)) _
        (put_object-Triple scope hash (flatten body))
        (λ stored. Triple-error _ _ _ _ (λ s h. h.0) (verify_existing-Triple scope hash stored))
