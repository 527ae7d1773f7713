-- ===== src/Graph/Renew.antt =====
-- The renewal of a lease in the graph: the reads of a row and `renewNodeLease` of
-- packages/service-cloudflare/src/node-lease.ts.
use unicas.Base.{◌≡◌, refl, true, Option, none, some, arith, Option-cases, Bool-cases, inl, inr}
use unicas.Base.Text.{Text}
use unicas.Base.Table.{find, find-update, beq_refl}
use unicas.Base.Exec.Rules.{Triple, Triple-reads}
use unicas.Store.{NodeRow}
use unicas.Store.Keys.{Scope, NodeKey, node_key_eq}
use unicas.RootRefs.Adapter.{node_key}
use unicas.NodeLease.{NodeLeaseRecord}
use unicas.NodeLease.Adapter.{
  Bucket, lease_record, ready_row, read_node_lease, read_canonical_node_lease, renew_node_lease,
}
use unicas.Graph.{Core, core, IsIntact}
use unicas.Graph.Rows.{update-Intact}
use unicas.Graph.Objects.{HasObject}
use unicas.Graph.Publish.{Leased}

abbrev pub ReadyRow : NodeKey → Core → Type 0
ReadyRow key c = (row : NodeRow) × (find key c.nodes ≡ some row) × (row.ready ≡ true)

-- What a read of a lease shows.
abbrev pub Known : {A : Type 0} → NodeKey → Option A → Core → Type 0
Known key none c = Unit
Known key (some lease) c = ReadyRow key c

ready_row-eq-some :
    (key : NodeKey) (c : Core) (row : NodeRow) → ready_row key c.nodes ≡ some row → ReadyRow key c
unfolding ready_row
ready_row-eq-some key c row h = elim (Option-cases (find key c.nodes)) [
  | inl p ↦ absurd (ground (arith, h, p))
  | inr (old, p) ↦
      (old, p, elim (Bool-cases old.ready) [ inl t ↦ t | inr t ↦ absurd (ground (arith, h, p, t)) ])
]

Known-row :
    {A : Type 0} (key : NodeKey) (c : Core) (f : NodeRow → A) (o : Option NodeRow)
    → ready_row key c.nodes ≡ o
    → Known key (elim o [ none ↦ none | some row ↦ some (f row) ]) c
Known-row key c f none h = tt
Known-row key c f (some row) h = ready_row-eq-some key c row h

module _ (P : Core → Type 0) (scope : Scope) (hash : Text) where
  pub read_node_lease-Triple :
      Triple
        (λ s. P (core s))
        (read_node_lease scope hash)
        (λ found s. P (core s) × Known (node_key scope hash) found (core s))
        (λ s. P (core s))
  unfolding read_node_lease
  read_node_lease-Triple = Triple-reads _ _ _ _ (λ s p. (
    p,
    Known-row (node_key scope hash) (core s) lease_record (ready_row (node_key scope hash) s.nodes)
        refl,
  ))

  pub read_canonical_node_lease-Triple :
      Triple
        (λ s. P (core s))
        (read_canonical_node_lease scope hash)
        (λ found s. P (core s) × Known (node_key scope hash) found (core s))
        (λ s. P (core s))
  unfolding read_canonical_node_lease
  read_canonical_node_lease-Triple = Triple-reads _ _ _ _ (λ s p. (
    p,
    Known-row (node_key scope hash) (core s)
        (λ (row : NodeRow). record {
          lease = lease_record row;
          content_size = row.content_size;
          content_type = row.content_type;
        })
        (ready_row (node_key scope hash) s.nodes) refl,
  ))

module _ (bucket : Bucket) (scope : Scope) (hash : Text) (lease : NodeLeaseRecord) where
  -- A ready row with an object, renewed.
  pub renew_node_lease-Triple :
      Triple
        (λ s.
          (IsIntact bucket.digester (core s) × ReadyRow (node_key scope hash) (core s))
          × HasObject (node_key scope hash) s.objects)
        (renew_node_lease scope hash lease)
        (λ _ s. IsIntact bucket.digester (core s) × Leased (node_key scope hash) lease (core s))
        (λ s. IsIntact bucket.digester (core s))
  unfolding renew_node_lease
  renew_node_lease-Triple = record {
    runs = λ s ((intact, (row, found, is_ready)), (object, stored)).
        let key = node_key scope hash in
        (
          update-Intact bucket.digester
              (λ (row : NodeRow). record row {
                lease_started_at = lease.lease_started_at;
                lease_expires_at = lease.lease_expires_at;
              })
              key s.nodes s.edges s.objects (λ row. refl) intact,
          record {
            row = record row {
              lease_started_at = lease.lease_started_at;
              lease_expires_at = lease.lease_expires_at;
            };
            object = object;
            stored = stored;
            found = ground (
              arith,
              find-update key key
                  (λ (row : NodeRow). record row {
                    lease_started_at = lease.lease_started_at;
                    lease_expires_at = lease.lease_expires_at;
                  })
                  s.nodes,
              beq_refl key,
              found,
            );
            is_ready = is_ready;
            started = refl;
            expires = refl;
          },
        );
  }
