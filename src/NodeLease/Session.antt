-- ===== src/NodeLease/Session.antt =====
-- A direct upload from its preparation to the admission of its end, in
-- packages/service/src/node-lease.ts over the Cloudflare repository.
use unicas.Base.{
  ℕ, ◌<◌, ◌≡◌, refl, subst, false, Option, none, some, List, Result, ok, err, ltb, leb, arith,
}
use unicas.Base.Text.{Text, same_refl}
use unicas.Base.Table.{find, find-upsert, beq_refl}
use unicas.Base.Exec.{Exec, lift, throw_when, ◌>>=◌}
use unicas.Base.Exec.Rules.{
  Triple-ok, Ends, Triple, Triple-bind, Triple-return, Triple-reads, Triple-if, Triple-error,
  Triple-weaken, Triple-throw_when,
}
use unicas.Codec.Host.{TextCoding}
use unicas.Codec.Validation.{CanonicalNodeLimits}
use unicas.Store.{Store, SessionRow, ReservationRow}
use unicas.Store.Keys.{Scope, NodeKey, node_key_eq}
use unicas.RootRefs.Adapter.{node_key}
use unicas.NodeLease.Types.{
  LeaseError, CasLeaseResult, CanonicalDirectUploadSession, CanonicalDirectUploadPrepareResult,
  prepare_ready, prepare_upload, admit_upload, CanonicalDirectUploadRepository,
}
use unicas.NodeLease.Ready.{validate_lease_hash}
use unicas.NodeLease.Direct.{
  DirectIdentifiers, ready_if_found, open_session, session_for, prepare_missing, new_session,
  prepare_canonical_node_upload, admit_canonical_node_upload_finalization,
}
use unicas.NodeLease.Adapter.{
  Bucket, run, session_row, upsert_session, with_session, read_canonical_upload_session,
  reserve_canonical_upload_session,
}
use unicas.NodeLease.Adapter.Repository.{direct_repository}

abbrev Anything : Store → Type 0
Anything s = Unit

-- The session is the node's.
abbrev Opened : Scope → CanonicalDirectUploadSession → Store → Type 0
Opened scope session s = find (node_key scope session.hash) s.sessions ≡ some (session_row session)

upsert_session-find :
    (key : NodeKey) (row : SessionRow) (rows : List (NodeKey × SessionRow))
    {rows' : List (NodeKey × SessionRow)}
    → upsert_session key row rows ≡ some rows'
    → find key rows' ≡ some row
unfolding upsert_session
upsert_session-find key row rows h = ground (arith, h, find-upsert key key row rows, beq_refl key)

module _ (scope : Scope) (session : CanonicalDirectUploadSession) where
  with_session-Ends :
      (s : Store) (sessions : Option (List (NodeKey × SessionRow)))
      (reservations : Option (List (NodeKey × ReservationRow)))
      → upsert_session (node_key scope session.hash) (session_row session) s.sessions ≡ sessions
      → Ends
          (λ _ s. Opened scope session s)
          Anything
          (run (with_session sessions reservations s) s).0
          (run (with_session sessions reservations s) s).1
  with_session-Ends s none reservations h = tt
  with_session-Ends s (some rows) none h = tt
  with_session-Ends s (some rows) (some reservations) h =
      upsert_session-find (node_key scope session.hash) (session_row session) s.sessions h

  reserve-Opened :
      Triple Anything
        (reserve_canonical_upload_session scope session)
        (λ _ s. Opened scope session s)
        Anything
  unfolding reserve_canonical_upload_session
  reserve-Opened = record { runs = λ s _. with_session-Ends s _ _ refl }

module _ (coding : TextCoding) (bucket : Bucket) (committed_at : ℕ) (scope : Scope) (hash : Text)
    (lease_duration_ms : ℕ) (limits : CanonicalNodeLimits) where
  abbrev repository : CanonicalDirectUploadRepository Store
  repository = direct_repository bucket committed_at

  -- An upload that was prepared for the node.
  abbrev Prepared : CanonicalDirectUploadPrepareResult → Store → Type 0
  Prepared (prepare_ready result) s = Unit
  Prepared (prepare_upload session replaced) s = (session.hash ≡ hash) × Opened scope session s

  abbrev ReadAs : Option CanonicalDirectUploadSession → Store → Type 0
  ReadAs none s = Unit
  ReadAs (some session) s = (session.hash ≡ hash) × Opened scope session s

  read-ReadAs : Triple Anything (read_canonical_upload_session scope hash) ReadAs Anything
  unfolding read_canonical_upload_session
  read-ReadAs =
      Triple-reads _ _ _ _ (λ s _. found-ReadAs s (find (node_key scope hash) s.sessions) refl)
    where
      found-ReadAs :
          (s : Store) (o : Option SessionRow)
          → find (node_key scope hash) s.sessions ≡ o
          → ReadAs
              (elim o [
                | none ↦ none
                | some row ↦ some (record {
                  hash = hash;
                  upload_id = row.upload_id;
                  temporary_object_key = row.temporary_object_key;
                  stored_bytes = row.stored_bytes;
                  lease_duration_ms = row.lease_duration_ms;
                  created_at = row.created_at;
                  expires_at = row.expires_at;
                })
              ])
              s
      found-ReadAs s none h = tt
      found-ReadAs s (some row) h = (refl, h)

  open_session-Prepared :
      (stored_bytes : ℕ) (identifiers : DirectIdentifiers) (upload_session_ms : Option ℕ) (now : ℕ)
      (replaced : Option Text)
      → Triple Anything
          (open_session coding repository scope hash lease_duration_ms limits stored_bytes
            identifiers upload_session_ms now replaced)
          Prepared
          Anything
  unfolding open_session
  open_session-Prepared stored_bytes identifiers upload_session_ms now replaced =
      Triple-bind _ _ _ _ (throw_when _ _) _ (Triple-throw_when Anything _ _) (λ _.
        Triple-bind _ _ _ _ (reserve_canonical_upload_session scope _) _
          (Triple-weaken _ _ _ _ _ _ (λ s p. tt) (λ _ s p. p)
            (reserve-Opened scope (
              new_session coding repository scope hash lease_duration_ms limits stored_bytes
                identifiers upload_session_ms now)))
          (λ _. Triple-return _ _ _ _ (λ s p. (refl, p))))

  session_for-Prepared :
      (stored_bytes : ℕ) (identifiers : DirectIdentifiers) (upload_session_ms : Option ℕ) (now : ℕ)
      (existing : Option CanonicalDirectUploadSession)
      → Triple
          (ReadAs existing)
          (session_for coding repository scope hash lease_duration_ms limits stored_bytes
            identifiers upload_session_ms now existing)
          Prepared
          Anything
  session_for-Prepared stored_bytes identifiers upload_session_ms now none =
      open_session-Prepared stored_bytes identifiers upload_session_ms now none
  session_for-Prepared stored_bytes identifiers upload_session_ms now (some existing) =
      Triple-if _ _ _ (ltb now existing.expires_at) _ _
        (Triple-bind _ _ _ _ (throw_when _ _) _
          (Triple-error _ _ _ _ (λ s p. tt) (Triple-throw_when (ReadAs (some existing)) _ _))
          (λ _. Triple-return _ _ _ _ (λ s p. p.0)))
        (Triple-weaken _ _ _ _ _ _ (λ s p. tt) (λ _ s p. p)
          (open_session-Prepared stored_bytes identifiers upload_session_ms now
            (some existing.temporary_object_key)))

  prepare_missing-Prepared :
      (stored_bytes : ℕ) (identifiers : DirectIdentifiers) (upload_session_ms : Option ℕ) (now : ℕ)
      (found : Option CasLeaseResult)
      → Triple Anything
          (prepare_missing coding repository scope hash lease_duration_ms limits stored_bytes
            identifiers upload_session_ms now found)
          Prepared
          Anything
  prepare_missing-Prepared stored_bytes identifiers upload_session_ms now (some result) =
      Triple-return _ _ _ _ (λ s p. tt)
  prepare_missing-Prepared stored_bytes identifiers upload_session_ms now none =
      Triple-bind _ (λ _ s. Unit) _ _ (throw_when _ _) _
        (Triple-weaken _ _ _ _ _ _ (λ s p. p) (λ _ s p. tt) (Triple-throw_when Anything _ _))
        (λ _.
          Triple-bind _ (λ _ s. Unit) _ _ (throw_when _ _) _
            (Triple-weaken _ _ _ _ _ _ (λ s p. p) (λ _ s p. tt) (Triple-throw_when Anything _ _))
            (λ _.
              Triple-bind _ _ _ _ (read_canonical_upload_session scope hash) _ read-ReadAs
                (session_for-Prepared stored_bytes identifiers upload_session_ms now)))

  any-Triple : {A : Type 0} (m : Exec Store LeaseError A) → Triple Anything m (λ _ s. Unit) Anything
  any-Triple m = record { runs = λ s _. any-Ends (m s).0 (m s).1 }
    where
      any-Ends :
          {A : Type 0} (result : Result LeaseError A) (s : Store)
          → Ends (λ _ s. Unit) Anything result s
      any-Ends (ok value) s = tt
      any-Ends (err thrown) s = tt

  lift-valid :
      (result : Result LeaseError (Unit {0}))
      → Triple Anything (lift result) (λ _ s. result ≡ ok tt) Anything
  lift-valid (ok tt) = record { runs = λ s p. refl }
  lift-valid (err thrown) = record { runs = λ s p. tt }

  prepare-Prepared :
      (stored_bytes : ℕ) (identifiers : DirectIdentifiers) (upload_session_ms : Option ℕ)
      (leased_at now : ℕ)
      → Triple Anything
          (prepare_canonical_node_upload coding repository scope hash lease_duration_ms limits
            stored_bytes identifiers upload_session_ms leased_at now)
          (λ result s. Prepared result s × (validate_lease_hash hash ≡ ok tt))
          Anything
  unfolding prepare_canonical_node_upload
  prepare-Prepared stored_bytes identifiers upload_session_ms leased_at now =
      Triple-bind _ _ _ _ (lift (validate_lease_hash hash)) _
        (lift-valid (validate_lease_hash hash))
        (λ _. record {
          runs = λ s valid.
              (Triple-weaken _ _ _ _ _ _ (λ s p. p) (λ _ s p. (p, valid))
                  (Triple-bind Anything _ Prepared Anything
                    (ready_if_found coding repository scope hash lease_duration_ms limits leased_at)
                    _
                    (any-Triple (
                      ready_if_found coding repository scope hash lease_duration_ms limits
                        leased_at))
                    (prepare_missing-Prepared stored_bytes identifiers upload_session_ms now))).runs
                s tt;
        })

  session-read :
      (session : CanonicalDirectUploadSession) (s : Store)
      → session.hash ≡ hash
      → Opened scope session s
      → read_canonical_upload_session scope hash s ≡ (ok (some session), s)
  unfolding read_canonical_upload_session
  session-read session s same_hash opened =
      subst (λ h. read_canonical_upload_session scope h s ≡ (ok (some session), s)) same_hash
        (rw opened)

  -- An upload that was prepared, by a new session or by one that was open, is admitted under its
  -- identifier before it expires, with the session that the preparation returned, as long as the
  -- node is not ready.
  pub admit-prepare_canonical_node_upload :
      (stored_bytes : ℕ) (identifiers : DirectIdentifiers) (upload_session_ms : Option ℕ)
      (leased_at now : ℕ) (s s' : Store) (session : CanonicalDirectUploadSession)
      (replaced : Option Text) (admitted_at later : ℕ)
      → prepare_canonical_node_upload coding
          (direct_repository bucket committed_at)
          scope
          hash
          lease_duration_ms
          limits
          stored_bytes
          identifiers
          upload_session_ms
          leased_at
          now
          s
        ≡ (ok (prepare_upload session replaced), s')
      → ready_if_found coding
          (direct_repository bucket committed_at)
          scope
          hash
          lease_duration_ms
          limits
          admitted_at
          s'
        ≡ (ok none, s')
      → later < session.expires_at
      → admit_canonical_node_upload_finalization coding
          (direct_repository bucket committed_at)
          scope
          hash
          lease_duration_ms
          limits
          session.upload_id
          admitted_at
          later
          s'
        ≡ (ok (admit_upload session), s')
  unfolding admit_canonical_node_upload_finalization ◌>>=◌
  admit-prepare_canonical_node_upload stored_bytes identifiers upload_session_ms leased_at now s s'
        session replaced admitted_at later h missing early =
      let ((same_hash, opened), valid) =
        Triple-ok (prepare-Prepared stored_bytes identifiers upload_session_ms leased_at now) s s'
          (prepare_upload session replaced) tt h in
      let open_still : leb session.expires_at later ≡ false = ground arith in
      rw (
        valid,
        missing,
        session-read session s' same_hash opened,
        same_refl session.upload_id,
        open_still,
      )
