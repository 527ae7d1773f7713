-- ===== src/Graph/Direct.antt =====
-- Direct uploads, `prepareCanonicalNodeUpload` and `admitCanonicalNodeUploadFinalization` of
-- packages/service/src/node-lease.ts over the Cloudflare repository, in the graph.
use unicas.Base.{ℕ, Option, none, some, ltb}
use unicas.Base.Text.{Text}
use unicas.Base.Exec.{Exec, reads, lift, throw_when}
use unicas.Base.Exec.Rules.{
  Frame, Frame-bind, Frame-return, Frame-throw, Frame-reads, Frame-lift, Frame-if, Frame-throw_when,
  Triple, Triple-bind, Triple-return, Triple-throw, Triple-if, Triple-recover, Triple-Frame,
}
use unicas.Codec.Host.{TextCoding}
use unicas.Codec.Validation.{CanonicalNodeLimits}
use unicas.Store.{Store}
use unicas.Store.Keys.{Scope}
use unicas.NodeLease.Types.{
  LeaseError, CasLeaseResult, CanonicalDirectUploadSession, CanonicalDirectUploadRepository,
}
use unicas.NodeLease.Ready.{validate_lease_hash, lease_ready_node}
use unicas.NodeLease.Direct.{
  DirectIdentifiers, is_not_found, ready_if_found, open_session, session_for, prepare_missing,
  prepare_canonical_node_upload, admit_session, admit_missing,
  admit_canonical_node_upload_finalization,
}
use unicas.NodeLease.Adapter.{Bucket, read_canonical_upload_session}
use unicas.NodeLease.Adapter.Repository.{lease_repository, direct_repository}
use unicas.Graph.{core, IsIntact}
use unicas.Graph.Frames.{reserve_canonical_upload_session-Frame}
use unicas.Graph.Adopt.{lease_ready_node-LeasedAs}

module _ (coding : TextCoding) (bucket : Bucket) (committed_at : ℕ) (scope : Scope) (hash : Text)
    (lease_duration_ms : ℕ) (limits : CanonicalNodeLimits) where
  abbrev repository : CanonicalDirectUploadRepository Store
  repository = direct_repository bucket committed_at

  abbrev Held : Store → Type 0
  Held s = IsIntact bucket.digester (core s)

  abbrev Keeps : {A : Type 0} → Exec Store LeaseError A → Type 0
  Keeps m = Triple Held m (λ _ s. Held s) Held

  Keeps-Frame : {A : Type 0} (m : Exec Store LeaseError A) → Frame core m → Keeps m
  Keeps-Frame m h = Triple-Frame core (IsIntact bucket.digester) m h

  ready_if_found-Keeps :
      (now : ℕ) → Keeps (ready_if_found coding repository scope hash lease_duration_ms limits now)
  unfolding ready_if_found
  ready_if_found-Keeps now =
      Triple-recover _ _ _ _ _ Held
        (Triple-bind _ _ _ _
          (lease_ready_node coding (lease_repository bucket committed_at) scope hash
            lease_duration_ms limits now)
          _
          (lease_ready_node-LeasedAs coding bucket committed_at scope limits hash lease_duration_ms
            now)
          (λ result. Triple-return _ _ _ (some result) (λ s p. p.0)))
        (λ thrown.
          Triple-if _ _ _ (is_not_found thrown) _ _ (Triple-return _ _ _ none (λ s p. p))
            (Triple-throw _ _ _ thrown (λ s p. p)))

  open_session-Frame :
      (stored_bytes : ℕ) (identifiers : DirectIdentifiers) (upload_session_ms : Option ℕ) (now : ℕ)
      (replaced : Option Text)
      → Frame core (
          open_session coding repository scope hash lease_duration_ms limits stored_bytes
            identifiers upload_session_ms now replaced)
  unfolding open_session
  open_session-Frame stored_bytes identifiers upload_session_ms now replaced =
      Frame-bind core (throw_when _ _) _ (Frame-throw_when core _ _) (λ _.
        Frame-bind core _ _ (reserve_canonical_upload_session-Frame scope _)
          (λ _. Frame-return core _))

  session_for-Frame :
      (stored_bytes : ℕ) (identifiers : DirectIdentifiers) (upload_session_ms : Option ℕ) (now : ℕ)
      (existing : Option CanonicalDirectUploadSession)
      → Frame core (
          session_for coding repository scope hash lease_duration_ms limits stored_bytes identifiers
            upload_session_ms now existing)
  session_for-Frame stored_bytes identifiers upload_session_ms now none =
      open_session-Frame stored_bytes identifiers upload_session_ms now none
  session_for-Frame stored_bytes identifiers upload_session_ms now (some existing) =
      Frame-if core (ltb now existing.expires_at) _ _
        (Frame-bind core (throw_when _ _) _ (Frame-throw_when core _ _) (λ _. Frame-return core _))
        (open_session-Frame stored_bytes identifiers upload_session_ms now
          (some existing.temporary_object_key))

  prepare_missing-Frame :
      (stored_bytes : ℕ) (identifiers : DirectIdentifiers) (upload_session_ms : Option ℕ) (now : ℕ)
      (found : Option CasLeaseResult)
      → Frame core (
          prepare_missing coding repository scope hash lease_duration_ms limits stored_bytes
            identifiers upload_session_ms now found)
  unfolding read_canonical_upload_session
  prepare_missing-Frame stored_bytes identifiers upload_session_ms now (some result) =
      Frame-return core _
  prepare_missing-Frame stored_bytes identifiers upload_session_ms now none =
      Frame-bind core (throw_when _ _) _ (Frame-throw_when core _ _) (λ _.
        Frame-bind core (throw_when _ _) _ (Frame-throw_when core _ _) (λ _.
          Frame-bind core (reads _) _ (Frame-reads core _)
            (session_for-Frame stored_bytes identifiers upload_session_ms now)))

  -- Preparing an upload keeps the graph intact.
  pub prepare_canonical_node_upload-Keeps :
      (stored_bytes : ℕ) (identifiers : DirectIdentifiers) (upload_session_ms : Option ℕ)
      (leased_at now : ℕ)
      → Keeps (
          prepare_canonical_node_upload coding
            (direct_repository bucket committed_at)
            scope
            hash
            lease_duration_ms
            limits
            stored_bytes
            identifiers
            upload_session_ms
            leased_at
            now)
  unfolding prepare_canonical_node_upload
  prepare_canonical_node_upload-Keeps stored_bytes identifiers upload_session_ms leased_at now =
      Triple-bind _ _ _ _ (lift (validate_lease_hash hash)) _ (Keeps-Frame _ (Frame-lift core _))
        (λ _.
          Triple-bind _ _ _ _
            (ready_if_found coding repository scope hash lease_duration_ms limits leased_at) _
            (ready_if_found-Keeps leased_at)
            (λ found.
              Keeps-Frame _
                (prepare_missing-Frame stored_bytes identifiers upload_session_ms now found)))

  admit_missing-Frame :
      (upload_id : Text) (now : ℕ) (found : Option CasLeaseResult)
      → Frame core
          (admit_missing coding repository scope hash lease_duration_ms limits upload_id now found)
  unfolding read_canonical_upload_session
  admit_missing-Frame upload_id now (some result) = Frame-return core _
  admit_missing-Frame upload_id now none =
      Frame-bind core (reads _) _ (Frame-reads core _) (admitted-Frame upload_id now)
    where
      admitted-Frame :
          (upload_id : Text) (now : ℕ) (session : Option CanonicalDirectUploadSession)
          → Frame core (
              admit_session coding repository scope hash lease_duration_ms limits upload_id now
                session)
      admitted-Frame upload_id now none = Frame-throw core _
      admitted-Frame upload_id now (some session) =
          Frame-bind core (throw_when _ _) _ (Frame-throw_when core _ _) (λ _.
            Frame-bind core (throw_when _ _) _ (Frame-throw_when core _ _)
              (λ _. Frame-return core _))

  -- So does admitting its end.
  pub admit_canonical_node_upload_finalization-Keeps :
      (upload_id : Text) (leased_at now : ℕ)
      → Keeps (
          admit_canonical_node_upload_finalization coding
            (direct_repository bucket committed_at)
            scope
            hash
            lease_duration_ms
            limits
            upload_id
            leased_at
            now)
  unfolding admit_canonical_node_upload_finalization
  admit_canonical_node_upload_finalization-Keeps upload_id leased_at now =
      Triple-bind _ _ _ _ (lift (validate_lease_hash hash)) _ (Keeps-Frame _ (Frame-lift core _))
        (λ _.
          Triple-bind _ _ _ _
            (ready_if_found coding repository scope hash lease_duration_ms limits leased_at) _
            (ready_if_found-Keeps leased_at)
            (λ found. Keeps-Frame _ (admit_missing-Frame upload_id now found)))
