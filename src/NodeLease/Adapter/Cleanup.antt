-- ===== src/NodeLease/Adapter/Cleanup.antt =====
-- `cleanupExpiredLeaseDrivenUploads` of packages/service-cloudflare/src/node-lease.ts.
use unicas.Base.{
  ℕ, ◌+◌, ◌-◌, Bool, ◌&&◌, ◌||◌, List, [], ◌∷◌, take, sort_by, leb, ltb, ◌==◌, if◌then◌else◌, ok,
}
use unicas.Base.Text.{Text, same, before}
use unicas.Base.Table.{delete}
use unicas.Base.Exec.{return, reads, ◌>>=◌, ◌>>◌}
use unicas.Store.{Store, UploadRow}
use unicas.Store.Keys.{Scope, NodeKey, TemporaryKey, same_scope, node_key_eq}
use unicas.RootRefs.Adapter.{node_key}
use unicas.NodeLease.Adapter.{Action, is_some}
use unicas.NodeLease.Adapter.Uploads.{find_generation, delete_temporary_upload_object}

pub record ExpiredUpload : Type 0 where
  pub hash : Text
  pub generation : Text
  pub temporary_object_key : Text
  pub cleanup_at : ℕ

unfoldable pub expired_uploads : Scope → ℕ → List (NodeKey × UploadRow) → List ExpiredUpload
expired_uploads scope now [] = []
expired_uploads scope now ((key, row) ∷ rows) =
    let rest = expired_uploads scope now rows in
    if same_scope key.scope scope && leb row.cleanup_at now
    then record {
      hash = key.hash;
      generation = row.generation;
      temporary_object_key = row.temporary_object_key;
      cleanup_at = row.cleanup_at;
    }
      ∷ rest
    else rest

-- ORDER BY cleanup_at ASC, hash ASC
abbrev upload_precedes : ExpiredUpload → ExpiredUpload → Bool
upload_precedes a b =
    if a.cleanup_at == b.cleanup_at
    then before a.hash b.hash || same a.hash b.hash
    else ltb a.cleanup_at b.cleanup_at

unfoldable pub expired_cleanups : Scope → ℕ → List (TemporaryKey × ℕ) → List (Text × ℕ)
expired_cleanups scope now [] = []
expired_cleanups scope now ((key, cleanup_at) ∷ rows) =
    let rest = expired_cleanups scope now rows in
    if same_scope key.scope scope && leb cleanup_at now
    then (key.object_key, cleanup_at) ∷ rest
    else rest

-- ORDER BY cleanup_at ASC, temporary_object_key ASC
abbrev cleanup_precedes : Text × ℕ → Text × ℕ → Bool
cleanup_precedes a b = if a.1 == b.1 then before a.0 b.0 || same a.0 b.0 else ltb a.1 b.1

-- The batch of the first loop: the reservation and the row, if the generation is still there.
-- Returns the number of uploads that it deletes.
unfoldable pub delete_expired : Scope → ExpiredUpload → Action ℕ
delete_expired scope expired s =
    let key = node_key scope expired.hash in
    if is_some (find_generation key expired.generation s.uploads)
    then (
      ok 1,
      record s { reservations = delete key s.reservations; uploads = delete key s.uploads },
    )
    else (ok 0, s)

unfoldable pub delete_all_expired : Scope → List ExpiredUpload → ℕ → Action ℕ
delete_all_expired scope [] deleted = return deleted
delete_all_expired scope (expired ∷ rest) deleted = do
  delete_temporary_upload_object scope expired.temporary_object_key
  changes ← delete_expired scope expired
  delete_all_expired scope rest (deleted + changes)

unfoldable pub delete_all_superseded : Scope → List (Text × ℕ) → ℕ → Action ℕ
delete_all_superseded scope [] deleted = return deleted
delete_all_superseded scope ((temporary_object_key, _) ∷ rest) deleted = do
  delete_temporary_upload_object scope temporary_object_key
  delete_all_superseded scope rest (deleted + 1)

-- The second scan. `limit - deleted` stops at 0, as `Math.max` does.
unfoldable pub clean_superseded : Scope → ℕ → ℕ → ℕ → Action ℕ
clean_superseded scope now remaining deleted = do
  superseded ← reads (λ (s : Store).
      take remaining (sort_by cleanup_precedes (expired_cleanups scope now s.cleanups)))
  delete_all_superseded scope superseded deleted

unfoldable pub cleanup_expired_lease_driven_uploads : Scope → ℕ → ℕ → Action ℕ
cleanup_expired_lease_driven_uploads scope now limit = do
  rows ←
      reads
        (λ (s : Store). take limit (sort_by upload_precedes (expired_uploads scope now s.uploads)))
  deleted ← delete_all_expired scope rows 0
  if limit - deleted == 0
      then return deleted
      else clean_superseded scope now (limit - deleted) deleted
