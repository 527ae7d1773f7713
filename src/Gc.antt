-- ===== src/Gc.antt =====
-- packages/service/src/gc.ts: the collection of the expired and unreferenced nodes of a Space over a
-- repository.
pub mod Adapter
pub mod Kept
pub mod Safety
use unicas.Base.{
  ℕ, ◌+◌, Bool, true, false, not, ◌||◌, Option, none, some, List, [], ◌∷◌, length, Result, ok, err,
  if◌then◌else◌, ◌==◌,
}
use unicas.Base.Text.{Text}
use unicas.Codec.Validation.{is_safe}
use unicas.Store.Keys.{Scope}

abbrev pub default_gc_max_nodes : ℕ
default_gc_max_nodes = 100

-- The TypeError of a wrong limit, and any error of the repository.
pub data GcError : Type 0 where
  invalid_max_nodes repository_error : GcError

pub record NodeGcChildReference : Type 0 where
  pub hash : Text
  pub count : ℕ

pub record NodeGcDeletion : Type 0 where
  pub hash : Text
  pub content_size : ℕ
  pub child_references : List NodeGcChildReference

pub record NodeGcRepository (S : Type 0) : Type 0 where
  pub find_expired_unreferenced : Scope → ℕ → ℕ → S → List Text
  pub read_still_expired_unreferenced : Scope → Text → ℕ → S → Option NodeGcDeletion
  pub delete_canonical_content : Scope → Text → S → S
  pub commit_deletion : Scope → NodeGcDeletion → S → Result GcError (Unit {0}) × S

pub record CasGcResult : Type 0 where
  pub examined : ℕ
  pub deleted : ℕ
  pub reclaimed_content_bytes : ℕ

-- `deleted` and `reclaimedContentBytes` of the loop.
pub record Tally : Type 0 where
  pub deleted : ℕ
  pub reclaimed : ℕ

abbrev pub add_deletion : Tally → Option ℕ → Tally
add_deletion tally none = tally
add_deletion tally (some size) = record {
  deleted = tally.deleted + 1;
  reclaimed = tally.reclaimed + size;
}

abbrev pub or_default : Option ℕ → ℕ
or_default none = default_gc_max_nodes
or_default (some max_nodes) = max_nodes

module _ {S : Type 0} (repository : NodeGcRepository S) (scope : Scope) (now : ℕ) where
  abbrev pub deletion_size : NodeGcDeletion → Result GcError (Unit {0}) → Result GcError (Option ℕ)
  deletion_size deletion (ok _) = ok (some deletion.content_size)
  deletion_size deletion (err e) = err e

  abbrev pub perform : Option NodeGcDeletion → S → Result GcError (Option ℕ) × S
  perform none s = (ok none, s)
  perform (some deletion) s =
      let (r, s') =
        repository.commit_deletion scope deletion
          (repository.delete_canonical_content scope deletion.hash s) in
      (deletion_size deletion r, s')

  -- The body of the loop.
  unfoldable pub collect_one : Text → S → Result GcError (Option ℕ) × S
  collect_one hash s = perform (repository.read_still_expired_unreferenced scope hash now s) s

  abbrev pub resume :
      Result GcError (Option ℕ)
      → Tally
      → (Tally → Result GcError Tally × S)
      → S
      → Result GcError Tally × S
  resume (err e) tally next s = (err e, s)
  resume (ok size) tally next s = next (add_deletion tally size)

  -- The loop over the candidates.
  unfoldable pub collect_candidates : List Text → Tally → S → Result GcError Tally × S
  collect_candidates [] tally s = (ok tally, s)
  collect_candidates (hash ∷ hashes) tally s =
      let (r, s') = collect_one hash s in
      resume r tally (λ tally'. collect_candidates hashes tally' s') s'

  abbrev pub gc_result : ℕ → Result GcError Tally → Result GcError CasGcResult
  gc_result examined (err e) = err e
  gc_result examined (ok tally) = ok (record {
    examined = examined;
    deleted = tally.deleted;
    reclaimed_content_bytes = tally.reclaimed;
  })

  abbrev pub collect_found : List Text → S → Result GcError CasGcResult × S
  collect_found candidates s =
      let (r, s') = collect_candidates candidates (record { deleted = 0; reclaimed = 0 }) s in
      (gc_result (length candidates) r, s')

  unfoldable pub collect_expired_unreferenced_nodes : Option ℕ → S → Result GcError CasGcResult × S
  unfolding collect_candidates
  collect_expired_unreferenced_nodes max_nodes s =
      if not (is_safe (or_default max_nodes)) || or_default max_nodes == 0
      then (err invalid_max_nodes, s)
      else collect_found (repository.find_expired_unreferenced scope now (or_default max_nodes) s) s
