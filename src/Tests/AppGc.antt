-- ===== src/Tests/AppGc.antt =====
-- Runs of a collection of an App with two Spaces, whose actors run the collection of gc.ts.
use unicas.Base.{
  ◌≡◌, ◌≤◌, ◌*◌, refl, ap, ℕ, Bool, true, false, Option, none, some, List, [], ◌∷◌, Result, ok, err,
  arith, if◌then◌else◌,
}
use unicas.Base.Table.{find, delete, update}
use unicas.Base.Text.{Text, codes, same, same→eq, before}
use unicas.RootRefs.Adapter.Effect.{some-injective}
use unicas.Base.Exec.{Exec, ◌>>=◌}
use unicas.Store.{Store}
use unicas.Gc.{
  GcError, CasGcResult, collect_one, collect_candidates, collect_expired_unreferenced_nodes,
}
use unicas.Gc.Adapter.{
  is_reserved, eligible_hashes, count_child, child_counts, read_still_expired_unreferenced,
  delete_canonical_content, delete_edges, lower_children, commit_deletion,
  cloudflare_node_gc_repository,
}
use unicas.AppGc.{
  AppGcError, AppGcResult, AppGcCursor, JsonValue, json_text, json_object, object_of,
  encode_app_gc_cursor, CursorText, GcReply, failed_response, gc_reply, no_nodes, check_order,
  validate_space_page, after_cursor, last_of, next_cursor_of, passes, collect_space_garbage,
  collect_spaces, collect_page, run_app_garbage_collection,
}
use unicas.AppGc.Bounds.{run_app_garbage_collection-bounds}
use unicas.AppGc.Paging.{run_app_garbage_collection-after_cursor}
use unicas.AppGc.Fuel.{collect_space_garbage-passes}
use unicas.Tests.Gc.{family}

abbrev reply_of : Result GcError CasGcResult → GcReply
reply_of (ok result) = gc_reply result
reply_of (err e) = failed_response 500

-- The actor of a Space, at the time 20.
abbrev actor : Text → Text → ℕ → Exec Store AppGcError GcReply
actor app_id space_id requested s =
    let (result, s') =
      collect_expired_unreferenced_nodes (cloudflare_node_gc_repository (λ hashes. hashes) 20)
        (record { app_id = app_id; space_id = space_id }) 20 (some requested) s in
    (ok (reply_of result), s')

-- Of the Spaces "s" and "t", those after the given one.
abbrev two_spaces : Text → Text → ℕ → Store → List Text
two_spaces app_id after limit s =
    if before after (codes "s")
    then codes "s" ∷ codes "t" ∷ []
    else if before after (codes "t")
    then codes "t" ∷ []
    else []

-- A cursor of the App "a" is written as its Space alone.
abbrev written_of : JsonValue → JsonValue → Option Text
written_of (json_text app_id) (json_text space_id) =
    if same app_id (codes "a") then some space_id else none
written_of app_id space_id = none

abbrev plain : CursorText
plain = record {
  encode = λ object. written_of object.app_id object.last_space_id;
  parse = λ value.
      some (json_object (object_of (record { app_id = codes "a"; last_space_id = value })));
}

written-parse :
    (cursor : AppGcCursor) (value : Text)
    → encode_app_gc_cursor plain cursor ≡ some value
    → plain.parse value ≡ some (json_object (object_of cursor))
written-parse cursor value h =
    let (mine, e) = chosen (same cursor.app_id (codes "a")) h in
    ap
      (λ (t : Text × Text).
        some (json_object (object_of (record { app_id = t.0; last_space_id = t.1 }))))
      (rw (same→eq cursor.app_id (codes "a") mine, e) refl)
  where
    chosen :
        (test : Bool) {given : Text}
        → (if test then some given else none) ≡ some value
        → (test ≡ true) × (given ≡ value)
    chosen true g = (refl, some-injective g)
    chosen false g = cc

abbrev app_run : Result AppGcError AppGcResult × Store
app_run =
    run_app_garbage_collection actor two_spaces (codes "a") plain none (some 1) (some 100) family

abbrev app_result : AppGcResult
app_result = record {
  spaces_examined = 1;
  spaces_with_deletions = 1;
  nodes_examined = 1;
  nodes_deleted = 1;
  reclaimed_content_bytes = 5;
  next_cursor = some (codes "s");
}

app_run_ok : app_run.0 ≡ ok app_result
unfolding run_app_garbage_collection collect_page collect_spaces collect_space_garbage passes
    next_cursor_of last_of after_cursor validate_space_page check_order before
    collect_expired_unreferenced_nodes collect_candidates collect_one is_reserved eligible_hashes
    count_child child_counts read_still_expired_unreferenced delete_canonical_content delete_edges
    lower_children commit_deletion find delete update same ◌>>=◌
app_run_ok = refl

run_app_garbage_collection-bounds_example : (1 ≤ 1) × (1 ≤ 1) × (1 ≤ 1 * 100) × (1 ≤ 1)
run_app_garbage_collection-bounds_example =
    run_app_garbage_collection-bounds actor two_spaces (codes "a") plain none (some 1) (some 100)
      family app_run.1 app_result (ap (λ r. (r, app_run.1)) app_run_ok)

first_page : after_cursor plain (codes "a") none ≡ ok []
unfolding after_cursor
first_page = refl

run_app_garbage_collection-after_cursor_example :
    (next : Text) × (after_cursor plain (codes "a") (some (codes "s")) ≡ ok next)
    × (before [] next ≡ true)
run_app_garbage_collection-after_cursor_example =
    run_app_garbage_collection-after_cursor actor two_spaces (codes "a") plain written-parse none
      (some 1) (some 100) [] family app_run.1 app_result (codes "s") first_page
      (ap (λ r. (r, app_run.1)) app_run_ok) refl

collect_space_garbage-passes_example :
    collect_space_garbage actor (codes "a") (codes "s") 3 family
    ≡ passes actor (codes "a") (codes "s") 5 3 no_nodes family
collect_space_garbage-passes_example =
    collect_space_garbage-passes actor (codes "a") (codes "s") 3 5 family (omega arith)
