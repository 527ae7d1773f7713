-- ===== src/AppGc.antt =====
-- packages/service/src/app-gc.ts: the collection of the Spaces of an App, a page of them at a time,
-- over the repository of the Spaces and the actors that collect a Space. What an actor answers is
-- a parameter, and so are btoa, atob and JSON on the object of a cursor.
pub mod Bounds
pub mod Fuel
pub mod Paging
use unicas.Base.{
  ℕ, zero, suc, ◌+◌, ◌-◌, Bool, false, not, ◌&&◌, ◌||◌, Option, none, some, List, [], ◌∷◌, take,
  length, Result, ok, err, if◌then◌else◌, ltb, ◌==◌,
}
use unicas.Base.Text.{Text, same, before}
use unicas.Base.Exec.{Exec, return, lift, reads, throw_when, ◌>>=◌, ◌>>◌}
use unicas.Codec.Validation.{is_safe}
use unicas.Gc.{CasGcResult}
use unicas.NodeLease.Direct.{is_empty}

abbrev pub default_app_gc_max_spaces : ℕ
default_app_gc_max_spaces = 20

abbrev pub default_app_gc_max_nodes_per_space : ℕ
default_app_gc_max_nodes_per_space = 100

-- The cursor's version is always 1.
pub record AppGcCursor : Type 0 where
  pub app_id : Text
  pub last_space_id : Text

-- The value of a property: a string, a number, or anything else, undefined included.
pub data JsonValue : Type 0 where
  json_text : Text → JsonValue
  json_number : ℕ → JsonValue
  json_other : JsonValue

-- The properties that a cursor is read from.
pub record JsonObject : Type 0 where
  pub version : JsonValue
  pub app_id : JsonValue
  pub last_space_id : JsonValue

pub data Json : Type 0 where
  json_object : JsonObject → Json
  not_an_object : Json

-- `btoa(JSON.stringify(object))`, none where btoa throws on a character, and `JSON.parse(atob(value))`,
-- none where either throws.
pub record CursorText : Type 0 where
  pub encode : JsonObject → Option Text
  pub parse : Text → Option Json

pub data AppGcError : Type 0 where
  invalid_max_spaces invalid_max_nodes_per_space empty_app_id invalid_cursor : AppGcError
  page_exceeded page_unordered invalid_json invalid_result totals_exceeded : AppGcError
  http_failure : ℕ → AppGcError
  fetch_failure invalid_character : AppGcError

pub record AppGcResult : Type 0 where
  pub spaces_examined : ℕ
  pub spaces_with_deletions : ℕ
  pub nodes_examined : ℕ
  pub nodes_deleted : ℕ
  pub reclaimed_content_bytes : ℕ
  pub next_cursor : Option Text

-- A response whose status is not ok, a body that is not JSON, one that the schema refuses, a result.
pub data GcReply : Type 0 where
  failed_response : ℕ → GcReply
  not_json not_a_result : GcReply
  gc_reply : CasGcResult → GcReply

abbrev pub or_default : Option ℕ → ℕ → ℕ
or_default none fallback = fallback
or_default (some given) fallback = given

abbrev pub answer_of : ℕ → GcReply → Result AppGcError CasGcResult
answer_of requested (failed_response status) = err (http_failure status)
answer_of requested not_json = err invalid_json
answer_of requested not_a_result = err invalid_result
answer_of requested (gc_reply pass) =
    if ltb requested pass.examined || ltb pass.examined pass.deleted
    then err invalid_result
    else ok pass

pub record SpaceTotals : Type 0 where
  pub nodes_examined : ℕ
  pub nodes_deleted : ℕ
  pub reclaimed_content_bytes : ℕ

abbrev pub no_nodes : SpaceTotals
no_nodes = record { nodes_examined = 0; nodes_deleted = 0; reclaimed_content_bytes = 0 }

abbrev pub add_pass : CasGcResult → SpaceTotals → SpaceTotals
add_pass pass totals = record {
  nodes_examined = totals.nodes_examined + pass.examined;
  nodes_deleted = totals.nodes_deleted + pass.deleted;
  reclaimed_content_bytes = totals.reclaimed_content_bytes + pass.reclaimed_content_bytes;
}

-- The variables of the loop over the Spaces.
pub record AppTotals : Type 0 where
  pub spaces_with_deletions : ℕ
  pub nodes : SpaceTotals

abbrev pub add_space : SpaceTotals → AppTotals → AppTotals
add_space space totals = record {
  spaces_with_deletions =
      if ltb 0 space.nodes_deleted
      then totals.spaces_with_deletions + 1
      else totals.spaces_with_deletions;
  nodes = record {
    nodes_examined = totals.nodes.nodes_examined + space.nodes_examined;
    nodes_deleted = totals.nodes.nodes_deleted + space.nodes_deleted;
    reclaimed_content_bytes = totals.nodes.reclaimed_content_bytes + space.reclaimed_content_bytes;
  };
}

abbrev pub is_safe_total : AppTotals → Bool
is_safe_total totals =
    is_safe totals.nodes.nodes_examined
    && is_safe totals.nodes.nodes_deleted
    && is_safe totals.nodes.reclaimed_content_bytes

-- The loop of `validateSpacePage`.
unfoldable pub check_order : Text → List Text → Result AppGcError (Unit {0})
check_order previous [] = ok tt
check_order previous (space_id ∷ rows) =
    if is_empty space_id || not (before previous space_id)
    then err page_unordered
    else check_order space_id rows

unfoldable pub validate_space_page : List Text → Text → ℕ → Result AppGcError (Unit {0})
validate_space_page rows after_space_id maximum_rows =
    if ltb maximum_rows (length rows) then err page_exceeded else check_order after_space_id rows

abbrev pub is_version : JsonValue → Bool
is_version (json_number n) = n == 1
is_version (json_text t) = false
is_version json_other = false

-- A string that is not empty.
abbrev pub filled_text : JsonValue → Option Text
filled_text (json_text t) = if is_empty t then none else some t
filled_text (json_number n) = none
filled_text json_other = none

abbrev pub cursor_of : Option Text → Option Text → Option AppGcCursor
cursor_of (some app_id) (some last_space_id) =
    some (record { app_id = app_id; last_space_id = last_space_id })
cursor_of (some app_id) none = none
cursor_of none last_space_id = none

abbrev pub check_cursor : Option Json → Option AppGcCursor
check_cursor none = none
check_cursor (some not_an_object) = none
check_cursor (some (json_object candidate)) =
    if is_version candidate.version
    then cursor_of (filled_text candidate.app_id) (filled_text candidate.last_space_id)
    else none

abbrev pub decode_app_gc_cursor : CursorText → Text → Option AppGcCursor
decode_app_gc_cursor text value = check_cursor (text.parse value)

-- The object that is written.
abbrev pub object_of : AppGcCursor → JsonObject
object_of cursor = record {
  version = json_number 1;
  app_id = json_text cursor.app_id;
  last_space_id = json_text cursor.last_space_id;
}

abbrev pub encode_app_gc_cursor : CursorText → AppGcCursor → Option Text
encode_app_gc_cursor text cursor = text.encode (object_of cursor)

abbrev pub require_app : Text → Option AppGcCursor → Result AppGcError Text
require_app app_id none = err invalid_cursor
require_app app_id (some cursor) =
    if same cursor.app_id app_id then ok cursor.last_space_id else err invalid_cursor

-- `afterSpaceId`
unfoldable pub after_cursor : CursorText → Text → Option Text → Result AppGcError Text
after_cursor text app_id none = ok []
after_cursor text app_id (some value) = require_app app_id (decode_app_gc_cursor text value)

unfoldable pub last_of : Text → List Text → Text
last_of previous [] = previous
last_of previous (space_id ∷ rows) = last_of space_id rows

abbrev pub encoded : Option Text → Result AppGcError (Option Text)
encoded none = err invalid_character
encoded (some value) = ok (some value)

unfoldable pub next_cursor_of : CursorText → Text → ℕ → List Text → Result AppGcError (Option Text)
next_cursor_of text app_id max_spaces rows =
    if ltb max_spaces (length rows)
    then encoded (
        encode_app_gc_cursor text
          (record { app_id = app_id; last_space_id = last_of [] (take max_spaces rows) }))
    else ok none

abbrev pub result_of : ℕ → List Text → AppTotals → Option Text → AppGcResult
result_of max_spaces rows totals next_cursor = record {
  spaces_examined = length (take max_spaces rows);
  spaces_with_deletions = totals.spaces_with_deletions;
  nodes_examined = totals.nodes.nodes_examined;
  nodes_deleted = totals.nodes.nodes_deleted;
  reclaimed_content_bytes = totals.nodes.reclaimed_content_bytes;
  next_cursor = next_cursor;
}

module _ {S : Type 0} (fetch : Text → Text → ℕ → Exec S AppGcError GcReply) (app_id : Text) where
  -- The loop of `collectSpaceGarbage`. Each pass that another follows lowers `remaining`.
  unfoldable pub passes : Text → ℕ → ℕ → SpaceTotals → Exec S AppGcError SpaceTotals
  passes space_id zero remaining totals = return totals
  passes space_id (suc fuel) remaining totals = if remaining == 0 then return totals else do
    reply ← fetch app_id space_id remaining
    pass ← lift (answer_of remaining reply)
    (if pass.examined == 0 || pass.deleted == 0
        then return (add_pass pass totals)
        else passes space_id fuel (remaining - pass.examined) (add_pass pass totals))

  unfoldable pub collect_space_garbage : Text → ℕ → Exec S AppGcError SpaceTotals
  collect_space_garbage space_id max_nodes = passes space_id max_nodes max_nodes no_nodes

  unfoldable pub collect_spaces : ℕ → List Text → AppTotals → Exec S AppGcError AppTotals
  collect_spaces max_nodes [] totals = return totals
  collect_spaces max_nodes (space_id ∷ spaces) totals = do
    space ← collect_space_garbage space_id max_nodes
    throw_when (not (is_safe_total (add_space space totals))) totals_exceeded
    collect_spaces max_nodes spaces (add_space space totals)

module _ {S : Type 0} (fetch : Text → Text → ℕ → Exec S AppGcError GcReply)
    (list_usage_bearing_space_ids : Text → Text → ℕ → S → List Text) (app_id : Text) where
  -- From the read of the page on.
  unfoldable pub collect_page : CursorText → ℕ → ℕ → Text → Exec S AppGcError AppGcResult
  collect_page text max_spaces max_nodes after_space_id = do
    rows ← reads (list_usage_bearing_space_ids app_id after_space_id (max_spaces + 1))
    lift (validate_space_page rows after_space_id (max_spaces + 1))
    totals ←
        collect_spaces fetch app_id max_nodes (take max_spaces rows)
          (record { spaces_with_deletions = 0; nodes = no_nodes })
    next_cursor ← lift (next_cursor_of text app_id max_spaces rows)
    return (result_of max_spaces rows totals next_cursor)

  unfoldable pub run_app_garbage_collection :
      CursorText → Option Text → Option ℕ → Option ℕ → Exec S AppGcError AppGcResult
  run_app_garbage_collection text cursor max_spaces max_nodes_per_space = do
    let spaces = or_default max_spaces default_app_gc_max_spaces
    let nodes = or_default max_nodes_per_space default_app_gc_max_nodes_per_space
    throw_when (not (is_safe spaces) || spaces == 0) invalid_max_spaces
    throw_when (not (is_safe nodes) || nodes == 0) invalid_max_nodes_per_space
    throw_when (is_empty app_id) empty_app_id
    after_space_id ← lift (after_cursor text app_id cursor)
    collect_page text spaces nodes after_space_id
