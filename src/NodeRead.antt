-- ===== src/NodeRead.antt =====
-- packages/service/src/node-read.ts: the byte range of a request, and the read of a node's content
-- from the canonical object over a repository.
pub mod Range
pub mod Content
use unicas.Base.{
  ℕ, ◌+◌, ◌-◌, ◌*◌, min, Bool, true, false, not, ◌&&◌, ◌||◌, Option, none, some, List, [], ◌∷◌,
  length, Result, ok, err, ◌>>=◌, ◌>>◌, throw_if, if◌then◌else◌, ltb, leb, ◌==◌,
}
use unicas.Base.Text.{Text, codes, same}
use unicas.Codec.Bytes.{Bytes}
use unicas.Codec.Host.{TextCoding}
use unicas.Codec.Binary.{header_size, hash_size}
use unicas.Codec.Validation.{is_safe}
use unicas.Store.Keys.{Scope}

-- `rangeNotSatisfiable(size)`: the error of status 416.
pub data RangeError : Type 0 where
  range_not_satisfiable : ℕ → RangeError

abbrev pub is_digit : ℕ → Bool
is_digit c = leb 48 c && leb c 57

-- The digits that a text starts with, and what is behind them.
unfoldable pub split_digits : Text → Text × Text
split_digits [] = ([], [])
split_digits (c ∷ t) =
    let (digits, rest) = split_digits t in if is_digit c then (c ∷ digits, rest) else ([], c ∷ t)

abbrev pub last_digits : Text → Text × Text → Option (Text × Text)
last_digits first (last, []) = some (first, last)
last_digits first (last, c ∷ t) = none

abbrev pub after_first : Text × Text → Option (Text × Text)
after_first (first, []) = none
after_first (first, c ∷ t) = if c == 45 then last_digits first (split_digits t) else none

unfoldable pub match_digits : Text → Option (Text × Text)
unfolding split_digits
match_digits t = after_first (split_digits t)

-- /^bytes=(\d*)-(\d*)$/
unfoldable pub match_range : Text → Option (Text × Text)
unfolding match_digits
match_range (b ∷ y ∷ t ∷ e ∷ s ∷ q ∷ rest) =
    if same (b ∷ y ∷ t ∷ e ∷ s ∷ q ∷ []) (codes "bytes=") then match_digits rest else none
match_range _ = none

-- `Number` of a run of digits. It is rounded where it is not safe, and then it is not safe either.
unfoldable pub digits_value : ℕ → Text → ℕ
digits_value n [] = n
digits_value n (c ∷ t) = digits_value (n * 10 + (c - 48)) t

abbrev pub optional_number : Text → Option ℕ
optional_number [] = none
optional_number (c ∷ t) = some (digits_value 0 (c ∷ t))

abbrev pub is_unsafe : Option ℕ → Bool
is_unsafe none = false
is_unsafe (some n) = not (is_safe n)

abbrev pub precedes : Option ℕ → ℕ → Bool
precedes none first = false
precedes (some last) first = ltb last first

abbrev pub range_end : Option ℕ → ℕ → ℕ
range_end none size = size - 1
range_end (some last) size = min last (size - 1)

pub record ContentRange : Type 0 where
  pub offset : ℕ
  pub length : ℕ

-- What follows the checks of the numbers.
unfoldable pub pick_range : Option ℕ → Option ℕ → ℕ → Result RangeError ContentRange
pick_range none none size = err (range_not_satisfiable size)
pick_range none (some last) size = do
  throw_if (last == 0) (range_not_satisfiable size)
  ok (record { offset = size - min last size; length = min last size })
pick_range (some first) last size = do
  throw_if (leb size first || precedes last first) (range_not_satisfiable size)
  ok (record { offset = first; length = range_end last size - first + 1 })

abbrev pub is_empty : Text → Bool
is_empty [] = true
is_empty (c ∷ t) = false

abbrev pub parse_match : Option (Text × Text) → ℕ → Result RangeError ContentRange
parse_match none size = err (range_not_satisfiable size)
parse_match (some (first, last)) size = do
  throw_if (is_empty first && is_empty last || size == 0) (range_not_satisfiable size)
  throw_if (is_unsafe (optional_number first) || is_unsafe (optional_number last))
      (range_not_satisfiable size)
  pick_range (optional_number first) (optional_number last) size

unfoldable pub parse_node_content_range : Option Text → ℕ → Result RangeError (Option ContentRange)
unfolding match_range pick_range
parse_node_content_range none size = ok none
parse_node_content_range (some header) size = do
  range ← parse_match (match_range header) size
  ok (some range)

pub record NodeReadRecord : Type 0 where
  pub content_size : ℕ
  pub content_type : Text
  pub lease_started_at : ℕ
  pub lease_expires_at : ℕ
  pub child_ref_count : ℕ
  pub root_ref_count : ℕ

-- The reads of one moment.
pub record NodeReadRepository : Type 0 where
  pub read_node : Scope → Text → Option NodeReadRecord
  pub read_ordered_refs : Scope → Text → List Text
  pub read_canonical_range : Scope → Text → ContentRange → Option Bytes

-- `range` holds the first and the last position.
pub record NodeContentStream : Type 0 where
  pub body : Bytes
  pub content_type : Text
  pub content_size : ℕ
  pub refs : List Text
  pub range : Option (ℕ × ℕ)

abbrev pub logical_range : Option ContentRange → ℕ → ContentRange
logical_range none size = record { offset = 0; length = size }
logical_range (some range) size = range

abbrev pub positions : Option ContentRange → Option (ℕ × ℕ)
positions none = none
positions (some range) = some (range.offset, range.offset + range.length - 1)

module _ (coding : TextCoding) (repository : NodeReadRepository) (scope : Scope) (hash : Text) where
  abbrev pub physical_offset : NodeReadRecord → ℕ
  physical_offset node =
      header_size
      + length (coding.encode node.content_type)
      + length (repository.read_ordered_refs scope hash) * hash_size

  abbrev pub content_stream :
      NodeReadRecord → Option ContentRange → Option Bytes → Option NodeContentStream
  content_stream node requested none = none
  content_stream node requested (some body) = some (record {
    body = body;
    content_type = node.content_type;
    content_size = node.content_size;
    refs = repository.read_ordered_refs scope hash;
    range = positions requested;
  })

  abbrev pub read_record :
      Option Text → Option NodeReadRecord → Result RangeError (Option NodeContentStream)
  read_record range_header none = ok none
  read_record range_header (some node) = do
    requested ← parse_node_content_range range_header node.content_size
    let logical = logical_range requested node.content_size
    ok (
        content_stream node requested (
          repository.read_canonical_range scope hash
            (record { offset = physical_offset node + logical.offset; length = logical.length })))

  unfoldable pub read_node_content : Option Text → Result RangeError (Option NodeContentStream)
  unfolding parse_node_content_range
  read_node_content range_header = read_record range_header (repository.read_node scope hash)
