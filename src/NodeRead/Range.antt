-- ===== src/NodeRead/Range.antt =====
-- `parseNodeContentRange` of packages/service/src/node-read.ts against the positions a header asks
-- for.
use unicas.Base.{
  ℕ, ◌+◌, ◌≤◌, ◌<◌, ◌≡◌, refl, ap, sym, ◌∙◌, ◌≢◌, ◌↔◌, ◌&&◌, ◌||◌, Option, none, some, ok, throw_if,
  ◌==◌, arith, >>=-eq-ok, ok-injective, err-ne-ok, subst,
}
use unicas.Base.Text.{Text}
use unicas.NodeRead.{
  logical_range, range_not_satisfiable, ContentRange, pick_range, parse_match, match_range,
  optional_number, is_empty, is_unsafe, parse_node_content_range,
}

-- Position `k` of a content of `size` bytes is one that the two numbers of a header ask for: those
-- from the first to the last, or the last so many.
abbrev pub Requested : Option ℕ → Option ℕ → ℕ → ℕ → Type 0
Requested none none size k = ⊥
Requested none (some last) size k = (k < size) × (size ≤ k + last)
Requested (some first) none size k = (first ≤ k) × (k < size)
Requested (some first) (some last) size k = (first ≤ k) × (k ≤ last) × (k < size)

abbrev pub Within : ContentRange → ℕ → Type 0
Within range k = (range.offset ≤ k) × (k < range.offset + range.length)

pick_range-Requested :
    (first last : Option ℕ) (size : ℕ) {range : ContentRange}
    → 0 < size
    → pick_range first last size ≡ ok range
    → (0 < range.length)
      × (range.offset + range.length ≤ size)
      × ((k : ℕ) → Within range k ↔ Requested first last size k)
unfolding pick_range
pick_range-Requested none none size p h = absurd (err-ne-ok h)
pick_range-Requested none (some last) size p h =
    (ground (arith, h), ground (arith, h), λ k. ground (arith, h))
pick_range-Requested (some first) none size p h =
    (ground (arith, h), ground (arith, h), λ k. ground (arith, h))
pick_range-Requested (some first) (some last) size p h =
    (ground (arith, h), ground (arith, h), λ k. ground (arith, h))

parse_match-pick_range :
    (first last : Text) (size : ℕ) {range : ContentRange}
    → parse_match (some (first, last)) size ≡ ok range
    → (0 < size) × (pick_range (optional_number first) (optional_number last) size ≡ ok range)
parse_match-pick_range first last size h =
    let (u, a, h1) =
      >>=-eq-ok
        (throw_if (is_empty first && is_empty last || size == 0) (range_not_satisfiable size)) _
        h in
    let (v, b, h2) =
      >>=-eq-ok
        (throw_if (is_unsafe (optional_number first) || is_unsafe (optional_number last))
          (range_not_satisfiable size))
        _ h1 in
    (ground (arith, a), h2)

-- A header that matches the range grammar, where it is accepted, gives a range that is not empty and
-- lies in the content, and its positions are exactly those that the two numbers ask for.
pub parse_node_content_range-Requested :
    (header : Text) (size : ℕ) {first last : Text} {range : ContentRange}
    → match_range header ≡ some (first, last)
    → parse_node_content_range (some header) size ≡ ok (some range)
    → (0 < range.length)
      × (range.offset + range.length ≤ size)
      × ((k : ℕ) → Within range k ↔ Requested (optional_number first) (optional_number last) size k)
unfolding parse_node_content_range
parse_node_content_range-Requested header size {first} {last} {range} m h =
    let (r, a, b) = >>=-eq-ok (parse_match (match_range header) size) _ h in
    let e : r ≡ range = ground (arith, b) in
    let (p, q) =
      parse_match-pick_range first last size (sym (ap (λ x. parse_match x size) m) ∙ a ∙ ap ok e) in
    pick_range-Requested (optional_number first) (optional_number last) size p q

-- Every header that is accepted matches the grammar, so no other text is read as a range.
parse_node_content_range-match_range :
    (header : Text) (size : ℕ) {answer : Option ContentRange}
    → parse_node_content_range (some header) size ≡ ok answer
    → match_range header ≢ none
unfolding parse_node_content_range
parse_node_content_range-match_range header size h m =
    let (r, a, b) = >>=-eq-ok (parse_match (match_range header) size) _ h in
    err-ne-ok (sym (ap (λ x. parse_match x size) m) ∙ a)

some_bounds :
    (header : Text) (size : ℕ) (o : Option (Text × Text)) {range : ContentRange}
    → match_range header ≡ o
    → parse_match o size ≡ ok range
    → (0 < range.length) × (range.offset + range.length ≤ size)
some_bounds header size none m h = absurd (err-ne-ok h)
some_bounds header size (some (first, last)) m h =
    let (p, q) = parse_match-pick_range first last size h in
    let (a, b, c) = pick_range-Requested (optional_number first) (optional_number last) size p q in
    (a, b)

-- What is read of a content that is not empty is not empty and lies in the content.
pub logical_range-bounds :
    (header : Option Text) (size : ℕ) {requested : Option ContentRange}
    → 0 < size
    → parse_node_content_range header size ≡ ok requested
    → (0 < (logical_range requested size).length)
      × ((logical_range requested size).offset + (logical_range requested size).length ≤ size)
unfolding parse_node_content_range
logical_range-bounds none size p h = ground (arith, h)
logical_range-bounds (some header) size p h =
    let (r, a, b) = >>=-eq-ok (parse_match (match_range header) size) _ h in
    subst
      (λ x.
        (0 < (logical_range x size).length)
        × ((logical_range x size).offset + (logical_range x size).length ≤ size))
      (ok-injective b) (some_bounds header size (match_range header) refl a)
