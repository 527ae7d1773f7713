-- ===== src/Tests/NodeRead.antt =====
-- Runs of range requests, and of reads of a node with three bytes of content and one child.
use unicas.Base.{
  ◌≡◌, refl, ℕ, ◌+◌, ◌≤◌, ◌<◌, ◌↔◌, some, List, [], ◌∷◌, replicate, slice, ok, err, arith,
}
use unicas.Base.Text.{codes, same}
use unicas.Codec.Bytes.{Bytes}
use unicas.Codec.Host.{ascii_coding}
use unicas.Codec.Binary.Canonical.{canonical_bytes}
use unicas.Store.Keys.{Scope}
use unicas.NodeRead.{
  ContentRange, NodeReadRecord, NodeReadRepository, range_not_satisfiable, split_digits,
  match_digits, match_range, digits_value, pick_range, optional_number, parse_node_content_range,
  read_node_content,
}
use unicas.NodeRead.Range.{Within, Requested, parse_node_content_range-Requested}
use unicas.NodeRead.Content.{read_node_content-canonical_bytes}

closed_run :
    parse_node_content_range (some (codes "bytes=1-7")) 3
    ≡ ok (some (record { offset = 1; length = 2 }))
unfolding parse_node_content_range match_range match_digits split_digits digits_value pick_range
    same
closed_run = refl

suffix_run :
    parse_node_content_range (some (codes "bytes=-2")) 3
    ≡ ok (some (record { offset = 1; length = 2 }))
unfolding parse_node_content_range match_range match_digits split_digits digits_value pick_range
    same
suffix_run = refl

two_ranges_run :
    parse_node_content_range (some (codes "bytes=0-1,2-2")) 3 ≡ err (range_not_satisfiable 3)
unfolding parse_node_content_range match_range match_digits split_digits digits_value pick_range
    same
two_ranges_run = refl

closed_match : match_range (codes "bytes=1-7") ≡ some (codes "1", codes "7")
unfolding match_range match_digits split_digits same
closed_match = refl

abbrev one_two : ContentRange
one_two = record { offset = 1; length = 2 }

parse_node_content_range-Requested_example :
    (0 < one_two.length)
    × (one_two.offset + one_two.length ≤ 3)
    × ((k : ℕ)
        → Within one_two k
          ↔ Requested (optional_number (codes "1")) (optional_number (codes "7")) 3 k)
parse_node_content_range-Requested_example =
    parse_node_content_range-Requested (codes "bytes=1-7") 3 closed_match closed_run

abbrev scope : Scope
scope = record { app_id = codes "a"; space_id = codes "s" }

abbrev node : NodeReadRecord
node = record {
  content_size = 3;
  content_type = codes "a/b";
  lease_started_at = 0;
  lease_expires_at = 1;
  child_ref_count = 0;
  root_ref_count = 0;
}

abbrev hashes : List Bytes
hashes = replicate 32 0 ∷ []

abbrev content : Bytes
content = 7 ∷ 8 ∷ 9 ∷ []

abbrev repository : NodeReadRepository
repository = record {
  read_node = λ s hash. some node;
  read_ordered_refs = λ s hash. replicate 64 48 ∷ [];
  read_canonical_range = λ s hash range. some (
      slice range.offset (range.offset + range.length)
        (canonical_bytes ascii_coding (codes "a/b") hashes content));
}

read_node_content-canonical_bytes_example :
    read_node_content ascii_coding repository scope (codes "h") (some (codes "bytes=1-7"))
    ≡ ok (
        some (record {
          body = 8 ∷ 9 ∷ [];
          content_type = codes "a/b";
          content_size = 3;
          refs = replicate 64 48 ∷ [];
          range = some (1, 2);
        }))
read_node_content-canonical_bytes_example =
    read_node_content-canonical_bytes ascii_coding repository scope (codes "h") node hashes content
      refl refl refl (refl, tt) (λ range a b. refl) (some (codes "bytes=1-7")) (omega arith)
      closed_run
