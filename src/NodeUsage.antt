-- ===== src/NodeUsage.antt =====
-- packages/service/src/node-usage.ts: the usage of a Space, summed over its nodes.
pub mod Adapter
pub mod Ready
pub mod Sums
use unicas.Base.{ℕ, ◌+◌, Bool, Option, none, some, List, [], ◌∷◌, length, if◌then◌else◌, ltb}
use unicas.Base.Text.{Text}
use unicas.Store.Keys.{Scope}

pub record NodeUsageEntry : Type 0 where
  pub hash : Text
  pub content_size : ℕ
  pub lease_expires_at : ℕ

-- The reads of one moment.
pub record NodeUsageRepository : Type 0 where
  pub list_nodes : Scope → List NodeUsageEntry
  pub read_canonical_stored_bytes : Scope → Text → Option ℕ
  pub read_reserved_bytes : Scope → ℕ

pub record CasUsage : Type 0 where
  pub node_count : ℕ
  pub ready_content_bytes : ℕ
  pub ready_stored_bytes : ℕ
  pub reserved_bytes : ℕ
  pub not_ready_node_count : ℕ
  pub leased_node_count : ℕ

-- The variables of the loop.
pub record UsageTotals : Type 0 where
  pub ready_content_bytes : ℕ
  pub ready_stored_bytes : ℕ
  pub not_ready_node_count : ℕ
  pub leased_node_count : ℕ

abbrev pub add_stored : Option ℕ → UsageTotals → UsageTotals
add_stored none totals = record totals { not_ready_node_count = totals.not_ready_node_count + 1 }
add_stored (some bytes) totals = record totals {
  ready_stored_bytes = totals.ready_stored_bytes + bytes;
}

abbrev pub add_node : NodeUsageEntry → UsageTotals → UsageTotals
add_node node totals = record totals {
  ready_content_bytes = totals.ready_content_bytes + node.content_size;
  leased_node_count =
      if ltb 0 node.lease_expires_at
      then totals.leased_node_count + 1
      else totals.leased_node_count;
}

module _ (repository : NodeUsageRepository) (scope : Scope) where
  unfoldable pub sum_nodes : List NodeUsageEntry → UsageTotals → UsageTotals
  sum_nodes [] totals = totals
  sum_nodes (node ∷ nodes) totals =
      sum_nodes nodes
        (add_stored (repository.read_canonical_stored_bytes scope node.hash) (add_node node totals))

  unfoldable pub read_node_usage : CasUsage
  unfolding sum_nodes
  read_node_usage =
      let nodes = repository.list_nodes scope in
      let totals = sum_nodes nodes (record {
        ready_content_bytes = 0;
        ready_stored_bytes = 0;
        not_ready_node_count = 0;
        leased_node_count = 0;
      }) in
      record {
        node_count = length nodes;
        ready_content_bytes = totals.ready_content_bytes;
        ready_stored_bytes = totals.ready_stored_bytes;
        reserved_bytes = repository.read_reserved_bytes scope;
        not_ready_node_count = totals.not_ready_node_count;
        leased_node_count = totals.leased_node_count;
      }
