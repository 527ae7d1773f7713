-- ===== src/NodeLease.antt =====
-- packages/service/src/node-lease.ts: the length of a lease and its renewal. Durations and times are
-- whole milliseconds.
pub mod Renewal
pub mod Types
pub mod Ready
pub mod Canonical
pub mod Direct
pub mod Driven
pub mod Validation
pub mod Upload
pub mod Adapter
pub mod Session
use unicas.Base.{ℕ, ◌+◌, ◌*◌, min, max, Option, none, some, if◌then◌else◌, ltb}
use unicas.Base.Int.{ℤ, pos, negsuc}

abbrev pub min_lease_ms : ℕ
min_lease_ms = 60 * 1000

abbrev pub max_lease_ms : ℕ
max_lease_ms = 24 * 60 * 60 * 1000

pub record NodeLeaseRecord : Type 0 where
  pub lease_started_at : ℕ
  pub lease_expires_at : ℕ

abbrev at_least : ℤ → ℕ → ℕ
at_least (pos n) bound = max n bound
at_least (negsuc n) bound = bound

unfoldable pub clamp_lease_duration : ℤ → ℕ
clamp_lease_duration value = min (at_least value min_lease_ms) max_lease_ms

abbrev pub started_at : Option NodeLeaseRecord → ℕ → ℕ
started_at none now = now
started_at (some lease) now = if ltb now lease.lease_expires_at then lease.lease_started_at else now

abbrev pub expires_at : Option NodeLeaseRecord → ℕ
expires_at none = 0
expires_at (some lease) = lease.lease_expires_at

unfoldable pub next_node_lease : Option NodeLeaseRecord → ℕ → ℕ → NodeLeaseRecord
next_node_lease existing duration_ms now = record {
  lease_started_at = started_at existing now;
  lease_expires_at = max (expires_at existing) (now + duration_ms);
}
