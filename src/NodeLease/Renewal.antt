-- ===== src/NodeLease/Renewal.antt =====
-- Leases after a renewal: packages/service/src/node-lease.ts.
use unicas.Base.{ℕ, ◌+◌, ◌≤◌, ◌≡◌, max, Option, none, some, arith}
use unicas.Base.Int.{ℤ, pos, negsuc}
use unicas.NodeLease.{
  NodeLeaseRecord, min_lease_ms, max_lease_ms, clamp_lease_duration, next_node_lease, expires_at,
}

pub clamp_lease_duration-bounds :
    (value : ℤ)
    → (min_lease_ms ≤ clamp_lease_duration value) × (clamp_lease_duration value ≤ max_lease_ms)
unfolding clamp_lease_duration
clamp_lease_duration-bounds (pos n) = ground arith
clamp_lease_duration-bounds (negsuc n) = ground arith

-- A renewal with a clamped duration never shortens a lease: it lasts at least a minute from now and
-- as long as it did before, and no longer than the later of its old end and a day from now.
-- Renewing again at the same time with the same duration changes nothing.
pub next_node_lease-next_node_lease :
    (existing : Option NodeLeaseRecord) (value : ℤ) (now : ℕ)
    → (now + min_lease_ms
        ≤ (next_node_lease existing (clamp_lease_duration value) now).lease_expires_at)
      × (expires_at existing
          ≤ (next_node_lease existing (clamp_lease_duration value) now).lease_expires_at)
      × ((next_node_lease existing (clamp_lease_duration value) now).lease_expires_at
          ≤ max (expires_at existing) (now + max_lease_ms))
      × (next_node_lease
            (some (next_node_lease existing (clamp_lease_duration value) now))
            (clamp_lease_duration value)
            now
          ≡ next_node_lease existing (clamp_lease_duration value) now)
unfolding next_node_lease
next_node_lease-next_node_lease none value now = ground (arith, clamp_lease_duration-bounds value)
next_node_lease-next_node_lease (some lease) value now =
    ground (arith, clamp_lease_duration-bounds value)
