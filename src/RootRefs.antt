-- ===== src/RootRefs.antt =====
-- packages/service/src/root-refs.ts: the application of a Root Ref update through a
-- repository, and the retry loop; packages/service-cloudflare/src/root-refs.ts: the
-- repository over the Space tables.
pub mod Types
pub mod Apply
pub mod Adapter
pub mod Retry
