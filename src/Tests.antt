-- ===== src/Tests.antt =====
-- Runs of the code at concrete inputs.
mod Codec
mod RootRefs
mod NodeRead
mod Gc
mod Leases
mod Uploads
mod Leased
mod AppGc
