-- ===== src/Ffi.antt =====
-- ffi/src: the interface to the host.
pub mod HandleTable
