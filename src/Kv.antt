-- ===== src/Kv.antt =====
-- internal/kv: the key-value store in memory.
pub mod Mem
