-- ===== src/Retry.antt =====
-- internal/util/retry: calls that are repeated with growing pauses.
pub mod Config
pub mod Do
pub mod Outcome
