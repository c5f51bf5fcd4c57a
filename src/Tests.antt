-- ===== src/Tests.antt =====
-- The theorems at concrete inputs.
mod Store
mod Sample
mod Cluster
mod Metadata
mod Creating
mod Described
mod Executed
mod Serving
mod Helpers
mod Jobs
mod Restoring
mod Restored
mod Objects
mod Keys
