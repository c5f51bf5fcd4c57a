-- ===== src/Meta.antt =====
-- core/backup_meta.go: the metadata of a backup as a tree and as four levels, where the files of
-- a backup lie, and the short forms of responses.
pub mod Levels
pub mod RoundTrip
pub mod Files
pub mod Stored
pub mod Paths
pub mod Responses
pub mod Progress
