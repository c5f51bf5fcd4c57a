-- ===== src/Restore.antt =====
-- core/backup_impl_restore_backup.go: the restore of a partition.
pub mod Watch
pub mod Groups
pub mod Partition
pub mod Select
pub mod Renames
pub mod Tasks
pub mod Run
pub mod Insert
pub mod Index
pub mod Collection
pub mod Execute
pub mod Returns
pub mod Start
