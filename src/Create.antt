-- ===== src/Create.antt =====
-- core/backup_impl_create_backup.go: making a backup.
pub mod Write
pub mod Paths
pub mod Collections
pub mod Start
pub mod Segments
pub mod Prepare
pub mod Fill
pub mod Copy
pub mod Execute
