-- ===== src/Context.antt =====
-- core/backup_context.go: the state of the tool and its calls on finished backups and restores.
pub mod State
pub mod Get
pub mod List
pub mod Delete
pub mod Restores
