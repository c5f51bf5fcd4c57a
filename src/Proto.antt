-- ===== src/Proto.antt =====
-- The messages of core/proto/backuppb/backup.pb.go, as far as the program reads or writes them.
-- A nil message reads as the zero value of its fields, as the getters of the Go code do; a field
-- that holds a message which may be nil and is tested for it is an `Option`.
mod Enums
mod Backup
mod Restore
mod Requests
pub use Enums.*
pub use Backup.*
pub use Restore.*
pub use Requests.*
