-- ===== src/Proto/Enums.antt =====
-- The enumerations of backup.pb.go.
pub data ResponseCode : Type 0 where
  success not_support no_permission fail parameter_error request_object_not_found : ResponseCode

pub data BackupTaskStateCode : Type 0 where
  backup_initial backup_executing backup_success backup_fail backup_timeout : BackupTaskStateCode

pub data RestoreTaskStateCode : Type 0 where
  initial executing succeeded failed timeout : RestoreTaskStateCode
