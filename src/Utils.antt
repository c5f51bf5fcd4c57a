-- ===== src/Utils.antt =====
-- core/utils: names, timestamps, key-value lists, request fields, versions.
pub mod Space
pub mod Validate
pub mod Timestamp
pub mod KeyValue
pub mod Requests
