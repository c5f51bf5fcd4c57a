-- ===== src/Milvus.antt =====
-- core/milvus_sdk_wrapper.go: the calls of the cluster, and what they pass on to the client library.
pub mod Client
pub mod Wrapper
pub mod Laws
pub mod Inserts
