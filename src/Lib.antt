-- ===== src/Lib.antt =====
-- milvus-backup: how a backup of a Milvus cluster is made, kept, found, restored and deleted.
--
-- The tool keeps a backup as a directory in object storage: the log files of the segments, copied,
-- and five JSON files of metadata. A BackupContext serves the calls. It holds a storage client and
-- three tables, of the backups by id, of the ids by name, and of the restores. CreateBackup registers
-- a backup, asks the cluster for collections, partitions and segments, copies log files by jobs of a
-- worker pool, and writes the metadata; GetBackup, ListBackups, DeleteBackup and GetRestore read the
-- tables and the storage; RestoreBackup selects and renames collections of a backup, creates them in
-- the cluster, and hands the directories of log files to bulk inserts, which it watches.
--
-- What models what (paths from the repository's root):
--   Base        lists, texts as lists of bytes, maps as association lists, int64 as numbers below
--               2 ^ 64 with the wrap-around written out, decimal printing, results with errors
--   Proto       core/proto/backuppb/backup.pb.go: messages as records
--   Meta        core/backup_meta.go: Levels (treeToLevel, levelToTree), Files (serialize,
--               deserialize), Paths, Responses (Simple...Response), Progress
--               (UpdateRestoreBackupTask)
--   Utils       core/utils: Validate, Space (strings.TrimSpace), Timestamp, KeyValue, Requests
--   Retry       internal/util/retry: Config (options.go), Do (retry.go), Outcome
--   WorkerPool  internal/common/workerpool.go: Pool (state and steps), Invariant, Wait (WaitJobs)
--   Storage     core/storage/types.go: the interface ChunkManager, and what its clients rely on; Minio
--               (core/storage/minio_chunk_manager.go)
--   Milvus      core/milvus_sdk_wrapper.go: Client (the client library, a parameter), Wrapper, and what
--               is relied on in the library (Laws, Inserts)
--   Kv          internal/kv/mem/mem_kv.go: Mem
--   Context     core/backup_context.go: State, Get, List, Delete, Restores
--   Create      core/backup_impl_create_backup.go: Collections (parseBackupCollections), Prepare and
--               Segments (backupCollectionPrepare: what the cluster answers; which segments), Fill
--               (fillSegmentBackupInfo), Paths and Copy (copySegments), Execute
--               (backupCollectionExecute), Start (CreateBackup, executeCreateBackup), Write (the
--               metadata files)
--   Restore     core/backup_impl_restore_backup.go: Select and Renames (which collections, under which
--               names), Tasks and Start (RestoreBackup), Execute (executeRestoreBackupTask),
--               Collection and Index (executeRestoreCollectionTask), Insert (restorePartition,
--               executeBulkInsert), Watch (watchBulkInsertState), Groups and Partition (groups of
--               segments and their directories), Returns (termination), Run (calls on the cluster,
--               the storage and the task, which may fail or not return)
--   Tests       a storage in memory, a sample backup, and the theorems at concrete inputs
--
-- A call takes the context and returns it with the answer. The clock, fresh UUIDs, the JSON
-- coders, strconv.ParseInt, the cluster and the storage are parameters. Calls that change the
-- storage return their error and the storage. A panic is the answer `none`. Maps are ranged over
-- in the order of the list that stands for them. The worker pool is a step relation of all its
-- goroutines, without the limits on their number and pace, and a WaitJobs is a sequence of reads
-- between such steps.
--
-- Bounds: a decimal number is printed with at most 20 digits, which every number below 2 ^ 64 has;
-- trimming recurses on a copy of the text. The rounds of retry.Do are as many as the attempts. The
-- watch of a bulk insert recurses on the list of polls, and goes on where the list ends; a restore
-- then does not return.
--
-- WorkerPool has any number of workers. Where the jobs themselves are modelled (Create.Prepare,
-- Create.Copy, Restore.Collection, Restore.Execute), a pool has one worker, or for the restores none:
-- it runs the jobs one after the other, and an error cancels its context before the next job may
-- start, so that the limiter refuses the jobs behind. The pool of the partitions is shared by all
-- restores of a context and stays cancelled, which the context records; the jobs of a copy and of
-- the preparations start on a pool on which none has failed. What several workers add, such as
-- additions to the same task side by side, is not modelled, and is in the findings.
--
-- executeCreateBackup takes what its jobs give (the collections prepared, and what copying leaves in
-- the storage) as a parameter, for every outcome of theirs. Prepare and Execute give the jobs of
-- backupCollectionPrepare and of backupCollectionExecute; executeCreateBackup does not refer to them.
-- In Execute, the segments are filled from one state of the storage, and the copies run behind the
-- loop that submits them. Check is not modelled.
-- Not modelled either: the making of the storage clients, the storage on Azure, GCP, Aliyun and the
-- local disk, the configuration (core/paramtable), the commands and the server, which pass requests
-- on, logging, and generated code.
pub mod Base
pub mod Proto
pub mod Meta
pub mod Utils
pub mod Retry
pub mod WorkerPool
pub mod Storage
pub mod Milvus
pub mod Kv
pub mod Context
pub mod Create
pub mod Restore
pub mod Tests
