-- ===== src/Lib.antt =====
-- The storage core of Ketebe, a vector database: the values it stores, the filters of its searches,
-- the files it keeps them in, the merging and searching of segments, and the admission of background
-- work. Paths below are from the repository's root.
--
-- The parts and their modules
-- Base holds shared types, list lemmas, results, orders and Rust's BTreeMap as a sorted list.
-- Core is crates/ketebe-core/src: Core.Values has identifiers.rs, vector.rs, metadata.rs, record.rs
-- and error.rs, Core.Utf8 is the test of String::from_utf8, Core.RecordOrder the derived order of
-- RecordId. A text is the list of its UTF-8 bytes, a float the number that its bits spell.
-- Predicate is crates/ketebe-core/src/predicate.rs: Compare has comparable_order, value_kind and the
-- derived equality, Evaluate has FieldPath and Predicate::evaluate.
-- Codec is what crates/ketebe-storage/src/wal.rs and segment.rs both have: words, crc32, the write_
-- functions (Write) and Cursor with its read_ functions (Cursor, Read), over a record of the errors of
-- the format. Envelope is the header of segment and checkpoint files.
-- Wal is wal.rs: Frame has encode_payload and encode_frame, Payload decode_payload, Log decode_log,
-- replay_path, Wal::open_with_policy, append and append_batch.
-- Segment is segment.rs: Build has Segment::from_mutations, Encode and Format encode_segment and
-- decode_segment, Codec the functions of the codec with the errors of segments.
-- Store is SegmentStore of segment.rs (Segments) over LocalFilesystemBackend of
-- crates/ketebe-storage/src/storage_backend.rs (Directory), with its listing and
-- garbage_collect_segment_store of compaction.rs, under the name garbage_collect (Collect).
-- Checkpoint is checkpoint.rs: File has Checkpoint::new and decode_checkpoint, Encode
-- encode_checkpoint.
-- Visibility is fold_visible_records of search.rs, Compaction is compact_segments of compaction.rs.
-- Search is the rest of search.rs with query_control.rs, filter.rs and cost_planner.rs of
-- crates/ketebe-storage/src: Control has QueryControl, Score the scores and the order of hits, Sort and
-- TopK slice::sort_by and the list of the best hits, Exact exact_search_segments_after_with_control
-- under the name exact_search, Filtered the searches of filter.rs, Plan plan_query, Count
-- visible_record_count, Execute execute_query_with_config_and_control under the name execute_query, and
-- Index the interface to HnswIndex.
-- Jobs is crates/ketebe-server/src/jobs.rs: Records has the job records and the closures that update
-- them, Store has JobStore, Steps the tasks of submit_embedding_migration_catch_up and
-- submit_backup_operation, fail_job and JobService::cancel as a step relation on one job.
-- Scheduler is crates/ketebe-server/src/resource_scheduler.rs: Budget, the interface to a semaphore
-- (Semaphore), and ResourceScheduler::new, try_acquire and the drop of a permit (Admission).
--
-- How the parts interact
-- A mutation is appended to the log, segments are built from mutations, a search folds the segments of
-- a collection, and a compaction puts one segment in place of several. A search ranks the records that
-- the fold leaves; the planner counts them and chooses between this search and an index. A checkpoint names the
-- segments that a collection consists of.
--
-- State and effects
-- A log's file is the list of its bytes and is threaded through the operations. What a write does is an
-- argument, WriteOutcome: all bytes are stored, some of them, or all with a failing flush or sync. The
-- loops over bytes run on fuel: decode_log on the length of the file, since a frame has 24 bytes at
-- least, and the metadata readers on the bytes left, since a nested value has one byte at least. usize
-- is 64 bits wide. An addition is checked or wraps where the source says so; the sum of payload lengths
-- in an allocation stays below the address space. A semaphore of tokio is a parameter with the laws of
-- Scheduler.Semaphore; the code closes none, so an attempt fails for lack of permits only. Dropped
-- permits go back at once, and the model counts with unbounded numbers.
--
-- The arithmetic of f32 is a parameter of every search, so that what is shown holds for any
-- rounding; f32::total_cmp is modelled on the bits. The flag and the clock that a control reads are a
-- function from the number of a check to what it sees; the numbers rise in the order of the checks, and
-- some may be left out. The three phases of an execution of the planner have such a function each. A
-- call of expect that fails is an execution that panicked. HnswIndex is an interface, whose search may
-- fail and may panic, as the calls of expect in hnsw.rs may. The files of the job store are the map from
-- the number in a file's name to its record; the calls of the file system and of JSON in jobs.rs are
-- taken to succeed. A step of a job is one access to the store or the flag under its lock, with the
-- counters that follow it. The directory of a
-- segment store is two maps, of the segment files and of the temporary files that become them, from the
-- numbers in their names to their bytes. Which call of the file system fails in an operation is an
-- argument, Fault, and whether an existence check fails another, Check, since Path::exists then answers
-- that nothing is there. A rename is done as a whole or not at all.
--
-- Not modelled
-- Display texts and paths; files of other names in the directory of a segment store;
-- SegmentStore::discover; CheckpointStore, which is calls of the file system; the waiting acquire and
-- the snapshot of the scheduler; the HNSW graph and its search (hnsw.rs), of which the planner's part
-- sees only the interface; lexical and hybrid search; the control plane, access control, encryption,
-- transports and clients.
pub mod Base
pub mod Core
pub mod Predicate
pub mod Codec
pub mod Wal
pub mod Segment
pub mod Checkpoint
pub mod Visibility
pub mod Compaction
pub mod Search
pub mod Store
pub mod Scheduler
pub mod Jobs
pub mod Tests
