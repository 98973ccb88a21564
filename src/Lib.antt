-- ===== src/Lib.antt =====
-- Verification of the file synchronisation, streaming and transfer core of proton-sdk-rs2.
--
-- The program is a Rust workspace: crates/proton-sdk-rs2 (accounts and sessions),
-- crates/proton-drive-sdk (nodes, blocks, transfers, events) and crates/pdcli, which mounts the drive
-- by FUSE, keeps the inode table and a journal of local changes in SQLite (db.rs), and flushes the
-- journal to the server in a loop (fs.rs).
--
-- Prelude: shared names; lists by native numbers, integers, sets of texts, and the SQL clauses WHERE,
-- ORDER BY, LIMIT and MIN on lists of rows (Prelude/Tables, Prelude/Rows).
--
-- Semaphore: crates/proton-drive-sdk/src/utils/semaphore.rs, with its i32 counter. A waiter's
-- Notify is a number. Permits relates the counter to the permits that the callers hold.
--
-- Db/Journal, Db/Inodes, Db/Events: crates/pdcli/src/db.rs. A table is its rows in rowid order with
-- the next AUTOINCREMENT value; a method of FuseDb is a function of the same name on it. The unique
-- index on node_uid is written out. A statement does not fail for reasons outside the table (a full
-- disk, a locked file). Path walks run on fuel: 4096 rounds for path_components, the bound of the
-- source; inode_path has no bound in the source and takes the fuel as an argument.
--
-- Flush: the journal loop of crates/pdcli/src/fs.rs. flush_round is one pass of
-- journal_flush_loop; the work on one entry is the parameter process. Uploads that run side by side
-- are taken in the order in which their results are applied. Flush/Process is the function
-- process_journal_entry, which the loop runs: a step changes the daemon and ends with a value or an
-- error. The ignore rules (is_upload_ignored), the reader of the JSON payload and the SHA-256 of the
-- cache path are parameters. Flush/Process/Drains puts it and the loop together.
--
-- Drive: what process_journal_entry asks of the SDK, the file system and the transfer list, as calls
-- in order, and a record of answers, each of which may depend on all calls so far.
--
-- Fuse: the handlers of crates/pdcli/src/fs.rs that change the tables or the open files (create, mkdir,
-- write, setattr, release, rename, unlink, rmdir), without the bytes of the files, on a mount: the
-- daemon with the open files. Their JSON, the ignore rules, the cache directory and the clock are the
-- record Outside. Fuse/History puts the handlers and the rounds of the loop into one history; each step
-- is taken as a whole, as the lock on the tables makes it for a handler.
--
-- Node: crates/proton-drive-sdk/src/node/mod.rs and node/revision.rs, the UIDs of nodes and revisions
-- as texts, and the paged block listing of create_download_state. The listing runs on fuel, a round
-- for each page; as many rounds as blocks and two are enough.
--
-- Cache: the trait CacheRepository of crates/proton-sdk-rs2/src/cache.rs. Cache/Store is its abstract
-- store, Cache/Memory the in-memory repository, Cache/Sqlite the one of
-- crates/proton-drive-sdk/src/cache/sqlite.rs, at the time of each request. Foreign keys are on in the
-- SQLite that is bundled, so a deleted entry takes its tags along. Rows of equal time are evicted in
-- rowid order, which SQL leaves open. Requests follow one another; SQL errors are left out.
--
-- Ignore: crates/pdcli/src/pdignore.rs, on texts as lists of code points, and is_upload_ignored of
-- fs.rs (Ignore/Scopes). A glob is a parameter that compiles a text to a test of paths. The walk to the
-- folders above a path runs on its length, which each round lowers.
--
-- Upload: RevisionWriter of crates/proton-drive-sdk/src/node/revision.rs with encrypt_block and the
-- verification token of block/upload.rs and block/verify.rs. An event is a round of the producer, a
-- round of the writer's loop, or the answer to an upload under way; a run is any list of events.
-- A block is read, encrypted and sent in one step, when the channel has room; the source reads and
-- encrypts the next block before it waits for room.
-- Upload/Commit is the commit. A stream is the pieces that its reads give.
--
-- Remote: the loop over remote events of fs.rs with remove_inode_tree, and what a listing of a folder
-- does to the tables (Remote/Listing). The SDK's answers are arguments. remove_inode_tree runs on fuel,
-- the depth of its calls; Remote/Removed shows that the depth of the rows is enough.
--
-- Streaming: BlockReader of crates/proton-drive-sdk/src/node/file/download.rs and StreamingFile of
-- fs.rs above it. fetch is the download of a block. One reader is modelled at a time, without the
-- set of fetches in flight. The loop of read runs on the number of bytes asked for, since each
-- round reads one at least. The sizes of a file's blocks add up to less than 2 ^ 64.
--
-- Download: read_all_blocks_parallel and BlockDownloader::download of
-- crates/proton-drive-sdk/src/node/download.rs. choose says which download in flight ends next in
-- each round; a round of fuel for each block is enough, since a block arrives in each.
--
-- Scheduler: crates/proton-drive-sdk/src/event_scheduler.rs, its scopes and commands.
--
-- Batch: crates/proton-drive-sdk/src/utils/batch.rs. load_batch is a parameter.
--
-- Progress: the counters of crates/pdcli/src/transfer_progress.rs.
--
-- Not modelled: OpenPGP, HTTP and the API types, user interfaces, sharing, photos, the other FUSE
-- handlers, thumbnails, and the text of log messages. Numbers are natural
-- numbers except for the semaphore's counter, journal ids from the command line, times, sizes that the
-- upload of an entry casts, and 64-bit offsets, whose width is written out where the source depends on
-- it.
pub mod Batch
pub mod Cache
pub mod Db
pub mod Download
pub mod Drive
pub mod Flush
pub mod Prelude
pub mod Fuse
pub mod Node
pub mod Progress
pub mod Scheduler
pub mod Semaphore
pub mod Streaming
pub mod Ignore
pub mod Upload
pub mod Remote
