-- ===== src/Lib.antt =====
-- A verification of the core of BackupShield, an incremental backup program in Rust: content is cut
-- into chunks, chunks are gathered in pack files under their SHA-256 hashes, and an index says where
-- each chunk stands.
--
-- The parts and the files that model them:
--   crates/core/src/chunker.rs: Chunker. `Buzhash` and `Chunker` are records of the same name;
--     `new_buzhash`, `init_table`, `reset`, `update`, `new_chunker` and `chunk_data` are the methods.
--     The loop of `chunk_data` is `chunk_loop` over the locals of `ChunkState`; `chunk_step` is its
--     body. A remainder by zero, where Rust panics, is the error `remainder_by_zero`.
--   crates/core/src/pack.rs: Pack, with Pack.Name (file names and their parsing), Pack.Disk (the
--     files of the data directory), Pack.Format (the bytes of a pack), Pack.Writer (`PackWriter`) and
--     Pack.Reader (`PackReader`). `flush` is cut where a call of the file system may fail: `flush`,
--     `flush_body`, `flush_read_back`, `flush_checksum`, `flush_rename`. A value of `Io` says which
--     calls fail and how many bytes a failed write leaves.
--   crates/core/src/pack.rs, `compact_packs`: Compact. The first loop is `gather_packs`, the second
--     `rewrite_packs`, the update of the index `compact_index`, the deletion `delete_packs`; the
--     functions between them are cut where the code returns with an error. `live` is the test of
--     `live_hashes`.
--   crates/core/src/repository.rs: Repository, with Repository.Index (`ChunkIndex`). A repository is
--     its index, its writer, the files of the data directory and the saved index; `store_chunk`,
--     `read_chunk`, `flush_pending`, `save_index`, `load_index`, `open_repository`,
--     `init_repository` and `write_repaired_chunk` are the methods. The writer of a repository is the
--     one of Pack.Writer, and what is read from disk goes through Pack.Reader.
--   crates/core/src/snapshot.rs: Snapshot, with Snapshot.Node (the tree) and Snapshot.Retention
--     (`prune_snapshots`). `Store` is the index of the opened repository and the snapshot files in the
--     order of `list_snapshots`; `delete_snapshots` and `prune_snapshots` are the functions. The dates
--     that chrono computes are the parameter `Calendar`.
--   crates/ecc/src/reed_solomon.rs: Ecc, with Ecc.Field (`Gf256`), Ecc.Matrix (`Matrix`, whose field is
--     always that of `Gf256::new`) and Ecc.Codec (`ReedSolomon`). A loop over a range is `for_range`.
--   crates/ecc/src/repair.rs: Ecc.Parity, over the codec.
--   crates/verify/src/checker.rs: Verify.Report (the types), Verify.Chunks (the checks of packs and
--     chunks), Verify.Files (snapshots and files) and Verify.Checker (`verify` and `verify_snapshot`).
--     `verify` is cut into `quick_verify` and `deep_verify`; a loop is `for_each` over a record of the
--     counters and errors that it changes. The shuffle of a sample is a parameter.
--   crates/verify/src/scrub.rs: Verify.Scrub, over the same reads. The progress behind the mutex goes
--     in and comes out. Verify.Scrub.Repair is `scrub_and_repair`, over Ecc.Parity and the repository's
--     `write_repaired_chunk`; the order in which the groups are visited is a parameter.
--   crates/restore/src/restore.rs: Restore, with Restore.Paths (paths and the filter), Restore.File
--     (`restore_file`, cut where it returns) and Restore.Tree (directories, links and `restore`). The
--     state is the result, the progress and the files and links under the target (Restore.Entries);
--     where a path leads that is opened is a parameter, as are the answers of the file system;
--     `read_chunk` is that of the opened repository. Restore.Tree also has the check of a link's
--     target of crates/core/src/fs_utils.rs.
--   The crates sha2 and hex: the record `Hashes` of Hash, a parameter. Its laws are the lengths and
--     the alphabet of the results; nothing is assumed of collisions.
--
-- Numbers are natural numbers with the wrap-around of u8, u32, u64 and usize written out where the
-- code can reach it, as in a release build. Bytes are lists of numbers. A HashMap is an association
-- list; two loads of one map may list it in different orders (Verify.Scrub.Order). Errors are values;
-- their texts are left out.
--
-- Fuel: the digits of a u64 are at most 20, the powers of two of a usize 64, and the loop of
-- `list_chunks` reads at least one byte in each round, so the length of the file and one round more
-- are enough.
--
-- The listing of the packs fails as a whole (`list_fails`) where the code asks for it with `?`.
--
-- Not modelled: the text of the saved index (serde_json) stands as the index itself, and a saved index
-- that does not parse is left out; the lock is one Boolean; the writes of one flush fail as a whole
-- or not at all, with any prefix left in the temporary file. Building and saving a snapshot, the file
-- of parity groups, storage, encryption and the command line are not modelled. A log line of
-- `prune_snapshots` that panics on a snapshot id shorter than 12 bytes is left out.
pub mod Base
pub mod Hash
pub mod Chunker
pub mod Pack
pub mod Repository
pub mod Compact
pub mod Ecc
pub mod Restore
pub mod Snapshot
pub mod Verify
