-- ===== src/Lib.antt =====
-- NeuralFS: a content-addressed, copy-on-write filesystem with a daemon around it.
--
-- The volume is in crates/neuralfs-fs. A file is cut into blocks; a block lives in one append-only
-- log, and an index from its BLAKE3 digest to its place in the log makes equal blocks be stored
-- once. Inodes are written once and never changed: each change to the tree writes new directories
-- from the changed one up to a new root, and a commit then moves the root pointer. A snapshot is a
-- copy of that pointer. A collection walks from the live root and the snapshots, and copies the
-- blocks that were reached to a new log. Blocks that were read or written stay in a RAM cache of
-- two segments.
--
-- Files and what they model:
--   Cache (Segments, Enforce, Bounds, Lookup)   crates/neuralfs-fs/src/cache.rs, all of `RamCache`:
--     `get`, `insert`, `invalidate`, the caps of the protected segment and of the whole
--   BlockStore (Codec, LogFile, Compact)        crates/neuralfs-fs/src/blockstore.rs: `put`, `get`,
--     `scrub`, `compact` and the statistics; the bytes of the log and of the index values
--   BlockStore (Contents, Reads, Writes, Image, Entries, Collect)   the proofs on it: what the
--     store answers as a partial map from digests to bytes, and each call against that map
--   Inode                                       crates/neuralfs-fs/src/inode.rs
--   Filesystem, with Files, Snapshots, Collection   crates/neuralfs-fs/src/fs.rs: `resolve`,
--     `rebuild`, `commit`; the calls on files and directories; snapshots; the walk and `gc`
--   Filesystem (Nodes, Paths, Links, Rebuild, History, Calls, Renames, SelfRename)   the proofs on it:
--     the inodes on disk, what a path leads to on them, and each call against that
--   PathCache (Sizes, Bounds, Lookup)           crates/neuralfs-daemon/src/pathcache.rs, all of
--     `PathTtlCache`: `get`, `insert` with its evictions, `sweep`
--   FileEntry, Index                            crates/neuralfs-daemon/src/store.rs: the index of the
--     real files by the hash of their path, and its two trees of links, by directory and by name
--   Index (Links, Sound, Calls, Lookup, Hits)   the proofs on it: a tree of links mirrors the index,
--     through each call; what the listings give
--   Config (RoundTrip, Kept)                    crates/neuralfs-daemon/src/config.rs: `get`, `set`, and
--     the file with `load_or_create` and `save`
--   Indexer, Watcher (Training)                 crates/neuralfs-daemon/src/indexer.rs and watcher.rs:
--     the walk and the events that fill the index, and the counter that asks for a training
--   Classifier (Reservoir, Train)               crates/neuralfs-daemon/src/classifier.rs: tokens,
--     vectors, `predict_top3`, `online_update`; the sampling and `train`
--   Search, with Found                          crates/neuralfs-daemon/src/search.rs and scorer.rs:
--     `find`, by exact name, in the guessed directories and their parents, and in the whole index
--   Protocol                                    crates/neuralfs-daemon/src/protocol.rs
--   Daemon (State, Volume, Bench, Report, Connection)   crates/neuralfs-daemon/src/state.rs and
--     ipc.rs: the state of the daemon, `handle_request` with every request and its response, and the
--     lines of a client
--   Daemon (Entry, Loops)                       crates/neuralfs-daemon/src/lib.rs: what the arguments
--     make the program do, the model that is loaded at the start, and a round of each loop
--   Daemon (Errors, Finds, Writes, Steady, Kept, Models, Gate)   the proofs on them; Gate has the
--     requests that are at work at the same time, as a step relation, over the lock as an interface
--   Mount (Backing, Names, Files)               crates/neuralfs-daemon/src/mountfs.rs: the mount over
--     a real directory. Backing is the real files as an interface, Names the calls on names and
--     attributes, Files those on bytes, with the files that are kept in RAM
--   Mount (Tables, Coherent, Steps, Reached, Lost)   the proofs on it: the two tables are inverse,
--     the copies in RAM are the files of the disk, through each call; what a read answers
--   WinFs (Calls, Names)                        crates/neuralfs-daemon/src/winfsphost.rs: the file
--     system in memory behind a Windows drive: `create`, `cleanup`; the calls on the bytes and the
--     times; `rename`, `read_directory` and the volume
--   WinFs (Tree, Within, Parents, Moves, Renamed, Reached, Contents)   the proofs on it: the names
--     form a tree, a rename moves all that is below a name, and what a write leaves in a file
--   Cli, with Wire and Stored                   crates/neuralfs-cli/src/main.rs and client.rs: the
--     commands of `nfs`, their requests and what they print; the requests on the wire
--   Host                                        what the daemon takes from the machine and from other
--     crates: the Unicode tables, paths, the real files, floats, matrices, base64
--   HashLink, Sled, Blake3, Platform            the crates that these stand on, as interfaces: the
--     linked hash map, the ordered key-value store with its batches, the digest, the LRU cache of
--     inodes, bincode and the clock. Lists fill the first two; only `CollisionFree` is assumed of
--     a digest, and only where it is named.
--
-- A method on `&mut self` is a function from the state to its result and the new state. A failing
-- call gives an error and the state it leaves. Integers are natural numbers; where the source
-- packs one into 32 or 64 bits the bytes are written out, and a theorem that needs the number to
-- fit says so. Loops of the form `while` are iterated at most as often as the map has entries,
-- which is enough, since every round removes one. The walks of the collection recur on a number
-- above that of every inode: a directory is younger than what it holds.
--
-- A request of the daemon runs alone in the model, but for Gate, and so does a call of a mount. Its
-- clock reading, the times that a benchmark measures and the real files are given to the call. A
-- text is its bytes.
--
-- Not modelled: locks other than the gate of the collection, failures of the disk other than a log
-- that ends too soon, the start of the mounts, sockets, the text of JSON and toml, the runtime and its
-- tasks, logging, installation and the client's parser of its arguments.
-- Floats are an interface; its one law is that the text of a float reads back, and it leaves out the
-- NaNs, whose text has neither sign nor fraction. The operations on matrices have no law.
-- A `HashMap` is a list in the order in which its entries came.
pub mod Prelude
pub mod HashLink
pub mod Sled
pub mod Blake3
pub mod Cache
pub mod BlockStore
pub mod Inode
pub mod Platform
pub mod Filesystem
pub mod PathCache
pub mod FileEntry
pub mod Host
pub mod Index
pub mod Config
pub mod Indexer
pub mod Classifier
pub mod Cli
pub mod Search
pub mod Protocol
pub mod Daemon
pub mod Watcher
pub mod WinFs
pub mod Mount
