-- ===== src/Lib.antt =====
-- ferrous-framework: a runtime that starts shells (processes, pipes, pseudoterminals), writes their
-- output to logs, keeps a record of each shell on disk, and serves windows of the logs to its clients.
--
-- The parts and the files that model them; every path is from the root of the repository.
--
--   src/log_window.rs      A `LineIndex` has, in a file of 64-bit words, where the records of a log end.
--                          LogIndex.Defs and LogIndex.Ops have its state and `refresh`, `validate_snapshot`,
--                          `offset` and `read`; LogWindow.Ops has `raw` and `window`, which refresh the index
--                          and read through it; IndexCache.Defs has the cache that owns the indexes, and
--                          LogCodecs.Defs the check of the codecs in a shell's record.
--   src/log_projection.rs  LogProjection.Defs has the data and `window_start`, LogProjection.Project
--                          `project_record` and `candidates`, LogProjection.Pointer their JSON pointers.
--                          `window` projects every record that it reads.
--   src/native_runtime.rs  Shell.Record has the record types, Shell.Persist `persist_record` and
--                          `load_persisted_record`, Shell.Names what they derive from labels; Output.Defs
--                          has the subscriptions to the output of the shells; ProcessTree.Defs
--                          plans which processes a shutdown ends, Shutdown.Defs ends them, with the
--                          counts of src/shutdown.rs, and Shutdown.Callers chooses its roots; History.Defs limits how many exited shells are
--                          listed. Manager.Defs has the state of the manager of the shells, Manager.Spawn,
--                          Manager.Access and Manager.Terminate its operations, and Manager.Reactor the
--                          round in which the reactor thread reaps the children;
--                          Manager.Apply starts what src/shellspec.rs renders.
--   src/shutdown.rs        Shutdown.Parse has the parsing of a result.
--   src/shellspec.rs       ShellSpec.Template has the rendering of templates, ShellSpec.Entry the parsing
--                          of the specifications in a rendered document; their log codecs are
--                          checked by `validate_log_codecs`.
--   src/msgpack_observation.rs
--                          MsgPack.Normalize has the conversion of a value to JSON, MsgPack.Frame the
--                          decoding of one frame.
--
-- Json has the values of serde_json, Bytes the encoding of words and hexadecimal text, Base what the
-- parts share. The other files have the proofs, named for what they prove; Examples applies each theorem
-- to concrete data.
--
-- How the state corresponds: a method on `&mut self` that returns a `Result` is an `Action`, which
-- returns the state beside the error, so what was written before an error stays written. The file system
-- is a `World`: what the log, its reset marker and the index file are at each tick; each access, but for the loop
-- of `refresh_inner`, has its own tick, so another process may change the log between any two of them. A file's `seek` and `read_exact`
-- are `drop` and `take` on its bytes; the index file is a list of bytes in `LineIndex`. The loop of `refresh_inner` is
-- one access: it reads through the handle that it has opened, so its reads, and the length, share a tick; another
-- process may append to the log meanwhile, since no read goes beyond that length.
--
-- A path is its text. Between a record and its `meta.json` it passes through `path_to_string`, which may change it.
-- The cache compares the texts of absolute paths, where the source compares their components, so two
-- spellings of one path, as with a slash at the end, are two entries of the model. The disk of the manager has the
-- records that can be read: a `meta.json` that is there and cannot be parsed, for which `get_shell` fails, is not
-- modelled. `find_free_port` has one answer in a rendering, as the source asks for a port once and keeps it.
--
-- Bounds: a u64 or usize is a natural number, with the wrap-around or the saturation of the source
-- written out where there is one. The loop of `refresh_inner` has as many rounds as the file has bytes,
-- and the loop over MessagePack frames as many as the buffer has; each round takes a byte at least.
-- The loop over a template has as many rounds as the text has characters, and one more.
-- The loops over a snapshot of the processes have as many rounds as it has processes, or one more.
--
-- Parameters: `decode_frame`, serde_json and the lossy decoding of UTF-8 (`Serde`), the length of a
-- serialized window (`Projector`), the path resolution of the cache, the clock, process table and the reading and
-- writing of the paths of a record (`Host`), the bounded channels of the output, and the answers of the operating system to a
-- shutdown (`Os`). The manager takes from elsewhere the clock and whether a record can be written
-- (`Io`), the process and its streams (`SpawnIo`), the readiness of a shell (`Launch`) and the answers
-- to signals (`KillIo`); its locks are held by one operation at a time. A rendering takes a free port
-- (`Render`), the parsing of a specification `shlex` and the reading of numbers (`Libraries`), and the
-- decoding of a frame rmpv and rmp-serde (`Reader`).
--
-- Not modelled: the HTTP and Socket.IO host (src/native_host.rs), the peer connection
-- (src/native_peer.rs, src/peer_protocol.rs), and, of src/native_runtime.rs, the reading of output
-- streams and the creation of processes and log files, which are calls of the operating system.
pub mod Base
pub mod Bytes
pub mod Examples
pub mod History
pub mod IndexCache
pub mod Json
pub mod LogCodecs
pub mod LogIndex
pub mod LogProjection
pub mod LogWindow
pub mod Manager
pub mod MsgPack
pub mod Output
pub mod ProcessTree
pub mod Shell
pub mod ShellSpec
pub mod Shutdown
