-- ===== src/Lib.antt =====
-- Pipebomb: a server that keeps a table of bytes, an address book and mailboxes for its clients, and
-- the client library that talks to it over packets that are compressed, encrypted and checked.
--
-- The parts and the files:
-- - Base: bytes, lists and options over the native numbers; Result with the exceptions that are
--   raised; Dict, a dict as an association list in its insertion order.
-- - Wire (pipebomb/utils.py, and the reading functions of pipebomb/server.py and
--   pipebomb/client.py, which have the same text): Struct is struct.pack, struct.unpack,
--   int.to_bytes and int.from_bytes; Packet has construct_packet, verify_packet and
--   extract_packet_frame; Stream has the receiving loop, read_packet_frame and read_exact over
--   the list of chunks that a socket gives; Errors has err_to_human_readable and ERR_DISPATCH.
--   Framing, Construct, Size, RoundTrip, Verify, Total, Reassembly, Consumption and Messages are
--   the theorems on these.
-- - Wire.Crypto: crc32, zstd and ChaCha20-Poly1305 are parameters, with the laws that the code
--   relies on: decompression undoes compression within its limit, decryption undoes encryption under
--   the same key and nonce, a tag of 16 bytes, a checksum of 32 bits.
-- - Server (pipebomb/server.py): State has the records Client and Server; Monad is the state
--   passing of a handler, with exceptions that keep what was done before them; Fields cuts the
--   fields of a payload; Requests and Exchange have the commands with bit 7 and without it;
--   Session has the dispatch, handle_client, its resuming and its clean-up; Admin has the methods from
--   add_client to apply_state; Mapping has the mapping methods, from __getitem__ to values, with
--   the lock that they take. Addresses, Calm, Registry, Consistency, Cleanup, Endings, Abrupt,
--   Replies, KeyValue and AdminLaws are the theorems on these.
-- - Client (pipebomb/client.py): Primitive is primitive of pipebomb/utils.py and
--   convert_to_length_format; Messages has what each method of Client sends and how it reads the
--   answer; Receive has recv_loop; Sending has send, receive, close and a round of send_loop.
--   Cutting, Agreement, ReceiveLaws, Streaming and Endings are the theorems on these.
-- - Archive (serialize and deserialize of pipebomb/server.py): Write has the fields of the three
--   tables, the inboxes that are drained and the archive that they are joined to; Read has the
--   cutting of an archive and the loading of its fields. Blocks, Layout, Items, Restore,
--   Sessions, Clients, RoundTrip, Checkpoint and Fuel are the theorems, from a packed length up
--   to the archive.
-- - Handshake: Accept is accept_clients of pipebomb/server.py, Connect is connect of RawClient
--   in pipebomb/client.py, from the connected socket on. Keys has X25519 and HKDF as a
--   parameter, whose law is that both ends come to one secret. Script has the messages of a
--   handshake, Serving and Dialling what each end does with them, Agreement both ends together,
--   Admitted who gets in, Quiet and Consistency what a connection does to the tables.
-- - Conversation: a client and its session together. Call is send, a round of the sending loop,
--   the session's handling of the packet, and the client's of the answer; KeyValue has a SET and
--   a GET, Login what comes before them. Mail has the four commands of the mailboxes at the
--   dispatch, Sizes and Apart the lengths and the sessions that a call leaves alone, Post and
--   Fetch the calls, Mailbox a request and its response between two clients, Joining a client
--   that comes in and gets mail.
-- - Gsyncio: the native extension. Search is _find_cffi_ext of pipebomb/gsyncio/__init__.py and
--   the search of _init_gsyncio in pipebomb/utils.py, Loading the rest of both; Bridge has the
--   functions of pipebomb/gsyncio/__init__.py, Go those of pipebomb/gsyncio/gsyncio.go with its
--   goroutines, Events the calls and the steps of goroutines in any order; Once, Alive, Doomed
--   and Pending are the theorems on these. Build is initialize of hatch_build.py, Wheel what it
--   comes to, Installed what is found of a wheel. Paths has paths and the names of the
--   libraries.
-- - Tasks: Cancel is CancelableTask and Run is run_task_async of pipebomb/utils.py, Wrapped how
--   a goroutine's result comes back, Results done, result and exception of CancelableTask, Fate
--   what becomes of a task that is cancelled; Start is __init__ and start, Stop is stop of
--   pipebomb/server.py, and Lifetime goes from the one to the other. Asyncio's tasks are a
--   parameter.
-- - Sockets: Factories is the factories and parse_address of pipebomb/impl.py, Text the theorem
--   on it.
-- - System: the steps of the whole server, in any interleaving.
-- - Tests: a stand-in for the libraries that has their laws, and the theorems at concrete inputs.
--
-- A client and a server interact through bytes alone: the payload that a method of Client builds is
-- what Server.Session.dispatch takes, and the packets that Server.Monad.reply sends are what
-- Client.Receive takes.
--
-- handle_client runs on fuel, one unit for each round of its loop. A round that goes on takes the
-- six bytes of a frame header at least off the bytes pending, so that fuel for more rounds than
-- bytes is enough; recv_loop runs on fuel in the same way. A GET_INBOX at an empty inbox leaves
-- the loop for a while, with what is buffered and unread, and resume goes on from there with the
-- state of that time. The receiving of one frame is recursion on the list of chunks.
--
-- The fields of an archive are read on fuel, as much as the value has bytes, where each item
-- takes four bytes at least. A handshake reads chunk by chunk, as sock_recv returns them:
-- read_packet_frame drops what a chunk has behind the frame, so the theorems on a handshake ask
-- that no chunk goes across two messages, which holds of two ends that wait for each other's
-- answers. They also ask for a client whose nonces are 0, as __init__ and close leave them:
-- connect does not reset them.
--
-- The file system, the platform, the import system, the compilers and the C functions that load a
-- library are parameters of Gsyncio: a record of functions, of which nothing is assumed but what
-- a theorem says. Goroutines are steps of their own, which come in any order; the cells that Go
-- reads of Python's are Booleans, for zero and not zero. What ffi.callback makes is an object of
-- its own, of which the library is given the number.
--
-- Not modelled: the locks inside the sessions' handlers, since each packet is handled as one step
-- (System has the interleaving of such steps); sends that fail; log lines; what getaddrinfo does
-- and the sockets of the operating system; the first round of an event loop that does not run yet
-- when run_task_async is called, which makes the task; what else wakes the loop of a task whose
-- event is set in another thread (Wrapped has it as an argument, whether that loop comes round);
-- the race between a goroutine that reads its flag and a call that moves it; the arguments of the
-- C compiler in hatch_build.py; numbers of tasks from 2 ** 31 on; pipebomb/__init__.py, which
-- only imports.
pub mod Base
pub mod Wire
pub mod Server
pub mod Client
pub mod Archive
pub mod Handshake
pub mod Conversation
pub mod Sockets
pub mod Tasks
pub mod Gsyncio
pub mod System
mod Tests
