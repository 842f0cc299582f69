-- ===== src/Lib.antt =====
-- Verification of the C code of the skynet server: the part that handles bytes from the network.
--
-- Package, after server/lualib-src/service_package.c. The package service owns one connection.
-- Bytes from the socket arrive in messages of any length; `new_message` cuts them into packages, a
-- header of two bytes and a body; `command` takes requests for a package; `response` pairs the
-- oldest request with the oldest package. Package/Queue.antt is `struct queue`, a ring that
-- doubles; Package/Types.antt the other structures; Package/Receive.antt `new_message`;
-- Package/Answers.antt `response` and `service_exit`; Package/Handlers.antt the other handlers,
-- `message_handler` and the life of a package. A handler is a function from the state to a `Run`:
-- the new state and the calls of the framework in their order, or a fault (a failed assertion, a
-- read of what is not there), or the end of the fuel. Package/Decoder.antt and Package/Spec.antt
-- are the specification, without buffers, rings and loops; Package/Flow.antt is about sequences of
-- messages.
--
-- Netpack, after server/lualib-src/lua-websocketnetpack.c. The splitter of the web socket gate: the
-- bytes of many connections come in pieces; `lfilter` and `filter_data` cut them into frames and
-- remove the masks, a frame that is not complete waits in a hash table under its connection, and
-- the frames of a piece beyond the first wait in a ring for `lpop`. Netpack/Types.antt has the
-- structures, Netpack/Queue.antt the ring (`get_queue`, `push_data`, `expand_queue`, `lpop`,
-- `lclear`), Netpack/Hash.antt the table, Netpack/Frame.antt `read_size`, `lpack` and
-- `decode_wsmask_data`, Netpack/Handshake.antt the search for the end of the HTTP header,
-- Netpack/Push.antt `push_more` and the parts it shares with `filter_data_`, and
-- Netpack/Filter.antt `filter_data_` and `lfilter`. Frame.Wire is the layout of RFC 6455,
-- Netpack/Stream.antt the stream as a sequence of frames, and Netpack/Stream/Reader.antt a reader
-- that keeps only bytes, the specifications. `read_size` returns a record; where the C passes the
-- mask and `ismask` through pointers there is an `Option`. The host stores the low byte of a number
-- first. The descriptor of a connection is not negative. The state is `none` where Lua passes nil.
-- A size that is negative where `malloc` or `memcpy` gets it, and an index past `header`, are
-- faults.
--
-- Client, after server/lualib-src/lua-clientwebsocket.c, the client for tests. The operating system
-- is a script of what `send`, `select` and `recv` return (Client/Socket.antt); Client/Send.antt is
-- `common_block_send` and `websocket_block_send`, Client/Connect.antt `lconnect`,
-- Client/Receive.antt `block_read`, `lrecv` and the answer to the handshake, Client/Stdin.antt the
-- queue of lines of the standard input, each of whose operations is one step under its lock.
--
-- Exchange puts both ends of a connection together: what the client sends and the splitter reads,
-- what `lpack` makes and the client receives, and the opening handshake.
--
-- TableHash, after server/lualib-src/lua-hash.c: the hash of nested Lua tables, on values as trees
-- with the entries of a table in the order in which they are visited.
--
-- BusiLogger, after server/lualib-src/service_busilogger.c: the log of the game in one file a day.
-- BusiLogger.antt has the state and the operations, each with its calls of the system in their
-- order; a message brings what the system answers (the clock, the directory, whether `fopen`
-- succeeds). BusiLogger/Init.antt is `busilogger_init` with `sscanf` as the words of a text;
-- Written, Run, Rotate and Life are about what is written where, Files about a file that cannot be
-- opened, Tracks and Leak about the files that are open.
--
-- Srp, after server/lualib-src/lua-srp.c: the key exchange over numbers; the routines of OpenSSL
-- are the parameter `Openssl`, and Srp/Laws.antt has what RFC 5054 says of them.
--
-- Aes, after server/lualib-src/lua-aes.c: the buffers and results of encryption; the routines of
-- OpenSSL are the parameter `Evp`, and Aes/Laws.antt has what their documentation says.
--
-- Syslog, after server/service-src/service_syslog.c, and Uuid, after server/lualib-src/lua-uuid.c.
--
-- Conventions. `int` is ℤ where it can be negative and ℕ elsewhere: counters and capacities are
-- taken not to overflow. A buffer is a list of bytes; what `malloc` returns holds arbitrary
-- contents, the record `Junk`. Fuel: `receive_loop` gets a round more than there are bytes, since
-- each round but the last takes one; `response_loop`, `exit_loop` and `release_loop` get a round
-- more than there are elements in the queue that they empty; `push_loop` gets one more than there
-- are bytes, since each call but the last takes at least two; `lrecv` gets one more than there are
-- bytes in the script, since each round but the last takes two.
--
-- Not modelled: the framework (skynet.h is not part of the repository; its calls are listed as
-- effects), in the package service `sscanf` (its results are arguments), and the parts of the
-- repository that only bind libraries, that are copies of other projects (the skip list, the web
-- client, lua-cjson, LuaFileSystem, LuaPbIntf) or that are written in Lua.
pub mod Common
pub mod Package
pub mod Netpack
pub mod Client
pub mod Exchange
pub mod TableHash
pub mod BusiLogger
pub mod Syslog
pub mod Uuid
pub mod Srp
pub mod Aes
