-- ===== src/Lib.antt =====
-- A verification library for grpc-web-server, a gRPC-Web proxy and web server in Rust with a C
-- interface.
--
-- The program has these parts. A set of options is validated and turned into a server
-- (server/server.rs): a router with the gRPC-Web proxy at /api, static files, CORS and tracing,
-- and a loop that serves HTTP or HTTPS until a shutdown signal. The proxy (server/proxy.rs)
-- rewrites the URI of each request and hands it to an HTTP/2 client. A handle (server/handle.rs)
-- runs a server in a background thread: start spawns it, stop sends on a channel, wait joins it,
-- and a flag says whether it runs. The C interface (server/ffi.rs, utils.rs) reads options from C
-- memory and keeps handles behind pointers. Certificate authorities and leaf certificates are made
-- and written as PEM files (tls/ca.rs, tls/leaf.rs). Two programs use the library: the server as a
-- command and a generator of certificates (bin/). The build script writes the C headers of the
-- library.
--
-- The files, with the code that they model (paths below src/):
-- - External: the crates that the server calls, as a record of types and operations; what a
--   theorem needs of them is a hypothesis of that theorem.
-- - Paths: std::path on bytes.
-- - Config, Config/Validation: CorsPolicy, GrpcWebServerOptions and validate of server/server.rs.
-- - Proxy, Proxy/Build, Proxy/Forward: server/proxy.rs.
-- - Server, Server/Assembly, Server/Transport: GrpcWebServer::new, the add_ functions and start of
--   server/server.rs.
-- - Handle: the record of the handle and the critical sections of server/handle.rs, with the same
--   names; wait and shutdown_and_join are two functions each, before and after the join.
--   Handle/Threads: the closure given to thread::spawn, one step at a time. Handle/System: callers
--   and threads in any order. Handle/Exclusive: a discipline for the callers, and what the handle
--   promises them. Handle/Races, Handle/Calls: what happens otherwise. Handle/Service: an abstract
--   service that is off, on or stopping. Handle/Shutdown, Handle/Waiting: a thread that was told
--   to stop, and the wait for it. Handle/Served: which options a thread serves.
-- - Utils, Utils/Utf8, Utils/Reads, Utils/Bounds: utils.rs on a memory of bytes, with the UTF-8
--   test of the standard library. Utils/Characters: the characters that UTF-8 encodes, by its
--   definition.
-- - Ffi, Ffi/Values, Ffi/Conversion: the C options of server/ffi.rs and their conversion.
--   Ffi/Exports: the exported functions, on a process that holds the handles by address.
--   Ffi/Changes, Ffi/Ownership: what they do to the process.
-- - Tls, Tls/Names, Tls/Files, Tls/Prefixes, Tls/Certificates: tls/ca.rs and tls/leaf.rs, over
--   rcgen as a record of operations and a disk on which writes may fail and several paths may lead
--   to one file. Tls/Exports: the exported functions of tls/ffi.rs, on a process that holds the
--   authorities and the leaves by address. Tls/Pointers, Tls/Ownership, Tls/Answers: what these
--   functions do to the process and return.
-- - Command, Command/Options: bin/grpc-web-server.rs on arguments that are already parsed.
-- - Generator, Generator/Output: bin/gen-certs.rs.
-- - Headers, Headers/Output: the build script build.rs (at the root of the repository), over
--   cbindgen as a record of operations and a file system of files and directories.
-- - Tests: concrete runs.
--
-- How the code is read. A Rust string is its bytes. A call that may fail ends in an Outcome: Ok,
-- Err with the message, a panic, or undefined behaviour. An exported function returns its answer
-- and the process after it, or nothing where C broke its contract: after that nothing is known of
-- the process. A critical section is one step, because the mutex excludes the others and each
-- section reads the atomic flag at most once; the server thread's own steps may fall between any
-- two of them. A thread and its stop channel have one number. Dropping an unused sender closes its
-- channel, on which the await in the thread ends as on a message. No loop needs fuel: recursion is
-- on lists, and the closure of a thread is a chain of phases.
--
-- Not modelled: the module declarations (lib.rs and the mod.rs files), which have no behaviour,
-- log output and tracing spans, the contents of TLS and HTTP messages, and the scheduling of the
-- async runtime.
pub mod Base
pub mod Paths
pub mod Utils
pub mod External
pub mod Config
pub mod Proxy
pub mod Server
pub mod Handle
pub mod Ffi
pub mod Tls
pub mod Command
pub mod Generator
pub mod Headers
mod Tests
