-- ===== src/Lib.antt =====
-- A file server and its client: over one connection a request line (GET, PUT, DELETE or LIST), then the
-- sizes and the bytes of files. The server runs one event loop over non-blocking sockets; each connection
-- is a state machine whose handlers run when its socket can be read or written. It keeps the files in a
-- temporary directory, their names in a vector, and the connections in a dictionary by descriptor.
--
-- The files of this library and the code that they model:
--   Base          lists, bytes, C strings and tests on the native numbers
--   Os            what `read`, `write` and the calls on files may do; a parameter of the rest. A socket has
--                 a list of what the next reads meet and a list of what the next writes meet; the record
--                 FileSystem has the calls on files over an arbitrary state of the disk, and Kernel those
--                 that open sockets and directories, with what they do to the open descriptors
--   Common        src/common.c and include/fss/common.h
--   Collections   src/collections.c: Vector and Dictionary; Laws in each relate them to lists
--   Memory        the blocks that src/collections.c and src/server.c allocate and free, on a heap that may
--                 run out: Collections (the two structures), Server (the connections, their lists, the
--                 names and cleanup), and Life from set-up to cleanup; functions that have a namesake
--                 elsewhere end in _on_heap
--   Format        the messages of src/format.c, and what its functions print
--   EventLoop     include/fss/event_loop.h; Epoll is src/event_loop_epoll.c and Kqueue is
--                 src/event_loop_kqueue.c, over the calls of the kernel as a parameter; Backends has the
--                 two side by side
--   Server        src/server.c: State (client_t, the globals, close_and_cleanup), Names (the list of
--                 names), Listing (build_list_buffer), Response (the status line and its sending),
--                 Put, Get, Delete and Header (the handlers), Events (one event of one connection),
--                 Answer (what a connection has still to send, over one write event and over many),
--                 Loop (accept_connections and main from its table to its loop; Clients to Signals
--                 are about whole runs, which SIGINT ends), Invariant (what each handler keeps of what is watched, of the
--                 list and of the buffers' bounds), Setup (the listening socket, the temporary
--                 directory, the clean-up, and in Run main with its set-up, its loop and the clean-up)
--   Client        src/client.c: Args (the command line), Connect (connect_to_server), Answer (the status
--                 line), Handlers (handle_get and its like), Terminal (its standard output), Main (main),
--                 over the calls on local files and the result of connect_to_server as parameters
--   Sessions      the four requests with both programs: Put, Get, Listing and Delete, and PutGet for two
--                 of them; Sending is the client's side of a socket that blocks; Paced has the
--                 answers at any pace, and Arrivals and Pieces an upload in any pieces
--   Tests         runs on concrete connections, disks and kernels
--
-- A handler is a function on Machine, which is the connection with its socket, the events watched on it
-- and the globals of server.c; `freed` says that client_destroy has run. dispatch_event returns none
-- where the code would read a client that is freed. Names in the library are those of the code; a handler
-- whose name is that of a state ends in _handler. size_t is a natural number, eight bytes on the wire
-- in the order of a little-endian machine.
--
-- A run of the server is a sequence of batches of events. A batch is what event_loop_wait may report at
-- once on the state before it: each descriptor in one entry, and reading or writing only where it is
-- watched. Up to each return of event_loop_wait what clients send, the connections that wait and the
-- disk may change in any way; Outside in Server.Loop is such a change.
--
-- Loops that wait for a socket run on fuel. Each handler gives more than the reads or writes that the
-- socket has in store, which each round uses up, so that the fuel does not run out. So do the loops of
-- src/common.c. The download loop of the client has more fuel than the bytes that arrive, of which each
-- round reads one at least, and that of an upload as much as the file has bytes. Server.Put.Rounds has the
-- two loops of an upload of the server as sequences of rounds, without fuel.
--
-- What is sent and what arrives over several events is a list with an entry for each event: the outcomes
-- of the writes that the socket has room for, or the bytes that have come since. The number of write
-- events that an answer may take is bounded by its bytes; an upload takes one event more than its
-- arrivals, since the bytes behind the request line are read by the event after the one that reads
-- the line.
--
-- The states of a connection and the blocks of memory are two models: Server has what is stored and
-- whether the next allocation of a running server succeeds, and Memory who owns which block. malloc and
-- its like are parameters in the sense of the C library: each call gives a new block or none.
--
-- Not modelled: the installing of the signal handlers, perror and what else the client prints to its
-- standard error, and the headers of include/fss that declare collections without an implementation.
-- A failing strdup is modelled in Memory only. The loop of main is a function of the server's state, and
-- what its calls do to the kernel's descriptors is not followed call by call: server_main has the kernel
-- at the end of the loop as its argument at_end. A socket for which make_socket_nonblocking fails has
-- its flag in the state of the server, but its reads and writes that block are not modelled.
pub mod Base
pub mod Os
pub mod Common
pub mod Collections
pub mod Format
pub mod EventLoop
pub mod Server
pub mod Memory
pub mod Sessions
pub mod Client
pub mod Tests
