-- ===== src/Lib.antt =====
-- lnetlib is a C++ library for clients and servers that exchange messages over TCP, with or without
-- TLS. A server (lnetlib/lnetlib/server.h and server.cpp) starts sessions, each of which accepts one
-- client and makes a connection; a client (client.h, client.cpp) starts one session that connects to a
-- server. A connection (connection.h, connection.cpp) sends the buffers of output streams (ostream.h,
-- ostream.cpp), framed by their length, and turns received frames into input streams (istream.h,
-- istream.cpp). All parts tell each other what happens by signals and slots (lsignal/lsignal.h). The
-- options of TLS are kept by an encryption object (encryption.h, encryption.cpp, helper.cpp).
--
-- The files, by the code they model (paths below lnetlib/lnetlib, the examples' from the root):
--   Base, Bytes, Bytes/Range
--                    shared names and lists over native numbers; integers as bytes in either byte order
--   Streambuf        the byte buffers of the asio library, a parameter with laws
--   Signal/State, Connecting, Lifetime, Emitting, Aggregating
--                    lsignal/lsignal.h: signals, connections and slots as objects of a store
--   Signal/Unlocking the end of its second signal::operator()
--   Signal/Emit      its signal::operator() for an argument that is moved, as the streams use it
--   Signal/Laws, Lives, Copies, Calls, Ranks, Nesting
--                    what holds of connecting, of destroying slots, of copying and destroying signals,
--                    and of emission
--   Stream/OStream, IStream
--                    ostream.h, ostream.cpp, istream.h, istream.cpp: write_*, read_*, send, responses
--   Stream/Writing, Reading, RoundTrip, Sending, Limits, Typing, Shapes
--                    the bytes that are written and read, whole messages, dispatch, what is lost, and
--                    what is read from any bytes
--   Connection/State, Sending, Receiving
--                    connection.h, connection.cpp: check_error, create_package, send_package, the
--                    dispatch slot, the handlers of the two kinds of read, create_stream
--   Connection/Writes, WriteQueue, Serial, Drain
--                    the write side in any interleaving of dispatches and completions
--   Connection/Reads, Frames, Handling, Framing, EndToEnd
--                    the read side on a stream of bytes, and two ends together
--   Connection/Arrival, Stall, Ending, Growth, Progress
--                    bytes that arrive in pieces, a frame of no bytes, failed reads, and messages still
--                    on their way
--   Connection/Answering, Posting, Exchange
--                    programs that answer, one message between two ends, a request and its answer
--   Connection/Callbacks, Uids, Table, Awaiting
--                    response callbacks and uids; the table of callbacks with its order forgotten
--   Connection/Owners, Attaching, Lifespan, Shutting
--                    how long a connection lives: the pointers to it, the emissions of its signals
--                    (lsignal/lsignal.h) and its destructor
--   Server/State, Starting, Accepting
--                    server.h, server.cpp: start, stop, sessions, connections, thread policies
--   Server/Effects, Events, Roster, Registry, Counting, Listener, Launch
--                    the server over histories of events: its clients, its sessions and its threads
--   Server/Threads, Phases, Interleaving, Pairing, Races
--                    add_connection and the slot for `closed` in several threads, step by step
--   Server/Hosting   a server with one of its connections
--   Server/Owners, Custody, Turns, Fates, Admission
--                    the pointers of the server and of the program to a connection, through its life
--   Client/State, Connecting, Lifecycle, Hosting, Owners
--                    client.h, client.cpp; the client with its connection, and as its owner
--   Session/Socket, State, Server, Client, History
--                    socket*.h/.cpp, server_session*.h/.cpp and client_session*.h/.cpp
--   Encryption/Files, Options, Laws
--                    helper.cpp, encryption.h and encryption.cpp
--   Demo/Commands, Input, Server, Client, Setup, Notices
--                    the example programs, example/server/main.cpp and example/client/main.cpp
--   Demo/Talk, Transfer, Broadcast, Farewell, Closing, Parting, Loops
--                    the two programs together, over two connections, and the end of the input
--   Examples         every theorem at concrete inputs
--
-- State is passed explicitly: a record for each object, whose last field `trace` (or `actions`, `asked`)
-- lists what the object asked of the code beneath it and which signals it emitted. Absent results stand
-- for undefined behaviour, a deadlock or a slot that does not return; exceptions are results of their
-- own. What the program's slots do is a parameter everywhere, with the conditions that a theorem puts on
-- it. What runs under a mutex is one step, but in Server/Threads, where it has two ends; the orders of the
-- steps are sequences or step relations. Objects live as long as they are used, but for the signals and
-- slots of Signal and for the connections of Connection/Owners, where the pointers to them are counted.
--
-- Integers wrap around where the source's do: uids and sizes modulo 2 ^ 64, length fields modulo the
-- number of values of their type. The only fuel is that of an emission (Signal/Emitting), one unit for
-- each level of connected signals. Signal/Nesting says how much is enough.
--
-- The asio library, the operating system and the TLS library are not modelled: their buffers, contexts
-- and files are parameters (Streambuf, Tls, Files), their answers arguments. Nor are the texts of errors
-- and certificates, and the construction of callbacks from member functions. The move operations of
-- signals are deleted in the source, whose mutexes cannot be moved. Floating-point numbers are their bit
-- patterns.
pub mod Base
pub mod Bytes
pub mod Streambuf
pub mod Signal
pub mod Stream
pub mod Connection
pub mod Server
pub mod Encryption
pub mod Client
pub mod Session
pub mod Demo
pub mod Examples
