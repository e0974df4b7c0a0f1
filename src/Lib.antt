-- ===== src/Lib.antt =====
-- A chat server with its protocol: clients connect over TCP, log in against a MySQL database, and send
-- messages to the members of a room or to one user.
--
-- The program. server/src/session/Session.cpp reads length-prefixed protobuf envelopes from a socket
-- and queues the ones that it writes. server/src/core/Server.cpp posts one task for each envelope and
-- for each closed connection to a pool of threads, and sends the envelope to a handler:
-- server/src/service/AuthService.cpp for accounts, RoomService.cpp for rooms and the history,
-- MessageService.cpp for messages. The client of client/src types requests and prints what it is
-- sent, and keeps the name of its room; tester/src starts many of them. The handlers share two
-- structures under one recursive mutex: the indexes of server/src/core/SessionManager.cpp, from user
-- ids and names to sessions, and the room maps of RoomService. They read and write the database through the interfaces server/src/data/I*Repository.h.
--
-- What models what.
--   Protocol, Domain: common/proto/chat.proto and common/src/domain, as types.
--   Map: std::unordered_map, with its laws; clients do not see the order of its entries.
--   Repository: the repository interfaces, as records of operations over a store. A service takes any
--     such record. What a theorem relies on is a law beside it (StoresUsers, ReadsUsers).
--   Exec, World: the handlers' state and exceptions. A session object is known by an address, World
--     holds all objects and maps, and `sent` is the log of the calls of Session::send. What a handler
--     wrote before an exception stays written.
--   Session: who a connection is authenticated as.
--   SessionManager: every method of that class; SessionManager/Index says when the indexes are right.
--   Rooms: the parts of RoomService that hold the mutex, one function for each; Rooms/Membership has
--     their laws, Rooms/Invariant what they preserve. Rooms/Views sees the maps as two functions, who is
--     mapped to which room and who is a member of which; Rooms/Refinement sees them as a placement of
--     users, which is where a user is mapped to and does not show memberships elsewhere. Both have the
--     runs of any schedule of the parts.
--   RoomService, MessageService, AuthService, Crypto, TimeConvert: the files of these names, one
--     function for each handler, with the guards, the answers and the notices of every branch. OpenSSL's
--     SHA-256 and RAND_bytes and the clock are the fields of World.Env.
--   Server: dispatchMessage, onDisconnect, and runs of their tasks; Server/Accept has the accept loop and
--     onMessage.
--   Transport: Session's framing (Frame), its reading loop (Reader), its write queue (Writer),
--     handle_error (Errors) and how the reader reaches it (Endings). Reader/Frames says without fuel what
--     the reader makes of a stream. protobuf's parser is a parameter of the reader.
--   Data: server/src/data. Driver has what the MySQL repositories share: blocks of SQL statements that
--     may throw, transactions, the wrapper of a connection and the catch clauses. SOCI and MySQL are the
--     record Driver, which answers the statements of the source, text and bound values. UserTable,
--     RoomTable and MessageTable are the three repositories, one function for each method, and fill the
--     records of Repository, which Tables hands over; Times reads their columns. UserTable/Rows and
--     RoomTable/Rows state what MySQL does with the tables of users and of rooms, and UserTable/Stores
--     and RoomTable/Stores draw from it the laws that the services rely on. Transactions has when a block
--     has committed, and Transactions/Outcomes what a method leaves behind. Connections is
--     ConnectionPool, with the wrappers' destructors and the replacing tasks as events. Conversions is
--     SociTypeConversion.h.
--   Startup: server/src/util/ConfigManager.cpp and server/src/main.cpp, over the JSON library as the
--     record Json.
--   Client: client/src. Words is what main.cpp uses of streams and patterns, Commands the request that a
--     line stands for, Input the loop over the lines; Inbox is handle_server_message, with what it
--     prints; Reader is the reading loop byte by byte, and Writer the queue, byte by byte. Agreement
--     puts a client beside RoomService, through the requests of all sessions, and EndToEnd the typed
--     lines beside the server's reader.
--   Tester: tester/src/main.cpp, a client of the load test with its counters.
--   Tests: the theorems at concrete inputs.
--
-- Numbers. Ids are `long long` in the program and integers here, since the program only compares and
-- prints them; findByUsername and findByUserId read an id as an `int`, which is not cut here. A body's
-- length is cut to 32 bits, as htonl does. Bytes are natural numbers.
--
-- Threads. Rooms.run takes the locked sections in any order and of any users, with what each one read
-- before it took the lock. Server.run_tasks takes whole tasks one after the other, which is what
-- happens with one thread; two handlers that interleave outside of the mutex are not modelled there.
--
-- Fuel. The reading loop takes at least five bytes in each round, so the length of what has arrived,
-- and one more, is fuel enough. Nothing else needs fuel.
--
-- Not modelled: the sockets, the acceptor and the strands of asio, the server's log lines (but for the
-- reads of a session that those of the handlers make, which may throw), the threads and the signals of
-- the three programs, the command lines of the client and of the load test, and localtime.
pub mod Prelude
pub mod Map
pub mod Protocol
pub mod Domain
pub mod Exec
pub mod Repository
pub mod Rooms
pub mod Session
pub mod World
pub mod SessionManager
pub mod TimeConvert
pub mod RoomService
pub mod MessageService
pub mod Crypto
pub mod AuthService
pub mod Server
pub mod Transport
pub mod Data
pub mod Client
pub mod Startup
pub mod Tester
pub mod Tests
