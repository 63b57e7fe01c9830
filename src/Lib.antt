-- ===== src/Lib.antt =====
-- A model of the chat client of this repository, which speaks the IPK24-CHAT protocol over UDP or TCP.
--
-- A packet goes from the socket into a buffer, is deserialized into a payload and handled by the
-- client; a payload that the client makes is serialized into a buffer and sent. The files follow
-- these parts; what stands in a folder is about the part it is named after.
--
--   Error       src/error.h, src/error.c      the global ERROR, and code that may fault
--   Bytes       src/bytes.h, src/bytes.c      the buffer: an array with a slice in use
--   Payload     src/payload.h, src/payload.c  messages, their numbers, and the readers of fields
--   Frame       (specification)               the messages of the protocol, without C's union
--   Udp         src/udp.c                     datagrams written and read
--   BitField    src/bit_field.c               the numbers received so far
--   Trie        src/trie.c                    the prefixes of TCP lines and the names of commands
--   Tcp         src/tcp.c                     lines written and read
--   Args        src/args.c                    the arguments of the command line
--   Input       src/input.c                   a line of stdin
--   World       src/args.h, src/client.c      the globals of the client, and what the system answers
--   Connection  src/connection.c, src/udp.c, src/tcp.c   one packet sent or received
--   Commands    src/commands.h, src/commands.c   the commands of the user and their parser
--   Client      src/client.c, src/connection.c   how a session opens, its event loop, its handlers
--   Main        src/main.c                    the program and its exit code
--   Tests       the functions run on sample input
--
-- Functions keep their C names. A helper that has no name in C stands for a case of a switch, for a
-- macro (READ, READ_FUNC, PUSH_BYTES) or for a loop, and its comment says so.
--
-- State. `Exec A` is code whose only global is ERROR; `M World A` is code of the client. Both answer
-- `none` when the code reads or writes outside an array, calls through a pointer that was never stored,
-- or frees what such a pointer points to: the model says nothing about a run behind such a fault.
-- Everything else, errors included, is an ordinary result. The calls of the system are answered by
-- fields of the state: whether `malloc` or `send` fails, what time it is, what arrived.
--
-- Memory. The field `blocks` counts what `malloc` and `getaddrinfo` gave and `free` and `freeaddrinfo`
-- did not get back. Client/Shutdown is the end of a session, where they get it back; Client/Close says
-- when that is all of it. Trie/Free says how many blocks a trie has, and Trie/Map reads a trie as a map
-- from paths to values.
--
-- Numbers. Bytes, lengths and identifiers are natural numbers; `size_t` wraps at 2 ^ 64 where the
-- code adds or subtracts, and message numbers at 2 ^ 16. The reader's `int` is an integer, and its
-- conversion to `size_t` is written out. A buffer has 1501 cells, as BYTES_SIZE in src/bytes.h.
--
-- Loops. Every loop of the code is structural recursion on its counter or on the bytes that are left,
-- so none has fuel.
--
-- The event loop runs over a list of rounds, each with the time and what `epoll_wait` answers: the
-- events, a timeout, a failure, or a failure because SIGINT came and was handled. Such a list is one
-- schedule of the system. The loop may wait behind the last round; the result says so. What the poll
-- looks at and how long it waits is not kept: a list may bring stdin, or a timeout, where the program
-- polls the socket alone, or with no timeout, so that there are more schedules than the system has.
--
-- Faults. `Returns` of Base/Total is a run that comes back, with one rule for each way to build it.
-- Client/Safe uses them for sending, Client/Safe/Receive for packets, Client/Safe/Line and
-- Client/Safe/Input for lines, Client/Safe/Loop for the loop, and Commands/Safe for the parser.
--
-- Opening a session. The answers of `socket`, `fcntl`, `getaddrinfo`, `connect`, `poll` and epoll are
-- the record `network` of the state, any of which may be a failure.
--
-- Not modelled: src/time.c and src/server.c (a call of the system, a placeholder), what the program
-- writes besides the kind of notice, the closing of sockets and of the handles of epoll, the debug
-- log, and the unit tests in test.
pub mod Base
pub mod Error
pub mod Bytes
pub mod Payload
pub mod Frame
pub mod Udp
pub mod BitField
pub mod Trie
pub mod Tcp
pub mod World
pub mod Connection
pub mod Args
pub mod Input
pub mod Commands
pub mod Client
pub mod Main
mod Tests
