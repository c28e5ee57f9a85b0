-- ===== src/Lib.antt =====
-- Verification of mingfwq, a C++ server framework with fibers, timers and HTTP.
--
-- The parts that are modelled, and the files that model them:
--   mingfwq/bytearray.h, bytearray.cpp   ByteArray: a chain of blocks that is written and read
--                                        like a file, with integers of fixed and variable width
--     ByteArray             the state, addCapacity, write, read, setPosition, clear, toString
--     ByteArray/Chain, Invariant, Capacity, Write, Read, Seek, Ahead   its proofs
--     ByteArray/Fixed       writeFint8 to writeDouble and their reads, with mingfwq/endian.h
--     ByteArray/Varint      EncodeZigzag32 to readInt64
--     ByteArray/Text        writeStringF16 to readStringVint
--   mingfwq/timer.h, timer.cpp           the timers and the set that orders them by due time
--     Timer                 Timer, Timer::Comparator, TimerManager
--     Timer/Order, Invariant, Due, Expiry, Next   its proofs
--   mingfwq/iomanager.h, iomanager.cpp   IOManager: events on descriptors, over epoll
--     IoManager             contexts, triggerEvent, addEvent, delEvent, cancelEvent
--     IoManager/Ready       cancelAll, and idle's round for one descriptor
--     IoManager/Invariant, Table, Adding, Ready/Steps, Ready/Rounds   its proofs
--   mingfwq/fiber.h, fiber.cpp           Fiber: control that passes between the fibers of a thread
--     Fiber                 states, constructors, swapIn, swapOut, call, back, yields, MainFunc
--     Fiber/Switch, Reachable   its proofs
--   mingfwq/scheduler.h, scheduler.cpp   Scheduler: the queue of jobs that threads run on fibers
--     Scheduler             scheduleNoLock, schedule, and a round of the loop of run
--     Scheduler/Pick, Bursts, Callbacks, Fit, Branches, Idling, Passes, Round   its proofs
--   mingfwq/stream.h, stream.cpp         Stream: the loops that move a whole buffer
--     Stream                readFixSize, writeFixSize over a buffer
--     Stream/Reading, Ending, Writing, Whole, Errors   its proofs
--   mingfwq/fd_manager.h, fd_manager.cpp   what is known of the open descriptors
--     FdManager             FdCtx, and get, the sections of get under the lock, and del
--     FdManager/Table, Contexts   its proofs
--   mingfwq/http/http_connection.h, http_connection.cpp   HttpConnectionPool
--     HttpConnectionPool    getConnection, ReleasePtr
--     HttpConnectionPool/Search, Lending   its proofs
--   mingfwq/http/servlet.h, servlet.cpp   ServletDispath: which servlet handles a path
--     Servlet               addServlet to getMatchedServlet, handle
--     Servlet/Routes, Patterns   its proofs
--   mingfwq/hook.cpp                     the system calls that fibers call in place of the C library's
--     Hook                  socket, close, fcntl, ioctl, setsockopt, as they keep the FdManager
--     Hook/Io               do_io, and in Io/Connect connect_with_timeout
--     Hook/Sleep            sleep, usleep, nanosleep
--     Hook/Reopened, Flags, Io/Interrupted   its proofs
--   mingfwq/http/http.h, http.cpp        the messages of HTTP
--     Http                  the maps of names and values, ordered by CaseInsensitiveLess
--     Http/Method           methods and statuses, with their names
--     Http/Request, Response, Printing   HttpRequest and HttpResponse, and dump
--     Http/Names, Fields, Method/Naming, Request/Maps, Request/Dump, Response/Dump   its proofs
--     Http/Reading          the format of a message, as its receiver reads it
--   mingfwq/http/http_connection.cpp     the requests of a client
--     Http/Client           DoRequest and doRequest, from the headers to the error code
--     Http/Client/Making, Exchange   its proofs
--   mingfwq/http/http_session.cpp, http_connection.cpp, http_parser.cpp   the messages that come in
--     Http/Session          recvRequest, sendResponse
--     Http/Connection       recvResponse, with its chunks
--     Http/Incoming         the body behind a head, in both
--     Http/Incoming/Bodies, Session/Heads, Shrinking, Requests, Connection/Chunks   its proofs
--   mingfwq/http/http_server.h, http_server.cpp   the server of one client
--     Http/Server           handleClient, over recvRequest, the dispatcher and sendResponse
--     Http/Server/Serving   its proofs
--   mingfwq/uri.h, uri.rl.cpp            Uri: what stands behind its parser
--     Uri                   the port, the path, dump
--     Uri/Ports             its proof
--   mingfwq/address.h, address.cpp       Address: how they compare, and IPv4Address
--     Address               the operators, ports, text, masks, CountBytes, and Lookup's host
--     Address/Order, Ports, Ones, Hosts   its proofs
-- Prelude and its children hold what the parts share: lists, strings, bits and integers over native numbers.
-- Samples and Examples hold concrete states, runs of the code, and the theorems at those states.
--
-- ByteArray. A `Node` is the list of its bytes and the chain is a list of nodes; `m_cur` is an
-- index into it, `none` the null pointer. A function returns `ok` with the new state, or `fault`:
-- `out_of_range` is the thrown exception, `null_node` a null pointer that is dereferenced,
-- `overrun` a write past a local buffer. What `new char[]` leaves in a block is `fill`, the same
-- unknown byte everywhere. Sizes are below 2^64 and do not wrap. The byte order of the machine is
-- the argument `host`; float and double are the integers of their bits. The loops of write and
-- read recurse on the chain; those of the compressed integers on the bytes that `tmp` has
-- (5 or 10), where one more would be `overrun`, and on the rounds of the `for` (5 or 10).
-- A position is well formed when `m_cur` is the block that it lies in.
--
-- Timer. The objects are a function from addresses, so that a timer may be held by its owner and
-- by the set, and m_timers is the list of the addresses in the set's order. Each call runs under
-- the manager's lock and is one step; the clock is an argument. A callback is a name. Times wrap
-- at 2^64. The result `none` is undefined behaviour, an erase of end().
--
-- IOManager. epoll_ctl is a parameter on a kernel of any type, and nothing is assumed of it. The
-- context of a descriptor is at its index. What schedule is called with is queued in one list,
-- with the scheduler that it is called on; `none` is a failed assertion or a null pointer.
-- IOManager is a TimerManager and a Scheduler in the source; here the timers stand by themselves.
--
-- Fiber. A fiber is at an address, and a context is the name of the code that it resumes; the
-- thread-local pointers are fields. `none` is a failed assertion or a null pointer. The functions
-- of ucontext succeed.
--
-- Scheduler. One round of run on one thread is a function of the state, and what the code of the
-- fiber does in it, how it stops and what it queues, is an argument. The search of the queue is
-- under the lock; the other threads come in as the jobs that a round finds added. The counters
-- are size_t. IOManager's tasks are the jobs of the queue, without the fibers behind them.
--
-- Stream. The stream's own read and write are parameters. The loops have fuel for each call of
-- them; one more than the length is enough where none fails, since each call moves a byte or
-- ends the loop.
--
-- FdManager. Contexts are at addresses, and the table holds addresses; fstat and fcntl are
-- parameters, of which nothing is assumed. A function's `none` is an access out of bounds.
--
-- HttpConnectionPool. Connections are at addresses; whether one is connected, the clock, and how
-- the network answers are arguments of a call. The loop of getConnection has fuel, of which one
-- round is enough where it ends at all.
--
-- Servlet. Servlets are names and URIs lists of bytes; fnmatch is a parameter, as is what the
-- servlets do.
--
-- Hook. The system calls are parameters on a kernel, of which nothing is assumed. close goes to
-- cancelAll of the IOManager and to del of the FdManager. do_io uses the timers, the events and
-- the fibers through an interface, of which nothing is assumed; its fuel is a round for each call
-- of the system. The sleeps are on the timers and fibers of the other parts.
--
-- Http. A std::map is the list of its entries in the order of its comparator. An enumerator is its
-- number. boost::lexical_cast is a parameter. strcasecmp is that of the C locale, and what a
-- std::ostream prints of a number is its decimal digits, of which one more than the number is fuel
-- enough. The stream's read and write and the generated parsers are parameters; the loops over a
-- head have fuel for each read, and one more than the bytes that are to come is enough. `overrun`
-- is a call that leaves the buffer. The text of an error in a result is left out. handleClient has
-- fuel for each request, and one more than the bytes that are to come is enough.
--
-- Uri. A URI is the record of its members, and Uri::Create a parameter of the client.
--
-- Address. An address that is compared is the list of the bytes of its sockaddr; an IPv4Address has
-- the members of sockaddr_in as they are in memory. A shift that is undefined is `none`. CountBytes
-- has fuel for its rounds, of which one more than the bits is enough.
--
-- Not modelled: the iovec buffers, hexadecimal text and files of ByteArray; addConditionTimer,
-- which is addTimer with a callback that tests a weak pointer; the threads that start and stop of
-- Scheduler make and join; how idle waits and stops; the hooked accept; sockets, what getaddrinfo
-- and getifaddrs answer, IPv6 and UNIX addresses, configuration and logging; the callbacks of the
-- HTTP parsers; the machines that Ragel generates from uri.rl, http11_parser.rl and
-- httpclient_parser.rl.
pub mod Prelude
pub mod ByteArray
pub mod Timer
pub mod IoManager
pub mod Fiber
pub mod Scheduler
pub mod Stream
pub mod FdManager
pub mod HttpConnectionPool
pub mod Servlet
pub mod Hook
pub mod Http
pub mod Uri
pub mod Address
