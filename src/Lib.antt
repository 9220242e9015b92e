-- ===== src/Lib.antt =====
-- MyFileServer: an HTTP file server on a reactor network library in C++.
--
-- The parts and how they interact. An Acceptor takes in connections for a TcpServer, which owns them
-- in a map, and gives each to one of the event loops of an EventLoopThreadPool. A loop waits in its
-- poller, has the channels handle what happened, and then calls the functors that other threads have
-- queued; a TimerQueue is one of its channels. A TcpConnection owns an input and an output Buffer.
-- `handleRead` fills the input buffer and calls the message callback of the HTTP server, which runs
-- the request parser (HttpContext) over the buffer, answers with an HttpResponse that is appended to
-- a buffer, and hands that to the connection's `send`, `sendFile` and `shutdown`. `handleWrite` sends
-- what `send` could not write at once. All of them write lines to the log: a Logger makes a line, an
-- AsyncLogging collects lines for a thread that writes them to a LogFile. The memory pool, the thread
-- pool and the pool of database connections stand on their own.
--
-- The files (paths from the repository's root on the right):
--   Common            shared types: bytes, machine words, int, faults, atoi, decimal numbers
--   Buffer            src/net/Buffer.h, src/net/Buffer.cc
--     Content         the bytes between the two indices, and reading
--     Space           appending, prepending, making room
--     Transfer        readFd and writeFd
--     Crlf            findCRLF
--   Http.Headers      the unordered_map of the headers
--   Http.Request      src/http/HttpRequest.h
--   Http.Context      src/http/HttpContext.h, src/http/HttpContext.cc
--     Printer         the text of a request
--     Lines, RequestLine, Heads, RoundTrip   the parser on such a text
--     Segments        requests that arrive in pieces
--     Bodies, Termination   the fuel of its loops
--   Http.Response     src/http/HttpResponse.h, src/http/HttpResponse.cc
--     Text            the text that a response stands for
--   Http.Server       src/http/HttpServer.cc, onMessage and onRequest of src/http/FileServer.cc
--     Answers         messages that are no whole request
--     Replies         from a whole request to the response on the stream
--   Http.FileServer   setResponseBody of src/http/FileServer.cc
--     Platform        the system calls and the database, as a record of operations
--     Mime, Pages     MimeType and the HTML pages; Http.Favicon the icon
--     Listing         scanDir, getFileListPage, getFileVec
--     Range           range requests (Bounds: the forms of RFC 7233)
--     Login           sql_pool and the forms (Accounts: who may sign in)
--   Tcp.Connection    src/net/TcpConnection.h, src/net/TcpConnection.cc
--     Handlers        coming up, going down, and the channel's handlers
--     Stream          sending, as a stream of bytes
--     Writing         handleWrite
--     Closing         calls and queued functors after a connection was closed
--     Shutdown        shutdown
--     File            sendFile
--     Input           sending leaves the input buffer alone
--   Tcp.Dispatch      Channel::handleEvent and EPollPoller::poll
--     Handling        what happened to a connection's channel
--     Polling         which channels poll finds
--   Tcp.LoopPool      src/net/EventLoopThreadPool.cc
--     Rounds          which loops it gives out
--     Ready           that it gives out one
--   Tcp.Server        src/net/TcpServer.cc, src/net/Acceptor.cc and their headers
--     Naming          the names of connections
--     Listing, Owning the map of connections
--   Tcp.Poller        src/net/Channel.h, src/net/Channel.cc, src/net/poller/EPollPoller.cc
--     Registration    what the kernel knows of a channel
--   Loop.Pending      src/net/EventLoop.h, src/net/EventLoop.cc
--     Rounds          doPendingFunctors
--     Wakeup          the loop's thread and other threads, interleaved
--   Memory.Pool       src/memory/MemoryPool.h, src/memory/MemoryPool.cc
--     Operations      malloc of any size, freeMemory, resetPool, destroyPool
--     Blocks          the allocations that a block holds
--     Placing, Extending, Growing, Operations.Allocating   where malloc puts an allocation
--     Operations.Freeing   freeMemory and resetPool
--   Tasks.Pool        src/base/ThreadPool.h, src/base/ThreadPool.cc
--     Order           any number of threads, interleaved
--     Draining        one thread that takes all that is left
--   Database.Pool     src/mysql/ConnectionPool.h, src/mysql/ConnectionPool.cc
--     System          the threads of the pool and the borrowers, interleaved
--     Counting        where the connections are
--   Timer.Queue       src/timer/TimerQueue.cc, src/timer/Timer.cc and their headers
--     Order           the order of the set
--     Contents, Steps what a set of timers holds after each part of a round
--     Round           which timers a round of handleRead leaves
--   Log.Stream        src/logger/FixedBuffer.h, src/logger/LogStream.h, src/logger/LogStream.cc
--     Text            the text that a buffer has taken up
--     Rest            what lies in the array behind it
--   Log.Logger        src/logger/Logging.h, src/logger/Logging.cc, src/base/Timestamp.cc
--     Holding, Times  what a buffer holds, and how much of a time it shows
--     Lines, Statement the line of a statement
--   Log.File          src/logger/FileUtil.cc, src/logger/LogFile.cc and their headers
--     Storing, Writing what reaches the files
--   Log.Async         src/logger/AsyncLogging.h, src/logger/AsyncLogging.cc
--     Buffers         what the buffers hold
--     Rounds          one call, and one turn of the writing thread
--     System          both, interleaved
--
-- How the code is read. A pointer into a buffer is an offset. `size_t` is 64 bits and `int` 32 bits,
-- with the wrap-around written out (Common/Word, Common/Int); the library's largest vector is
-- PTRDIFF_MAX bytes. What C++ leaves undefined, what it throws, and a loop that gets no more fuel are
-- faults (Common/Faults). Methods that change an object return it. System calls (readv, write,
-- sendfile), the user's callbacks and the order of an unordered_map are arguments. What a connection
-- does to its socket, and the callbacks it queues, are a list of events in order. An exception that
-- the code does not catch is the fault that it ends in.
--
-- Fuel. The loops of parseRequest take the number of readable bytes and 4: each round but the last
-- ones takes a line of at least its two bytes CRLF out of the buffer. The loop of getFileListPage
-- that looks for its label has no fuel: without a label it never ends, which is the fault no_fuel.
--
-- Not modelled: floating point in the log stream; sockets, threads and MysqlConn, which wrap system
-- calls and the client library; json.hpp, which is third-party code.
mod Common
pub mod Buffer
pub mod Http
pub mod Tcp
pub mod Loop
pub mod Memory
pub mod Tasks
pub mod Database
pub mod Timer
pub mod Log
