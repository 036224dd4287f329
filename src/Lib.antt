-- ===== src/Lib.antt =====
-- Lute: a reactor library for TCP servers (polaris/) and an HTTP server with a small application on
-- top of it (app/http/). This library models the program's own logic and proves what it promises.
--
-- How the parts interact. An event loop polls (polaris/src/EPollPoller.cc) and calls the channels whose
-- descriptors are ready (polaris/src/Channel.cc). TCPServer (polaris/src/TCPServer.cc) gives each new
-- connection to one loop of the pool (polaris/src/EventLoopThreadPool.cc). TCPConnection
-- (polaris/src/TCPConnection.cc) reads into its input buffer and sends through its output buffer, both
-- polaris/include/polaris/Buffer.h. HttpServer (app/http/src/HttpServer.cc) hands the input buffer to
-- HttpContext (app/http/src/HttpContext.cc), gives a complete HttpRequest to the callback, which is
-- Application::onRequest (app/http/src/app.cc), and sends the HttpResponse. Acceptor
-- (polaris/src/Acceptor.cc) takes connections in; on the client's side Connector
-- (polaris/src/Connector.cc) makes the attempts for TCPClient (polaris/src/TCPClient.cc).
--
-- Files.
--   Prelude: shared names, Boolean tests, lists, and `Returns`, total correctness of a run that an
--     `assert` may abort (`none`).
--   Buffer: Buffer.h; Buffer/Words and Buffer/Integers the integer operations of every width, on a
--     host of either byte order; Buffer/ReadFd readFd of polaris/src/Buffer.cc; Buffer/Search findCRLF
--     and findEOL; Buffer/Contents and Buffer/RoundTrip the theorems, Buffer/Queue all of them as one
--     queue of bytes.
--   Connection: TCPConnection.cc; Connection/Stream and Connection/Drained the bytes of a connection,
--     Connection/Calls, Connection/Told and Connection/Life its life, as the steps that its users, the
--     poller, the loop and its owner take.
--   Poller: EPollPoller.cc, Poller.cc and Channel.cc; Poller/Interest the invariant between the map of
--     channels and the kernel's list, Poller/Steps and Poller/Removal the operations.
--   LoopPool: EventLoopThreadPool.cc; LoopPool/Turns.
--   LoopThread: EventLoopThread.cc as steps of two threads; LoopThread/Joined what holds throughout,
--     LoopThread/Lost when the destructor ends.
--   Server: TCPServer.cc on Acceptor and LoopPool; Server/Names the names of connections,
--     Server/Serving its life as steps, Server/Started and Server/Kept what holds over it,
--     Server/Served, Server/Balance with Server/Tally.
--   InetAddress: InetAddress.cc and the addresses of Sockets.cc; InetAddress/Printed their texts.
--   Sockets: Sockets.cc and Sockets.h, the calls on a socket.
--   Acceptor: Acceptor.cc; Acceptor/Descriptors where its descriptors go.
--   Connector: Connector.cc; Connector/Sockets where its sockets are, Connector/Attempts over all
--     steps.
--   Client: TCPClient.cc on Connector and Connection; Client/Rests its connector while it has a
--     connection, Client/Life over all steps, Client/Again after a close, Client/Names.
--   EventLoop: the pending functors and wake-ups of polaris/src/EventLoop.cc, as steps of the loop and
--     of the other threads; EventLoop/Wakeup what every reachable state satisfies.
--   Timers: TimerQueue.cc; Timers/Sets its two sets, Timers/Expired, Timers/Insert, Timers/Cancel,
--     Timers/Restarted and Timers/Fired its operations on them, Timers/Allowed what callbacks may do,
--     Timers/Matched what holds between the sets, Timers/Alarm.
--   Http: Http/Request HttpRequest.h, Http/Context HttpContext.cc (Plain the parser on plain bytes,
--     which it is compared with; Lines, Rounds, Total, Chunks and Refused its theorems), Http/Response
--     HttpResponse.cc (Render), Http/Server HttpServer.cc (Outcome), with Http/Bytes, Http/Headers and
--     Http/Decimal for std::string, std::map and snprintf.
--   App: app.cc; App/Routes the answers of its routes.
--   Tests: the theorems at concrete inputs.
--
-- Names. An operation keeps the name of the function in the source, in lower case with underscores; a
-- type keeps its own; `await_connection` is Connector::connecting, and `push_back`, `begin_queue` and
-- `end_wakeup` are parts of EventLoop::queueInLoop. Fields are the members without the final
-- underscore.
--
-- Bounds and fuel. `size_t` wraps where Buffer.h adds, in `add_size`, at 2 ^ 64; the theorems ask for
-- storage and bytes that stay below. parseRequest loops on fuel, one more than the bytes in the buffer:
-- every round that goes on takes a line out of it. The digits of a number are at most 20, those of a
-- `size_t`. All other loops are structural.
--
-- Parameters. The kernel's answers (read, write, readv, connect, epoll_ctl), the file system, Redis,
-- MySQL, the regular expressions, addTime, inet_pton, inet_ntop and the byte order are arguments;
-- epoll_ctl has laws that a list of interests satisfies, inet_ntop that its texts are short and tell
-- addresses apart. The logger ends the program at level FATAL, and leaves errno alone. Callbacks of
-- the user are functions or marks in the state.
--
-- Not modelled. Threads and their mutexes, but for the steps that other threads take on a loop and
-- those of a thread and its owner in LoopThread, where `join` returns when the thread has finished:
-- every other operation runs in its loop, as the code asserts. getTcpInfo, logging and CDN are left
-- out. `events_` is two flags for its masks kReadEvent and kWriteEvent, the only ones that the code
-- sets; addedToLoop_ and eventHandling_ of a channel, which only its destructor reads, are left out.
pub mod Prelude
pub mod Buffer
pub mod Http
pub mod Connection
pub mod App
pub mod Poller
pub mod InetAddress
pub mod Sockets
pub mod Acceptor
pub mod Client
pub mod Connector
pub mod LoopPool
pub mod LoopThread
pub mod Server
pub mod Timers
pub mod EventLoop
mod Tests
