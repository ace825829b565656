-- ===== src/Lib.antt =====
-- Echo Web Server: a verification development for the C++ program.
--
-- The program is an HTTP server. An event loop (include/web_server.h) accepts clients, closes them
-- when their timers expire, and has a pool of threads receive, process and send for the clients that
-- `epoll` reports. A connection (include/http.h, src/http/http.cpp) reads from its socket into a
-- buffer, parses the request, has the response builder write headers and small pages into a second
-- buffer, and keeps larger files mapped in memory. The loop, the pool's threads and the writers of the
-- logs run at the same time. In the queue, the pool and the asynchronous logger what a thread does under
-- the lock is one step. In the server a worker's step is a call of a connection's method, a critical
-- section or an `epoll_ctl`; the main thread's step is `ToNextTick`, `Wait`, the handling of one event, or
-- an `AddClient` of the loop over `accept`. A run is a sequence of such steps. Runs in which a worker acts
-- within `ToNextTick`, which the code runs without the lock, or within the handling of the event of one
-- client, are not among them.
--
-- The files and the code:
--   Prelude            names of the libraries, Boolean tests on numbers, lists measured by native
--                      numbers, arrays, and `std::size_t` with its wrap-around (add_size, sub_size).
--   Run                how a call ends: a value (ok), an exception (throw), a failed assertion, an
--                      undefined access or `std::terminate` (fault), or the model's fuel running out.
--   Buffer             include/containers/buffer.h, src/containers/buffer/buffer.cpp: `Buffer`, one
--                      function for each method (`EnsureWriteableSize` is ensure_writeable_size, and so
--                      on). Buffer/Valid has the invariant, Space, Append, Retrieve and Move the
--                      operations' theorems, and Queue the refinement to a queue of bytes.
--   HeapTimer          include/containers/heap_timer.h: `HeapTimer<Key>`, the nodes with the map from
--                      keys to positions. Index has the map's invariant, Order the heap order, Up and
--                      Down the two sifting loops, Insert and Remove the operations; Tick models `Tick`,
--                      `ToNextTick` and `Invoke`, Expiry, Waiting, Keeping and Reentry what they do.
--   Text               src/util/util.cpp: the string functions. Text/Replace and Text/Lines.
--   Http               include/http.h, src/http/http.cpp: methods, status codes, content types and the
--                      URL encoding. Http/Tables and Http/Encoding.
--   Files              include/util.h, src/util/util.cpp: `MappedReadOnlyFile`, over `stat` and `mmap`
--                      as a parameter (FileSystem). Files/Mapping says what `Map` gives.
--   Request            src/http/request.h, src/http/request.cpp: the parser, a state machine over lines.
--                      Request/Parse relates `Parse` to its lines, Form is about posted forms, Lines is
--                      about printed lines, and Print has the round trips.
--   Response           src/http/response.h, src/http/response.cpp: the builders. Writes composes
--                      operations that append a known text, Build and Answer say what each builder
--                      appends, Decimal reads printed numbers back.
--   Io                 include/io.h, src/io/io.cpp: the readers and writers over a buffer.
--   Connection         include/http.h, src/http/http.cpp: `ConnectionImpl`. Receive, Send, and Serve,
--                      which follows a request from its bytes to its response; Meaning says what a request
--                      asks for, from the protocol.
--   BlockDeque         include/containers/block_deque.h: the blocking queue as a monitor. A step is a
--                      critical section of one thread; Wakeup has the capacity and the wake-ups of the
--                      consumers, Clearing what `Clear` does to waiting producers.
--   ThreadPool         include/containers/thread_pool.h, src/containers/thread_pool/thread_pool.cpp: the
--                      queue of tasks and the threads, counted by what they do. Wakeup and Order.
--   Epoller            include/containers/epoller.h, src/containers/epoller/epoller.cpp, over the kernel's
--                      answers as a parameter (Kernel). Epoller/Interest.
--   WebServer          include/web_server.h: users, timer, interest list, tasks and jobs. `WebServer`
--                      itself has the loop of `Start` and its handlers (main_step), Workers the jobs of the
--                      pool's threads, Steps the two together as a relation, Start the start-up. InSync
--                      has the invariant that users, timer and interest list agree; Clients, Timeouts and
--                      Events show that the operations keep it, Loop and Threads compose them, and Stale
--                      has the run in which a client's time is up while a thread serves it.
--   Log                include/log.h, src/log/log.cpp, appender.cpp, field.h, field.cpp: levels, events.
--                      Fields parses patterns and formats events, Pattern is its round trip; Logger has
--                      the loggers that write at once and the manager, Writing and Removing their
--                      theorems; Async is a logger with a thread of its own, as a step relation. Setup
--                      is the listener of src/log/config_init.cpp, Configured what it sets up.
--   Config             include/config.h, src/config/config.cpp, over the YAML library as a parameter (Yaml,
--                      YamlLaws). Conversion converts lists, with Lists about what is read back; Members
--                      and Loading are `ExtractMembers` and `LoadYaml`, and Listing says what is extracted;
--                      Variables and Listeners are `Var` and the calls of its listeners.
--
-- Conventions. A byte or a character is its code, a native number. A method that changes an object takes
-- the object last and returns what it becomes. A mutable reference that is passed on becomes a value that
-- is passed on: `Buffer&` in `Request::Parse` is an argument and a part of the result. Exceptions of the
-- parser and of the file mapping are values, together with what the objects are left as. A parameter of a
-- model stands for code that is not in the repository: the file system, the callbacks of a timer, the
-- readings of the clock, what `readv` and `write` answer, the kernel behind `epoll_ctl` and `epoll_wait`,
-- `std::strftime`, and the YAML library.
--
-- Bounds. `std::size_t` is computed modulo 2⁶⁴, and a vector is at most 2⁶³ - 1 bytes long; theorems that
-- append state the room that they need. A loop whose rounds are not bounded by its argument's structure
-- runs on fuel: the sifting loops on the number of nodes, `Tick` on one round more than there are nodes,
-- the parser, the splitting and the replacing on one round more than there are bytes. Where a theorem
-- says that a call returns, the fuel is shown to be enough. Receiving and sending run along the answers of
-- the system calls, and end with `out_of_fuel` if they would make another call.
--
-- Simplifications. Keys of the timer and callbacks are numbers (a file descriptor; a handle, zero for the
-- empty `std::function`), times are ticks since the clock's epoch, and the map from keys to positions is
-- a function, so the assertions on the map's own size are not modelled. An unordered map is the list of
-- its pairs in an order of iteration. The regular expressions are translated by hand, with the "C" locale,
-- and running out of memory is not modelled. What a moved-from string or path holds is what the GNU
-- library leaves there: nothing. `std::remove_if` is the loop of moves that the standard describes.
-- A logger with a capacity is only recorded as one by the manager and the listener of Setup, without its
-- queue and thread, which Async has.
--
-- Not modelled: the conversions of sets, maps and streams and `Config::Lookup` (unordered containers, and
-- the dynamic type of a variable), the conversions of loggers to and from YAML, IP addresses (calls of the
-- socket library), the builder of the server (it stores settings), start-up and test utilities.
pub mod Prelude
pub mod Run
pub mod Buffer
pub mod HeapTimer
pub mod Text
pub mod Http
pub mod Request
pub mod Files
pub mod Response
pub mod Io
pub mod Connection
pub mod BlockDeque
pub mod ThreadPool
pub mod Epoller
pub mod WebServer
pub mod Log
pub mod Config
