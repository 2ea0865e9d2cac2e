-- ===== src/Lib.antt =====
-- A model of bmb, a message broker: named queues of text messages, kept in memory as linked lists
-- and on the disk as one directory for each queue with one file for each message, served over HTTP.
--
-- - Util, Util/Decimal, Util/Sort, Util/Url: src/util/util.c. `int_to_string` is checked against
--   the room of the buffer that it allocates; `url_decode` gives the bytes that it writes, up to
--   the end or to the escape at which it returns -1.
-- - Disk: the `data` directory and the libc calls on it (opendir, mkdir, rmdir, fopen, unlink), each
--   of which may fail as the environment says. Persist: src/persist/persist.c, whose `persist_dispatch`
--   serves one request after the checks on its queue name and on the buffers of its paths.
--   Persist/Store and Persist/Requests relate a directory to the log of nodes that it holds.
-- - World: memory as a partial map from addresses to nodes, with the disk. Queue: src/queue/queue_node.c
--   and src/queue/queue.c; `queue_add` saves a node and then links it as the root, `queue_poll`
--   removes the file of the tail and then unlinks it. World/Chain and the modules below Queue hold
--   the lemmas on linked nodes and on queues that agree with their directories (`IsKept`).
-- - Pool: src/queue/queue_pool.c, the array of all queues. A `Queue *` of the pool is its index.
--   Pool/Load reads the queues of the disk at startup. Pool/Kept is the invariant over all queues.
-- - Reply, Broker, Broker/Dispatch: src/broker/broker.c; the actions, and the checks that come first.
--   The broker finds a queue in the pool, calls its operations and builds a response. What cJSON does
--   is a parameter (`Cjson`). Broker/History states what a whole history of requests answers on one
--   queue; Broker/Dispatch/Contents is the map of queues of texts that all requests to the broker
--   stand for, with Broker/Dispatch/Reads on the requests that only read it; Broker/Dispatch/Refines
--   compares any history of requests with it; Broker/Unsaved is a message that cannot be saved, and
--   Broker/Dispatch/Durable is a restart on the disk that
--   the pool has left.
-- - Http/Request: src/http/request, the parser on the bytes of the receive buffer. Http/Response:
--   src/http/response, which asks the broker and builds the text; the room of allocated memory and the
--   text of the time are parameters.
-- - Util/Mem: src/util/mem.c, the blocks in use. Http/Blocks: the same code of src/http as Http/Request
--   and Http/Response, by the blocks that it allocates and frees until the thread ends.
-- - Server: src/server/s_thread.c, one connection as a function (`broker_thread`), and all threads as a
--   step relation over the shared broker and the lock. Server/History takes whole connections, one
--   after another.
-- - Server/Sockets: src/server/server.c, on the results of the calls on the socket; Broker/Init is
--   `broker_init`. App: src/app.c; the start of the process, events of its loop, and its destructor,
--   which finds what `exit` has left. App/Lifecycle runs a whole process.
-- - Examples: concrete queues, at which the theorems are applied.
--
-- A call is a function from the state to `Run` (module Run): it returns a value with the new state,
-- crashes (a NULL or freed pointer is read, a buffer is overrun), ends the process, or runs out of
-- rounds. A loop along a linked list gets a number of rounds, of which it needs no more than the
-- queue has nodes; recursion on the digits of a number has fuel above the number. The addresses that
-- `malloc` gives are arguments.
--
-- `char` is the x86 `signed char` where `fgetc` is compared with EOF, `unsigned int` wraps at 2^32,
-- and ids fit an `int` below 2^31, which is assumed of the next id. Not modelled: a failing
-- `realloc`, what is left when a request that is being handled ends the process, the memory of the
-- server and of the pool, directories for names that contain `/`, are `.` or `..` or are empty, which the
-- theorems on requests that create or use directories exclude, the texts of `strerror`, a
-- failing `fprintf` or `time`, logging, and the memory that belongs to cJSON and to the broker's
-- answers.
pub mod App
pub mod Base
pub mod Run
pub mod Util
pub mod Disk
pub mod Persist
pub mod World
pub mod Queue
pub mod Pool
pub mod Reply
pub mod Broker
pub mod Http
pub mod Server
pub mod Examples
