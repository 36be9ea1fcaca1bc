-- ===== src/Lib.antt =====
-- slick-net: HTTP, HTTP streams and WebSockets over Boost.Asio and Boost.Beast. This development models the
-- program's own logic; the I/O of Boost and OpenSSL appears as what it may report, in any order.
--
-- The parts and their files:
--   Sse          include/slick/net/detail/sse_parser.hpp. `feed` is sse_parser::feed, with on_event's calls as a
--                list; its helpers keep the names of the source. Sse/Machine is a machine that takes one byte at a
--                time, by which the theorems on pieces and on whole bodies are proved; Sse/Machine/Lines is what the lines of
--                a body mean.
--   Url          include/slick/net/detail/url.hpp, parse_url of src/utils.hpp, and parse_websocket_url of
--                include/slick/net/detail/websocket_impl.hpp. Exceptions are outcomes.
--   WriteChain   include/slick/net/detail/write_chain_gate.hpp, with the sends and the writes of a WebSocket that
--                it connects (websocket_impl.hpp). WriteChain/StoreBuffer is the gate on hardware whose stores wait
--                in buffers.
--   Session      the life of Websocket::Impl in websocket_impl.hpp: open, handshake, reads, close, and the hand-off
--                of a shared read buffer to the next session.
--   Connection   Websocket::Impl as a whole: a Session and the WriteChain of its sends, with one status; and `send` and
--                send_binary_data of the outer class.
--   Service      src/websocket.cpp: the thread that serves every WebSocket.
--   HttpStream   src/http_stream.cpp: generations and sessions of one stream. HttpStream/Word is the packed state_.
--                It feeds its bodies to Sse.
--   HttpService  src/http.cpp: the threads of callback-based requests, and the delivery of their responses;
--                HttpService/Executor is the union that holds the executor of one, HttpService/Thread the function of
--                a service thread, also that of src/http_stream.cpp.
--   HttpRequest  src/http.cpp: one request from its URL to the Response that the caller gets, in each form of each
--                operation. HttpRequest/Message is make_request, HttpRequest/Session the coroutine over the network.
--   SyncRequests src/http.cpp: the pool of contexts of synchronous requests; SyncRequests/Concurrent has its calls
--                beside each other.
--   StreamService src/http_stream.cpp: the service that runs the streams.
--   StreamSession src/http_stream.cpp: how a session of a stream connects, asks for its body and shuts its connection
--                down; the read loop is HttpStream's, and its `is_current` is a test that StreamSession takes the
--                answers of. StreamSession/Constructed is the constructor of HttpStream.
--   WebsocketConnect  how a session of a WebSocket connects, in websocket_impl.hpp, up to where Session goes on.
--   StreamCancel src/http_stream.cpp: how close() cancels the I/O of a session that waits.
--   Websocket    the outer class in websocket_impl.hpp: the Sessions that one object opens one after the other, and
--                how each waits for the buffer of the one before.
--   Tls          src/tls.cpp: the identity that a connection checks, which HttpRequest and StreamSession use, the
--                trusted roots, and the shared context. Tls/Windows has the roots of that platform.
--   Logging      src/logging.cpp and include/slick/net/logging.hpp: which messages reach which handler, and the
--                handlers that are replaced.
--   Examples     parameters that behave as documented, for the tests.
--   Prelude      names of the libraries, Boolean tests, lists and bytes that the others share.
--
-- Code outside the repository is a parameter: PeerApi (OpenSSL and make_address, for a handle), RootsApi (the
-- environment, the files and load_verify_file), StoreApi (those of Windows), FieldsApi (Beast's header fields)
-- and Net (what the network answers to each operation, and what a stream's tests find). Their laws are
-- documented behaviour of those libraries.
--
-- Concurrent parts are step relations: a record is the state that threads share with the counts of threads at
-- each point of the code, a function is one atomic access with what follows it up to the next, and Step says
-- which may come next. Reach holds of every state that any interleaving leads to. A turn of a compare-exchange
-- loop that fails changes nothing, so only the turn that ends the loop is a step. The order of steps is total;
-- in WriteChain it is that of the sequentially consistent fences of the gate, which StoreBuffer does without.
--
-- Bounds and fuel: the loop of `feed` has the length of the piece as fuel, and each turn takes a byte at least.
-- std::to_chars of a uint16_t has fuel for five digits, and 65535 has five. HttpStream allows fewer than 2^62
-- calls of open(), the generations that a uint64_t with two bits of status holds. Nothing else is bounded.
--
-- Not modelled: the I/O itself, timeouts (an operation that fails), the formatting of log messages, what is
-- logged, calls that a callback makes before the step that calls it ends, the stream buffers, whose code is not in the
-- repository, and exceptions out of allocation. The queue of a WriteChain is first-in-first-out and without bound:
-- reserve and publish are one step, and no record is overrun. In Session a test of is_detached, the
-- callbacks behind it and the release of the buffer are one step, unless a callback throws; so an open() that onError
-- calls takes effect behind that step. A callback may throw wherever the code calls it: in WriteChain and Session a
-- handler then leaves undone what follows, and HttpStream's theorems say which exceptions they allow.
pub mod Prelude
pub mod Sse
pub mod Url
pub mod WriteChain
pub mod HttpStream
pub mod StreamService
pub mod StreamSession
pub mod StreamCancel
pub mod Service
pub mod Session
pub mod Connection
pub mod Websocket
pub mod WebsocketConnect
pub mod HttpService
pub mod SyncRequests
pub mod Tls
pub mod HttpRequest
pub mod Logging
pub mod Examples
