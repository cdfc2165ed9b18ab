-- ===== src/Lib.antt =====
-- libnode: the event-driven core of a C++ port of node.js.
--
-- The program's parts and where they are modelled (paths from the root of the repository):
--   Net/Socket    net::Socket, include/libnode/detail/net/socket.h. State.antt has its fields, and what
--                 it takes from libuv and from listeners as a record Env; Ops.antt has the operations
--                 that a program calls (write, end, destroy, destroySoon, pause, setTimeout, ...), and
--                 Connect.antt has create(), connect(), AfterLookup and AfterConnect, and Receive.antt has
--                 AfterWrite, AfterShutdown, OnRead, OnTimeout and the ticks. Safety, Callbacks,
--                 ReceiveSafety, Reach, Lifecycle, Transfer, Ending, Accounting and Defects have
--                 proofs.
--   Net/Server    net::Server, include/libnode/detail/net/server.h. State.antt has its fields and what
--                 it asks of libuv, Ops.antt has listen(), close(), OnConnection, OnDestroy and
--                 EmitCloseIfDrained; Counting, Connections, Called and
--                 Relisten have proofs.
--   Datagram      dgram::Socket, include/libnode/detail/dgram/socket.h. State.antt has its fields and what it
--                 takes from the resolver and from libuv, Ops.antt the operations and callbacks;
--                 Queue, Sending, Listening, Order, Closed and Refused have proofs.
--   Events        events::EventEmitter, include/libnode/detail/events/event_emitter.h, in the variant
--                 with shared pointers. Emitter.antt has the operations; Arrays, Subscriptions,
--                 Refinement, Loop, Dispatch and Hazards have proofs.
--   Http/Message  http::OutgoingMessage, include/libnode/detail/http/outgoing_message.h. State.antt has its
--                 fields and the interface Stream to its socket; Ops.antt has buffer(), writeRaw(),
--                 send() and flush(), Head.antt has storeHeader() and the header maps, Body.antt has
--                 the calls of a program. Framing, Told, Bodiless, Transfer, Response, Ending, Fields
--                 and Kept have proofs; Wire.antt makes net::Socket an instance of Stream.
--   Http/Incoming http::IncomingMessage, include/libnode/detail/http/incoming_message.h (State.antt and
--                 Stream.antt: the queue of chunks that wait while it is paused, and its ticks), and the
--                 callbacks of http::Parser, include/libnode/detail/http/parser.h (Lines.antt has
--                 addHeaderLine, Parser.antt the rest). Chunks, Order, Awake, Joining, Filling,
--                 Split and Trailers have proofs.
--   Http/Server   http::Server, include/libnode/detail/http/server.h: the messages and responses of one
--                 connection. State.antt and Ops.antt have its lists and handlers; Finish, Kept,
--                 Added, Order and Aborted have proofs.
--   Http/Agent    http::Agent, include/libnode/detail/http/agent.h: Pool.antt has the operations, Fairness.antt
--                 the runs of an agent and their invariant.
--   Http/HeaderScanner  scanHeaderField(), include/libnode/detail/http/header_scanner.h, from the rules
--                 of header_scanner.re.
--   Http/Status   http::Status, include/libnode/http/status.h and src/http/status.cpp.
--   Jsonrpc       jsonrpc::Service, exts/jsonrpc/include/libnode/jsonrpc/detail/service.h. State.antt has
--                 requests, responses and the fields, Request.antt has OnMessage and the responders, and
--                 Service.antt has start(), stop(), addMethod(), postRequest() and what the queue of
--                 Shared/MessageQueue delivers; Named, Responses, Counting, Once, Answers and
--                 Lifecycle have proofs.
--   Jsdp          jsdp::DiscoveryService, exts/jsdp/include/libnode/jsdp/detail/discovery_service.h. State.antt
--                 has services, packets and the fields, Keys.antt the keys of services, and Ops.antt the
--                 operations and callbacks; Runs, Found, Discreet, Secrets, Same, Timeouts and Exchange
--                 have proofs.
--   Shared        FreeList and MessageQueue, include/libnode/detail/free_list.h and message_queue.h.
--   Util          the codecs of src/util.cpp: Hex.antt has the hexadecimal ones, Percent.antt the percent
--                 encoding, Extend.antt extend(); Reference and Roundtrip have proofs.
--   FilePath      src/path.cpp: Normalize.antt has normalize(), Parts.antt has join(), resolve(),
--                 dirname(), basename() and extname(); Pieces, Reduced, Canonical, Joined, Idempotent and
--                 Recombined have proofs.
--   Querystring   src/querystring.cpp: Parse.antt has parse(), Print.antt has stringify(); Cutting and Fields
--                 have proofs.
--   Buffer        Buffer, include/libnode/detail/buffer.h: State.antt has the shared array and its views,
--                 Ops.antt slice(), copy(), concat(), toString(), write() and the reading and
--                 writing of numbers, Splice.antt lemmas on parts
--                 of an array; Copied and Slices have proofs.
--   Base          Boolean tests, lists over the native numbers, case splits.
--
-- How the code becomes definitions: a method with side effects is a function from the object's
-- record to the record, with its Boolean result where it has one; `flags_` is one Boolean for
-- each bit. What a socket asks of libuv is logged in `trace`, what it leaves to
-- process::nextTick in `ticks`, and a use of a null `handle_` sets `fault`. The results of libuv
-- and the text codecs are parameters, and so is the reaction of the listeners and callbacks of
-- net::Socket, of the emitter and of the parser, which may change the object, and that of the
-- callbacks of a datagram socket's bind(). Other listeners act in later steps, after the
-- operation that calls them; what those of a JSON-RPC response tell its responder within the
-- emission is an argument of respond_while. The listeners of an emitter are numbers, and what a
-- call of one does is a parameter that gets the emitter and gives it back, or crashes. A text is
-- the list of its code points. The numbers of a chunk head and of a status line, byteLength(),
-- scanHeaderField() and the date are fields of a record Codec, so that the theorems about
-- messages do not depend on them. String::create() of bytes that the parser reports is a
-- parameter. The two lists `output_` and `outputEncodings_` of a message, which the code always
-- changes together, are one list of pairs, and the maps of header fields are association lists.
-- The sockets and requests of an agent are numbers, and what it keeps for a name is a function
-- of the name. The events of a message are logged, since each is the last thing that its
-- operation does.
--
-- Bounds and fuel: the loop of emit() runs on the number of rounds left, `len - i`, which each
-- round of the code lowers by one, so it needs no other fuel. The scan of a path by normalize()
-- runs on the length of the path as its fuel, since each piece that it reads is at least one
-- separator or the last. The room left in percent encoding, the offsets of a Buffer, the range
-- that a datagram socket sends and `connections_` of a server are machine words of 64 bits, with
-- their wrap-around. `pendingWriteReqs_` is decremented as a machine word (a Size of 64 bits).
-- Other counters are natural numbers without a bound.
--
-- Not modelled: the names that a handle gives for address(), the name lookup itself, the socket
-- listeners, the timeouts and deferToConnect() of a message, src/url.cpp, the fs, crypto and dns
-- parts, base64, the wrappers of libuv, and the libraries libj, libuv, http-parser and openssl,
-- which the repository only names as submodules. What http-parser reports to its callbacks is
-- their arguments.
pub mod Base
pub mod Events
pub mod Net
pub mod Buffer
pub mod Datagram
pub mod FilePath
pub mod Http
pub mod Jsdp
pub mod Jsonrpc
pub mod Querystring
pub mod Shared
pub mod Util
