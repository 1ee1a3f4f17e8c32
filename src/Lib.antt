-- ===== src/Lib.antt =====
-- coconut is an event-driven network library in C++: sockets over libevent, controllers that own
-- them, and protocols that make messages of the bytes. This library models the path of the bytes,
-- from what a socket has read to the messages that a controller hands on, and from a message to what
-- a socket sends.
--
-- The parts and how they interact. A `ClientController` reads a chunk from its socket, gives it to
-- the reading buffer of its current protocol, and lets the protocol parse. A complete protocol is
-- handed to the observers and to the controller's callback, and what remains behind the message goes
-- to a new protocol. A protocol is a `BaseProtocol` with a reading and a writing buffer, each of them
-- a `BufferedTransport`, and reads and writes its integers and strings by `VirtualTransportHelper`.
-- What is written goes to a `TcpSocket`, which keeps it in a kbuffer or in libevent's own buffer until
-- it is sent. A `ServerController` owns the controllers of the connections that it accepts, and a
-- `RedisRequest` keeps the commands whose replies hiredis has still to bring.
--
--   Base      Names passed on, lists measured by native numbers, machine integers, and `M S A`, a
--             method call on a state S, which returns, throws, or does what C++ leaves undefined.
--   Buffer    src/BufferedTransport.h and .cpp. `Buffer` has the methods on the string and the
--             position, and `Codec` the integers and strings (readInt32 is read_int32, and
--             read_int32_into for the overload with a reference). `Valid` and `Queue` relate the
--             methods to a tape, `RoundTrip` and `Strings` what is written to what is read.
--   Wire      src/VirtualTransportHelper.h and src/BaseVirtualTransport.h: the same over any
--             transport, a record of its read and write. `Agree` compares it with the buffer's own.
--   Protocol  `Frame` is src/FrameProtocol.h and .cpp with what it uses of src/BaseProtocol.h and
--             .cpp; its child `Writing` has the rest of its methods, `Parse` the header's words,
--             `Delivery` whole frames, `Split` frames in two chunks, `Short` headers with a length
--             below 16, `Serialize` and `Send` the sender, with `send_frame` for `writeFrame` of
--             src/FrameController.cpp.
--             `Line` is src/LineProtocol.h and .cpp; `Scan` has its loop, `Delivery` lines in one
--             chunk, and `Chunks` the others. `Strings` is src/StringListProtocol.h and .cpp, with
--             `RoundTrip` and, for a list that is cut, `Cut`.
--   Client    src/ClientController.h and .cpp with the timer part of src/BaseController.cpp. `Read`
--             has `onSocket_ReadEvent` and `onSocket_ReadFrom` over any protocol, given as the record
--             `Protocol` of its virtual methods. `Frames`, `Stream`, `Chunks`, `Endless` and `Datagram`
--             run it on frames, and `Rearm` and `Reconnect` follow the reconnect timer.
--   Kbuffer   src/dep/kbuffer.c, the byte queue that a socket keeps for its write events: chunks in a
--             store, linked both ways. `Queue` is the list of chunks that it stands for, `Seg` says how
--             it stands for them, and `Add`, `Free` and `Drain` are about its functions.
--   Tcp       src/LibeventTcpSocketImpl.h with the members and event functions of src/BaseSocket.h and
--             .cpp. `Tcp` has the state, the reports to the handler and the closing, `Connect` and
--             `Transfer` the other methods. `History` has the histories of calls and events and the
--             invariant, `Opening` and `Invariant` keep it, `Sending` and `Order` follow the bytes of a
--             connected socket, `Closing` is about `closeAfterAllSent`, and `Pending` and `Timeout`
--             about sockets that are not connected yet. Its kbuffer is the list of chunks of
--             Kbuffer/Queue.
--   Redis     src/RedisRequest.cpp and .h: `Redis` has the tickets and commands, and `Connection` the
--             connection and the timers. `Once` and `History` count the calls of a handler, `Reserved`
--             is about commands before the connection, `Cancel` and `Ttl` about their timeouts, and
--             `Trim` and `Split` about commands in one string.
--   Server    src/ServerController.cpp and .h: the set of clients, and in `Removal` how closed clients
--             leave it.
--   Http      src/LibeventHttpClientImpl.h with `HttpParameter` and the enumerations of
--             src/HttpClient.h. `Http` has the state and cleanUp, `Texts` and `Content` what goes into
--             a request, `Requesting` the requests and cancelRequest, `Answering` libevent's
--             callbacks. `Query` is about the query, `Body` says what a request is made of, and
--             `Building` and `Made` that the code makes it; `History`, `Cleaning`, `Answered` and
--             `Invariant` are about the histories of a client, `Chunked` about responses in chunks,
--             `Repeated` about what one request leaves for the next, and `Reentered` about a handler
--             that makes a request.
--   Deferred  src/DeferredCallerImpl.h: the queue of deferred calls with its vector's capacity,
--             a turn of the loop over which is `Pass` and a pass over which is `Order`.
--             `Observers` is src/BaseControllerEvent.h and .cpp, and `Told` says who is told;
--             `Tickets` has the observers of a response, by ticket.
--   Session   A controller with its socket: the chunk of `onSocket_ReadEvent`, and `writeFrame` of
--             src/FrameController.cpp through `TcpSocket::write`. `Writing` follows the frames into a
--             bufferevent and `Delivery` from there to the other controller.
--
-- The modules called Tests have runs at concrete values.
--
-- Integers. A size_t is a number below 2 ^ 64 and an int the 32-bit pattern of its two's complement,
-- and each conversion and wrap-around of the code is written out (Base/Words). Most theorems ask that
-- an int can count the bytes of a buffer, as the code takes for granted by keeping its read position
-- in an int. The host has its low byte first.
--
-- Fuel. The reading loop of the controller runs on fuel, one unit for each turn. Two units more than
-- the number of whole frames in the chunk are enough, and for one kind of frame no fuel is. The loops
-- of a kbuffer run on one unit for each chunk and one more. A pass over the deferred calls needs one
-- unit for each call, those included that are deferred meanwhile, and one more.
--
-- What is not modelled. Mutexes: each method is one step. The callbacks of a user's subclass, the
-- handler of a socket and the handlers of a Redis client, which are taken not to change the
-- controller, the socket or the client; they are in its log. The raw pointers into a buffer are the
-- bytes that they point to, or an offset, and reading outside of the buffer is `fault`. A nested
-- payload protocol of a frame is the bytes that it leaves to be written. The code under
-- PROTOCOL_READ_FROM_SOCKET is not compiled, and neither are the branches for Windows. What libevent
-- and the system answer to a socket is an argument of its methods, and their calls on NULL are a
-- fault. A write to a socket is of fewer than 2 ^ 31 bytes, and malloc is taken to give a new address
-- to a kbuffer. `kbuffer_add_printf` is left out, as are the addresses and the destructor of a socket.
-- hiredis is what the Redis client gives it and what it answers, and RedisResponse is left out.
-- libevent's evhttp functions are the record `Libevent` of their answers, a URI without a host is
-- met by an assertion or a NULL pointer, which is `fault`, and the parameters that a user gives by a
-- pointer are taken to live and not to change. evhttp_make_request is taken to succeed: the code
-- ignores its result, and the state behind a failure, in which the client keeps a pointer to a request
-- that has been freed, is not modelled. In the histories of an HTTP client the event handler calls
-- nothing while a request is cancelled, and what it calls in a callback of libevent is the next action;
-- `Reentered` has one that makes a request. A method in the vector of deferred calls is called in
-- place, so that it is a `fault` when the vector moves its elements meanwhile, and the capacity that
-- the C++ library then chooses is the parameter `grown`. An observer of another thread that has not
-- been initialized has no deferred caller, which is a `fault`. The methods that are deferred are given by those that
-- they defer in turn, and a parent protocol of a list of strings by its answers. The timers,
-- services and listeners over libevent, UDP sockets, the HTTP server, the JSON protocol and file
-- descriptors are not part of this library, nor are the copies of libjson and MPFDParser that the
-- repository carries.
pub mod Base
pub mod Buffer
pub mod Client
pub mod Deferred
pub mod Http
pub mod Kbuffer
pub mod Protocol
pub mod Redis
pub mod Server
pub mod Session
pub mod Tcp
pub mod Wire
