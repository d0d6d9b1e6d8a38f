-- ===== src/Lib.antt =====
-- Lacewing, the network library of the Bluewing server: its containers, the streams and their
-- queues, the parsing of what an HTTP client sends, the life of a request up to its response, and the
-- messages, frames and identifiers of the relay protocol.
--
-- A request (Lacewing/src/webserver/request.c) is filled by the protocol code, which hands over its
-- version, method, URL and headers; it is given to the hook of its method, and its response goes out
-- with what the hook has queued. It stands on a growing buffer (heapbuffer.c), tables of names and
-- values (nvhash.c) over the uthash macros, linked lists (list.c) and helpers on strings (util.c);
-- sessions (webserver/sessions.c) stand on its cookies.
--
-- The files, by the code that they model, with the C names less their prefix:
-- - Util: Lacewing/src/util.c, lwp_urldecode (urldecode) and the other string helpers.
-- - HeapBuffer: Lacewing/src/heapbuffer.c; Inv is its invariant, Refine its contents as a queue.
-- - LinkedList: Lacewing/src/list.c, with list_each and list_each_r of list.h; elements stand in a
--   memory from addresses, and Segment, Refine, Remove and Loops relate it to a list.
-- - UtHash: the uthash macros as an interface; NvHash: Lacewing/src/nvhash.c.
-- - MimeTypes: Lacewing/src/webserver/mimetypes.c. Error: Lacewing/src/error.c.
-- - Request: webserver/request.c and the structs of webserver/common.h. Its children: Input
--   (lwp_ws_req_in_version, in_method, in_header and in_url, parse_cookie_header), Form (the items of
--   a query and of a body), Output (what a handler sets), Lifecycle (before_handler, call_hook,
--   respond, and client_respond of webserver/http/http-client.c).
-- - HttpClient: webserver/http/http-client.c, def_sink_data and client_tick. Sink follows the data through
--   it, Pieces data that come in pieces. Callbacks has webserver/http/http-parse.c, Head and Requests
--   the callbacks for a request.
-- - FrameReader: Lacewing/FrameReader.h, the frames of the relay protocol. Feed is a reader that takes
--   one byte at a time, Header and Process relate the two, Frames has the frame of Lacewing/FrameBuilder.h and
--   inputs in pieces, and RoundTrip the messages that come out.
-- - Stream: Lacewing/src/stream.c. Write has lwp_stream_write, Queue the draining of the queues, retries
--   and begin_queue to end_queue_hb, Close lw_stream_close. Order, Rounds, Started and Drain follow the
--   draining loop, Free, Plain and Traces calls of a program, Push a source, PutBack, Heads and
--   Response the head of a response, Sources and Stalls what goes wrong, Progress a sink that goes on taking data, and
--   Length lw_stream_queued.
-- - StreamGraph: Lacewing/src/streamgraph.c, find_next_direct and the size that graph_read asks for; Direct
--   has what is found.
-- - IdPool: Lacewing/IDPool.h; Laws has what a pool may look like, Reach how it comes about.
-- - Message: Lacewing/MessageBuilder.h (Builder, and Grow for its memory) and Lacewing/MessageReader.h
--   (Reader), and RoundTrip between them.
-- - Address: Lacewing/src/address.c, what a host name is split into, ports and equality.
-- - Multipart: parse_disposition of webserver/multipart.c. Uploads has the callbacks for the parts of a
--   body, with the uploads and autosave files of webserver/upload.c.
-- - Sessions: webserver/sessions.c.
-- - Prelude and CLib: names that the files share, and what is used of the C library.
-- - Tests: runs on concrete input.
--
-- A stream (stream.c) stands in front of a sink that may take a part of what it is given. What waits is
-- kept in two queues: the front queue holds what a source that is linked to the stream has handed over,
-- the back queue what other calls have written since. The sink is a function of the number of the call
-- and the data. What the reading of the graph makes of a stream that a source has just been linked to is a
-- parameter of the stream; what the source hands over later comes in calls of their own.
--
-- Bytes are natural numbers, a string in memory is a list of them, and cstr is what a C string reads
-- as. A record holds the fields of its struct. The size_t of the buffer wraps at 2 ^ 64. Where the
-- code would read past the memory that it is given, or fail an assertion, the result is none.
--
-- Loops that the source runs on an index run here on fuel: urldecode gets one more than the length
-- of its input, of which each round takes at least one byte; the item loop gets one more than the
-- length of its text, of which each round takes at least the '='; the growing loop of the buffer
-- gets the length that is asked for, since each round at least adds one to a positive size; the
-- loops over a linked list get its length; the recursion of the frame reader gets one more than the
-- length of its input, of which each message takes a byte. The search in the graph of streams runs out of
-- fuel where the graph has a cycle, in which the code does not end.
--
-- Parameters are the uthash tables, the http-parser library, multipart parsers (also those of a part
-- that is a multipart of its own), what the retry behind a response brings, which allocations
-- succeed, the bytes of the random generator and the handlers. Not modelled are the event pump, sockets,
-- TLS, SPDY and the relay server and client, which are system calls or build on them, and the C++
-- wrappers; nor are the expansion of the graph of streams, the creation of HTTP clients, most headers of a
-- part, and the resolving of addresses.
pub mod Prelude
pub mod CLib
pub mod Util
pub mod HeapBuffer
pub mod UtHash
pub mod NvHash
pub mod MimeTypes
pub mod Error
pub mod Request
pub mod Address
pub mod FrameReader
pub mod LinkedList
pub mod Multipart
pub mod Sessions
pub mod Stream
pub mod StreamGraph
pub mod IdPool
pub mod HttpClient
pub mod Message
mod Tests
