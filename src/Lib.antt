-- ===== src/Lib.antt =====
-- A verification library for the video server: its parts that decide and compute, in cubical
-- type theory, with the theorems that make them correct.
--
-- The program is a C++ server (code/) that serves web pages over HTTP and H.264 files over RTSP
-- and RTP, and the scripts of its pages (resources/js, with a copy in bin/resources/js).
-- Connections read and write through a `Buffer`, from which `HttpRequest` parses requests and to
-- which `HttpResponse` writes replies, and a `HeapTimer` closes those that are idle;
-- `RTP` cuts a file by `H264Parser` into frames and sends them in packets. The scripts run in the
-- browser on top of jQuery.
--
-- Which file models which part:
--   Base               shared names: lists as arrays, tests on numbers, bit operations, C++'s
--                      `int` and `size_t`, and calls that may fail an assertion (`Run`)
--   Buffer             code/buffer: the buffer, with one function for each method of `Buffer`
--   Buffer/Contents    the readable bytes; Buffer/Refine: what each call does
--                      to them; Buffer/Runs: a queue of bytes as specification
--   Timer/Heap         code/timer/heaptimer.h, heaptimer.cpp, with one function for each method;
--                      its children are the invariant (Order), swaps and the two sifts (Swap, Up,
--                      Down), `del_` and `doWork` (Delete), `add` and `adjust` (Insert), `tick` and
--                      `GetNextTick` (Ticks, and Fired: the callbacks), and its size (Few)
--   Rtp/Header         code/rtp/rtp.cpp: `RTP_Header` and `makeRtpHeader`
--   Rtp/H264           code/rtp/h264parser.cpp: start codes and `get_next_frame`
--   Rtp/Stream         code/rtp/rtp.cpp: `packRTP`, `pushStream`; its children are what is sent
--                      (Fragments), sequence numbers (Packets), sizes and marks (Sizes) and
--                      whole files (Serve)
--   Rtp/Session        the thread of PLAY, `sendRTPPacket` of code/rtsp/rtspresponse.cpp: the mapped
--                      file, the sockets, `init` and `setPort`, and the stream; its ends are
--                      Delivers and Fails
--   Http/Request       code/http/httprequest.h, httprequest.cpp: Form is the decoding of forms (with
--                      the forms of plain bytes in Encoded, Rounds and Ends), Users is `UserVerify`, and
--                      Parse is `parse` with the parsers of lines (Lines, Total, Refuses)
--   Http/Response      code/http/httpresponse.h, httpresponse.cpp, with the text of a whole reply
--                      (Text), its code and file type (Choice) and the file that is sent (Mapped)
--   Conn               code/http/serverconn.h, serverconn.cpp: the state of a connection; Io is `read`
--                      and `write` (Read, Ready, Advance, Write, Same), and Process is `process` with an HTTP request and
--                      its reply (Http), a refused one (Refused) and an RTSP request (Rtsp)
--   Rtsp/Request       code/rtsp/rtsprequest.h, rtsprequest.cpp: the lines of a request, with the
--                      sequence number (Fields), the URL (Url), the loop over the buffer (Reads) and a
--                      whole request with its header lines (Whole)
--   Rtsp/Response      code/rtsp/rtspresponse.h, rtspresponse.cpp: the replies (Answers), and what
--                      they keep (Kept, Session)
--   Server             code/server/webserver.cpp: the event modes and `OnRead_`, `OnProcess` and
--                      `OnWrite_` (Handlers, Requests: a request that comes in pieces, and Kept: what
--                      they leave of a connection)
--   Server/Users       `users_`; Server/Interest: the calls of `epoll_ctl` of code/server/epoller.cpp
--                      and what the kernel documents of them
--   Server/Loop        `Start`, `DealListen_`, `AddClient_`, `CloseConn_` and the timeouts; its children
--                      are the invariant of the users (Sound) and of the timer (Timers), and what
--                      keeps it: a new client (Accept), a round (Round), an event (Dispatch)
--   Server/Steps       the loop and the workers as steps: what holds in every state (Sound), and that
--                      a connection is given to one thread at a time (Exclusive)
--   Server/Setup       `InitSocket_`: the set-up of the listening socket, as the calls that it makes
--   SocketUtils        code/utils/groupsocketutils.cpp, and `GetIpAddr` of code/server/webserver.cpp with
--                      what it finds (Choice)
--   ThreadPool         code/pool/threadpool.h: the workers as steps (Safety, Liveness)
--   Pool               code/pool/sqlconnpool.h, sqlconnpool.cpp, sqlconnRAII.h: the pool as steps of
--                      threads, with what holds after any steps, until and after `ClosePool` (Steps)
--   Log/Lines          code/log/log.h, log.cpp: `init`, the macros, and the line of a call of `write`
--                      and its file (Written)
--   Log/Queue          code/log/blockqueue.h: the log's queue as steps of its producers and consumers,
--                      against a plain list (Replay)
--   Page/JQuery        the interface to jQuery, its plugins and the browser, as parameters
--   Page/Custom        resources/js/custom.js; Page/Popup: resources/js/magnific-popup-options.js
-- The modules called Tests run the code, and apply the theorems, at concrete inputs.
--
-- State is a record that the operations take and return. An assertion that fails is `abort`.
-- Numbers are natural numbers: sizes and indices stay below 2^63 where a theorem says so, and a
-- wrap-around is written out. The loops of the heap run on fuel, one more than the index or the
-- number of nodes: going up halves the index, and going down doubles it. `tick` has a round for
-- each node; `pushStream`, both `parse` and the loop over a form have one for each byte and one more,
-- and `write` has one for each byte that is offered. `read` runs on the list of what `readv` delivers.
-- The theorems on their results show that this is enough.
--
-- What the code does outside itself is a parameter: the readings of the clock, what `readv`, `writev`
-- and `write` report, the answers of MySQL and of the file system, `sscanf`, the node that the timer
-- reads out of bounds, what the constructor of a connection leaves unset, `accept`, `epoll_wait`, and jQuery.
-- What is undefined in C++ is `abort` too: a write past the end of an array in an object, the reply to DESCRIBE,
-- whose text `generateSDPDescription` writes past its allocation, and a SETUP header line with a key word,
-- on which `processRequest_Setup` flows off its end.
--
-- The theorems on replies over HTTP take the files and the database as `IsProvided` says: a file that can
-- be opened has a status and at least one byte, and `mmap` maps it whole (for an empty file it fails, which
-- the code does not allow for); sizes are less than 2^64; and the pool has a connection for every call of
-- `UserVerify`.
--
-- A step of the server is a round of its loop up to `Wait`, the handling of one event, or a whole task of
-- a worker; the kernel chooses the events, the new clients and the results of the sockets, and the time
-- passes as it likes, as far as `epoll`, `accept` and a steady clock allow.
--
-- Not modelled: the system calls of sockets and epoll themselves; threads that work on one connection at
-- the same moment, as that of PLAY and the next request; the writing of the log's files and the code
-- timer, which are I/O; a read of the byte behind a mapped file whose size is a multiple of the page size;
-- whether `sendto` takes a packet that it is handed; the getters; and the libraries in resources/js, which are other projects'.
pub mod Base
pub mod Buffer
pub mod Timer
pub mod Rtp
pub mod Http
pub mod Conn
pub mod Log
pub mod Page
pub mod Pool
pub mod Rtsp
pub mod Server
pub mod SocketUtils
pub mod ThreadPool
