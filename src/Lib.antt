-- ===== src/Lib.antt =====
-- Verification of the evaluation server of Code/evaluation: an HTTP server on plain sockets.
--
-- `main` reads the command line, sets up a pipe that SIGINT writes to, and runs an HTTPServer. Its
-- loop polls the pipe and a listening TCPSocket; each client becomes an HTTPWorker, which reads one
-- request through a SocketStream, checks it, calls the handler of its resource, sends the response
-- and closes. One handler sends a request on to another host. All of them log through Logger.
--
-- Which file models what, below Code/evaluation/src:
--   Socket.antt: class TCPSocket (TCPSocket.h, TCPSocket.cpp), one function for each method, and the
--     set `ports_in_use`; the files of Socket/ are about `send`, the ports, timeouts and ownership:
--     Socket/Owned.antt is what a program may do with the descriptors that it holds, and the files
--     Owned.antt of Worker/, Server/ and Main/ follow the program along it.
--   Stream.antt: class SocketStream of the same files. Stream/Cursor.antt has a second reader, over a
--     whole text; the other files of Stream/ relate the two.
--   Reader.antt: the operations that the parsers use, which both readers fill.
--   Http.antt: HTTPRequest and HTTPResponse (HTTPServer.h, HTTPServer.cpp) and their text;
--     Http/Parser.antt: `parseRequest` and `parseResponse` over any reader. Http/Delivery.antt runs
--     them over a text; the other files of Http/ are about what they accept and read back.
--   Worker.antt, Worker/Click.antt: HTTPWorker::run, the handlers and the forwarding; the other
--     files of Worker/ are about its guards, its answers and the counter of query ids.
--     Worker/Expected.antt is the table of responses, apart from the code; Worker/Reply.antt, its Table
--     and Worker/Ids.antt compare it with what the guards and the handlers send and count.
--     Worker/Service.antt and below: `run` on whatever a client sends.
--   Server.antt: HTTPServer, with its loop as a relation in Server/Loop.antt and over a sequence of
--     clients in Server/Traffic.antt and below; Main.antt, Main/Signals.antt: main.cpp behind
--     `getopt_long`; the other files of Main/ are about its arguments, its loggers, its shutdown
--     and its whole run.
--   TimeUtil.antt: TimeUtil.cpp; its files read the fields of a time back, digit by digit.
--   Logger.antt and below: class Logger (Logger.h, Logger.cpp); the time of a line is an argument.
--     Logger/Message.antt follows a message from `LOG` to the workers.
--   TestUtil.antt: Code/unittest/TestUtil.hpp, beside the program.
--   Text.antt, Text/Decimal.antt: what is used of <cctype>, std::string, std::to_string, std::stoul.
--   Common.antt: shared names; Common/Outcomes.antt is how a call can end, and Common/Ensures.antt
--     what can be said of its value. Tests.antt and below: examples.
--
-- Parameters: the operating system is a record of calls over the state of the outside world
-- (System.antt), with further ones for signals and for log files, and nlohmann::json a record over
-- any type of values (Json.antt), whose `dump` may throw. `Delivers` in Stream/Follows.antt says that
-- what `recv` hands over is a finite text; `Takes` in Socket/Sending.antt says that `send` takes a
-- front of what it is given, and some of it;
-- `Pipe` in Main/Shutdown.antt says that what is written to a pipe is what `poll` reports, unless it
-- is interrupted; `Peer` in Socket/Peer.antt says what calls on other sockets leave alone;
-- `Descriptors` in Socket/Owned/Open.antt says which calls open and close a descriptor;
-- `Traffic` in Server/Traffic.antt says which clients come, one behind the other, and that then the
-- shutdown does; `ShortDumps` in Worker/Service/Limits.antt bounds the texts that the JSON library
-- makes.
--
-- Bounds: an unsigned int is 32 bits and wraps, and a port 16; a position is an unsigned int. Each
-- loop takes fuel. For the stream and the parsers a number above the length of the text is enough,
-- for `send` one above the length of the message, which `message_room` bounds by the request's;
-- `serve` takes the number of rounds of the server's loop, which only ends with the server: one more
-- than there are clients, and rounds without a client, before the shutdown.
--
-- Not modelled: the test cases, the log lines that the other classes write, threads and locks (the
-- server has one thread), Util, which names an `errno` in log lines, the order in which an
-- `unordered_map` hands out headers (here: the order of insertion), and the loss of log lines where a
-- log file cannot be opened. Nor is the undefined behaviour of `isspace` and `tolower` on a negative
-- char, which a byte above 127 is where char is signed: here both are defined on every byte; nor that
-- of the log line in `main` that writes a null `optarg` for `-c`.
pub mod Common
pub mod Http
pub mod Json
pub mod Logger
pub mod Main
pub mod Reader
pub mod Server
pub mod Socket
pub mod Stream
pub mod System
pub mod TestUtil
pub mod Tests
pub mod Text
pub mod TimeUtil
pub mod Worker
