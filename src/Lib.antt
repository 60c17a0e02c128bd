-- ===== src/Lib.antt =====
-- A model of tunnel-lite, the client of the tunnel written in C++, and of the library of its Qt client, and
-- the theorems about them.
--
-- The client keeps WebSocket connections to a server (tunnel-lite/src/net.cpp). Over each it registers
-- its tunnels and takes messages (tunnel-lite/src/codec.hpp), in JSON (tunnel-lite/src/json.hpp, with
-- Base64 of tunnel-lite/src/util.hpp) or in binary frames. For a stream that the server opens it connects
-- to a local service and passes the bytes on, or it runs one HTTP request (tunnel-lite/src/main.cpp).
--
-- Base: lists, byte strings, integers, sorted dictionaries for std::map, and the tests on numbers.
-- Base64: b64encode and b64decode.
-- Wire: the structs W and R of codec.hpp; what R throws is a value of Wire.Result.
-- Json: values, printer and parser of json.hpp. A double is a parameter, Json.Number.Doubles.
-- Codec: the structs of codec.hpp, the enc functions, decServer, and encode_server of
--   tunnel-server/src/binproto.rs, the other end of the wire.
-- Net: readExact, sendFrame, recvMessage, the handshake of connect and the URLs of net.cpp.
-- Client.Options, Client.Args: parseTunnelSpec, httpBaseFromWs, splitAddr, the options of main.
-- Client.Groups: which tunnels share a connection, and the wait before the next try.
-- Client.Streams: runOnce, handleTcpStream, the jobs of handleHttpStream, Session and Stream, as steps of
--   one machine, of one connection. A step is what a thread or a job does under one lock, or between two
--   calls that may block; run takes any sequence of steps. What a job sends is that of Client.Http.
-- Client.Pool: LocalPool and Pool. Client.Http: readHttpHead, runHttpOnce, handleHttpStream, httpRequest.
-- Client.Mgmt: the loop of wsMgmt.
-- Desktop: the library of the Qt client (tunnel-cpp/core/src). Desktop.Protocol: Protocol.cpp, over the
--   record Desktop.Qt of what it uses of Qt. Desktop.Config: Config.cpp. Desktop.Api: Api.cpp.
--   Desktop.Forwarder: Forwarder.cpp, each slot a function that returns the signals it emits.
--   Desktop.Client, Desktop.Session: Client.cpp, a machine whose steps are the events of Qt's loop, in any
--   order; forwarders are objects that may outlive their stream.
-- Examples, Client.Examples, Json.Examples, Desktop.Examples: runs at small inputs.
--
-- Bytes are natural numbers, and a fixed width is written out as % 2 ^ w. Reads of a socket are lists of
-- what arrives: events with timeouts for the WebSocket, pieces for a local service. The random bytes of a
-- mask, the clock and the network are arguments. Loops run on fuel where their number of rounds depends on
-- the input: recv_message on the number of frames, read_length above the length of the body, read_chunks
-- and read_all above the number of reads that the input can serve, on_lines on the length of the head,
-- and the JSON parser on twice the length of the text.
--
-- Not modelled: the calls of the operating system, of OpenSSL and of Qt, logging and help, loginMain and
-- apiMain, the windows and the command line of the Qt client, the rest of the Rust server,
-- TunnelMac.
pub mod Base
pub mod Base64
pub mod Wire
pub mod Json
pub mod Codec
pub mod Net
pub mod Client
pub mod Desktop
pub mod Examples
