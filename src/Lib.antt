-- ===== src/Lib.antt =====
-- Geruest is a C++ library for web servers. A request path is brought to a normal form, a leading
-- language is taken off, and redirects, gates and routes are looked up, by exact path and then by
-- wildcard pattern; responses are escaped, cached and sent, or the connection becomes a WebSocket.
-- A text is a list of bytes, a `std::unordered_map` an association list whose order is the order
-- in which a loop over the map sees it, and handlers are type parameters.
--
-- * Wildcard (src/data/WildcardMatch.cpp): `matchesWildcardPattern`, on the C strings of its
--   arguments, and the capture of a single star. `scan` is the loop over the rest of the text.
-- * Language (src/data/LanguageConfig.cpp): `extractSupportedLanguagePrefix` and what is built on it.
-- * Paths (src/data/ServerTypes.hpp): `canonicalRequestPath`, `defaultPageGateRedirect`.
-- * Routes (src/data/RouteRegistry.cpp): the record of the registry's maps, adding and finding of
--   routes and redirects. Routes/Best is the loop that picks the best wildcard pattern,
--   Routes/Redirects and Routes/Longest are about redirects, Routes/Settings has the setters.
-- * Gates (src/data/GateRegistry.cpp): page gates and route gates, synchronous and asynchronous.
-- * Security (src/security/Security.cpp): `escapeJson`, `escapeHtml`, `escapeSql`, `buildQuery`.
--   The readers that the escapes are judged by are Security/Json, Html and Sql.
-- * Base64 (src/security/Base64.hpp): `base64Encode` and `base64Decode`.
-- * WebSocket (src/server/WebSocket.cpp): the frame codec; WebSocket/Connection is the connection
--   with its flags, its written frames and `readMessage`. What comes of each write that it awaits is
--   an argument: a frame is written, fails, or waits for ever behind a frame of `sendNow` that
--   failed, and then the call does not return, which the model says by none or `waits_for_ever`.
--   WebSocket/WriteChain is the queue of frames
--   with its coroutine, whose calls, posted functions and writes are steps in any order.
--   WebSocket/Handshake and WebSocket/Sha1 are the helpers of the opening handshake, and
--   Dispatch/Upgrade (src/websocket/WebSocketUpgrade.cpp) is the hook that uses them.
-- * Json (src/parser/JSONParser.cpp): Json/Reading has the readers of keys and values, Json/Parsing
--   `parseJSON` and `parseArray`, Json/Printing `toString` and the sizes that it reserves,
--   Json/Setting the setters and `removeKey`, Json/Getting the getters, Json/Arrays
--   `parseArrayString`, and Json/Numbers the numbers. The map `data` is an association list, and an
--   element of an array a parser.
-- * Http (src/data/HTTPRequest.cpp, src/handler/HttpFraming.cpp): Http/Headers, Http/Chunked and
--   Http/Request are the first file, from the end of the header section to the request with its
--   parameters, and Http/Framing is `readNextRequestAsync` of the second.
--   The socket is the list of what its reads return; the response 400 and the results of the sends
--   are parameters. Http/Response (src/data/HTTPResponse.cpp) is a response and its text.
-- * Auth (src/auth/BasicAuth.cpp): Basic authentication, with SHA-256 in Auth/Sha256.
-- * Cors (src/data/CorsConfig.cpp): the options, the origin and path tests and the headers that
--   `applyCorsHeaders` sets.
-- * Cache (src/data/TextResponseCache.cpp, src/data/DevAssetCache.cpp): the text response cache,
--   with the time of a file as a parameter, and the cache of merged assets and images.
-- * Dispatch (src/handler): Dispatch/Routing is `handleRequestAsync`, the dispatcher and the access
--   checks of `sendFileAsync`, Dispatch/Session `runAsync`, Dispatch/Gating the gates and Basic authentication of a page,
--   Dispatch/Files the file that a path names, and Dispatch/Compression what is compressed. A call
--   gives the list of its events; the callbacks of the application, zlib, the path test and the
--   hooks of the modules are the fields of `Environment`.
-- * Metrics (src/data/ServerMetrics.cpp): the counters, the buckets of the last sixty minutes and
--   the ring of latencies; Metrics/Reports is what is read off them, and Metrics/Sorting holds what
--   sorting keeps. An array is a function of its
--   index, and the clock an argument.
--
-- Dispatch uses Cors, Gates, Routes, Auth and Http/Response as the handlers use those classes.
-- Framing cuts a message off the bytes of a connection with the functions of Http/Headers and
-- Http/Chunked, and the request parses its JSON body with Json. Json uses `escapeJson` of Security.
-- Routes, Gates, Json and Cache use the maps of Prelude/Assoc; Routes and Gates use Wildcard, Language
-- and Paths, as the registries use each other in the source.
--
-- Bounds. `follow_redirects` is given the 32 hops of the source. `read_loop` is given one round for
-- each byte of input and one more: a frame takes at least two bytes. `position` of Base64 and the
-- other loops are structural recursion, and `decode_loop` consumes its input. `parse_json` and
-- `find_chunked_body_end` are given a count of rounds, since both have inputs on which the source
-- does not return: `out_of_rounds` is no result of the source. The requests of a connection are
-- counted in 32 bits, as in the source. Sizes are natural numbers; `WebSocketLimits` below 2 ^ 64 is a hypothesis where a length is added to a header.
--
-- Not modelled: sockets, threads and locks (an operation under a lock is one step), `isSafePath`,
-- which is the file system's, the reading and sending of files, the saving of the counters, the building of assets and the obfuscation of scripts,
-- databases, mail and configuration. Floating-point numbers are what the parameters of Json/Getting
-- and Json/Setting make of a text; the sum of fill levels in Metrics has a parameter for its type.
pub mod Prelude
pub mod Wildcard
pub mod Language
pub mod Paths
pub mod Routes
pub mod Gates
pub mod Http
pub mod Security
pub mod Base64
pub mod WebSocket
pub mod Cache
pub mod Cors
pub mod Dispatch
pub mod Metrics
pub mod Auth
pub mod Json
