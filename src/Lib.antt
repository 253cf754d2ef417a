-- ===== src/Lib.antt =====
-- HttpStackLens, a local HTTP/HTTPS debugging proxy written in Go. Go strings and byte slices are
-- lists of bytes, machine integers are native numbers or the integers of Base/Integers with their
-- two's complement words, and a call that moves a stream returns its result and the moved stream.
--
-- Storage (storage/): Binary has the little-endian primitives, CaptureRecord the records of a
-- .capture file, Checksum CRC-32C, SessionWriter and SessionReader the two ends of the format, and
-- RequestStore the exchanges that the Web UI asks for, StorageSink the switches of the process. A
-- file of a session is any writer that appends what it accepts; opening, flushing and closing a
-- file is a call of the operating system that StorageSink takes as a parameter.
--
-- Http (http/): Messages has the types of http/models with their header operations, Decimal strconv,
-- Requests and Responses the writers of http/models/requests.go and responses.go, and Responses also
-- ReadHttpResponseBody of http/http_request_reader.go. The digits of a number run on fuel, its
-- successor, since a number has fewer digits than that.
--
-- Configuration (configuration/): CaptureRules has the limits of config.go, by content type. The
-- arithmetic of float64 is the parameter Float. AccessControl has access_control.go, with package
-- netip as the parameter Netip; Policy and Allowed say whom a configuration lets in.
--
-- Proxy (proxy/middlewares/): BodyCapture has captureLimitWriter and capBody of
-- https_interceptor.go and readLimited of composer_sender.go; NoProxy has MatchesNoProxy of
-- no_proxy_router.go, with package net as the parameter Net; UpstreamAuth has
-- upstream_auth_connection.go.
--
-- Runtime: Settings has the configuration that is edited, Machine the operating system as a parameter
-- with the pipelines and listeners of proxy_server.go, proxy/proxy_server.go and app_unix.go,
-- DecryptHttps decrypt_https_runtime.go with SwitchableMiddleware, and Supervisor with Commands
-- runtime_supervisor.go. The supervisor is one goroutine, so a command is a step from state to
-- state; a call of the operating system moves a world and may fail each time it is made. Recording
-- has recordTopLevelRequest of proxy_server.go.
--
-- Parsing (http/parser, helpers/parsing_helpers.go): the combinators of EasyParsingForGo are the
-- parameter Library, and IsLibrary says what the parsers rely on; Http has the parsers of request
-- lines, headers and response heads. Simple is a small library, which Lawful shows to be one.
--
-- Composer (composer/): Grammar has http_file_parser.go, Scan http_file_scan.go and Highlight
-- highlight.go. A text is a list of code points there. Loops over lines and tokens have a round for
-- each code point; the loop over blocks and the one over the headers of a block take their rounds
-- from outside, since the second need not come to an end. net/url's Parse and fmt's %q belong to the
-- library.
--
-- Persistence (configuration/config_persistence.go): the edits of config.yaml, as functions of its
-- text; Settings has what is written of each setting, and the steps that read and write the file,
-- which is a parameter as the formats of strconv are. Values is about the edit of one value, Sections
-- and Repeated about the edit of a section, Whole and BlankEnd about the lines of a text, Rendered,
-- Upstream and Rules about the lines written.
--
-- WebUi (webui/): HttpFiles has http_files.go, the composer's collection of .http files, and Handlers
-- its requests. Paths are names in the folder, and package os at that folder is the parameter Files;
-- Names says what a name that is let through looks like, Kept what a request may change.
--
-- Case mapping and white space are those of ASCII, where Go also knows some code points beyond it.
-- A counter of bytes is a number: no stream has 2 ^ 63 bytes; a limit that is configured can be any
-- int64, and its overflow is written out. All other recursion is structural.
--
-- Not modelled: the transports of net/http and crypto/tls, certificates and Windows authentication,
-- which are calls of libraries and of the operating system; the browser's user interface
-- (webui/wasm/), which is calls of the DOM; reading the configuration, which the YAML package does;
-- the handlers of webui/ui_server.go and the sender of composer_sender.go, but for the body of a
-- response; logging, the start of the program and the build tools.
pub mod Base
pub mod Composer
pub mod Configuration
pub mod Http
pub mod Parsing
pub mod Persistence
pub mod Proxy
pub mod Runtime
pub mod Storage
pub mod WebUi
