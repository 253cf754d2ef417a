-- ===== src/Http/Requests.antt =====
-- http/models/requests.go: how a request is written to the upstream proxy and to the origin.
pub mod Writing
use http_stack_lens.Base.{
  ℕ, ◌+◌, Bool, true, false, ◌&&◌, ◌||◌, not, Option, none, some, List, [], ◌∷◌, ◌++◌, Bytes, codes,
  equal, to_lower, has_prefix, contains, if◌then◌else◌, ◌==◌, ℤ, pos, equal_int,
}
use http_stack_lens.Http.Messages.{
  Header, ResourceEndpoint, HttpRequestLine, ProxyRequest, is_connect, decimal,
}

-- An io.Writer: how many bytes it took, and its error.
pub record Writer (W E : Type 0) : Type 0 where
  pub write : Bytes → W → (ℕ × Option E) × W

-- net.JoinHostPort
unfoldable pub join_host_port : Bytes → Bytes → Bytes
join_host_port host port =
    if contains host (codes ":")
    then codes "[" ++ host ++ codes "]:" ++ port
    else host ++ codes ":" ++ port

abbrev pub crlf : Bytes
crlf = 13 ∷ 10 ∷ []

-- "/" in front of an empty path and of a query without one.
unfoldable pub origin_form : ResourceEndpoint → Bytes
origin_form e =
    if equal e.path_and_query [] || has_prefix e.path_and_query (codes "?")
    then codes "/" ++ e.path_and_query
    else e.path_and_query

unfoldable pub default_port : Bytes → ℤ → Bool
default_port scheme port =
    (equal scheme (codes "http") && equal_int port (pos 80))
    || (equal scheme (codes "https") && equal_int port (pos 443))

unfoldable pub absolute_form : ResourceEndpoint → Bytes
absolute_form e =
    let scheme = if equal e.scheme [] then codes "http" else e.scheme in
    let host = if contains e.host (codes ":") then codes "[" ++ e.host ++ codes "]" else e.host in
    let authority =
      if not (equal_int e.port (pos 0)) && not (default_port scheme e.port)
      then join_host_port e.host (decimal e.port)
      else host in
    scheme ++ codes "://" ++ authority ++ origin_form e

unfoldable pub request_target : HttpRequestLine → Bool → Bytes
request_target r to_proxy =
    if is_connect r
    then join_host_port r.endpoint.host (decimal r.endpoint.port)
    else if to_proxy && not (equal (origin_form r.endpoint) (codes "*"))
    then absolute_form r.endpoint
    else origin_form r.endpoint

unfoldable pub request_line : HttpRequestLine → Bool → Bytes
request_line r to_proxy =
    r.http_method
    ++ codes " "
    ++ request_target r to_proxy
    ++ codes " HTTP/"
    ++ decimal r.version.major
    ++ codes "."
    ++ decimal r.version.minor
    ++ crlf

-- What is kept from the origin.
unfoldable pub is_proxy_header : Header → Bool
is_proxy_header h = has_prefix (to_lower h.name) (codes "proxy-")

abbrev pub header_line : Header → Bytes
header_line h = h.name ++ codes ": " ++ h.value ++ crlf

module _ {W E : Type 0} (writer : Writer W E) where
  -- `total += n`, and the next write unless there is an error.
  abbrev pub then_write : ℕ → (ℕ × Option E) × W → (ℕ → W → (ℕ × Option E) × W) → (ℕ × Option E) × W
  then_write total ((n, some e), w) next = ((total + n, some e), w)
  then_write total ((n, none), w) next = next (total + n) w

  abbrev pub finish : ℕ → (ℕ × Option E) × W → (ℕ × Option E) × W
  finish total ((n, e), w) = ((total + n, e), w)

  unfoldable pub write_header_lines : Bool → List Header → ℕ → W → (ℕ × Option E) × W
  write_header_lines to_proxy [] total w = finish total (writer.write crlf w)
  write_header_lines to_proxy (h ∷ hs) total w =
      if not to_proxy && is_proxy_header h
      then write_header_lines to_proxy hs total w
      else then_write total (writer.write (header_line h) w) (write_header_lines to_proxy hs)

  unfoldable pub write_to : ProxyRequest → Bool → W → (ℕ × Option E) × W
  write_to r to_proxy w =
      then_write 0 (writer.write (request_line r.http_request_line to_proxy) w)
        (write_header_lines to_proxy r.headers)
