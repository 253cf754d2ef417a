-- ===== src/Proxy/UpstreamAuth.antt =====
-- proxy/middlewares/upstream_auth_connection.go: the request on a connection that an authentication
-- exchange keeps, and when such a connection can be kept or started again.
pub mod Tokens
pub mod KeepAlive
pub mod Kept
use http_stack_lens.Base.{
  ℕ, Bool, true, false, ◌&&◌, ◌||◌, not, Option, none, some, List, [], ◌∷◌, ◌++◌, Bytes, codes,
  equal, equal_fold, trim_space, split, if◌then◌else◌, ◌==◌, ℤ, pos, equal_int,
}
use http_stack_lens.Http.Messages.{
  Header, HttpRequestLine, ProxyRequest, HttpResponseHead, http_get, http_head, http_options,
  http_connect, get_header,
}

-- strings.Join(tokens, ", ")
unfoldable pub join_tokens : List Bytes → Bytes
join_tokens [] = []
join_tokens (t ∷ []) = t
join_tokens (t ∷ u ∷ ts) = t ++ b',' ∷ b' ' ∷ join_tokens (u ∷ ts)

-- What of a token is for the upstream: neither "close" nor "keep-alive".
unfoldable pub is_kept : Bytes → Bool
is_kept t =
    not (equal t [])
    && not (equal_fold t (codes "close"))
    && not (equal_fold t (codes "keep-alive"))

unfoldable pub kept_parts : List Bytes → List Bytes
kept_parts [] = []
kept_parts (part ∷ parts) =
    let rest = kept_parts parts in
    let token = trim_space part in if is_kept token then token ∷ rest else rest

unfoldable pub kept_tokens : List Bytes → List Bytes
kept_tokens [] = []
kept_tokens (value ∷ values) = kept_parts (split b',' value) ++ kept_tokens values

-- Every header but those of that name, in order.
unfoldable pub without_header : Bytes → List Header → List Header
without_header name [] = []
without_header name (h ∷ hs) =
    let rest = without_header name hs in if equal_fold h.name name then rest else h ∷ rest

-- setUpstreamAuthHeader
unfoldable pub set_upstream_auth_header : Bytes → Bytes → List Header → List Header
set_upstream_auth_header name value hs =
    without_header name hs ++ (record { name = name; value = value }) ∷ []

-- One round of the loop over the two names.
unfoldable pub keep_alive : Bytes → List Header → List Header
keep_alive name hs =
    set_upstream_auth_header name
      (join_tokens (kept_tokens (get_header name hs) ++ codes "keep-alive" ∷ [])) hs

-- The slice of headers is copied first, so the captured request is not changed.
unfoldable pub upstream_auth_request : ProxyRequest → ProxyRequest
upstream_auth_request r = record r {
  headers = keep_alive (codes "Proxy-Connection") (keep_alive (codes "Connection") r.headers);
}

unfoldable pub part_is : Bytes → List Bytes → Bool
part_is token [] = false
part_is token (part ∷ parts) = equal_fold (trim_space part) token || part_is token parts

unfoldable pub header_has_token : List Bytes → Bytes → Bool
header_has_token [] token = false
header_has_token (value ∷ values) token =
    part_is token (split b',' value) || header_has_token values token

abbrev pub is_none : List Bytes → Bool
is_none [] = true
is_none (v ∷ vs) = false

unfoldable pub upstream_auth_response_closes_connection : HttpResponseHead → Bytes → Bool
upstream_auth_response_closes_connection head method =
    let connection = get_header (codes "Connection") head.headers in
    let proxy_connection = get_header (codes "Proxy-Connection") head.headers in
    if header_has_token connection (codes "close")
      || header_has_token proxy_connection (codes "close")
    then true
    else if equal_int head.http_version.major (pos 1)
        && equal_int head.http_version.minor (pos 0)
        && not (header_has_token connection (codes "keep-alive"))
        && not (header_has_token proxy_connection (codes "keep-alive"))
    then true
    else not (equal method http_head)
      && is_none (get_header (codes "Content-Length") head.headers)
      && not
          (header_has_token (get_header (codes "Transfer-Encoding") head.headers) (codes "chunked"))

unfoldable pub all_zero : List Bytes → Bool
all_zero [] = true
all_zero (value ∷ values) =
    let rest = all_zero values in if equal (trim_space value) (codes "0") then rest else false

unfoldable pub can_restart_upstream_auth_after_eof : ProxyRequest → Bool
can_restart_upstream_auth_after_eof r =
    let method = r.http_request_line.http_method in
    if not (is_none (get_header (codes "Transfer-Encoding") r.headers))
    then false
    else if not (all_zero (get_header (codes "Content-Length") r.headers))
    then false
    else equal method http_get
      || equal method http_head
      || equal method http_options
      || equal method http_connect
