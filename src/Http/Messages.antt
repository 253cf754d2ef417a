-- ===== src/Http/Messages.antt =====
-- http/models/common.go, and what requests.go and responses.go do with their headers. A request and
-- a response head keep their headers in a slice; the operations below are on that slice.
use http_stack_lens.Base.{
  ℕ, ◌+◌, Bool, false, ◌&&◌, Option, none, some, List, [], ◌∷◌, ◌++◌, Bytes, codes, equal_fold, leb,
  ltb, if◌then◌else◌, ℤ, pos, negsuc,
}
use http_stack_lens.Http.Decimal.{itoa}

-- HttpMethod, a string.
abbrev pub http_get : Bytes
http_get = codes "GET"

abbrev pub http_post : Bytes
http_post = codes "POST"

abbrev pub http_put : Bytes
http_put = codes "PUT"

abbrev pub http_patch : Bytes
http_patch = codes "PATCH"

abbrev pub http_head : Bytes
http_head = codes "HEAD"

abbrev pub http_options : Bytes
http_options = codes "OPTIONS"

abbrev pub http_delete : Bytes
http_delete = codes "DELETE"

abbrev pub http_connect : Bytes
http_connect = codes "CONNECT"

abbrev pub http_query : Bytes
http_query = codes "QUERY"

pub record ResourceEndpoint : Type 0 where
  pub scheme : Bytes
  pub host : Bytes
  pub port : ℤ
  pub path_and_query : Bytes

pub record Header : Type 0 where
  pub name : Bytes
  pub value : Bytes

pub record Version : Type 0 where
  pub major : ℤ
  pub minor : ℤ

pub record HttpRequestLine : Type 0 where
  pub http_method : Bytes
  pub endpoint : ResourceEndpoint
  pub version : Version

pub record ProxyRequest : Type 0 where
  pub http_request_line : HttpRequestLine
  pub headers : List Header

pub record HttpResponseHead : Type 0 where
  pub http_version : Version
  pub status_code : ℤ
  pub status_description : Bytes
  pub headers : List Header

-- The order in which ParseHttpMethod tries them.
abbrev pub methods : List Bytes
methods =
    http_get ∷ http_post ∷ http_put ∷ http_patch ∷ http_head ∷ http_options ∷ http_delete
    ∷ http_query ∷ http_connect ∷ []

unfoldable pub find_method : List Bytes → Bytes → Option Bytes
find_method [] input = none
find_method (m ∷ ms) input =
    let rest = find_method ms input in if equal_fold m input then some m else rest

-- `none` is its error, "unknown http method".
unfoldable pub parse_http_method : Bytes → Option Bytes
parse_http_method input = find_method methods input

unfoldable pub is_connect : HttpRequestLine → Bool
is_connect r = equal_fold r.http_method http_connect

-- GetHeader of a request and of a response head.
unfoldable pub get_header : Bytes → List Header → List Bytes
get_header name [] = []
get_header name (h ∷ hs) =
    let rest = get_header name hs in if equal_fold h.name name then h.value ∷ rest else rest

abbrev pub add_header : Bytes → Bytes → List Header → List Header
add_header name value hs = hs ++ (record { name = name; value = value }) ∷ []

-- SetHeader, and SetContentLength with its name: the first header of that name, or a new one.
unfoldable pub set_header : Bytes → Bytes → List Header → List Header
set_header name value [] = (record { name = name; value = value }) ∷ []
set_header name value (h ∷ hs) =
    let rest = set_header name value hs in
    if equal_fold h.name name then (record h { value = value }) ∷ hs else h ∷ rest

-- fmt's %d on an int.
abbrev pub decimal : ℤ → Bytes
decimal (pos n) = itoa n
decimal (negsuc n) = b'-' ∷ itoa (n + 1)

unfoldable pub set_content_length : ℤ → HttpResponseHead → HttpResponseHead
set_content_length n h = record h {
  headers = set_header (codes "Content-Length") (decimal n) h.headers;
}

-- IsSuccess, IsRedirect, IsClientError and IsServerError.
abbrev between : ℕ → ℕ → ℤ → Bool
between low high (pos n) = leb low n && ltb n high
between low high (negsuc n) = false

unfoldable pub is_success : HttpResponseHead → Bool
is_success h = between 200 300 h.status_code

unfoldable pub is_redirect : HttpResponseHead → Bool
is_redirect h = between 300 400 h.status_code

unfoldable pub is_client_error : HttpResponseHead → Bool
is_client_error h = between 400 500 h.status_code

unfoldable pub is_server_error : HttpResponseHead → Bool
is_server_error h = between 500 600 h.status_code
