-- ===== src/Parsing/Http.antt =====
-- http/parser/http_parser.go and helpers/parsers.go: requests, response heads and their parts.
use http_stack_lens.Base.{
  ℕ, Bool, true, false, not, ◌&&◌, ◌||◌, Option, none, some, [], ◌∷◌, ◌++◌, Bytes, codes, length,
  take, equal, to_lower, contains, trim_space, leb, ◌==◌, if◌then◌else◌, Result, ok, err, ◌>>=◌, ℤ,
  pos,
}
use http_stack_lens.Http.Decimal.{atoi}
use http_stack_lens.Http.Messages.{
  ResourceEndpoint, Header, Version, HttpRequestLine, HttpResponseHead, parse_http_method,
}
use http_stack_lens.Parsing.{ParsingContext, Parser, Url, Library}

-- unicode.IsLetter and unicode.IsDigit, on ASCII.
unfoldable pub is_letter : ℕ → Bool
is_letter c = (leb b'a' c && leb c b'z') || (leb b'A' c && leb c b'Z')

unfoldable pub is_digit : ℕ → Bool
is_digit c = leb b'0' c && leb c b'9'

unfoldable pub is_host_char : ℕ → Bool
is_host_char c = is_letter c || is_digit c || c == b'-' || c == b'_' || c == b'.'

unfoldable pub in_line : ℕ → Bool
in_line c = not (c == 13) && not (c == 10)

-- strings.TrimRight, with the characters to cut.
abbrev pub rejoin_cut : Bool → ℕ → Bytes → Bytes
rejoin_cut cut c [] = if cut then [] else c ∷ []
rejoin_cut cut c (d ∷ s) = c ∷ d ∷ s

abbrev pub is_one_of : Bytes → ℕ → Bool
is_one_of [] c = false
is_one_of (d ∷ s) c = d == c || is_one_of s c

unfoldable pub trim_end : Bytes → Bytes → Bytes
trim_end cutset [] = []
trim_end cutset (c ∷ s) = rejoin_cut (is_one_of cutset c) c (trim_end cutset s)

-- " \t\r"
abbrev pub cut_space : Bytes
cut_space = 32 ∷ 9 ∷ 13 ∷ []

-- A URL with the default port of its scheme, and "/" where it has no path and no query.
abbrev default_port : Bytes → ℤ
default_port scheme = if equal (to_lower scheme) (codes "https") then pos 443 else pos 80

abbrev query_part : Url → Bytes
query_part url =
    if not (equal url.raw_query []) || url.force_query then b'?' ∷ url.raw_query else []

abbrev or_root : Bytes → Bytes
or_root [] = codes "/"
or_root (c ∷ s) = c ∷ s

abbrev port_or : ℤ → Option ℤ → ℤ
port_or default none = default
port_or default (some port) = port

abbrev port_of : ℤ → Bytes → ℤ
port_of default [] = default
port_of default (c ∷ s) = port_or default (atoi (c ∷ s))

unfoldable pub enriched : Url → ResourceEndpoint
enriched url = record {
  scheme = to_lower url.scheme;
  host = url.hostname;
  port = port_of (default_port url.scheme) url.port;
  path_and_query = or_root (url.escaped_path ++ query_part url);
}

-- UnwrapOrDefault
abbrev pub unwrap_or : {A : Type 0} → A → Option A → A
unwrap_or default none = default
unwrap_or default (some a) = a

pub record ResponseStatus : Type 0 where
  pub http_version : Version
  pub status_code : ℤ
  pub status_description : Bytes

module _ (lib : Library) where
  unfoldable pub spaces_parser : Parser (Unit {0})
  spaces_parser = lib.spaces

  unfoldable pub new_line_parser : Parser Bytes
  new_line_parser = lib.or_else (lib.string_match (13 ∷ 10 ∷ [])) (lib.string_match (10 ∷ []))

  abbrev pub index_or : ℕ → Option ℕ → ℕ
  index_or other none = other
  index_or other (some i) = i

  unfoldable pub url_text_length : Bytes → ℕ
  url_text_length remaining =
      index_or (index_or (length remaining) (lib.index_of remaining (10 ∷ [])))
        (lib.index_of remaining (codes " HTTP/"))

  abbrev pub parsed_url :
      ℕ → ParsingContext → Result Bytes Url → Result Bytes (Url × ParsingContext)
  parsed_url n context (err message) = err message
  parsed_url n context (ok url) = ok (url, lib.forward context n)

  unfoldable pub url_parser : Parser Url
  url_parser context =
      let n = url_text_length context.remaining in
      let text = trim_end cut_space (take n context.remaining) in
      if n == 0
      then err (codes "URL is missing")
      else if not (contains text (codes "://"))
      then err (codes "URL must contain protocol")
      else parsed_url n context (lib.parse_url text)

  unfoldable pub version_parser : Parser Version
  version_parser =
      lib.map
        (lib.right lib.spaces (
          lib.right (lib.string_match (codes "HTTP/"))
            (lib.combine lib.integer (lib.right (lib.one_char b'.') lib.integer))))
        (λ t. record { major = t.0; minor = t.1 })

  unfoldable pub host_parser : Parser Bytes
  host_parser =
      lib.map
        (lib.or_else (lib.until_text (lib.many_satisfy is_host_char) (codes ":") false)
          (lib.until_text (lib.many_satisfy is_host_char) (codes " ") false))
        (λ host. host)

  unfoldable pub enriched_url_parser : Parser ResourceEndpoint
  enriched_url_parser = lib.map url_parser enriched

  unfoldable pub resource_endpoint_parser : Parser ResourceEndpoint
  resource_endpoint_parser = lib.or_else enriched_url_parser (
      lib.map
        (lib.left
          (lib.combine host_parser (lib.optional (lib.right (lib.one_char b':') lib.integer)))
          spaces_parser)
        (λ r. record {
          scheme = [];
          host = r.0;
          port = unwrap_or (pos 443) r.1;
          path_and_query = [];
        }))

  abbrev pub known_method :
      Bytes → ParsingContext → Option Bytes → Result Bytes (Bytes × ParsingContext)
  known_method input d none = err (codes "unknown http method: " ++ input)
  known_method input d (some verb) = ok (verb, d)

  abbrev pub method_of :
      Result Bytes (Bytes × ParsingContext) → Result Bytes (Bytes × ParsingContext)
  method_of (err message) = err message
  method_of (ok (verb, d)) = known_method verb d (parse_http_method verb)

  unfoldable pub http_method_parser : Parser Bytes
  http_method_parser context =
      method_of (lib.left (lib.map lib.many_alphanumeric (λ runes. runes)) spaces_parser context)

  -- The three parts of a request line, one after the other.
  unfoldable pub http_request_line_parser : Parser HttpRequestLine
  http_request_line_parser context = do
    (verb, afterMethod) ← http_method_parser context
    (endpoint, afterTarget) ← resource_endpoint_parser afterMethod
    (version, rest) ← version_parser afterTarget
    ok (record { http_method = verb; endpoint = endpoint; version = version }, rest)

  unfoldable pub header_parser : Parser Header
  header_parser context = do
    (name, afterName) ←
        lib.map (lib.until_text (lib.many_satisfy (λ c. not (c == b':'))) (codes ":") true) (λ n. n)
          context
    (value, rest) ←
        lib.map (lib.left (lib.many_satisfy in_line) (lib.optional new_line_parser)) trim_space
          afterName
    ok (record { name = name; value = value }, rest)

  unfoldable pub response_status_parser : Parser ResponseStatus
  response_status_parser =
      lib.map
        (lib.combine
          (lib.map {B = ResponseStatus}
            (lib.left (lib.combine (lib.left version_parser spaces_parser) lib.integer) lib.spaces)
            (λ r. record { http_version = r.0; status_code = r.1; status_description = [] }))
          (lib.map (lib.many_satisfy in_line) (λ r. r)))
        (λ r. record r.0 { status_description = r.1 })

  unfoldable pub response_head_parser : Parser HttpResponseHead
  response_head_parser =
      lib.map
        (lib.combine (lib.left response_status_parser (lib.optional new_line_parser))
          (lib.left (lib.many header_parser) (lib.optional new_line_parser)))
        (λ r. record {
          http_version = r.0.http_version;
          status_code = r.0.status_code;
          status_description = r.0.status_description;
          headers = r.1;
        })
