-- ===== src/Http/Responses.antt =====
-- http/models/responses.go: how a response is written; and ReadHttpResponseBody of
-- http/http_request_reader.go, how the body of one is read. A reader is the bytes that it has left.
pub mod Bodies
use http_stack_lens.Base.{
  ℕ, zero, suc, ◌+◌, Bool, true, false, ◌||◌, Option, none, some, List, [], ◌∷◌, ◌++◌, Bytes, codes,
  equal_fold, length, take, drop, leb, if◌then◌else◌, ℤ, pos, negsuc, Result, ok, err,
}
use http_stack_lens.Http.Decimal.{atoi}
use http_stack_lens.Http.Messages.{
  Header, HttpResponseHead, get_header, decimal, set_content_length,
}
use http_stack_lens.Http.Requests.{Writer, crlf}

-- BodyString and EmptyBody.
pub data HttpBody : Type 0 where
  body_string : Bytes → HttpBody
  empty_body : HttpBody

unfoldable pub content_length : HttpBody → ℕ
content_length (body_string content) = length content
content_length empty_body = 0

pub record HttpResponse : Type 0 where
  pub head : HttpResponseHead
  pub body : HttpBody

-- strings.Join(lines, "\r\n")
abbrev pub join_lines : List Bytes → Bytes
join_lines [] = []
join_lines (line ∷ []) = line
join_lines (line ∷ next ∷ lines) = line ++ crlf ++ join_lines (next ∷ lines)

abbrev pub status_line : HttpResponseHead → Bytes
status_line h =
    codes "HTTP/"
    ++ decimal h.http_version.major
    ++ codes "."
    ++ decimal h.http_version.minor
    ++ codes " "
    ++ decimal h.status_code
    ++ codes " "
    ++ h.status_description

abbrev pub header_texts : List Header → List Bytes
header_texts [] = [] ∷ []
header_texts (h ∷ hs) = (h.name ++ codes ": " ++ h.value) ∷ header_texts hs

-- HttpResponseHead.String, which is also its Bytes.
unfoldable pub head_text : HttpResponseHead → Bytes
head_text h = join_lines (status_line h ∷ header_texts h.headers) ++ crlf

module _ {W E : Type 0} (writer : Writer W E) where
  unfoldable pub write_body : HttpBody → W → (ℕ × Option E) × W
  write_body (body_string content) w = writer.write content w
  write_body empty_body w = ((0, none), w)

  -- `return j, err`, and `return i + j, nil`.
  abbrev pub add_body : ℕ → (ℕ × Option E) × W → (ℕ × Option E) × W
  add_body i ((j, some e), w) = ((j, some e), w)
  add_body i ((j, none), w) = ((i + j, none), w)

  abbrev pub body_behind : HttpBody → (ℕ × Option E) × W → (ℕ × Option E) × W
  body_behind body ((i, some e), w) = ((i, some e), w)
  body_behind body ((i, none), w) = add_body i (write_body body w)

  -- Both kinds of body have a length, so the header is always set.
  unfoldable pub write_response_to : HttpResponse → W → (ℕ × Option E) × W
  write_response_to r w =
      body_behind r.body
        (writer.write (head_text (set_content_length (pos (content_length r.body)) r.head)) w)

-- The errors of ReadHttpResponseBody; `panics` is make on a length below 0.
pub data BodyError : Type 0 where
  invalid_content_length short_body bad_chunks panics : BodyError

-- io.ReadFull on a buffer of n bytes.
unfoldable pub read_full : ℕ → Bytes → Result BodyError HttpBody × Bytes
read_full n input =
    if leb n (length input)
    then (ok (body_string (take n input)), drop n input)
    else (err short_body, [])

unfoldable pub any_chunked : List Bytes → Bool
any_chunked [] = false
any_chunked (v ∷ vs) = equal_fold v (codes "chunked") || any_chunked vs

abbrev pub sized : Option ℤ → Bytes → Result BodyError HttpBody × Bytes
sized none input = (err invalid_content_length, input)
sized (some (pos zero)) input = (ok empty_body, input)
sized (some (pos (suc n))) input = read_full (suc n) input
sized (some (negsuc n)) input = (err panics, input)

-- `chunked` reads all of httputil.NewChunkedReader, `none` for an error.
module _ (chunked : Bytes → Option Bytes × Bytes) where
  abbrev pub read_chunked : Option Bytes × Bytes → Result BodyError HttpBody × Bytes
  read_chunked (none, rest) = (err bad_chunks, rest)
  read_chunked (some content, rest) = (ok (body_string content), rest)

  abbrev pub unsized : Bool → Bytes → Result BodyError HttpBody × Bytes
  unsized true input = read_chunked (chunked input)
  unsized false input = (ok empty_body, input)

  abbrev pub by_length : List Bytes → Bool → Bytes → Result BodyError HttpBody × Bytes
  by_length (text ∷ _) is_chunked input = sized (atoi text) input
  by_length [] is_chunked input = unsized is_chunked input

  unfoldable pub read_http_response_body :
      HttpResponseHead → Bytes → Result BodyError HttpBody × Bytes
  read_http_response_body head input =
      by_length (get_header (codes "Content-Length") head.headers)
        (any_chunked (get_header (codes "Transfer-Encoding") head.headers)) input
