-- ===== src/Http/Responses/Bodies.antt =====
-- A response that is written with its length, and its body read back.
use http_stack_lens.Base.{
  ℕ, ◌+◌, ◌≤◌, ◌≡◌, refl, ◌∙◌, arith, Option, none, some, [], ◌∷◌, ◌++◌, append-nil, Bytes, codes,
  length, length-append, take-append_length, drop-append_length, pos, ok,
}
use http_stack_lens.Http.Decimal.{max_int, itoa, atoi-itoa}
use http_stack_lens.Http.Headers.{others, equal_fold_refl, get_header-set_header}
use http_stack_lens.Http.Messages.{HttpResponseHead, get_header, set_content_length}
use http_stack_lens.Http.Requests.Writing.{text_buffer}
use http_stack_lens.Http.Responses.{
  HttpBody, body_string, empty_body, content_length, HttpResponse, head_text, write_body,
  body_behind, write_response_to, read_full, sized, read_http_response_body,
}

-- The bytes of a body, and the body that is made of bytes.
abbrev pub content : HttpBody → Bytes
content (body_string s) = s
content empty_body = []

abbrev pub body_of : Bytes → HttpBody
body_of [] = empty_body
body_of (c ∷ s) = body_string (c ∷ s)

length_read :
    (n : ℕ) (head : HttpResponseHead)
    → get_header (codes "Content-Length") (set_content_length (pos n) head).headers
      ≡ itoa n ∷ others (get_header (codes "Content-Length") head.headers)
unfolding set_content_length
length_read n head =
    get_header-set_header (codes "Content-Length") (codes "Content-Length") (itoa n) head.headers
    ∙ rw (equal_fold_refl (codes "Content-Length")) refl

sized-content :
    (s rest : Bytes) → sized (some (pos (length s))) (s ++ rest) ≡ (ok (body_of s), rest)
unfolding read_full
sized-content [] rest = refl
sized-content (c ∷ s) rest = ground (
  arith,
  length-append (c ∷ s) rest,
  take-append_length (c ∷ s) rest,
  drop-append_length (c ∷ s) rest,
)

content_length-content : (body : HttpBody) → content_length body ≡ length (content body)
unfolding content_length
content_length-content (body_string s) = refl
content_length-content empty_body = refl

written :
    (body : HttpBody) (head : Bytes)
    → body_behind text_buffer body ((length head, none), head)
      ≡ ((length (head ++ content body), none), head ++ content body)
unfolding write_body
written (body_string s) head = cc (length-append head s)
written empty_body head = cc (append-nil head, counting)
  where
    counting : length head + 0 ≡ length head
    counting = omega arith

read_sized :
    (chunked : Bytes → Option Bytes × Bytes) (head : HttpResponseHead) (s rest : Bytes)
    → length s ≤ max_int
    → read_http_response_body chunked (set_content_length (pos (length s)) head) (s ++ rest)
      ≡ (ok (body_of s), rest)
unfolding read_http_response_body
read_sized chunked head s rest fits =
    rw (length_read (length s) head, atoi-itoa (length s) fits) (sized-content s rest)

-- The body of a response that is written with its length is read back from what follows the head,
-- whatever comes behind it and whatever headers the head has; a body of no bytes comes back as the
-- empty one. Its length is at most the largest int.
pub read_http_response_body-write :
    (chunked : Bytes → Option Bytes × Bytes) (r : HttpResponse) (rest : Bytes)
    → content_length r.body ≤ max_int
    → (let head = set_content_length (pos (content_length r.body)) r.head in
        (write_response_to text_buffer r []
          ≡ ((length (head_text head ++ content r.body), none), head_text head ++ content r.body))
        × (read_http_response_body chunked head (content r.body ++ rest)
            ≡ (ok (body_of (content r.body)), rest)))
unfolding write_response_to
read_http_response_body-write chunked r rest fits = (
  written r.body (head_text (set_content_length (pos (content_length r.body)) r.head)),
  rw (content_length-content r.body) (
      read_sized chunked r.head (content r.body) rest
        (omega (arith, content_length-content r.body))),
)
