-- ===== src/Http/Tests.antt =====
-- Concrete runs of the package http, and its theorems at concrete inputs.
use http_stack_lens.Base.{
  ℕ, zero, suc, ◌+◌, ◌-◌, ◌≤◌, ◌≡◌, refl, arith, Bool, true, false, Option, none, some, [], ◌∷◌,
  ◌++◌, Bytes, codes, length, min, if◌then◌else◌, equal, equal_fold, to_lower, lower, has_prefix,
  contains, pos, equal_int, ok,
}
use http_stack_lens.Http.Decimal.{max_int, digits, itoa, atoi, atoi-itoa}
use http_stack_lens.Http.Headers.{others, get_header-set_header}
use http_stack_lens.Http.Messages.{
  Header, ProxyRequest, get_header, set_header, set_content_length, is_connect,
}
use http_stack_lens.Http.Requests.{
  Writer, join_host_port, origin_form, default_port, absolute_form, request_target, write_to,
}
use http_stack_lens.Http.Requests.Writing.{
  without_proxy, request_text, text_buffer, Counts, write_to-without_proxy, write_to-counts,
  write_to-request_text,
}
use http_stack_lens.Http.Responses.{
  HttpResponse, body_string, content_length, head_text, write_response_to, read_http_response_body,
}
use http_stack_lens.Http.Responses.Bodies.{content, body_of, read_http_response_body-write}

abbrev header : Bytes → Bytes → Header
header name value = record { name = name; value = value }

abbrev request : ProxyRequest
request = record {
  http_request_line = record {
    http_method = codes "GET";
    endpoint = record {
      scheme = [];
      host = codes "2001:db8::1";
      port = pos 8080;
      path_and_query = codes "?a";
    };
    version = record { major = pos 1; minor = pos 1 };
  };
  headers =
      header (codes "Proxy-Authorization") (codes "x") ∷ header (codes "Host") (codes "h") ∷ [];
}

target_run : request_target request.http_request_line true ≡ codes "http://[2001:db8::1]:8080/?a"
unfolding request_target is_connect origin_form absolute_form default_port join_host_port itoa
    digits equal equal_fold to_lower lower has_prefix contains equal_int
target_run = refl

atoi-itoa_example : atoi (itoa 8080) ≡ some (pos 8080)
atoi-itoa_example = atoi-itoa 8080 (omega arith)

get_header-set_header_example :
    get_header (codes "HOST") (set_header (codes "Host") (codes "v") request.headers) ≡ (
      if equal_fold (codes "Host") (codes "HOST")
      then codes "v" ∷ others (get_header (codes "HOST") request.headers)
      else get_header (codes "HOST") request.headers)
get_header-set_header_example =
    get_header-set_header (codes "Host") (codes "HOST") (codes "v") request.headers

-- A writer with room for a number of bytes, which counts those that it takes.
abbrev narrow : Writer (ℕ × ℕ) ℕ
narrow = record {
  write = λ p w. (
    (min (length p) w.0, if no_room (length p) w.0 then some 1 else none),
    (w.0 - length p, w.1 + min (length p) w.0),
  );
}
  where
    no_room : ℕ → ℕ → Bool
    no_room n room = elim (n - room) [ zero ↦ false | suc _ ↦ true ]

narrow-Counts : Counts narrow (λ w. w.1)
narrow-Counts = record { counted = λ p w. refl }

write_to-counts_example :
    (write_to narrow request true (20, 0)).0.0 + 0 ≡ (write_to narrow request true (20, 0)).1.1
write_to-counts_example = write_to-counts narrow (λ w. w.1) narrow-Counts request true (20, 0)

write_to-without_proxy_example :
    write_to narrow request false (20, 0)
    ≡ write_to narrow (record request { headers = without_proxy request.headers }) false (20, 0)
write_to-without_proxy_example = write_to-without_proxy narrow request (20, 0)

write_to-request_text_example :
    write_to text_buffer request true (codes "x")
    ≡ ((length (request_text request true), none), codes "x" ++ request_text request true)
write_to-request_text_example = write_to-request_text request true (codes "x")

abbrev response : HttpResponse
response = record {
  head = record {
    http_version = record { major = pos 1; minor = pos 1 };
    status_code = pos 407;
    status_description = codes "Auth";
    headers = header (codes "content-length") (codes "9") ∷ [];
  };
  body = body_string (codes "hello");
}

abbrev unchunked : Bytes → Option Bytes × Bytes
unchunked s = (some s, [])

read_http_response_body-write_example :
    (let head = set_content_length (pos (content_length response.body)) response.head in
      (write_response_to text_buffer response [] ≡ (
        (length (head_text head ++ content response.body), none),
        head_text head ++ content response.body,
      ))
      × (read_http_response_body unchunked head (content response.body ++ codes "next")
          ≡ (ok (body_of (content response.body)), codes "next")))
read_http_response_body-write_example =
    read_http_response_body-write unchunked response (codes "next") small
  where
    small : content_length response.body ≤ max_int
    small = unfold content_length in omega arith
