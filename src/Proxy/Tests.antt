-- ===== src/Proxy/Tests.antt =====
-- Concrete runs of the package middlewares, and its theorems at concrete inputs.
use http_stack_lens.Base.{
  equal_fold, ℕ, ◌≡◌, ◌≢◌, ◌↔◌, refl, arith, true, false, none, some, List, [], ◌∷◌, Bytes, codes,
  if◌then◌else◌, has_prefix, pos, equal_int, ok, equal,
}
use http_stack_lens.Http.Messages.{HttpResponseHead, ProxyRequest, get_header}
use http_stack_lens.Proxy.UpstreamAuth.{can_restart_upstream_auth_after_eof, upstream_auth_request}
use http_stack_lens.Proxy.UpstreamAuth.Kept.{
  IsRestartable, can_restart_upstream_auth_after_eof-IsRestartable,
}
use http_stack_lens.Proxy.UpstreamAuth.KeepAlive.{StaysOpen, upstream_auth_request-StaysOpen}
use http_stack_lens.Proxy.BodyCapture.{
  new_writer, write_chunks, captured, Body, Capped, max_int64, one_more, cap_body, read_limited_to,
}
use http_stack_lens.Proxy.BodyCapture.Agreement.{capped, lost, cap_body-capped, cap_body-captured}
use http_stack_lens.Proxy.NoProxy.{Net, normal_host, matches_no_proxy}
use http_stack_lens.Proxy.NoProxy.Rules.{NamesAny, matches_no_proxy-NamesAny}

abbrev chunks : List Bytes
chunks = codes "ab" ∷ [] ∷ codes "cde" ∷ []

-- Bytes, and then an error.
abbrev broken : Body ℕ
broken = record { input = codes "abcde"; failure = some 7 }

abbrev whole : Body ℕ
whole = record { input = codes "abcde"; failure = none }

cap_body-capped_example :
    cap_body broken (pos 4)
    ≡ (if equal_int (pos 4) (pos max_int64) then ok lost else capped broken (pos 4))
cap_body-capped_example = cap_body-capped broken (pos 4)

abbrev kept : Capped ℕ
kept = record { store = some (codes "abcde"); forward = whole; skipped = false }

cap_body_run : cap_body whole (pos 5) ≡ ok kept
unfolding cap_body read_limited_to one_more
cap_body_run = refl

cap_body-captured_example :
    captured (write_chunks (new_writer (pos 5)) chunks) ≡ (codes "abcde", false)
cap_body-captured_example = cap_body-captured whole 5 chunks kept (omega arith) refl cap_body_run

-- Addresses are the texts that begin with "10.", and "10.0.0.0/8" is the one network.
abbrev net : Net
net = record {
  Ip = Bytes;
  Network = Bytes;
  parse_ip = λ s. if has_prefix s (codes "10.") then some s else none;
  parse_cidr = λ s. if equal s (codes "10.0.0.0/8") then some (codes "10.") else none;
  network_contains = λ network ip. has_prefix ip network;
}

abbrev rules : List Bytes
rules = codes "10.0.0.0/8" ∷ [] ∷ codes " .Local" ∷ []

matches_no_proxy-NamesAny_example : (matches_no_proxy net (codes "API.local.") rules ≡ true) ↔ (
    (normal_host (codes "API.local.") ≢ []) × NamesAny net (normal_host (codes "API.local.")) rules)
matches_no_proxy-NamesAny_example = matches_no_proxy-NamesAny net (codes "API.local.") rules

abbrev exchange : ProxyRequest
exchange = record {
  http_request_line = record {
    http_method = codes "GET";
    endpoint = record { scheme = []; host = codes "a"; port = pos 80; path_and_query = codes "/" };
    version = record { major = pos 1; minor = pos 1 };
  };
  headers =
      (record { name = codes "connection"; value = codes "Close, TE" })
      ∷ (record { name = codes "TE"; value = codes "trailers" })
      ∷ [];
}

upstream_auth_request-StaysOpen_example :
    (let hs = (upstream_auth_request exchange).headers in
      StaysOpen (get_header (codes "Connection") hs)
      × StaysOpen (get_header (codes "Proxy-Connection") hs)
      × ((name : Bytes)
          → equal_fold (codes "Connection") name ≡ false
          → equal_fold (codes "Proxy-Connection") name ≡ false
          → get_header name hs ≡ get_header name exchange.headers))
upstream_auth_request-StaysOpen_example = upstream_auth_request-StaysOpen exchange

abbrev challenge : HttpResponseHead
challenge = record {
  http_version = record { major = pos 1; minor = pos 0 };
  status_code = pos 407;
  status_description = codes "Auth";
  headers =
      (record { name = codes "Content-Length"; value = codes "0" })
      ∷ (record { name = codes "connection"; value = codes "Keep-Alive" })
      ∷ [];
}

can_restart_upstream_auth_after_eof-IsRestartable_example :
    (can_restart_upstream_auth_after_eof exchange ≡ true) ↔ IsRestartable exchange
can_restart_upstream_auth_after_eof-IsRestartable_example =
    can_restart_upstream_auth_after_eof-IsRestartable exchange
