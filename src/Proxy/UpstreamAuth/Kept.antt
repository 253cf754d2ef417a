-- ===== src/Proxy/UpstreamAuth/Kept.antt =====
-- When an authentication exchange whose connection to the upstream ended can start again on another.
use http_stack_lens.Base.{
  ◌≡◌, refl, inl, inr, ◌↔◌, arith, true, ◌||◌, List, [], ◌∷◌, Bytes, codes, equal, equal_iff,
  trim_space, Bool-cases, false≢true,
}
use http_stack_lens.Http.Messages.{
  ProxyRequest, http_get, http_head, http_options, http_connect, get_header,
}
use http_stack_lens.Proxy.UpstreamAuth.{is_none, all_zero, can_restart_upstream_auth_after_eof}

-- Every value is the number 0, with white space round it at most.
pub data AllZero : List Bytes → Type 0 where
  none_left : AllZero []
  one_more :
      {v : Bytes} {vs : List Bytes} → trim_space v ≡ codes "0" → AllZero vs → AllZero (v ∷ vs)

all_zero-AllZero : (vs : List Bytes) → all_zero vs ≡ true → AllZero vs
unfolding all_zero
all_zero-AllZero [] h = none_left
all_zero-AllZero (v ∷ vs) h = elim (Bool-cases (equal (trim_space v) (codes "0"))) [
  | inl e ↦ one_more ((equal_iff (trim_space v) (codes "0")).0 e) (all_zero-AllZero vs (rw e at h))
  | inr e ↦ absurd (false≢true (rw e at h))
]

AllZero-all_zero : {vs : List Bytes} → AllZero vs → all_zero vs ≡ true
unfolding all_zero
AllZero-all_zero none_left = refl
AllZero-all_zero (one_more {v} {vs} e rest) =
    rw ((equal_iff (trim_space v) (codes "0")).1 e, AllZero-all_zero rest) refl

-- The request has no body, and its method asks for no change.
pub record IsRestartable (r : ProxyRequest) : Type 0 where
  pub no_encoding : is_none (get_header (codes "Transfer-Encoding") r.headers) ≡ true
  pub no_content : AllZero (get_header (codes "Content-Length") r.headers)
  pub safe_method :
      (equal r.http_request_line.http_method http_get
        || equal r.http_request_line.http_method http_head
        || equal r.http_request_line.http_method http_options
        || equal r.http_request_line.http_method http_connect)
      ≡ true

-- An exchange whose connection ended without a status is started again exactly for GET, HEAD, OPTIONS
-- and CONNECT requests that have no body: no transfer encoding, and no length but 0.
pub can_restart_upstream_auth_after_eof-IsRestartable :
    (r : ProxyRequest) → (can_restart_upstream_auth_after_eof r ≡ true) ↔ IsRestartable r
unfolding can_restart_upstream_auth_after_eof
can_restart_upstream_auth_after_eof-IsRestartable r = (
  λ h. record {
    no_encoding = ground arith;
    no_content = all_zero-AllZero (get_header (codes "Content-Length") r.headers) (ground arith);
    safe_method = ground arith;
  },
  λ k. ground (arith, k.no_encoding, AllZero-all_zero k.no_content, k.safe_method),
)
