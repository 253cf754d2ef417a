-- ===== src/Proxy/UpstreamAuth/KeepAlive.antt =====
-- What a request of an authentication exchange says of its connection.
use http_stack_lens.Base.{
  ℕ, ◌≡◌, refl, ap, ◌∙◌, inl, inr, arith, true, false, ◌||◌, List, [], ◌∷◌, ◌++◌, append-nil, Bytes,
  codes, equal, equal_fold, to_lower, lower, trim_space, trim_left, trim_right, trim_space_idem,
  is_space, split, extend, rejoin, lacks, ◌==◌, Bool-cases,
}
use http_stack_lens.Http.Headers.{other_name, equal_fold_refl}
use http_stack_lens.Http.Messages.{Header, ProxyRequest, get_header}
use http_stack_lens.Proxy.UpstreamAuth.{
  join_tokens, is_kept, kept_parts, kept_tokens, without_header, set_upstream_auth_header,
  keep_alive, upstream_auth_request, part_is, header_has_token,
}
use http_stack_lens.Proxy.UpstreamAuth.Tokens.{
  IsToken, AllTokens, none_left, one_more, any_is, part_is-join_tokens,
}

lacks-trim_left : (s : Bytes) → lacks b',' s ≡ true → lacks b',' (trim_left s) ≡ true
unfolding lacks trim_left
lacks-trim_left [] h = refl
lacks-trim_left (c ∷ s) h = ground (arith, lacks-trim_left s)

lacks-rejoin :
    (c : ℕ) (s : Bytes) → (c == b',') ≡ false → lacks b',' s ≡ true → lacks b',' (rejoin c s) ≡ true
unfolding lacks
lacks-rejoin c [] e h = ground arith
lacks-rejoin c (d ∷ s) e h = ground arith

lacks-trim_right : (s : Bytes) → lacks b',' s ≡ true → lacks b',' (trim_right s) ≡ true
unfolding lacks trim_right
lacks-trim_right [] h = refl
lacks-trim_right (c ∷ s) h =
    lacks-rejoin c (trim_right s) (ground arith) (lacks-trim_right s (ground arith))

lacks-trim_space : (s : Bytes) → lacks b',' s ≡ true → lacks b',' (trim_space s) ≡ true
unfolding trim_space
lacks-trim_space s h = lacks-trim_right (trim_left s) (lacks-trim_left s h)

-- No part has a comma.
data AllLack : List Bytes → Type 0 where
  no_part : AllLack []
  one_part : {p : Bytes} {ps : List Bytes} → lacks b',' p ≡ true → AllLack ps → AllLack (p ∷ ps)

extend-AllLack :
    (c : ℕ) {ps : List Bytes} → (c == b',') ≡ false → AllLack ps → AllLack (extend c ps)
unfolding lacks
extend-AllLack c e no_part = one_part (ground arith) no_part
extend-AllLack c e (one_part h hs) = one_part (ground arith) hs

split-AllLack : (s : Bytes) → AllLack (split b',' s)
unfolding split lacks
split-AllLack [] = one_part refl no_part
split-AllLack (c ∷ s) = elim (Bool-cases (c == b',')) [
  | inl e ↦ rw e (one_part refl (split-AllLack s))
  | inr e ↦ rw e (extend-AllLack c e (split-AllLack s))
]

kept_parts-AllTokens : {ps : List Bytes} → AllLack ps → AllTokens (kept_parts ps)
unfolding kept_parts
kept_parts-AllTokens no_part = none_left
kept_parts-AllTokens (one_part {p} {ps} h hs) = elim (Bool-cases (is_kept (trim_space p))) [
  | inl e ↦ simp e (
      one_more (record { no_comma = lacks-trim_space p h; trimmed = trim_space_idem p })
        (kept_parts-AllTokens hs))
  | inr e ↦ simp e (kept_parts-AllTokens hs)
]

AllTokens-append : {ts us : List Bytes} → AllTokens ts → AllTokens us → AllTokens (ts ++ us)
AllTokens-append none_left vs = vs
AllTokens-append (one_more k ks) vs = one_more k (AllTokens-append ks vs)

kept_tokens-AllTokens : (values : List Bytes) → AllTokens (kept_tokens values)
unfolding kept_tokens
kept_tokens-AllTokens [] = none_left
kept_tokens-AllTokens (v ∷ vs) =
    AllTokens-append (kept_parts-AllTokens (split-AllLack v)) (kept_tokens-AllTokens vs)

any_is-append :
    (token : Bytes) (ts us : List Bytes)
    → any_is token (ts ++ us) ≡ (any_is token ts || any_is token us)
any_is-append token [] us = refl
any_is-append token (t ∷ ts) us = ground (arith, any_is-append token ts us)

kept_parts-close : (ps : List Bytes) → any_is (codes "close") (kept_parts ps) ≡ false
unfolding kept_parts is_kept
kept_parts-close [] = refl
kept_parts-close (p ∷ ps) = ground (arith, kept_parts-close ps)

kept_tokens-close : (values : List Bytes) → any_is (codes "close") (kept_tokens values) ≡ false
unfolding kept_tokens
kept_tokens-close [] = refl
kept_tokens-close (v ∷ vs) =
    any_is-append (codes "close") (kept_parts (split b',' v)) (kept_tokens vs)
    ∙ rw (kept_parts-close (split b',' v), kept_tokens-close vs) refl

keep_alive-IsToken : IsToken (codes "keep-alive")
unfolding lacks trim_space trim_left trim_right is_space
keep_alive-IsToken = record { no_comma = refl; trimmed = refl }

-- The tokens of the new value, the list that is never empty.
value_tokens :
    (token : Bytes) (kept : List Bytes)
    → AllTokens kept
    → part_is token (split b',' (join_tokens (kept ++ codes "keep-alive" ∷ [])))
      ≡ any_is token (kept ++ codes "keep-alive" ∷ [])
value_tokens token [] k =
    part_is-join_tokens token (codes "keep-alive") [] (one_more keep_alive-IsToken none_left)
value_tokens token (t ∷ ts) k =
    part_is-join_tokens token t (ts ++ codes "keep-alive" ∷ [])
      (AllTokens-append k (one_more keep_alive-IsToken none_left))

abbrev kept_value : List Header → Bytes → Bytes
kept_value hs name = join_tokens (kept_tokens (get_header name hs) ++ codes "keep-alive" ∷ [])

-- What a list of values says of the connection: it stays open.
pub record StaysOpen (values : List Bytes) : Type 0 where
  pub alive : header_has_token values (codes "keep-alive") ≡ true
  pub not_closed : header_has_token values (codes "close") ≡ false
  pub one_value : (value : Bytes) × (values ≡ value ∷ [])

alive_not_close : equal_fold (codes "keep-alive") (codes "close") ≡ false
unfolding equal_fold to_lower lower equal
alive_not_close = refl

kept_value-StaysOpen : (hs : List Header) (name : Bytes) → StaysOpen (kept_value hs name ∷ [])
unfolding header_has_token
kept_value-StaysOpen hs name =
    let values = get_header name hs in
    let kept = kept_tokens values in
    let alive = codes "keep-alive" in
    let all = kept_tokens-AllTokens values in
    record {
      alive = ground (
        arith,
        value_tokens alive kept all,
        any_is-append alive kept (alive ∷ []),
        equal_fold_refl alive,
      );
      not_closed = ground (
        arith,
        value_tokens (codes "close") kept all,
        any_is-append (codes "close") kept (alive ∷ []),
        kept_tokens-close values,
        alive_not_close,
      );
      one_value = (kept_value hs name, refl);
    }

get_header-without_header_same :
    (name : Bytes) (hs : List Header) → get_header name (without_header name hs) ≡ []
unfolding get_header without_header
get_header-without_header_same name [] = refl
get_header-without_header_same name (h ∷ hs) = elim (Bool-cases (equal_fold h.name name)) [
  | inl e ↦ simp e (get_header-without_header_same name hs)
  | inr e ↦ simp (e, e) (get_header-without_header_same name hs)
]

get_header-append :
    (name : Bytes) (hs gs : List Header)
    → get_header name (hs ++ gs) ≡ get_header name hs ++ get_header name gs
unfolding get_header
get_header-append name [] gs = refl
get_header-append name (h ∷ hs) gs = elim (Bool-cases (equal_fold h.name name)) [
  | inl e ↦ simp e (ap (◌∷◌ h.value) (get_header-append name hs gs))
  | inr e ↦ simp e (get_header-append name hs gs)
]

get_header-keep_alive :
    (name : Bytes) (hs : List Header)
    → get_header name (keep_alive name hs) ≡ kept_value hs name ∷ []
unfolding keep_alive set_upstream_auth_header
get_header-keep_alive name hs =
    let added : List Header = (record { name = name; value = kept_value hs name }) ∷ [] in
    get_header-append name (without_header name hs) added
    ∙ rw (get_header-without_header_same name hs) (one_header name (kept_value hs name))
  where
    one_header :
        (name value : Bytes)
        → [] ++ get_header name ((record { name = name; value = value }) ∷ []) ≡ value ∷ []
    one_header name value = unfold get_header in rw (equal_fold_refl name) refl

get_header-without_header_other :
    (name other : Bytes) (hs : List Header)
    → equal_fold name other ≡ false
    → get_header other (without_header name hs) ≡ get_header other hs
unfolding get_header without_header
get_header-without_header_other name other [] e = refl
get_header-without_header_other name other (h ∷ hs) e = elim (Bool-cases (equal_fold h.name name)) [
  | inl f ↦ simp (f, other_name name other h e f) (get_header-without_header_other name other hs e)
  | inr f ↦ simp (f, get_header-without_header_other name other hs e)
]

get_header-keep_alive_other :
    (name other : Bytes) (hs : List Header)
    → equal_fold name other ≡ false
    → get_header other (keep_alive name hs) ≡ get_header other hs
unfolding keep_alive set_upstream_auth_header
get_header-keep_alive_other name other hs e =
    get_header-append other (without_header name hs)
      ((record { name = name; value = kept_value hs name }) ∷ [])
    ∙ rw (get_header-without_header_other name other hs e) (nothing_added (kept_value hs name) e)
  where
    nothing_added :
        (value : Bytes)
        → equal_fold name other ≡ false
        → get_header other hs ++ get_header other ((record { name = name; value = value }) ∷ [])
          ≡ get_header other hs
    nothing_added value e = unfold get_header in rw e (append-nil (get_header other hs))

two_names : equal_fold (codes "Connection") (codes "Proxy-Connection") ≡ false
unfolding equal_fold to_lower lower equal
two_names = refl

two_names_back : equal_fold (codes "Proxy-Connection") (codes "Connection") ≡ false
unfolding equal_fold to_lower lower equal
two_names_back = refl

-- A request on a connection that an authentication exchange keeps says so in both of its connection
-- headers, each with one value: "keep-alive" is a token of it and "close" is none, whatever tokens
-- the client sent. All other headers have the values that they had, in their order.
pub upstream_auth_request-StaysOpen :
    (r : ProxyRequest)
    → (let hs = (upstream_auth_request r).headers in
        StaysOpen (get_header (codes "Connection") hs)
        × StaysOpen (get_header (codes "Proxy-Connection") hs)
        × ((name : Bytes)
            → equal_fold (codes "Connection") name ≡ false
            → equal_fold (codes "Proxy-Connection") name ≡ false
            → get_header name hs ≡ get_header name r.headers))
unfolding upstream_auth_request
upstream_auth_request-StaysOpen r =
    let once = keep_alive (codes "Connection") r.headers in
    (
      rw
          (
            get_header-keep_alive_other (codes "Proxy-Connection") (codes "Connection") once
                two_names_back,
            get_header-keep_alive (codes "Connection") r.headers,
          )
          (kept_value-StaysOpen r.headers (codes "Connection")),
      rw (get_header-keep_alive (codes "Proxy-Connection") once)
          (kept_value-StaysOpen once (codes "Proxy-Connection")),
      λ name e f.
          get_header-keep_alive_other (codes "Proxy-Connection") name once f
          ∙ get_header-keep_alive_other (codes "Connection") name r.headers e,
    )
