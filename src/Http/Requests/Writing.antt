-- ===== src/Http/Requests/Writing.antt =====
-- What reaches the other end of a request that is written, and what its writer is told.
use http_stack_lens.Base.{
  zero, suc, take, equal, equal_fold, to_lower, lower, has_prefix, codes, ◌==◌, ◌&&◌, ℕ, ◌+◌, ◌≡◌,
  refl, sym, ap, ◌∙◌, inl, inr, arith, Bool, true, false, Option, none, some, List, [], ◌∷◌, ◌++◌,
  append_assoc, Bytes, length, length-append, if◌then◌else◌, Bool-cases,
}
use http_stack_lens.Http.Messages.{Header, ProxyRequest}
use http_stack_lens.Http.Requests.{
  Writer, crlf, request_line, is_proxy_header, header_line, then_write, write_header_lines,
  write_to,
}

-- The name begins with the six letters of "Proxy-", each in any case.
abbrev pub is_for_proxy : Header → Bool
is_for_proxy h = equal_fold (take 6 h.name) (codes "Proxy-")

-- The headers that are for the origin.
abbrev pub without_proxy : List Header → List Header
without_proxy [] = []
without_proxy (h ∷ hs) = if is_for_proxy h then without_proxy hs else h ∷ without_proxy hs

-- The headers that go along.
abbrev pub sent : Bool → List Header → List Header
sent true hs = hs
sent false hs = without_proxy hs

-- The text of a request: its line, a line for each header, and an empty one.
abbrev pub header_lines : List Header → Bytes
header_lines [] = crlf
header_lines (h ∷ hs) = header_line h ++ header_lines hs

abbrev pub request_text : ProxyRequest → Bool → Bytes
request_text r to_proxy =
    request_line r.http_request_line to_proxy ++ header_lines (sent to_proxy r.headers)

to_lower-take : (n : ℕ) (s : Bytes) → to_lower (take n s) ≡ take n (to_lower s)
unfolding to_lower
to_lower-take zero s = refl
to_lower-take (suc n) [] = refl
to_lower-take (suc n) (c ∷ s) = ap (◌∷◌ (lower c)) (to_lower-take n s)

has_prefix-take : (s p : Bytes) → has_prefix s p ≡ equal (take (length p) s) p
unfolding has_prefix equal
has_prefix-take s [] = refl
has_prefix-take [] (d ∷ p) = refl
has_prefix-take (c ∷ s) (d ∷ p) = ap (λ b. c == d && b) (has_prefix-take s p)

-- The test of the code is that of the names.
is_proxy_header-is_for_proxy : (h : Header) → is_proxy_header h ≡ is_for_proxy h
unfolding is_proxy_header equal_fold to_lower lower
is_proxy_header-is_for_proxy h =
    has_prefix-take (to_lower h.name) (codes "proxy-")
    ∙ ap (λ s. equal s (codes "proxy-")) (sym (to_lower-take 6 h.name))
    ∙ ap (equal (to_lower (take 6 h.name))) small
  where
    small : codes "proxy-" ≡ to_lower (codes "Proxy-")
    small = refl

-- A bytes.Buffer, which never fails.
abbrev pub text_buffer : Writer Bytes ℕ
text_buffer = record { write = λ p b. ((length p, none), b ++ p) }

module _ {W E : Type 0} (writer : Writer W E) where
  then-same :
      {f g : ℕ → W → (ℕ × Option E) × W} (total : ℕ) (r : (ℕ × Option E) × W)
      → ((t : ℕ) (w : W) → f t w ≡ g t w)
      → then_write writer total r f ≡ then_write writer total r g
  then-same total ((n, some e), w) same = refl
  then-same total ((n, none), w) same = same (total + n) w

  lines-sent :
      (to_proxy : Bool) (hs : List Header) (total : ℕ) (w : W)
      → write_header_lines writer to_proxy hs total w
        ≡ write_header_lines writer true (sent to_proxy hs) total w
  unfolding write_header_lines
  lines-sent true hs total w = refl
  lines-sent false [] total w = refl
  lines-sent false (h ∷ hs) total w = elim (Bool-cases (is_for_proxy h)) [
    | inl e ↦ simp (is_proxy_header-is_for_proxy h, e) (lines-sent false hs total w)
    | inr e ↦
        simp (is_proxy_header-is_for_proxy h, e)
          (then-same total (writer.write (header_line h) w) (lines-sent false hs))
  ]

  -- Writing a request to the origin is writing it without the headers whose names begin with "Proxy-",
  -- in any case of the letters, to any writer and with any errors: what they hold, credentials for the
  -- upstream proxy, makes no difference there.
  pub write_to-without_proxy :
      (r : ProxyRequest) (w : W)
      → write_to writer r false w
        ≡ write_to writer (record r { headers = without_proxy r.headers }) false w
  unfolding write_to
  write_to-without_proxy r w =
      then-same 0 (writer.write (request_line r.http_request_line false) w) (λ t v.
        lines-sent false r.headers t v
        ∙ ap (λ hs. write_header_lines writer true hs t v) (sym (without_proxy_idem r.headers))
        ∙ sym (lines-sent false (without_proxy r.headers) t v))
    where
      without_proxy_idem : (hs : List Header) → without_proxy (without_proxy hs) ≡ without_proxy hs
      without_proxy_idem [] = refl
      without_proxy_idem (h ∷ hs) = elim (Bool-cases (is_for_proxy h)) [
        | inl e ↦ simp e (without_proxy_idem hs)
        | inr e ↦ simp (e, e) (ap (◌∷◌ h) (without_proxy_idem hs))
      ]

  -- A writer that counts: the number that it gives is what it took, with an error too.
  pub record Counts (taken : W → ℕ) : Type 0 where
    pub counted :
        (p : Bytes) (w : W) → taken (writer.write p w).1 ≡ taken w + (writer.write p w).0.0

  module _ (taken : W → ℕ) (counts : Counts taken) where
    abbrev Adds : ℕ → W → (ℕ × Option E) × W → Type 0
    Adds total w out = out.0.0 + taken w ≡ total + taken out.1

    then_write-Adds :
        (next : ℕ → W → (ℕ × Option E) × W) (total : ℕ) (w : W) (r : (ℕ × Option E) × W)
        → taken r.1 ≡ taken w + r.0.0
        → ((t : ℕ) (v : W) → Adds t v (next t v))
        → Adds total w (then_write writer total r next)
    then_write-Adds next total w ((n, some e), v) took adds = omega arith
    then_write-Adds next total w ((n, none), v) took adds = omega (arith, adds (total + n) v)

    lines-Adds :
        (hs : List Header) (total : ℕ) (w : W)
        → Adds total w (write_header_lines writer true hs total w)
    unfolding write_header_lines
    lines-Adds [] total w = omega (arith, counts.counted crlf w)
    lines-Adds (h ∷ hs) total w =
        then_write-Adds (write_header_lines writer true hs) total w (writer.write (header_line h) w)
          (counts.counted (header_line h) w) (lines-Adds hs)

    -- With a writer that counts, the total that is returned is the number of bytes that it took of
    -- the request, whether the request was written in full or an error cut it short.
    pub write_to-counts :
        (r : ProxyRequest) (to_proxy : Bool) (w : W)
        → (let ((total, _), w') = write_to writer r to_proxy w in total + taken w ≡ taken w')
    unfolding write_to
    write_to-counts r to_proxy w = omega (
      arith,
      then_write-Adds (write_header_lines writer to_proxy r.headers) 0 w
          (writer.write (request_line r.http_request_line to_proxy) w)
          (counts.counted (request_line r.http_request_line to_proxy) w)
          (λ t v.
            rw (lines-sent to_proxy r.headers t v) (lines-Adds (sent to_proxy r.headers) t v)),
    )

buffer_lines :
    (hs : List Header) (total : ℕ) (b : Bytes)
    → write_header_lines text_buffer true hs total b
      ≡ ((total + length (header_lines hs), none), b ++ header_lines hs)
unfolding write_header_lines
buffer_lines [] total b = refl
buffer_lines (h ∷ hs) total b =
    buffer_lines hs (total + length (header_line h)) (b ++ header_line h)
    ∙ cc (append_assoc b (header_line h) (header_lines hs), counting)
  where
    counting :
        total + length (header_line h) + length (header_lines hs)
        ≡ total + length (header_line h ++ header_lines hs)
    counting = omega (arith, length-append (header_line h) (header_lines hs))

-- Into a buffer, a request is written as its text: the request line for the other end, a line for
-- each header that goes there, in order, and an empty line. The total is the length of that text.
pub write_to-request_text :
    (r : ProxyRequest) (to_proxy : Bool) (b : Bytes)
    → write_to text_buffer r to_proxy b
      ≡ ((length (request_text r to_proxy), none), b ++ request_text r to_proxy)
unfolding write_to
write_to-request_text r to_proxy b =
    let line = request_line r.http_request_line to_proxy in
    let hs = sent to_proxy r.headers in
    lines-sent text_buffer to_proxy r.headers (0 + length line) (b ++ line)
    ∙ buffer_lines hs (0 + length line) (b ++ line)
    ∙ cc (append_assoc b line (header_lines hs), counting line hs)
  where
    counting :
        (line : Bytes) (hs : List Header)
        → 0 + length line + length (header_lines hs) ≡ length (line ++ header_lines hs)
    counting line hs = omega (arith, length-append line (header_lines hs))
