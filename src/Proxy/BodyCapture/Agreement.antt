-- ===== src/Proxy/BodyCapture/Agreement.antt =====
-- The two ways to keep a body agree, and neither changes what is forwarded.
use http_stack_lens.Base.{
  ℕ, zero, suc, ◌≤◌, ◌<◌, ◌≡◌, refl, ap, arith, true, false, Option, none, some, List, [], ◌∷◌,
  ◌++◌, append-nil, append_assoc, Bytes, length, length-append, take, leb, ltb, if◌then◌else◌, ℤ,
  pos, negsuc, ltb_int, equal_int, Result, ok, err, take-append-drop, length-take,
}
use http_stack_lens.Proxy.BodyCapture.{
  CaptureLimitWriter, new_writer, write, write_chunks, total, captured, Body, Capped, max_int64,
  one_more, read_limited_to, cap_body, read_limited,
}

abbrev pub joined : List Bytes → Bytes
joined [] = []
joined (p ∷ ps) = p ++ joined ps

-- What a writer with room for `limit` bytes knows, after the bytes `seen`.
record Knows (limit : ℕ) (seen : Bytes) (w : CaptureLimitWriter) : Type 0 where
  pub same_limit : w.limit ≡ pos limit
  pub counted : w.written ≡ length seen
  pub skips : w.skipped ≡ ltb limit (length seen)
  pub keeps : w.buf ≡ (if w.skipped then [] else seen)

write-Knows :
    (limit : ℕ) (seen p : Bytes) (w : CaptureLimitWriter)
    → Knows limit seen w
    → Knows limit (seen ++ p) (write w p)
unfolding write
write-Knows limit seen p w k = ground (arith, length-append seen p)

write_chunks-Knows :
    (limit : ℕ) (ps : List Bytes) (seen : Bytes) (w : CaptureLimitWriter)
    → Knows limit seen w
    → Knows limit (seen ++ joined ps) (write_chunks w ps)
unfolding write_chunks
write_chunks-Knows limit [] seen w k = rw append-nil k
write_chunks-Knows limit (p ∷ ps) seen w k =
    rw (← append_assoc seen p (joined ps))
      (write_chunks-Knows limit ps (seen ++ p) (write w p) (write-Knows limit seen p w k))

new-Knows : (limit : ℕ) → Knows limit [] (new_writer (pos limit))
new-Knows limit = record { same_limit = refl; counted = refl; skips = ground arith; keeps = refl }

-- However a body is cut into chunks, the writer counts all of it and keeps all of it when it fits
-- in the limit; otherwise it keeps nothing and says so. The limit is at least 0.
captured-write_chunks :
    (limit : ℕ) (ps : List Bytes)
    → (let w = write_chunks (new_writer (pos limit)) ps in
        (total w ≡ length (joined ps))
        × (captured w
            ≡ (if leb (length (joined ps)) limit then (joined ps, false) else ([], true))))
unfolding total captured
captured-write_chunks limit ps =
    let k = write_chunks-Knows limit ps [] (new_writer (pos limit)) (new-Knows limit) in
    ground (arith, k.counted, k.skips, k.keeps)

take_all {ℓ} : {A : Type ℓ} (n : ℕ) (s : List A) → length s ≤ n → take n s ≡ s
take_all zero [] h = refl
take_all zero (x ∷ s) h = absurd (omega arith)
take_all (suc n) [] h = refl
take_all (suc n) (x ∷ s) h = ap (◌∷◌ x) (take_all n s (omega arith))

abbrev pub capped : {E : Type 0} → Body E → ℤ → Result E (Capped E)
capped body limit =
    if ltb_int limit (pos (length body.input))
    then ok (record { store = none; forward = body; skipped = true })
    else elim body.failure [
      | none ↦ ok (record { store = some body.input; forward = body; skipped = false })
      | some e ↦ err e
    ]

-- An overflow of `limit + 1`: nothing is read and nothing is forwarded.
abbrev pub lost : {E : Type 0} → Capped E
lost = record { store = some []; forward = record { input = []; failure = none }; skipped = false }

-- Whatever the limit of capBody below the largest int64, the reader to forward is the body itself,
-- with all its bytes and the error that ends it. The body is kept exactly when it fits in the limit,
-- and an error of the body is reported exactly then. At the largest int64 the body is lost: an empty
-- one is kept and forwarded.
pub cap_body-capped :
    {E : Type 0} (body : Body E) (limit : ℤ)
    → cap_body body limit ≡ (if equal_int limit (pos max_int64) then ok lost else capped body limit)
unfolding cap_body read_limited_to one_more equal_int
cap_body-capped body (pos n) = ground (
  arith,
  take-append-drop (suc n) body.input,
  length-take (suc n) body.input,
  take_all (suc n) body.input,
)
cap_body-capped body (negsuc n) = ground arith

abbrev kept_bytes : Option Bytes → Bytes
kept_bytes none = []
kept_bytes (some b) = b

-- A request body and a response body are kept alike: at a limit of at least 0
-- and below the largest int64, capBody keeps what the writer keeps of any chunks of those bytes.
pub cap_body-captured :
    {E : Type 0} (body : Body E) (limit : ℕ) (ps : List Bytes) (c : Capped E)
    → limit < max_int64
    → joined ps ≡ body.input
    → cap_body body (pos limit) ≡ ok c
    → captured (write_chunks (new_writer (pos limit)) ps) ≡ (kept_bytes c.store, c.skipped)
unfolding equal_int
cap_body-captured body limit ps c below same h =
    ground (arith, (captured-write_chunks limit ps).1, cap_body-capped body (pos limit))

take-take {ℓ} : {A : Type ℓ} (n : ℕ) (s : List A) → take n (take (suc n) s) ≡ take n s
take-take zero s = refl
take-take (suc n) [] = refl
take-take (suc n) (x ∷ s) = ap (◌∷◌ x) (take-take n s)

-- The composer shows at most `limit` bytes of a response: all of a body that fits, and otherwise
-- its first `limit` bytes, marked as truncated, with no error even if the body would fail later.
-- The limit is below the largest int64.
read_limited_lem :
    {E : Type 0} (body : Body E) (limit : ℕ)
    → limit < max_int64
    → read_limited body limit ≡ (
        if ltb limit (length body.input)
        then ok (take limit body.input, true)
        else elim body.failure [ none ↦ ok (body.input, false) | some e ↦ err e ])
unfolding read_limited read_limited_to one_more
read_limited_lem body limit below = ground (
  arith,
  length-take (suc limit) body.input,
  take_all (suc limit) body.input,
  take-take limit body.input,
)
