-- ===== src/Proxy/BodyCapture.antt =====
-- proxy/middlewares/https_interceptor.go and composer_sender.go: how much of a body is kept while
-- all of it is forwarded. An int64 counter is a number here: no body has 2 ^ 63 bytes.
pub mod Agreement
use http_stack_lens.Base.{
  ℕ, zero, suc, ◌+◌, Bool, true, false, Option, none, some, List, [], ◌∷◌, ◌++◌, Bytes, length,
  take, drop, leb, ltb, if◌then◌else◌, ℤ, pos, negsuc, ltb_int, ◌==◌, Result, ok, err,
}

-- The bytes.Buffer of the writer is its content.
pub record CaptureLimitWriter : Type 0 where
  pub limit : ℤ
  pub written : ℕ
  pub buf : Bytes
  pub skipped : Bool

abbrev pub new_writer : ℤ → CaptureLimitWriter
new_writer limit = record { limit = limit; written = 0; buf = []; skipped = false }

-- `Write`, which reports all of `p` as written.
unfoldable pub write : CaptureLimitWriter → Bytes → CaptureLimitWriter
write w p =
    let written = w.written + length p in
    if w.skipped
    then record w { written = written }
    else if ltb_int w.limit (pos written)
    then record w { written = written; skipped = true; buf = [] }
    else record w { written = written; buf = w.buf ++ p }

-- io.TeeReader hands over the chunks as they are read.
unfoldable pub write_chunks : CaptureLimitWriter → List Bytes → CaptureLimitWriter
write_chunks w [] = w
write_chunks w (p ∷ ps) = write_chunks (write w p) ps

unfoldable pub total : CaptureLimitWriter → ℕ
total w = w.written

-- The kept body and whether it was skipped; a nil slice and an empty one are both empty here.
unfoldable pub captured : CaptureLimitWriter → Bytes × Bool
captured w = if w.skipped then ([], true) else (w.buf, false)

-- An io.Reader: what it will deliver, and the error that ends it if that is not io.EOF.
pub record Body (E : Type 0) : Type 0 where
  pub input : Bytes
  pub failure : Option E

-- The results of capBody but the error.
pub record Capped (E : Type 0) : Type 0 where
  pub store : Option Bytes
  pub forward : Body E
  pub skipped : Bool

abbrev pub max_int64 : ℕ
max_int64 = 9_223_372_036_854_775_807

-- The bytes that an io.LimitReader of `limit + 1` lets through: none when that sum is at most 0, and
-- the sum of int64 is negative when it overflows.
unfoldable pub one_more : ℤ → ℕ
one_more (pos n) = if n == max_int64 then 0 else suc n
one_more (negsuc n) = 0

module _ {E : Type 0} where
  -- io.ReadAll(io.LimitReader(body, n)), and what is left of the body. The error of the reader is met
  -- only when the limit is not.
  unfoldable pub read_limited_to : ℕ → Body E → Result E (Bytes × Body E)
  read_limited_to n body =
      let read = ok (take n body.input, record body { input = drop n body.input }) in
      if leb n (length body.input) then read else elim body.failure [ none ↦ read | some e ↦ err e ]

  -- io.MultiReader(bytes.NewReader(head), body)
  abbrev pub chained : Bytes → Body E → Body E
  chained head body = record body { input = head ++ body.input }

  unfoldable pub cap_body : Body E → ℤ → Result E (Capped E)
  cap_body body limit = elim (read_limited_to (one_more limit) body) [
    | err e ↦ err e
    | ok (head, rest) ↦
        if ltb_int limit (pos (length head))
        then ok (record { store = none; forward = chained head rest; skipped = true })
        else ok (record {
          store = some head;
          forward = record { input = head; failure = none };
          skipped = false;
        })
  ]

  -- readLimited of composer_sender.go: at most `limit` bytes, and whether more were cut off.
  unfoldable pub read_limited : Body E → ℕ → Result E (Bytes × Bool)
  read_limited body limit = elim (read_limited_to (one_more (pos limit)) body) [
    | err e ↦ err e
    | ok (bytes, rest) ↦
        if ltb limit (length bytes) then ok (take limit bytes, true) else ok (bytes, false)
  ]
