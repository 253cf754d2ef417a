-- ===== src/Storage/Binary/ReadBack.antt =====
-- The readers of primitives read back what the writers of primitives write.
use http_stack_lens.Base.{
  ℕ, ◌*◌, ◌^◌, ◌<◌, ◌≡◌, refl, ap, ◌∙◌, arith, Bool, true, false, if◌then◌else◌, [], ◌∷◌, Bytes, ℤ,
  InRange, to_word, of_word, of_word-to_word, to_word-lt,
}
use http_stack_lens.Storage.Effect.{pure, ◌>>=◌}
use http_stack_lens.Storage.Binary.{
  put_le, get_le, read_full, read_byte, read_bool, read_int16, read_int32, read_int64, read_uint32,
}
use http_stack_lens.Storage.Binary.Words.{words, length-put_le, get_le-put_le}
use http_stack_lens.Storage.Reads.{Reads, Reads-map, Reads-read_full}

-- The bytes that each primitive is written as.
abbrev pub int_bytes : ℕ → ℕ → ℤ → Bytes
int_bytes k half z = put_le k (to_word half z)

abbrev pub bool_bytes : Bool → Bytes
bool_bytes v = (if v then 1 else 0) ∷ []

pub Reads-read_byte : (v : ℕ) → Reads read_byte (v ∷ []) v
unfolding read_byte
Reads-read_byte v = Reads-map _ (Reads-read_full 1 (v ∷ []) refl)

pub Reads-read_bool : (v : Bool) → Reads read_bool (bool_bytes v) v
unfolding read_bool
Reads-read_bool true = Reads-map _ (Reads-read_byte 1)
Reads-read_bool false = Reads-map _ (Reads-read_byte 0)

signed_back :
    (k half : ℕ) (z : ℤ)
    → words k ≡ 2 * half
    → InRange half z
    → of_word half (get_le (int_bytes k half z)) ≡ z
signed_back k half z e h =
    ap (of_word half) (get_le-put_le k (to_word half z) (omega (arith, to_word-lt half z h)))
    ∙ of_word-to_word half z h

Reads-signed :
    (k half : ℕ) (z : ℤ)
    → words k ≡ 2 * half
    → InRange half z
    → Reads (read_full k >>= (λ buf. pure (of_word half (get_le buf)))) (int_bytes k half z) z
Reads-signed k half z e h = rw (signed_back k half z e h) at (
    Reads-map (λ buf. of_word half (get_le buf))
      (Reads-read_full k (int_bytes k half z) (length-put_le k _)))

pub Reads-read_int16 : (z : ℤ) → InRange (2 ^ 15) z → Reads read_int16 (int_bytes 2 (2 ^ 15) z) z
unfolding read_int16
Reads-read_int16 z h = Reads-signed 2 (2 ^ 15) z refl h

pub Reads-read_int32 : (z : ℤ) → InRange (2 ^ 31) z → Reads read_int32 (int_bytes 4 (2 ^ 31) z) z
unfolding read_int32
Reads-read_int32 z h = Reads-signed 4 (2 ^ 31) z refl h

pub Reads-read_int64 : (z : ℤ) → InRange (2 ^ 63) z → Reads read_int64 (int_bytes 8 (2 ^ 63) z) z
unfolding read_int64
Reads-read_int64 z h = Reads-signed 8 (2 ^ 63) z refl h

pub Reads-read_uint32 : (v : ℕ) → v < 2 ^ 32 → Reads read_uint32 (put_le 4 v) v
unfolding read_uint32
Reads-read_uint32 v h =
    rw (get_le-put_le 4 v h) at
      (Reads-map get_le (Reads-read_full 4 (put_le 4 v) (length-put_le 4 v)))
