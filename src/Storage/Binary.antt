-- ===== src/Storage/Binary.antt =====
-- storage/binary_writer.go and storage/binary_reader.go: little-endian primitives.
pub mod Words
pub mod ReadBack
use http_stack_lens.Base.{
  ℕ, zero, suc, ◌+◌, ◌*◌, ◌/◌, ◌%◌, ◌^◌, Bool, true, false, not, Option, none, some, List, [], ◌∷◌,
  ◌++◌, Bytes, length, take, drop, ltb, ◌==◌, if◌then◌else◌, ℤ, to_word, of_word, ok, err,
}
use http_stack_lens.Storage.Effect.{
  Error, eof, unexpected_eof, Io, IoWriter, pure, fail, ◌>>=◌, ◌>>◌,
}

-- binary.LittleEndian: the `k` low bytes of a word, and the word that bytes stand for.
unfoldable pub put_le : ℕ → ℕ → Bytes
put_le zero v = []
put_le (suc k) v = (v % 256) ∷ put_le k (v / 256)

unfoldable pub get_le : Bytes → ℕ
get_le [] = 0
get_le (b ∷ bs) = b + 256 * get_le bs

-- bytes.Buffer takes every write.
abbrev pub buffer : IoWriter Bytes
buffer = record { write = λ p b. (ok tt, b ++ p) }

module _ {W : Type 0} (w : IoWriter W) where
  unfoldable pub write_bool : Bool → Io W (Unit {0})
  write_bool v = if v then w.write (1 ∷ []) else w.write (0 ∷ [])

  unfoldable pub write_byte : ℕ → Io W (Unit {0})
  write_byte v = w.write (v ∷ [])

  unfoldable pub write_int8 : ℤ → Io W (Unit {0})
  write_int8 v = w.write (put_le 1 (to_word (2 ^ 7) v))

  unfoldable pub write_int16 : ℤ → Io W (Unit {0})
  write_int16 v = w.write (put_le 2 (to_word (2 ^ 15) v))

  unfoldable pub write_int32 : ℤ → Io W (Unit {0})
  write_int32 v = w.write (put_le 4 (to_word (2 ^ 31) v))

  unfoldable pub write_int64 : ℤ → Io W (Unit {0})
  write_int64 v = w.write (put_le 8 (to_word (2 ^ 63) v))

  unfoldable pub write_uint32 : ℕ → Io W (Unit {0})
  write_uint32 v = w.write (put_le 4 v)

  unfoldable pub write_string : Bytes → Io W (Unit {0})
  write_string v = w.write v

-- An io.Reader behind an io.TeeReader: what is still to be read, and what the tee has copied.
pub record Source : Type 0 where
  pub input : Bytes
  pub tee : Bytes

abbrev pub src : Bytes → Bytes → Source
src i t = record { input = i; tee = t }

-- io.ReadFull into a buffer of `n` bytes: io.EOF when nothing was read, io.ErrUnexpectedEOF when
-- the buffer was filled in part.
unfoldable pub read_full : ℕ → Io Source Bytes
read_full n s =
    if ltb (length s.input) n
    then (err (if length s.input == 0 then eof else unexpected_eof), src [] (s.tee ++ s.input))
    else (ok (take n s.input), src (drop n s.input) (s.tee ++ take n s.input))

-- `buf[0]` of the byte read.
abbrev first_byte : Bytes → ℕ
first_byte [] = 0
first_byte (b ∷ _) = b

unfoldable pub read_byte : Io Source ℕ
read_byte = do buf ← read_full 1; pure (first_byte buf)

unfoldable pub read_bool : Io Source Bool
read_bool = do v ← read_byte; pure (not (v == 0))

unfoldable pub read_int16 : Io Source ℤ
read_int16 = do buf ← read_full 2; pure (of_word (2 ^ 15) (get_le buf))

unfoldable pub read_int32 : Io Source ℤ
read_int32 = do buf ← read_full 4; pure (of_word (2 ^ 31) (get_le buf))

unfoldable pub read_int64 : Io Source ℤ
read_int64 = do buf ← read_full 8; pure (of_word (2 ^ 63) (get_le buf))

unfoldable pub read_uint32 : Io Source ℕ
read_uint32 = do buf ← read_full 4; pure (get_le buf)

-- A Go byte slice is nil or not; `none` is nil.
unfoldable pub read_bytes : ℕ → Io Source (Option Bytes)
read_bytes n = if n == 0 then pure none else do buf ← read_full n; pure (some buf)
