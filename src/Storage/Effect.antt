-- ===== src/Storage/Effect.antt =====
-- Go calls that read or write a stream: they return an error or a value, and the stream is moved
-- in either case. The errors are those of storage/capture_session_reader.go and of package io.
use http_stack_lens.Base.{ℕ, ℤ, Bytes, Result, ok, err}

pub data Error : Type 0 where
  -- io.EOF, io.ErrUnexpectedEOF
  eof unexpected_eof : Error
  bad_magic : Error
  unsupported_version : ℤ → Error
  unknown_record_type : ℕ → Error
  string_too_long : ℕ → Error
  negative_header_count : ℤ → Error
  blob_too_long : ℤ → Error
  -- CorruptRecordError, with its Stored and Computed
  corrupt_record : ℕ → ℕ → Error
  -- what the operating system answers when a file cannot be opened or written
  device : Error

abbrev pub Io : Type 0 → Type 0 → Type 0
Io S A = S → Result Error A × S

abbrev pub pure : {S A : Type 0} → A → Io S A
pure a s = (ok a, s)

abbrev pub fail : {S A : Type 0} → Error → Io S A
fail e s = (err e, s)

-- `if err != nil { return err }` behind a call.
abbrev pub continue : {S A B : Type 0} → Result Error A → (A → Io S B) → Io S B
continue (ok a) f s = f a s
continue (err e) f s = (err e, s)

infixl 5 ◌>>=◌ ◌>>◌
abbrev pub ◌>>=◌ : {S A B : Type 0} → Io S A → (A → Io S B) → Io S B
◌>>=◌ m f s = let (r, s') = m s in continue r f s'

abbrev pub ◌>>◌ : {S B : Type 0} → Io S (Unit {0}) → Io S B → Io S B
m >> k = m >>= λ _. k

-- io.Writer, over a stream whose state is `W`.
pub record IoWriter (W : Type 0) : Type 0 where
  pub write : Bytes → Io W (Unit {0})
