-- ===== src/Storage/CaptureRecord.antt =====
-- storage/capture_record.go: what a .capture file holds.
use http_stack_lens.Base.{
  ℕ, zero, suc, ◌+◌, ◌*◌, ◌/◌, ◌%◌, Bool, Option, List, [], ◌∷◌, ◌++◌, Bytes, ltb, take, drop,
  if◌then◌else◌, codes, ℤ, pos, negsuc, Result, ok, err,
}
use http_stack_lens.Storage.Effect.{Error}

abbrev pub capture_file_magic : Bytes
capture_file_magic = codes "HSLC"

abbrev pub capture_format_version : ℤ
capture_format_version = pos 2

pub record FileHeader : Type 0 where
  pub magic : Bytes
  pub version : ℤ
  pub https_decrypted : Bool
  pub records_count : ℤ

unfoldable pub new_file_header : Bool → FileHeader
new_file_header https_decrypted = record {
  magic = capture_file_magic;
  version = capture_format_version;
  https_decrypted = https_decrypted;
  records_count = negsuc 0;
}

abbrev pub record_type_request : ℕ
record_type_request = 0x01

abbrev pub record_type_response : ℕ
record_type_response = 0x02

-- `byte(major&0x0F)<<4 | byte(minor&0x0F)`: the two nibbles do not overlap.
unfoldable pub new_http_version : ℕ → ℕ → ℕ
new_http_version major minor = major % 16 * 16 + minor % 16

-- `v >> 4` and `v & 0x0F`
unfoldable pub major : ℕ → ℕ
major v = v / 16

unfoldable pub minor : ℕ → ℕ
minor v = v % 16

pub record Header : Type 0 where
  pub name : Bytes
  pub value : Bytes

-- A body that is `none` is a nil slice.
pub record RequestRecord : Type 0 where
  pub request_id : Bytes
  pub method : Bytes
  pub url : Bytes
  pub http_version : ℕ
  pub headers : List Header
  pub body_skipped : Bool
  pub body : Option Bytes

pub record ResponseRecord : Type 0 where
  pub request_id : Bytes
  pub http_version : ℕ
  pub status_code : ℤ
  pub status_message : Bytes
  pub headers : List Header
  pub body_skipped : Bool
  pub body : Option Bytes

pub data CaptureRecord : Type 0 where
  request : RequestRecord → CaptureRecord
  response : ResponseRecord → CaptureRecord

-- Element `i` of an array, with `f` put in its place.
abbrev set_with : (ℕ → ℕ) → ℕ → Bytes → Bytes
set_with f i [] = []
set_with f zero (b ∷ bs) = f b ∷ bs
set_with f (suc i) (b ∷ bs) = b ∷ set_with f i bs

-- The argument is what rand.Read answers. `& 0x0f | 0x40` and `& 0x3f | 0x80` are sums here, for
-- the bits do not overlap.
unfoldable pub new_uuid : Result Error Bytes → Result Error Bytes
new_uuid (err e) = err e
new_uuid (ok u) = ok (set_with (λ b. b % 64 + 0x80) 8 (set_with (λ b. b % 16 + 0x40) 6 u))

unfoldable pub hex_digit : ℕ → ℕ
hex_digit n = if ltb n 10 then n + b'0' else n + 87

-- hex.Encode
unfoldable pub hex_encode : Bytes → Bytes
hex_encode [] = []
hex_encode (b ∷ bs) = hex_digit (b / 16) ∷ hex_digit (b % 16) ∷ hex_encode bs

abbrev pub hyphen : Bytes → Bytes
hyphen rest = b'-' ∷ rest

unfoldable pub uuid_string : Bytes → Bytes
uuid_string u =
    hex_encode (take 4 u)
    ++ hyphen (
        hex_encode (take 2 (drop 4 u))
        ++ hyphen (
            hex_encode (take 2 (drop 6 u))
            ++ hyphen (hex_encode (take 2 (drop 8 u)) ++ hyphen (hex_encode (take 6 (drop 10 u))))))
