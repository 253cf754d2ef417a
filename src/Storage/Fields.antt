-- ===== src/Storage/Fields.antt =====
-- The fields of a record, as bytes, and what they must satisfy to be read back.
use http_stack_lens.Base.{
  ◌≤◌, ◌<◌, ◌^◌, ◌≡◌, refl, arith, Option, none, some, List, [], ◌∷◌, ◌++◌, append-nil, Bytes,
  length, ltb-false, pos, negsuc,
}
use http_stack_lens.Storage.Binary.{put_le}
use http_stack_lens.Storage.Binary.ReadBack.{
  int_bytes, Reads-read_int32, Reads-read_int64, Reads-read_uint32,
}
use http_stack_lens.Storage.CaptureRecord.{Header}
use http_stack_lens.Storage.Reads.{
  Reads, Reads-pure, Reads-bind, Reads-map, Reads-read_bytes, sliced,
}
use http_stack_lens.Storage.SessionReader.{
  max_field_len, bytes_of, read_lp_string, read_pairs, read_headers, read_blob,
}

abbrev pub lp_bytes : Bytes → Bytes
lp_bytes s = put_le 4 (length s) ++ s

abbrev pub pairs_bytes : List Header → Bytes
pairs_bytes [] = []
pairs_bytes (h ∷ headers) = lp_bytes h.name ++ (lp_bytes h.value ++ pairs_bytes headers)

abbrev pub headers_bytes : List Header → Bytes
headers_bytes headers = int_bytes 4 (2 ^ 31) (pos (length headers)) ++ pairs_bytes headers

abbrev pub blob_bytes : Option Bytes → Bytes
blob_bytes none = int_bytes 8 (2 ^ 63) (negsuc 0)
blob_bytes (some b) = int_bytes 8 (2 ^ 63) (pos (length b)) ++ b

abbrev pub FieldFits : Bytes → Type 0
FieldFits s = length s ≤ max_field_len

abbrev pub PairsFit : List Header → Type 0
PairsFit [] = Unit
PairsFit (h ∷ headers) = FieldFits h.name × FieldFits h.value × PairsFit headers

abbrev pub HeadersFit : List Header → Type 0
HeadersFit headers = (length headers < 2 ^ 31) × PairsFit headers

abbrev pub BodyFits : Option Bytes → Type 0
BodyFits none = Unit
BodyFits (some b) = FieldFits b

-- What a body is read back as: an empty slice comes back as nil.
abbrev pub stored_body : Option Bytes → Option Bytes
stored_body none = none
stored_body (some b) = sliced b

pub bytes_of-sliced : (b : Bytes) → bytes_of (sliced b) ≡ b
bytes_of-sliced [] = refl
bytes_of-sliced (x ∷ b) = refl

pub Reads-read_lp_string : (s : Bytes) → FieldFits s → Reads read_lp_string (lp_bytes s) s
unfolding read_lp_string
Reads-read_lp_string s h = Reads-bind _ (Reads-read_uint32 (length s) (omega arith)) (
    rw (ltb-false (length s) max_field_len h)
      (rw (bytes_of-sliced s) at (Reads-map bytes_of (Reads-read_bytes (length s) s refl))))

pub Reads-read_pairs :
    (headers : List Header)
    → PairsFit headers
    → Reads (read_pairs (length headers)) (pairs_bytes headers) headers
unfolding read_pairs
Reads-read_pairs [] h = Reads-pure []
Reads-read_pairs (x ∷ headers) (name_fits, value_fits, fits) =
    Reads-bind _ (Reads-read_lp_string x.name name_fits) (
      Reads-bind _ (Reads-read_lp_string x.value value_fits)
        (Reads-map _ (Reads-read_pairs headers fits)))

pub Reads-read_headers :
    (headers : List Header)
    → HeadersFit headers
    → Reads read_headers (headers_bytes headers) headers
unfolding read_headers
Reads-read_headers headers (count, fits) =
    Reads-bind _ (Reads-read_int32 (pos (length headers)) count) (Reads-read_pairs headers fits)

pub Reads-read_blob :
    (body : Option Bytes) → BodyFits body → Reads read_blob (blob_bytes body) (stored_body body)
unfolding read_blob
Reads-read_blob none h =
    let absent : Reads read_blob (blob_bytes none ++ []) none =
      Reads-bind _ (Reads-read_int64 (negsuc 0) (omega arith)) (Reads-pure none) in
    rw append-nil at absent
Reads-read_blob (some b) h =
    Reads-bind _ (Reads-read_int64 (pos (length b)) (omega arith))
      (rw (ltb-false (length b) max_field_len h) (Reads-read_bytes (length b) b refl))
