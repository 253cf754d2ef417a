-- ===== src/Storage/Binary/Words.antt =====
-- Words are read back from the bytes that they are written as.
use http_stack_lens.Base.{ℕ, zero, suc, ◌*◌, ◌/◌, ◌<◌, ◌≡◌, refl, arith, length}
use http_stack_lens.Storage.Binary.{put_le, get_le}

-- 256 ^ k.
abbrev pub words : ℕ → ℕ
words zero = 1
words (suc k) = 256 * words k

pub length-put_le : (k v : ℕ) → length (put_le k v) ≡ k
unfolding put_le
length-put_le zero v = refl
length-put_le (suc k) v = omega (arith, length-put_le k (v / 256))

pub get_le-put_le : (k v : ℕ) → v < words k → get_le (put_le k v) ≡ v
unfolding put_le get_le
get_le-put_le zero v h = omega arith
get_le-put_le (suc k) v h = omega (arith, get_le-put_le k (v / 256) (omega arith))
