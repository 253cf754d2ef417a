-- ===== src/Proxy/UpstreamAuth/Tokens.antt =====
-- The tokens of a list that is split at commas, and joined again.
use http_stack_lens.Base.{
  ◌≡◌, refl, ap, ◌∙◌, inl, inr, arith, Bool, true, false, ◌||◌, List, [], ◌∷◌, ◌++◌, Bytes,
  equal_fold, trim_space, trim_left, is_space, split, lacks, ◌==◌, Bool-cases,
}
use http_stack_lens.Proxy.UpstreamAuth.{join_tokens, part_is}

-- A token as it stands between commas, with no white space round it.
pub record IsToken (t : Bytes) : Type 0 where
  pub no_comma : lacks b',' t ≡ true
  pub trimmed : trim_space t ≡ t

pub data AllTokens : List Bytes → Type 0 where
  none_left : AllTokens []
  one_more : {t : Bytes} {ts : List Bytes} → IsToken t → AllTokens ts → AllTokens (t ∷ ts)

-- One of the tokens is `token`, in any case of the letters.
abbrev pub any_is : Bytes → List Bytes → Bool
any_is token [] = false
any_is token (t ∷ ts) = equal_fold t token || any_is token ts

split-lacks : (s : Bytes) → lacks b',' s ≡ true → split b',' s ≡ s ∷ []
unfolding split lacks
split-lacks [] h = refl
split-lacks (c ∷ s) h = ground (arith, split-lacks s)

split-comma :
    (s rest : Bytes) → lacks b',' s ≡ true → split b',' (s ++ b',' ∷ rest) ≡ s ∷ split b',' rest
unfolding split lacks
split-comma [] rest h = refl
split-comma (c ∷ s) rest h = ground (arith, split-comma s rest)

split-cons : (s : Bytes) → (p : Bytes) × (ps : List Bytes) × (split b',' s ≡ p ∷ ps)
unfolding split
split-cons [] = ([], [], refl)
split-cons (c ∷ s) = elim (Bool-cases (c == b',')) [
  | inl e ↦ ([], split b',' s, rw e refl)
  | inr e ↦ let (p, ps, h) = split-cons s in (c ∷ p, ps, rw (e, h) refl)
]

trim_space-space : (s : Bytes) → trim_space (b' ' ∷ s) ≡ trim_space s
unfolding trim_space trim_left is_space
trim_space-space s = refl

part_is-space :
    (token s : Bytes) → part_is token (split b',' (b' ' ∷ s)) ≡ part_is token (split b',' s)
unfolding part_is split
part_is-space token s = let (p, ps, h) = split-cons s in rw (h, trim_space-space p) refl

part_is-any_is :
    (token t : Bytes) (ps ts : List Bytes)
    → trim_space t ≡ t
    → part_is token ps ≡ any_is token ts
    → part_is token (t ∷ ps) ≡ any_is token (t ∷ ts)
unfolding part_is
part_is-any_is token t ps ts trimmed h = rw (trimmed, h) refl

-- A list of tokens that is joined has those tokens and no others.
pub part_is-join_tokens :
    (token t : Bytes) (ts : List Bytes)
    → AllTokens (t ∷ ts)
    → part_is token (split b',' (join_tokens (t ∷ ts))) ≡ any_is token (t ∷ ts)
unfolding join_tokens
part_is-join_tokens token t [] (one_more k _) =
    ap (part_is token) (split-lacks t k.no_comma)
    ∙ part_is-any_is token t [] [] k.trimmed (part_is_nil token)
  where
    part_is_nil : (token : Bytes) → part_is token [] ≡ false
    part_is_nil token = unfold part_is in refl
part_is-join_tokens token t (u ∷ ts) (one_more k ks) =
    let rest = join_tokens (u ∷ ts) in
    ap (part_is token) (split-comma t (b' ' ∷ rest) k.no_comma)
    ∙ part_is-any_is token t (split b',' (b' ' ∷ rest)) (u ∷ ts) k.trimmed
        (part_is-space token rest ∙ part_is-join_tokens token u ts ks)
