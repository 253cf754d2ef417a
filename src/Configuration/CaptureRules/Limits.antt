-- ===== src/Configuration/CaptureRules/Limits.antt =====
-- Which rule of the capture limits applies to a content type.
use http_stack_lens.Base.{
  ◌≡◌, refl, ap, ◌⊎◌, inl, inr, Bool, true, false, none, some, List, [], ◌∷◌, ◌++◌, Bytes, ℤ,
  Bool-cases,
}
use http_stack_lens.Configuration.CaptureRules.{
  Float, MimeTypeRule, DecryptHttpsConfig, normalize_content_type, content_type_matches,
  explicit_limit, default_limit_bytes, limit_for, limit_for_content_type,
}

module _ (float : Float) where
  abbrev pub NoneMatch : List (MimeTypeRule float) → Bytes → Type 0
  NoneMatch [] ct = Unit
  NoneMatch (rule ∷ rules) ct = (content_type_matches rule.name ct ≡ false) × NoneMatch rules ct

  -- The first rule that matches, with those in front of it and those behind.
  pub record FirstMatch (rules : List (MimeTypeRule float)) (ct : Bytes) : Type 0 where
    pub before : List (MimeTypeRule float)
    pub rule : MimeTypeRule float
    pub after : List (MimeTypeRule float)
    pub splits : rules ≡ before ++ rule ∷ after
    pub skipped : NoneMatch before ct
    pub matches : content_type_matches rule.name ct ≡ true

  abbrev pub Chosen : List (MimeTypeRule float) → ℤ → Bytes → ℤ × Bool → Type 0
  Chosen rules default ct result =
      ((first : FirstMatch rules ct) × (result
          ≡ (elim (explicit_limit float first.rule) [ some l ↦ l | none ↦ default ], true)))
      ⊎ (NoneMatch rules ct × (result ≡ (default, false)))

  further :
      (rule : MimeTypeRule float) (rules : List (MimeTypeRule float)) (default : ℤ) (ct : Bytes)
      (result : ℤ × Bool)
      → content_type_matches rule.name ct ≡ false
      → Chosen rules default ct result
      → Chosen (rule ∷ rules) default ct result
  further rule rules default ct result there (inl (first, e)) = inl (
    record {
      before = rule ∷ first.before;
      rule = first.rule;
      after = first.after;
      splits = ap (◌∷◌ rule) first.splits;
      skipped = (there, first.skipped);
      matches = first.matches;
    },
    e,
  )
  further rule rules default ct result there (inr (none_match, e)) = inr ((there, none_match), e)

  limit_for-skip :
      (rule : MimeTypeRule float) (rules : List (MimeTypeRule float)) (default : ℤ) (ct : Bytes)
      → content_type_matches rule.name ct ≡ false
      → limit_for float (rule ∷ rules) default ct ≡ limit_for float rules default ct
  unfolding limit_for
  limit_for-skip rule rules default ct h = rw h

  limit_for-take :
      (rule : MimeTypeRule float) (rules : List (MimeTypeRule float)) (default : ℤ) (ct : Bytes)
      → content_type_matches rule.name ct ≡ true
      → limit_for float (rule ∷ rules) default ct
        ≡ (elim (explicit_limit float rule) [ some l ↦ l | none ↦ default ], true)
  unfolding limit_for
  limit_for-take rule rules default ct h = rw h

  limit_for-nil : (default : ℤ) (ct : Bytes) → limit_for float [] default ct ≡ (default, false)
  unfolding limit_for
  limit_for-nil default ct = refl

  limit_for-Chosen :
      (rules : List (MimeTypeRule float)) (default : ℤ) (ct : Bytes)
      → Chosen rules default ct (limit_for float rules default ct)
  limit_for-Chosen [] default ct = inr (tt, limit_for-nil default ct)
  limit_for-Chosen (rule ∷ rules) default ct =
      elim (Bool-cases (content_type_matches rule.name ct)) [
        | inl here ↦ inl (
          record {
            before = [];
            rule = rule;
            after = rules;
            splits = refl;
            skipped = tt;
            matches = here;
          },
          limit_for-take rule rules default ct here,
        )
        | inr there ↦
            rw (limit_for-skip rule rules default ct there)
              (further rule rules default ct _ there (limit_for-Chosen rules default ct))
      ]

  -- The limit is that of the first rule that matches the content type, or the default where that
  -- rule gives no size; where no rule matches it is the default, and only then is `matched` false.
  pub limit_for_content_type-Chosen :
      (c : DecryptHttpsConfig float) (content_type : Bytes)
      → Chosen c.mime_types
          (default_limit_bytes float c)
          (normalize_content_type content_type)
          (limit_for_content_type float c content_type)
  unfolding limit_for_content_type
  limit_for_content_type-Chosen c content_type = limit_for-Chosen c.mime_types _ _
