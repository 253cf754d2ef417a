-- ===== src/Persistence/Rules.antt =====
-- configuration/config_persistence.go, persistDecryptHttpsCaptureRules: the same rules are written
-- twice.
use http_stack_lens.Base.{
  ℕ, zero, suc, ◌+◌, ◌<◌, ◌≡◌, refl, sym, ap, ◌∙◌, arith, true, none, some, List, [], ◌∷◌, ◌++◌,
  Bytes, codes, equal, trim_space, trim_left, trim_right, is_space, cut, lacks, append_assoc, ◌/◌,
  ◌%◌, ◌≤◌, ltb, Bool-cases, Option-cases, inl, inr, append-nil, ℤ, pos, negsuc,
}
use http_stack_lens.Http.Decimal.{digits, itoa}
use http_stack_lens.Http.Messages.{decimal}
use http_stack_lens.Configuration.CaptureRules.{Float, MimeTypeRule, DecryptHttpsConfig}
use http_stack_lens.Persistence.{Lines, entry, trim_spaces, ends_line, keep_lines, is_one_of}
use http_stack_lens.Persistence.Settings.{
  yaml_line, capture_rule_keys, default_lines, size_lines, rule_lines, render_capture_rule_lines,
  capture_rules_edit,
}
use http_stack_lens.Persistence.Values.{entry-spaces}
use http_stack_lens.Persistence.Sections.{Quiet, Quiet-append}
use http_stack_lens.Persistence.Whole.{IsWhole, AllWhole, AllWhole-append}
use http_stack_lens.Persistence.Repeated.{replaced_again}
use http_stack_lens.Persistence.Rendered.{
  has_no_space, Child, Child-line, Child-QuietLine, keep-removed, keep-removed_next, keep-passed,
  yaml_line-IsWhole,
}

lacks-digits : (fuel n : ℕ) (s : Bytes) → lacks 10 s ≡ true → lacks 10 (digits fuel n s) ≡ true
unfolding digits lacks
lacks-digits zero n s h = h
lacks-digits (suc fuel) n s h = elim (Bool-cases (ltb n 10)) [
  | inl e ↦ rw e (ground arith)
  | inr e ↦ rw e (lacks-digits fuel (n / 10) ((48 + n % 10) ∷ s) (ground arith))
]

lacks-decimal : (n : ℤ) → lacks 10 (decimal n) ≡ true
unfolding itoa lacks
lacks-decimal (pos n) = lacks-digits (suc n) n [] refl
lacks-decimal (negsuc n) = lacks-digits (suc (n + 1)) (n + 1) [] refl

-- A line of a rule: deeper than the section, of one line, and no title.
record Below (n : ℕ) (lines : Lines) : Type 0 where
  quiet : (indent : ℕ) → indent < n → Quiet (codes "decrypt_https:") indent lines
  whole : AllWhole lines
  passed :
      (names : List Bytes) (indent : ℕ) (rest : Lines)
      → indent + 2 < n
      → keep_lines names indent (some (indent + 2)) (lines ++ rest)
        ≡ keep_lines names indent (some (indent + 2)) rest

Below-none : (n : ℕ) → Below n []
Below-none n = record { quiet = λ indent h. tt; whole = tt; passed = λ names indent rest h. refl }

Below-line :
    (n k : ℕ) (line : Bytes)
    → n ≤ k
    → Child (codes "decrypt_https:") k line
    → IsWhole line
    → Below n (line ∷ [])
Below-line n k line deep c w = record {
  quiet = λ indent h. (Child-QuietLine (codes "decrypt_https:") indent k line (omega arith) c, tt);
  whole = (w, tt);
  passed = λ names indent rest h.
      keep-passed (codes "decrypt_https:") names indent k line rest (omega arith) c;
}

Below-append : (n : ℕ) (xs ys : Lines) → Below n xs → Below n ys → Below n (xs ++ ys)
Below-append n xs ys h k = record {
  quiet = λ indent d.
      Quiet-append (codes "decrypt_https:") indent xs ys (h.quiet indent d) (k.quiet indent d);
  whole = AllWhole-append xs ys h.whole k.whole;
  passed = λ names indent rest d.
      ap (keep_lines names indent (some (indent + 2))) (append_assoc xs ys rest)
      ∙ h.passed names indent (ys ++ rest) d
      ∙ k.passed names indent rest d;
}

module _ (quote : Bytes → Bytes) (float : Float) (format_float : float.Number → Bytes)
    (plain_quote : (s : Bytes) → lacks 10 (quote s) ≡ true)
    (plain_float : (x : float.Number) → lacks 10 (format_float x) ≡ true) where
  of_size :
      (n : ℕ) (text rest : Bytes)
      → lacks 10 rest ≡ true
      → lacks 10 (codes "max_size_" ++ (text ++ rest)) ≡ true
      → Below (n + 2) (yaml_line (n + 4) (codes "max_size_" ++ (text ++ rest)) ∷ [])
  unfolding is_space has_no_space equal
  of_size n text rest h k =
      Below-line (n + 2) (n + 4) _ (omega arith)
        (Child-line (codes "decrypt_https:") (n + 4) b'm' [] _ refl refl refl (λ t. refl))
        (yaml_line-IsWhole (n + 4) (codes "max_size_" ++ (text ++ rest)) k)

  size_lines-Below :
      (n : ℕ) (rule : MimeTypeRule float)
      → Below (n + 2) (size_lines quote float format_float n rule)
  unfolding lacks
  size_lines-Below n rule = elim (Option-cases rule.max_size_bytes) [
    | inr (b, e) ↦
        rw (e, size_lines)
          (of_size n (codes "bytes: ") (decimal b) (lacks-decimal b) (lacks-decimal b))
    | inl e ↦ elim (Option-cases rule.max_size_kb) [
      | inr (x, f) ↦
          rw (e, f, size_lines)
            (of_size n (codes "kb: ") (format_float x) (plain_float x) (plain_float x))
      | inl f ↦ elim (Option-cases rule.max_size_mb) [
        | inr (x, g) ↦
            rw (e, f, g, size_lines)
              (of_size n (codes "mb: ") (format_float x) (plain_float x) (plain_float x))
        | inl g ↦ rw (e, f, g, size_lines) (Below-none (n + 2))
      ]
    ]
  ]

  rule_lines-Below :
      (n : ℕ) (rules : List (MimeTypeRule float))
      → Below (n + 2) (rule_lines quote float format_float n rules)
  unfolding rule_lines is_space has_no_space equal lacks
  rule_lines-Below n [] = Below-none (n + 2)
  rule_lines-Below n (rule ∷ rules) =
      Below-append (n + 2) (yaml_line (n + 2) (codes "- name: " ++ quote rule.name) ∷ []) _
        (Below-line (n + 2) (n + 2) _ (omega arith)
          (Child-line (codes "decrypt_https:") (n + 2) b'-' [] _ refl refl refl (λ t. refl))
          (yaml_line-IsWhole (n + 2) (codes "- name: " ++ quote rule.name) (plain_quote rule.name)))
        (Below-append (n + 2) (size_lines quote float format_float n rule) _
          (size_lines-Below n rule) (rule_lines-Below n rules))

  abbrev mime_line : ℕ → Bytes
  mime_line n = yaml_line n (codes "mime_types:")

  mime-Child : (n : ℕ) → Child (codes "decrypt_https:") n (mime_line n)
  unfolding is_space has_no_space equal
  mime-Child n = Child-line (codes "decrypt_https:") n b'm' [] _ refl refl refl (λ t. refl)

  mime-key : (n : ℕ) → is_one_of capture_rule_keys (entry (mime_line n)) ≡ true
  unfolding entry trim_spaces cut trim_space trim_left trim_right is_space equal
  mime-key n = ap (is_one_of capture_rule_keys) (entry-spaces n _)

  abbrev size_line : ℕ → ℤ → Bytes
  size_line n b = yaml_line n (codes "default_max_bytes: " ++ decimal b)

  size-Child : (n : ℕ) (b : ℤ) → Child (codes "decrypt_https:") n (size_line n b)
  unfolding is_space has_no_space equal
  size-Child n b =
      Child-line (codes "decrypt_https:") n b'd' (codes "ef") _ refl refl refl (λ t. refl)

  size-key : (n : ℕ) (b : ℤ) → is_one_of capture_rule_keys (entry (size_line n b)) ≡ true
  unfolding entry trim_spaces cut trim_space trim_left trim_right is_space equal
  size-key n b = ap (is_one_of capture_rule_keys) (entry-spaces n _)

  rules-removed :
      (indent : ℕ) (rules : List (MimeTypeRule float))
      → keep_lines capture_rule_keys indent
          (some (indent + 2))
          (rule_lines quote float format_float (indent + 2) rules)
        ≡ []
  unfolding keep_lines
  rules-removed indent rules =
      ap (keep_lines capture_rule_keys indent (some (indent + 2)))
        (sym (append-nil (rule_lines quote float format_float (indent + 2) rules)))
      ∙ (rule_lines-Below (indent + 2) rules).passed capture_rule_keys indent [] (omega arith)

  module _ (config : DecryptHttpsConfig float) where
    rest-Quiet :
        (indent : ℕ)
        → Quiet (codes "decrypt_https:") indent (
            mime_line (indent + 2)
            ∷ rule_lines quote float format_float (indent + 2) config.mime_types)
    rest-Quiet indent = (
      Child-QuietLine (codes "decrypt_https:") indent (indent + 2) _ (omega arith)
          (mime-Child (indent + 2)),
      (rule_lines-Below (indent + 2) config.mime_types).quiet indent (omega arith),
    )

    render-Quiet :
        (indent : ℕ)
        → Quiet
            (codes "decrypt_https:")
            indent
            (render_capture_rule_lines quote float format_float config (indent + 2))
    unfolding render_capture_rule_lines
    render-Quiet indent = elim (Option-cases config.default_max_bytes) [
      | inl e ↦ rw (e, default_lines) (rest-Quiet indent)
      | inr (b, e) ↦
          rw (e, default_lines)
            (
              Child-QuietLine (codes "decrypt_https:") indent (indent + 2) _ (omega arith)
                  (size-Child (indent + 2) b),
              rest-Quiet indent,
            )
    ]

    render-removed :
        (indent : ℕ)
        → keep_lines capture_rule_keys indent none
            (render_capture_rule_lines quote float format_float config (indent + 2))
          ≡ []
    unfolding render_capture_rule_lines
    render-removed indent = elim (Option-cases config.default_max_bytes) [
      | inl e ↦
          rw (e, default_lines)
            (keep-removed (codes "decrypt_https:") capture_rule_keys indent _ _
                (mime-Child (indent + 2)) (mime-key (indent + 2))
              ∙ rules-removed indent config.mime_types)
      | inr (b, e) ↦
          rw (e, default_lines)
            (keep-removed (codes "decrypt_https:") capture_rule_keys indent _ _
                (size-Child (indent + 2) b) (size-key (indent + 2) b)
              ∙ keep-removed_next (codes "decrypt_https:") capture_rule_keys indent _ _
                  (mime-Child (indent + 2)) (mime-key (indent + 2))
              ∙ rules-removed indent config.mime_types)
    ]

    rest-AllWhole :
        (n : ℕ) → AllWhole (mime_line n ∷ rule_lines quote float format_float n config.mime_types)
    unfolding lacks
    rest-AllWhole n = (
      yaml_line-IsWhole n (codes "mime_types:") refl,
      (rule_lines-Below n config.mime_types).whole,
    )

    render-AllWhole :
        (n : ℕ) → AllWhole (render_capture_rule_lines quote float format_float config n)
    unfolding render_capture_rule_lines lacks
    render-AllWhole n = elim (Option-cases config.default_max_bytes) [
      | inl e ↦ rw (e, default_lines) (rest-AllWhole n)
      | inr (b, e) ↦
          rw (e, default_lines)
            (
              yaml_line-IsWhole n (codes "default_max_bytes: " ++ decimal b) (lacks-decimal b),
              rest-AllWhole n,
            )
    ]

  -- Where the quoted texts and the sizes have no line break and the file ends with one, what PersistDecryptHttpsCaptureRules makes of the file is not changed when it writes the same rules again.
  pub capture_rules_edit_again :
      (config : DecryptHttpsConfig float) (text text' : Bytes)
      → ends_line text ≡ true
      → capture_rules_edit quote float format_float config text ≡ some text'
      → capture_rules_edit quote float format_float config text' ≡ some text'
  unfolding capture_rules_edit
  capture_rules_edit_again config text text' e h =
      replaced_again (codes "decrypt_https:") capture_rule_keys
        (render_capture_rule_lines quote float format_float config) (render-Quiet config)
        (render-removed config) (render-AllWhole config) text text' e h
