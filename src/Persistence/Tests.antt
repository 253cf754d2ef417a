-- ===== src/Persistence/Tests.antt =====
-- Concrete edits of a small config.yaml, and the theorems on edits at concrete inputs.
use http_stack_lens.Base.{
  ℕ, zero, suc, ◌≡◌, refl, Bool-cases, inl, inr, true, false, none, some, [], ◌∷◌, Bytes, codes,
  equal, ◌==◌, replicate, if◌then◌else◌, trim_space, trim_left, trim_right, is_space, has_prefix,
  cut, lacks, pos,
}
use http_stack_lens.Parsing.Http.{trim_end}
use http_stack_lens.Http.Decimal.{digits, itoa}
use http_stack_lens.Configuration.CaptureRules.{Float, MimeTypeRule, DecryptHttpsConfig}
use http_stack_lens.Runtime.Settings.{UpstreamSettings}
use http_stack_lens.Persistence.{
  split_after, join, leading_spaces, trim_spaces, is_ignored, entry, value_of, comment_of,
  ends_line, edited, edit_lines, find_section, is_removed, keep_lines, replace_section, truth,
}
use http_stack_lens.Persistence.Settings.{
  item_lines, render_upstream_lines, upstream_edit, rule_lines, render_capture_rule_lines,
  capture_rules_edit, storage_edit,
}
use http_stack_lens.Persistence.Values.{TextEdited, storage_edit-TextEdited}
use http_stack_lens.Persistence.Upstream.{upstream_edit_again}
use http_stack_lens.Persistence.Rules.{capture_rules_edit_again}

-- Texts in quotation marks, with a line break written as `\n`.
unfoldable escaped : Bytes → Bytes
escaped [] = b'"' ∷ []
escaped (c ∷ s) = if c == 10 then b'\\' ∷ b'n' ∷ escaped s else c ∷ escaped s

abbrev quoted : Bytes → Bytes
quoted s = b'"' ∷ escaped s

escaped_plain : (s : Bytes) → lacks 10 (escaped s) ≡ true
unfolding lacks escaped
escaped_plain [] = refl
escaped_plain (c ∷ s) = elim (Bool-cases (c == 10)) [
  | inl e ↦ rw (e, lacks) (escaped_plain s)
  | inr e ↦ rw (e, lacks) (rw e (escaped_plain s))
]

quoted_plain : (s : Bytes) → lacks 10 (quoted s) ≡ true
unfolding lacks
quoted_plain s = escaped_plain s

-- float64 on the whole numbers.
abbrev wholes : Float
wholes = record { Number = ℕ; times = λ x n. x; to_int64 = λ x. pos x }

abbrev format_whole : ℕ → Bytes
format_whole n = replicate n b'1'

format_whole_plain : (n : ℕ) → lacks 10 (format_whole n) ≡ true
unfolding lacks
format_whole_plain zero = refl
format_whole_plain (suc n) = format_whole_plain n

abbrev storage_text : Bytes
storage_text = codes "proxy:\n  port: 1\nstorage:\n  # note\n  enable: true # keep\n  path: x\n"

abbrev storage_text_off : Bytes
storage_text_off =
    codes "proxy:\n  port: 1\nstorage:\n  # note\n  enable: false # keep\n  path: x\n"

storage_run : storage_edit false storage_text ≡ some storage_text_off
unfolding storage_edit split_after join leading_spaces trim_spaces is_ignored entry value_of
    comment_of ends_line edited edit_lines trim_space trim_left trim_right is_space has_prefix cut
    equal trim_end
storage_run = refl

storage_edit-TextEdited_example :
    TextEdited (codes "storage:") (codes "enable") (truth false) storage_text storage_text_off
storage_edit-TextEdited_example =
    storage_edit-TextEdited false storage_text storage_text_off storage_run

abbrev upstream : UpstreamSettings
upstream = record {
  output_proxy_uri = codes "http://p:1";
  no_proxy = codes "a" ∷ [];
  add_windows_authentication = true;
}

abbrev proxy_text : Bytes
proxy_text = codes "proxy:\n  port: 1\n  no_proxy:\n    - b\n  # end\nwebui:\n"

abbrev proxy_text_new : Bytes
proxy_text_new =
    codes
      "proxy:\n  port: 1\n  output_proxy_uri: \"http://p:1\"\n  add_windows_authentication_to_output_proxy: true\n  no_proxy:\n    - \"a\"\nwebui:\n"

proxy_run : upstream_edit quoted upstream proxy_text ≡ some proxy_text_new
unfolding upstream_edit render_upstream_lines item_lines replace_section find_section keep_lines
    is_removed split_after join leading_spaces trim_spaces is_ignored entry trim_space trim_left
    trim_right is_space has_prefix cut equal escaped
proxy_run = refl

proxy_text_ends : ends_line proxy_text ≡ true
unfolding ends_line
proxy_text_ends = refl

upstream_edit_again_example : upstream_edit quoted upstream proxy_text_new ≡ some proxy_text_new
upstream_edit_again_example =
    upstream_edit_again quoted upstream proxy_text proxy_text_new quoted_plain proxy_text_ends
      proxy_run

abbrev text_rule : MimeTypeRule wholes
text_rule = record {
  name = codes "text/*";
  max_size_bytes = none;
  max_size_kb = some 2;
  max_size_mb = none;
}

abbrev capture : DecryptHttpsConfig wholes
capture = record {
  enabled = true;
  ca_cert_file = [];
  ca_key_file = [];
  domain_certs_folder = [];
  default_max_bytes = some (pos 10);
  mime_types = text_rule ∷ [];
}

abbrev decrypt_text : Bytes
decrypt_text =
    codes "decrypt_https:\n  enabled: true\n  mime_types:\n    - name: b\n      max_size_kb: 1\n"

abbrev decrypt_text_new : Bytes
decrypt_text_new =
    codes
      "decrypt_https:\n  enabled: true\n  default_max_bytes: 10\n  mime_types:\n    - name: \"text/*\"\n      max_size_kb: 11\n"

decrypt_run :
    capture_rules_edit quoted wholes format_whole capture decrypt_text ≡ some decrypt_text_new
unfolding capture_rules_edit render_capture_rule_lines rule_lines digits itoa replace_section
    find_section keep_lines is_removed split_after join leading_spaces trim_spaces is_ignored entry
    trim_space trim_left trim_right is_space has_prefix cut equal escaped
decrypt_run = refl

decrypt_text_ends : ends_line decrypt_text ≡ true
unfolding ends_line
decrypt_text_ends = refl

capture_rules_edit_again_example :
    capture_rules_edit quoted wholes format_whole capture decrypt_text_new ≡ some decrypt_text_new
capture_rules_edit_again_example =
    capture_rules_edit_again quoted wholes format_whole quoted_plain format_whole_plain capture
      decrypt_text decrypt_text_new decrypt_text_ends decrypt_run
