-- ===== src/WebUi/Tests.antt =====
-- Concrete requests to the collection of files, and its theorems at concrete inputs.
use http_stack_lens.Base.{
  ℕ, ◌≡◌, refl, sym, ap, ◌∙◌, true, false, Bool-cases, inl, inr, none, some, [], Bytes, codes,
  equal, equal_iff, equal_fold, to_lower, lower, trim_space, trim_left, trim_right, is_space,
  has_prefix, lacks, ◌==◌, if◌then◌else◌, ok, err,
}
use http_stack_lens.Parsing.Http.{trim_end}
use http_stack_lens.Proxy.BodyCapture.{Body}
use http_stack_lens.WebUi.HttpFiles.{
  ext, ext_behind, base, last_element, any_byte, is_reserved, with_ext, checked_name,
  http_file_name, Files,
}
use http_stack_lens.WebUi.HttpFiles.Handlers.{save_file, handle}
use http_stack_lens.WebUi.HttpFiles.Names.{IsSafe, http_file_name-IsSafe}
use http_stack_lens.WebUi.HttpFiles.Kept.{Keeps, handle-keeps}

name_run : http_file_name (codes " notes ") ≡ some (codes "notes.http")
unfolding http_file_name checked_name with_ext ext ext_behind base last_element any_byte is_reserved
    trim_space trim_left trim_right is_space equal equal_fold to_lower lower has_prefix trim_end
name_run = refl

path_run : http_file_name (codes "../x") ≡ none
unfolding http_file_name checked_name with_ext ext ext_behind base last_element any_byte is_reserved
    trim_space trim_left trim_right is_space equal equal_fold to_lower lower has_prefix trim_end
path_run = refl

http_file_name-IsSafe_example :
    IsSafe (codes "notes.http") × (http_file_name (codes "notes.http") ≡ some (codes "notes.http"))
http_file_name-IsSafe_example =
    http_file_name-IsSafe (codes " notes ") (codes "notes.http") name_run

-- The world is the content of one file outside of the folder.
abbrev outside : Bytes
outside = codes "../config.yaml"

abbrev files : Files Bytes ℕ
files = record {
  read_dir = λ w. (ok [], w);
  info = λ name w. (err 0, w);
  stat = λ name w. (err 0, w);
  read_file = λ name w. if equal name outside then (ok w, w) else (ok [], w);
  mkdir_all = λ w. (ok tt, w);
  write_file = λ name content w. if equal name outside then (ok tt, content) else (ok tt, w);
  rename_file = λ from to w.
      if equal from outside
      then (ok tt, [])
      else (if equal to outside then (ok tt, []) else (ok tt, w));
  remove_file = λ name w. if equal name outside then (ok tt, []) else (ok tt, w);
  show_folder = λ w. (ok tt, w);
  is_not_exist = λ e. e == 2;
}

abbrev IsUnchanged : Bytes → Type 0
IsUnchanged w = w ≡ codes "secret"

safe_is_inside : (name : Bytes) → IsSafe name → equal name outside ≡ false
unfolding lacks
safe_is_inside name safe = elim (Bool-cases (equal name outside)) [
  | inr e ↦ e
  | inl e ↦ absurd (
      let no : false ≡ true =
        ap (lacks b'/') (sym ((equal_iff name outside).0 e)) ∙ safe.no_slash in
      cc)
]

files-Keeps : Keeps files IsUnchanged
files-Keeps = record {
  reads_dir = λ w h. h;
  reads_info = λ name w h. h;
  reads_stat = λ name w h. h;
  reads = λ name w h. elim (Bool-cases (equal name outside)) [ inl e ↦ rw e h | inr e ↦ rw e h ];
  makes = λ w h. h;
  shows = λ w h. h;
  writes = λ name content w safe h. rw (safe_is_inside name safe) h;
  renames = λ from to w f t h. rw (safe_is_inside from f, safe_is_inside to t) h;
  removes = λ name w safe h. rw (safe_is_inside name safe) h;
}

abbrev text : Body ℕ
text = record { input = codes "GET /"; failure = none }

handle-keeps_example : IsUnchanged (handle files (save_file outside text) (codes "secret")).1
handle-keeps_example =
    handle-keeps files IsUnchanged files-Keeps (save_file outside text) (codes "secret") refl
