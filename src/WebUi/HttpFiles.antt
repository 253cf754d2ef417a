-- ===== src/WebUi/HttpFiles.antt =====
-- webui/http_files.go: the composer's collection of .http files. The folder is a
-- parameter, and a path in it is the name that is joined to the folder.
pub mod Handlers
pub mod Names
pub mod Kept
use http_stack_lens.Base.{
  ℕ, ◌+◌, Bool, true, false, not, ◌&&◌, ◌||◌, Option, none, some, List, [], ◌∷◌, ◌++◌, Bytes, codes,
  equal, equal_fold, to_lower, trim_space, has_prefix, length, ltb, ◌==◌, if◌then◌else◌, Call,
  Result, ok, err,
}
use http_stack_lens.Parsing.Http.{trim_end}
use http_stack_lens.Proxy.BodyCapture.{Body, read_limited_to}

abbrev pub http_file_ext : Bytes
http_file_ext = codes ".http"

-- 1 << 20
abbrev pub max_http_file_bytes : ℕ
max_http_file_bytes = 1_048_576

abbrev pub next_ext : ℕ → Bytes → Bytes → Bytes
next_ext c s last = if c == b'/' then [] else if c == b'.' then c ∷ s else last

unfoldable pub ext_behind : Bytes → Bytes → Bytes
ext_behind [] last = last
ext_behind (c ∷ s) last = ext_behind s (next_ext c s last)

-- filepath.Ext where paths have slashes.
unfoldable pub ext : Bytes → Bytes
ext path = ext_behind path []

unfoldable pub last_element : Bytes → Bytes → Bytes
last_element [] last = last
last_element (c ∷ s) last = last_element s (if c == b'/' then s else last)

abbrev pub or_else : Bytes → Bytes → Bytes
or_else other [] = other
or_else other (c ∷ s) = c ∷ s

abbrev pub base_of : Bytes → Bytes
base_of path = or_else (codes "/") (last_element path path)

-- filepath.Base where paths have slashes.
unfoldable pub base : Bytes → Bytes
base [] = codes "."
base (c ∷ s) = base_of (trim_end (codes "/") (c ∷ s))

unfoldable pub any_byte : (ℕ → Bool) → Bytes → Bool
any_byte test [] = false
any_byte test (c ∷ s) = test c || any_byte test s

abbrev pub is_separator : ℕ → Bool
is_separator c = c == b'/' || c == b'\\'

-- The reserved characters "<>:|?*" and the quotation mark, and those that are not printed.
unfoldable pub is_reserved : ℕ → Bool
is_reserved c =
    ltb c 32 || any_byte (λ d. c == d) (b'<' ∷ b'>' ∷ b':' ∷ b'"' ∷ b'|' ∷ b'?' ∷ b'*' ∷ [])

unfoldable pub with_ext : Bytes → Bytes
with_ext trimmed =
    if equal_fold (ext trimmed) http_file_ext then trimmed else trimmed ++ http_file_ext

unfoldable pub checked_name : Bytes → Option Bytes
checked_name trimmed =
    if not (equal trimmed (base trimmed)) || any_byte is_separator trimmed
    then none
    else if has_prefix trimmed (codes ".") || ltb 128 (length trimmed)
    then none
    else if any_byte is_reserved trimmed
    then none
    else some trimmed

abbrev pub file_name : Bytes → Option Bytes
file_name [] = none
file_name (c ∷ s) = checked_name (with_ext (c ∷ s))

-- `none` is errInvalidHttpFileName.
unfoldable pub http_file_name : Bytes → Option Bytes
http_file_name name = file_name (trim_space name)

pub record Entry : Type 0 where
  pub name : Bytes
  pub is_dir : Bool

-- The functions of package os at the folder, and at a name in it. `info` and `stat` give the size and
-- the time of the last change.
pub record Files (W E : Type 0) : Type 0 where
  pub read_dir : Call W E (List Entry)
  pub info : Bytes → Call W E (ℕ × Bytes)
  pub stat : Bytes → Call W E (ℕ × Bytes)
  pub read_file : Bytes → Call W E Bytes
  pub mkdir_all : Call W E (Unit {0})
  pub write_file : Bytes → Bytes → Call W E (Unit {0})
  pub rename_file : Bytes → Bytes → Call W E (Unit {0})
  pub remove_file : Bytes → Call W E (Unit {0})
  pub show_folder : Call W E (Unit {0})
  pub is_not_exist : E → Bool

pub data FileError (E : Type 0) : Type 0 where
  invalid_name : FileError E
  file_exists : FileError E
  too_large : Bytes → FileError E
  io : E → FileError E

-- The time is empty where stat fails.
pub record HttpFileDto : Type 0 where
  pub name : Bytes
  pub content : Bytes
  pub modified_at : Bytes

-- Go's `<` on strings.
unfoldable pub before : Bytes → Bytes → Bool
before s [] = false
before [] (d ∷ t) = true
before (c ∷ s) (d ∷ t) = ltb c d || (c == d && before s t)

unfoldable pub insert_file : HttpFileDto → List HttpFileDto → List HttpFileDto
insert_file file [] = file ∷ []
insert_file file (other ∷ files) =
    let behind = insert_file file files in
    if before (to_lower other.name) (to_lower file.name)
    then other ∷ behind
    else file ∷ other ∷ files

-- sort.Slice by the names in small letters; it leaves open in what order equal ones come.
unfoldable pub sort_files : List HttpFileDto → List HttpFileDto
sort_files [] = []
sort_files (file ∷ files) = insert_file file (sort_files files)

abbrev pub is_listed : Entry → Bool
is_listed entry = not (entry.is_dir || not (equal_fold (ext entry.name) http_file_ext))

module _ {W E : Type 0} (files : Files W E) where
  abbrev pub of_io : {A : Type 0} → Result E A × W → Result (FileError E) A × W
  of_io (ok a, w) = (ok a, w)
  of_io (err e, w) = (err (io e), w)

  -- What follows a call, where it does not fail.
  abbrev pub on_ok :
      {A B : Type 0}
      → Result (FileError E) A × W
      → (A → W → Result (FileError E) B × W)
      → Result (FileError E) B × W
  on_ok (ok a, w) next = next a w
  on_ok (err e, w) next = (err e, w)

  abbrev pub with_file :
      HttpFileDto → List HttpFileDto → W → Result (FileError E) (List HttpFileDto) × W
  with_file file more w = (ok (file ∷ more), w)

  abbrev pub timed : Bytes → Bytes → Result E (ℕ × Bytes) × W → Result (FileError E) HttpFileDto × W
  timed name content (ok (size, time), w) =
      (ok (record { name = name; content = content; modified_at = time }), w)
  timed name content (err e, w) =
      (ok (record { name = name; content = content; modified_at = [] }), w)

  unfoldable pub describe : Bytes → Bytes → Call W (FileError E) HttpFileDto
  describe name content w = timed name content (files.stat name w)

  unfoldable pub collect : List Entry → Call W (FileError E) (List HttpFileDto)
  collect [] w = (ok [], w)
  collect (entry ∷ entries) w = elim (is_listed entry) [
    | false ↦ collect entries w
    | true ↦ on_ok (of_io (files.info entry.name w)) (λ (size, time) w1.
        elim (ltb max_http_file_bytes size) [
          | true ↦ collect entries w1
          | false ↦ on_ok (of_io (files.read_file entry.name w1)) (λ content w2.
              on_ok (collect entries w2)
                (with_file (record { name = entry.name; content = content; modified_at = time })))
        ])
  ]

  abbrev pub collected : Result E (List Entry) × W → Result (FileError E) (List HttpFileDto) × W
  collected (ok entries, w) = on_ok (collect entries w) (λ found w1. (ok (sort_files found), w1))
  collected (err e, w) = if files.is_not_exist e then (ok [], w) else (err (io e), w)

  unfoldable pub list : Call W (FileError E) (List HttpFileDto)
  list w = collected (files.read_dir w)

  abbrev pub save_as : Bytes → Option Bytes → Call W (FileError E) HttpFileDto
  save_as content none w = (err invalid_name, w)
  save_as content (some safe) w =
      if ltb max_http_file_bytes (length content)
      then (err (too_large safe), w)
      else on_ok (of_io (files.mkdir_all w)) (λ u w1.
        on_ok (of_io (files.write_file safe content w1)) (λ v w2. describe safe content w2))

  unfoldable pub save : Bytes → Bytes → Call W (FileError E) HttpFileDto
  save name content w = save_as content (http_file_name name) w

  abbrev pub move_if_free :
      Bytes → Bytes → Result E (ℕ × Bytes) × W → Result (FileError E) (Unit {0}) × W
  move_if_free from to (ok info, w) = (err file_exists, w)
  move_if_free from to (err e, w) = of_io (files.rename_file from to w)

  unfoldable pub move : Bytes → Bytes → Call W (FileError E) (Unit {0})
  move from to w =
      if equal from to
      then (ok tt, w)
      else if equal_fold from to
      then of_io (files.rename_file from to w)
      else move_if_free from to (files.stat to w)

  abbrev pub rename_as : Option Bytes → Option Bytes → Call W (FileError E) HttpFileDto
  rename_as none to w = (err invalid_name, w)
  rename_as (some from) none w = (err invalid_name, w)
  rename_as (some from) (some to) w =
      on_ok (move from to w)
        (λ u w1. on_ok (of_io (files.read_file to w1)) (λ content w2. describe to content w2))

  unfoldable pub rename : Bytes → Bytes → Call W (FileError E) HttpFileDto
  rename old_name new_name w = rename_as (http_file_name old_name) (http_file_name new_name) w

  abbrev pub removed : Result E (Unit {0}) × W → Result (FileError E) (Unit {0}) × W
  removed (ok u, w) = (ok tt, w)
  removed (err e, w) = if files.is_not_exist e then (ok tt, w) else (err (io e), w)

  abbrev pub delete_as : Option Bytes → Call W (FileError E) (Unit {0})
  delete_as none w = (err invalid_name, w)
  delete_as (some safe) w = removed (files.remove_file safe w)

  unfoldable pub delete : Bytes → Call W (FileError E) (Unit {0})
  delete name w = delete_as (http_file_name name) w
