-- ===== src/WebUi/HttpFiles/Kept.antt =====
-- webui/http_files.go: what the requests may change.
use http_stack_lens.Base.{
  ℕ, ◌+◌, ◌≡◌, inl, inr, Bool-cases, Option-cases, none, some, List, [], ◌∷◌, Bytes, length, ltb,
  equal, equal_fold, Result, ok, err,
}
use http_stack_lens.Proxy.BodyCapture.{Body, read_limited_to}
use http_stack_lens.WebUi.HttpFiles.{
  Entry, Files, FileError, invalid_name, file_exists, too_large, io, HttpFileDto, sort_files,
  is_listed, of_io, on_ok, timed, describe, collect, collected, list, save_as, save, move_if_free,
  move, rename_as, rename, removed, delete_as, delete, max_http_file_bytes, http_file_name,
}
use http_stack_lens.WebUi.HttpFiles.Handlers.{
  FileRequest, list_files, show_files, save_file, delete_file, rename_to, listed_reply, shown_reply,
  saved_reply, save_body, renamed_reply, deleted_reply, handle,
}
use http_stack_lens.WebUi.HttpFiles.Names.{IsSafe, http_file_name-IsSafe}

module _ {W E : Type 0} (files : Files W E) (P : W → Type 0) where
  -- What holds of the world stays so when a file is read, and when one of a safe name is changed.
  pub record Keeps : Type 0 where
    pub reads_dir : (w : W) → P w → P (files.read_dir w).1
    pub reads_info : (name : Bytes) (w : W) → P w → P (files.info name w).1
    pub reads_stat : (name : Bytes) (w : W) → P w → P (files.stat name w).1
    pub reads : (name : Bytes) (w : W) → P w → P (files.read_file name w).1
    pub makes : (w : W) → P w → P (files.mkdir_all w).1
    pub shows : (w : W) → P w → P (files.show_folder w).1
    pub writes :
        (name content : Bytes) (w : W) → IsSafe name → P w → P (files.write_file name content w).1
    pub renames :
        (from to : Bytes) (w : W)
        → IsSafe from
        → IsSafe to
        → P w
        → P (files.rename_file from to w).1
    pub removes : (name : Bytes) (w : W) → IsSafe name → P w → P (files.remove_file name w).1

  of_io-keeps : {A : Type 0} (r : Result E A × W) → P r.1 → P (of_io files r).1
  of_io-keeps (ok a, w) h = h
  of_io-keeps (err e, w) h = h

  on_ok-keeps :
      {A B : Type 0} (r : Result (FileError E) A × W) (next : A → W → Result (FileError E) B × W)
      → P r.1
      → ((a : A) (w : W) → P w → P (next a w).1)
      → P (on_ok files r next).1
  on_ok-keeps (ok a, w) next h k = k a w h
  on_ok-keeps (err e, w) next h k = h

  IsSafe-of : (name safe : Bytes) → http_file_name name ≡ some safe → IsSafe safe
  IsSafe-of name safe h = (http_file_name-IsSafe name safe h).0

  module _ (keeps : Keeps) where
    describe-keeps : (name content : Bytes) (w : W) → P w → P (describe files name content w).1
    unfolding describe
    describe-keeps name content w h = of_stat (files.stat name w) (keeps.reads_stat name w h)
      where
        of_stat : (r : Result E (ℕ × Bytes) × W) → P r.1 → P (timed files name content r).1
        of_stat (ok (size, time), w) h = h
        of_stat (err e, w) h = h

    collect-keeps : (entries : List Entry) (w : W) → P w → P (collect files entries w).1
    unfolding collect
    collect-keeps [] w h = h
    collect-keeps (entry ∷ entries) w h = elim (Bool-cases (is_listed entry)) [
      | inr e ↦ rw (e, collect) (collect-keeps entries w h)
      | inl e ↦
          rw (e, collect)
            (on_ok-keeps (of_io files (files.info entry.name w)) _
              (of_io-keeps (files.info entry.name w) (keeps.reads_info entry.name w h))
              (λ (size, time) w1 k. elim (Bool-cases (ltb max_http_file_bytes size)) [
                | inl f ↦ rw f (collect-keeps entries w1 k)
                | inr f ↦ rw f (
                    on_ok-keeps (of_io files (files.read_file entry.name w1)) _
                      (of_io-keeps (files.read_file entry.name w1) (keeps.reads entry.name w1 k))
                      (λ content w2 l.
                        on_ok-keeps (collect files entries w2) _ (collect-keeps entries w2 l)
                          (λ more w3 m. m)))
              ]))
    ]

    collected-keeps : (r : Result E (List Entry) × W) → P r.1 → P (collected files r).1
    collected-keeps (ok entries, w) h =
        on_ok-keeps (collect files entries w) (λ found w1. (ok (sort_files found), w1))
          (collect-keeps entries w h) (λ found w1 k. k)
    collected-keeps (err e, w) h = elim (Bool-cases (files.is_not_exist e)) [
      | inl f ↦ rw f h
      | inr f ↦ rw f h
    ]

    save-keeps : (name content : Bytes) (w : W) → P w → P (save files name content w).1
    unfolding save
    save-keeps name content w h = elim (Option-cases (http_file_name name)) [
      | inl e ↦ rw (e, save_as) h
      | inr (safe, e) ↦ elim (Bool-cases (ltb max_http_file_bytes (length content))) [
        | inl f ↦ rw (e, save_as, f) h
        | inr f ↦
            rw (e, save_as, f)
              (on_ok-keeps (of_io files (files.mkdir_all w)) _
                (of_io-keeps (files.mkdir_all w) (keeps.makes w h))
                (λ u w1 k.
                  on_ok-keeps (of_io files (files.write_file safe content w1)) _
                    (of_io-keeps (files.write_file safe content w1)
                      (keeps.writes safe content w1 (IsSafe-of name safe e) k))
                    (λ v w2 l. describe-keeps safe content w2 l)))
      ]
    ]

    move-keeps :
        (from to : Bytes) (w : W) → IsSafe from → IsSafe to → P w → P (move files from to w).1
    unfolding move
    move-keeps from to w f t h = elim (Bool-cases (equal from to)) [
      | inl e ↦ rw e h
      | inr e ↦ elim (Bool-cases (equal_fold from to)) [
        | inl g ↦
            rw (e, g) (of_io-keeps (files.rename_file from to w) (keeps.renames from to w f t h))
        | inr g ↦ rw (e, g) (free (files.stat to w) (keeps.reads_stat to w h))
      ]
    ]
      where
        free : (r : Result E (ℕ × Bytes) × W) → P r.1 → P (move_if_free files from to r).1
        free (ok info, w) h = h
        free (err e, w) h =
            of_io-keeps (files.rename_file from to w) (keeps.renames from to w f t h)

    rename-keeps :
        (old_name new_name : Bytes) (w : W) → P w → P (rename files old_name new_name w).1
    unfolding rename
    rename-keeps old_name new_name w h = elim (Option-cases (http_file_name old_name)) [
      | inl e ↦ rw (e, rename_as) h
      | inr (from, e) ↦ elim (Option-cases (http_file_name new_name)) [
        | inl f ↦ rw (e, f, rename_as) h
        | inr (to, f) ↦
            rw (e, f, rename_as)
              (on_ok-keeps (move files from to w) _
                (move-keeps from to w (IsSafe-of old_name from e) (IsSafe-of new_name to f) h)
                (λ u w1 k.
                  on_ok-keeps (of_io files (files.read_file to w1)) _
                    (of_io-keeps (files.read_file to w1) (keeps.reads to w1 k))
                    (λ content w2 l. describe-keeps to content w2 l)))
      ]
    ]

    delete-keeps : (name : Bytes) (w : W) → P w → P (delete files name w).1
    unfolding delete
    delete-keeps name w h = elim (Option-cases (http_file_name name)) [
      | inl e ↦ rw (e, delete_as) h
      | inr (safe, e) ↦
          rw (e, delete_as)
            (gone (files.remove_file safe w) (keeps.removes safe w (IsSafe-of name safe e) h))
    ]
      where
        gone : (r : Result E (Unit {0}) × W) → P r.1 → P (removed files r).1
        gone (ok u, w) h = h
        gone (err e, w) h = elim (Bool-cases (files.is_not_exist e)) [
          | inl f ↦ rw f h
          | inr f ↦ rw f h
        ]

    renamed-keeps : (r : Result (FileError E) HttpFileDto × W) → P r.1 → P (renamed_reply files r).1
    renamed-keeps (ok file, w) h = h
    renamed-keeps (err (io e), w) h = elim (Bool-cases (files.is_not_exist e)) [
      | inl f ↦ rw f h
      | inr f ↦ rw f h
    ]
    renamed-keeps (err invalid_name, w) h = h
    renamed-keeps (err file_exists, w) h = h
    renamed-keeps (err (too_large name), w) h = h

    saved-keeps :
        (name : Bytes) (r : Result E (Bytes × Body E)) (w : W)
        → P w
        → P (save_body files name r w).1
    saved-keeps name (err e) w h = h
    saved-keeps name (ok (body, rest)) w h =
        elim (Bool-cases (ltb max_http_file_bytes (length body))) [
          | inl e ↦ rw e h
          | inr e ↦ rw e (replied (save files name body w) (save-keeps name body w h))
        ]
      where
        replied : (r : Result (FileError E) HttpFileDto × W) → P r.1 → P (saved_reply files r).1
        replied (ok file, w) h = h
        replied (err e, w) h = h

    -- What stays so when files are read, and when files of safe names are written, renamed and removed, stays so whatever is asked of the collection: no request writes to a name that leads out of the folder.
    pub handle-keeps : (request : FileRequest files) (w : W) → P w → P (handle files request w).1
    unfolding handle list
    handle-keeps list_files w h =
        replied (collected files (files.read_dir w))
          (collected-keeps (files.read_dir w) (keeps.reads_dir w h))
      where
        replied :
            (r : Result (FileError E) (List HttpFileDto) × W) → P r.1 → P (listed_reply files r).1
        replied (ok found, w) h = h
        replied (err e, w) h = h
    handle-keeps show_files w h = replied (files.show_folder w) (keeps.shows w h)
      where
        replied : (r : Result E (Unit {0}) × W) → P r.1 → P (shown_reply files r).1
        replied (ok u, w) h = h
        replied (err e, w) h = h
    handle-keeps (save_file name body) w h =
        saved-keeps name (read_limited_to (max_http_file_bytes + 1) body) w h
    handle-keeps (delete_file name) w h = replied (delete files name w) (delete-keeps name w h)
      where
        replied : (r : Result (FileError E) (Unit {0}) × W) → P r.1 → P (deleted_reply files r).1
        replied (ok u, w) h = h
        replied (err e, w) h = h
    handle-keeps (rename_to name none) w h = h
    handle-keeps (rename_to name (some new_name)) w h =
        renamed-keeps (rename files name new_name w) (rename-keeps name new_name w h)
