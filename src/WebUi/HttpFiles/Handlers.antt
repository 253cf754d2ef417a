-- ===== src/WebUi/HttpFiles/Handlers.antt =====
-- webui/http_files.go: the handlers of the collection. A JSON payload is what the decoder makes of it,
-- `none` if it fails.
use http_stack_lens.Base.{
  ℕ, ◌+◌, Option, none, some, List, Bytes, codes, length, ltb, if◌then◌else◌, Result, ok, err,
}
use http_stack_lens.Proxy.BodyCapture.{Body, read_limited_to}
use http_stack_lens.WebUi.HttpFiles.{
  Files, FileError, invalid_name, file_exists, too_large, io, HttpFileDto, list, save, rename,
  delete, max_http_file_bytes,
}

module _ {W E : Type 0} (files : Files W E) where
  -- The routes, with the name in the path and the body.
  pub data FileRequest : Type 0 where
    list_files show_files : FileRequest
    save_file : Bytes → Body E → FileRequest
    delete_file : Bytes → FileRequest
    rename_to : Bytes → Option Bytes → FileRequest

  pub data Reply : Type 0 where
    files_json : List HttpFileDto → Reply
    file_json : HttpFileDto → Reply
    no_content : Reply
    http_error : ℕ → Bytes → Reply

  -- writeHttpFileError
  unfoldable pub error_reply : FileError E → Bytes → Reply
  error_reply invalid_name fallback = http_error 400 (codes "invalid .http file name")
  error_reply file_exists fallback =
      http_error 409 (codes "a .http file with that name already exists")
  error_reply (too_large name) fallback = http_error 500 fallback
  error_reply (io e) fallback = http_error 500 fallback

  abbrev pub listed_reply : Result (FileError E) (List HttpFileDto) × W → Reply × W
  listed_reply (ok found, w) = (files_json found, w)
  listed_reply (err e, w) = (http_error 500 (codes "could not list .http files"), w)

  abbrev pub shown_reply : Result E (Unit {0}) × W → Reply × W
  shown_reply (ok u, w) = (no_content, w)
  shown_reply (err e, w) = (http_error 500 (codes "could not open the folder"), w)

  abbrev pub saved_reply : Result (FileError E) HttpFileDto × W → Reply × W
  saved_reply (ok file, w) = (file_json file, w)
  saved_reply (err e, w) = (error_reply e (codes "could not save the .http file"), w)

  abbrev pub save_body : Bytes → Result E (Bytes × Body E) → W → Reply × W
  save_body name (err e) w = (http_error 400 (codes "could not read the request body"), w)
  save_body name (ok (body, rest)) w =
      if ltb max_http_file_bytes (length body)
      then (http_error 413 (codes "the .http file is too large"), w)
      else saved_reply (save files name body w)

  abbrev pub renamed_reply : Result (FileError E) HttpFileDto × W → Reply × W
  renamed_reply (ok file, w) = (file_json file, w)
  renamed_reply (err (io e), w) =
      if files.is_not_exist e
      then (http_error 404 (codes "no such .http file"), w)
      else (error_reply (io e) (codes "could not rename the .http file"), w)
  renamed_reply (err invalid_name, w) =
      (error_reply invalid_name (codes "could not rename the .http file"), w)
  renamed_reply (err file_exists, w) =
      (error_reply file_exists (codes "could not rename the .http file"), w)
  renamed_reply (err (too_large name), w) =
      (error_reply (too_large name) (codes "could not rename the .http file"), w)

  abbrev pub deleted_reply : Result (FileError E) (Unit {0}) × W → Reply × W
  deleted_reply (ok u, w) = (no_content, w)
  deleted_reply (err e, w) = (error_reply e (codes "could not delete the .http file"), w)

  unfoldable pub handle : FileRequest → W → Reply × W
  handle list_files w = listed_reply (list files w)
  handle show_files w = shown_reply (files.show_folder w)
  handle (save_file name body) w = save_body name (read_limited_to (max_http_file_bytes + 1) body) w
  handle (delete_file name) w = deleted_reply (delete files name w)
  handle (rename_to name none) w = (http_error 400 (codes "could not read the new name"), w)
  handle (rename_to name (some new_name)) w = renamed_reply (rename files name new_name w)
