-- ===== src/Blobs/S3/Multipart.antt =====
-- app/blobs/s3_multipart.py: a spool file is sent in parts.
use pixeldive.Prelude.{
  string_eq, nat_eq, ℕ, zero, suc, ◌+◌, String, not, ◌&&◌, List, [], ◌∷◌, ◌++◌, ◌==◌, if◌then◌else◌,
  length, drop, take, is_empty,
}
use pixeldive.Blobs.Spool.{Bytes}
use pixeldive.Blobs.S3.{value_error, Reply, done, raised, Call, give, fail, ◌>>=◌, ObjectClient}

module _ {S Token : Type 0} (client : ObjectClient S Token) where
  module _ (key upload_id : String) (part_size : ℕ) where
    -- The loop of `_upload_parts`, with its variables `number`, `parts` and what is left of the file.
    unfoldable pub parts_loop : ℕ → ℕ → List (String × ℕ) → Bytes → Call S (List (String × ℕ))
    parts_loop zero number parts rest = give parts
    parts_loop (suc fuel) number parts rest =
        let chunk = take part_size rest in
        let send = client.upload_part key upload_id number chunk >>= λ etag.
        let parts' = parts ++ (etag, number) ∷ [] in
        let more = parts_loop fuel (suc number) parts' (drop part_size rest) in
        if is_empty chunk then give parts' else more in
        if is_empty chunk && not (is_empty parts) then give parts else send

    unfoldable pub upload_parts : Bytes → Call S (List (String × ℕ))
    unfolding parts_loop
    upload_parts source = parts_loop (length source + 2) 1 [] source

    -- `_abort`: an exception of the client is only logged.
    abbrev pub swallowed : Reply (Unit {0}) × S → Reply (Unit {0}) × S
    swallowed (done u, s) = (done u, s)
    swallowed (raised e, s) = (done tt, s)

    unfoldable pub abort_upload : Call S (Unit {0})
    abort_upload s = swallowed (client.abort_multipart_upload key upload_id s)

    -- `except BaseException: await _abort(…); raise`
    abbrev pub or_abort : Reply (Unit {0}) × S → Reply (Unit {0}) × S
    or_abort (done u, s) = (done u, s)
    or_abort (raised e, s) = (raised e, (abort_upload s).1)

    unfoldable pub put_parts : Bytes → Call S (Unit {0})
    unfolding upload_parts abort_upload
    put_parts source s =
        or_abort (
          (upload_parts source >>= λ parts. client.complete_multipart_upload key upload_id parts) s)

  unfoldable pub put_file_multipart : String → Bytes → String → ℕ → Call S (Unit {0})
  unfolding put_parts
  put_file_multipart key source content_type part_size =
      if part_size == 0 then fail value_error else (do
        upload_id ← client.create_multipart_upload key content_type
        put_parts key upload_id part_size source)
