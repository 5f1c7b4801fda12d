-- ===== src/Sessions/Uploads.antt =====
-- The parts of app/sessions/session_batch.py and app/blobs/uploads.py that only compute: the checks
-- of a batch, its rows, and the first-upload transition of session_ops.py.
use pixeldive.Prelude.{
  string_eq, nat_eq, ℕ, suc, ◌+◌, String, Bool, true, false, none, some, List, [], ◌∷◌, ltb,
  if◌then◌else◌, length,
}
use pixeldive.Prelude.Dict.{Dict, put, remove}
use pixeldive.Errors.{◌>>=◌, Result, ok, err, Error}
use pixeldive.Blobs.Spool.{Disk}
use pixeldive.Blobs.Filenames.{sanitize_filename}
use pixeldive.Blobs.Uploads.{ImageUpload}
use pixeldive.Blobs.Validate.{TextCase, validate_upload}
use pixeldive.Sessions.Model.{SessionStatus, Session, SessionImage}

abbrev pub Upload : Type 0 → Type 0
Upload Json = ImageUpload (Dict String Json)

unfoldable pub reject_batch_count : ℕ → ℕ → Result (Unit {0})
reject_batch_count count max_images = if ltb max_images count then err Error.batch_limit else ok tt

unfoldable pub reject_bad_batch : {Json : Type 0} → List (Upload Json) → ℕ → Result (Unit {0})
unfolding reject_batch_count
reject_bad_batch [] max_images = err Error.batch_limit
reject_bad_batch (u ∷ uploads) max_images = reject_batch_count (length (u ∷ uploads)) max_images

abbrev pub is_created : SessionStatus → Bool
is_created SessionStatus.created = true
is_created _ = false

module _ {Json : Type 0} where
  -- The row, and whether it changed.
  unfoldable pub apply_first_upload : ℕ → Session Json → Bool × Session Json
  apply_first_upload now row =
      if is_created row.status
      then (true, record row { status = SessionStatus.in_progress; updated_at = now })
      else (false, row)

  unfoldable pub new_image : ℕ → ℕ → Session Json → Upload Json → ℕ → String → SessionImage Json
  new_image id now row upload size storage_path = record {
    id = id;
    session_id = row.id;
    filename = sanitize_filename upload.filename;
    content_type = upload.content_type;
    size_bytes = size;
    storage_path = storage_path;
    uploaded_at = now;
    extra_metadata = upload.extra_metadata;
  }

  -- `[new_image(session, item, path) for item, path in zip(uploads, paths)]`
  unfoldable pub new_images :
      (ℕ → ℕ) → ℕ → Session Json → List (Upload Json × ℕ × String) → List (SessionImage Json)
  unfolding new_image
  new_images ids now row [] = []
  new_images ids now row ((upload, size, path) ∷ rest) =
      new_image (ids 0) now row upload size path ∷ new_images (λ n. ids (suc n)) now row rest

  -- `db.add_all(images)`
  unfoldable pub add_all :
      List (SessionImage Json) → Dict ℕ (SessionImage Json) → Dict ℕ (SessionImage Json)
  add_all [] images = images
  add_all (image ∷ rest) images = add_all rest (put images image.id image)

  -- validate_upload of every upload, up to the first error, and the sizes, which it has written.
  unfoldable pub validate_all :
      TextCase → ℕ → Disk → List (Upload Json) → Result (List (Upload Json × ℕ))
  unfolding validate_upload
  validate_all texts limit disk [] = ok []
  validate_all texts limit disk (u ∷ uploads) = do
    u' ← validate_upload texts limit disk u
    rest ← validate_all texts limit disk uploads
    ok ((u', u'.size_bytes) ∷ rest)

  unfoldable pub sum_sizes : List (Upload Json × ℕ) → ℕ
  sum_sizes [] = 0
  sum_sizes ((u, n) ∷ uploads) = n + sum_sizes uploads

  unfoldable pub discard_spool : Upload Json → Disk → Disk
  discard_spool upload disk = elim upload.spool_path [ none ↦ disk | some path ↦ remove disk path ]

  unfoldable pub discard_all : List (Upload Json) → Disk → Disk
  unfolding discard_spool
  discard_all [] disk = disk
  discard_all (u ∷ uploads) disk = discard_all uploads (discard_spool u disk)
