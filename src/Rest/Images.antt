-- ===== src/Rest/Images.antt =====
-- The uploads of app/rest/api_images.py. The files of a batch are spooled by tasks of their own, each
-- with its own writer and its own name on the disk, so the order in which the tasks run is not
-- observable: here they run one after the other. The n-th writer has the path `path + n`, which
-- stands for the name that `uuid4` makes.
mod Spooled
pub mod Cleanup
use pixeldive.Prelude.{string_eq, nat_eq, ℕ, suc, String, Option, none, some, List, [], ◌∷◌, length}
use pixeldive.Prelude.Dict.{remove}
use pixeldive.Errors.{Result, ok, err}
use pixeldive.Blobs.Spool.{Bytes, Disk, Spool, Spooling, spool_chunks}
use pixeldive.Blobs.Store.{read_chunks}
use pixeldive.Blobs.Filenames.{sanitize_filename, or_default}
use pixeldive.Blobs.Uploads.{ImageUpload, upload_from_spool}
use pixeldive.Sessions.Uploads.{reject_batch_count}
use pixeldive.Rpc.Wire.{Codec, parse_metadata_json}

-- A part of a multipart form; a missing type is empty.
pub record UploadFile : Type 0 where
  pub filename : String
  pub content_type : String
  pub content : Bytes

abbrev pub io_chunk_bytes : ℕ
io_chunk_bytes = 65536

unfoldable pub file_chunks : UploadFile → List Bytes
unfolding read_chunks
file_chunks file = read_chunks (suc (length file.content)) file.content io_chunk_bytes

module _ {Meta : Type 0} (codec : Codec Meta) (sha256 : Bytes → String) (max_bytes : ℕ) where
  -- `extra if extra is not None else parse_metadata_json(metadata)`
  abbrev pub extra_or_parsed : Option Meta → Option String → Result Meta
  extra_or_parsed (some extra) metadata = ok extra
  extra_or_parsed none metadata = parse_metadata_json codec metadata

  abbrev pub with_metadata : UploadFile → Spool → Result Meta → Result (ImageUpload Meta)
  with_metadata file spool (err e) = err e
  with_metadata file spool (ok extra) = ok (
      upload_from_spool (sanitize_filename file.filename)
        (or_default file.content_type "application/octet-stream") spool extra)

  abbrev pub spooled_upload :
      UploadFile → Result Meta → Result Spool × Spooling → Result (ImageUpload Meta) × Disk
  spooled_upload file extra (err e, sp) = (err e, sp.disk)
  spooled_upload file extra (ok spool, sp) = (with_metadata file spool extra, sp.disk)

  -- The file is spooled before the metadata is parsed.
  unfoldable pub to_upload :
      UploadFile → Option String → Option Meta → ℕ → Disk → Result (ImageUpload Meta) × Disk
  unfolding file_chunks spool_chunks parse_metadata_json sanitize_filename upload_from_spool
  to_upload file metadata extra path disk =
      spooled_upload file (extra_or_parsed extra metadata)
        (spool_chunks sha256 (file_chunks file) path max_bytes disk)

  -- `_spool_all`: the results of `asyncio.gather(…, return_exceptions=True)`.
  unfoldable pub spool_all :
      List UploadFile → Meta → ℕ → Disk → List (Result (ImageUpload Meta)) × Disk
  unfolding to_upload
  spool_all [] extra path disk = ([], disk)
  spool_all (file ∷ files) extra path disk =
      let (r, disk') = to_upload file none (some extra) path disk in
      let (results, end) = spool_all files extra (suc path) disk' in (r ∷ results, end)

  -- `await discard_spool(upload)` of every upload among the results.
  unfoldable pub discard_finished : List (Result (ImageUpload Meta)) → Disk → Disk
  discard_finished [] disk = disk
  discard_finished (err e ∷ results) disk = discard_finished results disk
  discard_finished (ok upload ∷ results) disk =
      discard_finished results
        (elim upload.spool_path [ none ↦ disk | some path ↦ remove disk path ])

  -- The uploads, or the first error.
  abbrev pub uploads_or_error : List (Result (ImageUpload Meta)) → Result (List (ImageUpload Meta))
  uploads_or_error [] = ok []
  uploads_or_error (err e ∷ results) = err e
  uploads_or_error (ok upload ∷ results) = elim (uploads_or_error results) [
    | ok uploads ↦ ok (upload ∷ uploads)
    | err e ↦ err e
  ]

  abbrev pub or_discard :
      List (Result (ImageUpload Meta))
      → Result (List (ImageUpload Meta))
      → Disk
      → Result (List (ImageUpload Meta)) × Disk
  or_discard results (ok uploads) disk = (ok uploads, disk)
  or_discard results (err e) disk = (err e, discard_finished results disk)

  unfoldable pub raise_spool_errors :
      List (Result (ImageUpload Meta)) × Disk → Result (List (ImageUpload Meta)) × Disk
  unfolding discard_finished
  raise_spool_errors (results, disk) = or_discard results (uploads_or_error results) disk

  abbrev pub collected :
      Result (Unit {0})
      → List UploadFile
      → Meta
      → ℕ
      → Disk
      → Result (List (ImageUpload Meta)) × Disk
  collected (err e) files extra path disk = (err e, disk)
  collected (ok u) files extra path disk = raise_spool_errors (spool_all files extra path disk)

  unfoldable pub collect_uploads :
      ℕ → List UploadFile → Meta → ℕ → Disk → Result (List (ImageUpload Meta)) × Disk
  unfolding reject_batch_count spool_all raise_spool_errors
  collect_uploads max_images files extra path disk =
      collected (reject_batch_count (length files) max_images) files extra path disk
