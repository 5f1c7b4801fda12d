-- ===== src/Rest/Images/Cleanup.antt =====
-- The spool files of a batch over REST.
use pixeldive.Prelude.{
  string_eq, nat_eq, ℕ, suc, ◌≤◌, ◌<◌, String, ◌≡◌, refl, sym, ap, ◌∙◌, inl, inr, none, some, List,
  [], ◌∷◌, ◌++◌, map, arith, ltb, leb, if◌then◌else◌, Bool-cases, length, ◌=?◌,
}
use mathlib.Core.Path.{subst}
use pixeldive.Prelude.Dict.{get}
use pixeldive.Errors.{Result, ok, err, Error}
use pixeldive.Blobs.Spool.{Bytes, Disk, Spool, Spooling, spool_chunks}
use pixeldive.Blobs.Spool.Outcome.{spooled}
use pixeldive.Blobs.Filenames.{sanitize_filename}
use pixeldive.Blobs.Uploads.{ImageUpload, upload_from_spool}
use pixeldive.Sessions.Uploads.{reject_batch_count}
use pixeldive.Rpc.Wire.{Codec}
use pixeldive.Rpc.Single.RoundTrip.{whole}
use pixeldive.Rest.Images.{
  UploadFile, file_chunks, spooled_upload, to_upload, spool_all, uploads_or_error, or_discard,
  raise_spool_errors, collect_uploads,
}
use pixeldive.Rest.Images.Spooled.{
  file_answer, named, get-discard_finished, Spooled, spool_all-Spooled,
}

module _ {Meta : Type 0} (codec : Codec Meta) (sha256 : Bytes → String) (max_bytes : ℕ)
    (extra : Meta) where
  -- What a file comes to: the upload that names its spool file, or its error.
  abbrev pub upload_of : UploadFile → Spool → ImageUpload Meta
  upload_of file spool = record {
    filename = sanitize_filename (sanitize_filename file.filename);
    content_type =
        if file.content_type =? "" then "application/octet-stream" else file.content_type;
    payload = [];
    extra_metadata = extra;
    spool_path = some spool.path;
    digest_hex = some spool.digest_hex;
    size_bytes = spool.size_bytes;
    header_prefix = spool.header;
  }

  abbrev pub of_spool : UploadFile → Result Spool → Result (ImageUpload Meta)
  of_spool file (ok spool) = ok (upload_of file spool)
  of_spool file (err e) = err e

  abbrev pub result_of : ℕ → UploadFile → Result (ImageUpload Meta)
  result_of path file = of_spool file (whole sha256 path max_bytes file.content)

  abbrev pub results_of : ℕ → List UploadFile → List (Result (ImageUpload Meta))
  results_of path [] = []
  results_of path (file ∷ files) = result_of path file ∷ results_of (suc path) files

  answer_of :
      (file : UploadFile) (p : Result Spool × Spooling) (r : Result Spool)
      → p.0 ≡ r
      → (spooled_upload codec sha256 max_bytes file (ok extra) p).0 ≡ of_spool file r
  unfolding upload_from_spool
  answer_of file (ok spool, sp) r h = rw (← h) refl
  answer_of file (err e, sp) r h = rw (← h) refl

  spool_all-results_of :
      (files : List UploadFile) (path : ℕ) (disk : Disk)
      → (spool_all codec sha256 max_bytes files extra path disk).0 ≡ results_of path files
  unfolding spool_all to_upload
  spool_all-results_of [] path disk = refl
  spool_all-results_of (file ∷ files) path disk =
      rw
        (
          answer_of file (spool_chunks sha256 (file_chunks file) path max_bytes disk)
              (whole sha256 path max_bytes file.content)
              (file_answer sha256 file path max_bytes disk),
          spool_all-results_of files (suc path)
              (to_upload codec sha256 max_bytes file none (some extra) path disk).1,
        )
        refl

  -- All uploads in order, or the first error.
  abbrev pub AllOrFirst :
      List (Result (ImageUpload Meta)) → Result (List (ImageUpload Meta)) → Type 0
  AllOrFirst results (ok uploads) = results ≡ map (λ u. ok u) uploads
  AllOrFirst results (err e) =
      (before : List (ImageUpload Meta)) × (after : List (Result (ImageUpload Meta))) × (results
        ≡ map (λ u. ok u) before ++ err e ∷ after)

  AllOrFirst-more :
      (u : ImageUpload Meta) (results : List (Result (ImageUpload Meta)))
      (r : Result (List (ImageUpload Meta)))
      → AllOrFirst results r
      → AllOrFirst (ok u ∷ results) (elim r as (λ x. Result (List (ImageUpload Meta))) [
        | ok uploads ↦ ok (u ∷ uploads)
        | err e ↦ err e
      ])
  AllOrFirst-more u results (ok uploads) h = ap (λ l. ok u ∷ l) h
  AllOrFirst-more u results (err e) (before, after, h) = (u ∷ before, after, ap (λ l. ok u ∷ l) h)

  uploads_or_error-AllOrFirst :
      (results : List (Result (ImageUpload Meta)))
      → AllOrFirst results (uploads_or_error codec sha256 max_bytes results)
  uploads_or_error-AllOrFirst [] = refl
  uploads_or_error-AllOrFirst (err e ∷ results) = ([], results, refl)
  uploads_or_error-AllOrFirst (ok u ∷ results) =
      AllOrFirst-more u results (uploads_or_error codec sha256 max_bytes results)
        (uploads_or_error-AllOrFirst results)

  all_gone :
      (path n : ℕ) (disk : Disk) (out : List (Result (ImageUpload Meta)) × Disk)
      → Spooled codec sha256 max_bytes extra path n disk out
      → ((j : ℕ) → path ≤ j → get disk j ≡ none)
      → (j : ℕ) → (if named out.0 j then none else get out.1 j) ≡ get disk j
  all_gone path n disk out spooled fresh j = elim (Bool-cases (leb path j)) [
    | inl new ↦
        let empty = fresh j (ground (arith, new)) in
        elim (Bool-cases (named out.0 j)) [
          | inl ours ↦ rw (ours, empty) refl
          | inr other ↦ rw other (ground (arith, spooled.clean j other, empty))
        ]
    | inr old ↦
        let other = spooled.only j (ground (arith, old)) in
        rw other (ground (arith, spooled.clean j other, old))
  ]

  discarded :
      (path : ℕ) (files : List UploadFile) (disk : Disk)
      (out : List (Result (ImageUpload Meta)) × Disk) (r : Result (List (ImageUpload Meta)))
      → Spooled codec sha256 max_bytes extra path (length files) disk out
      → ((j : ℕ) → path ≤ j → get disk j ≡ none)
      → ((or_discard codec sha256 max_bytes out.0 r out.1).0 ≡ r)
        × ((e : Error)
            → r ≡ err e
            → (j : ℕ) → get (or_discard codec sha256 max_bytes out.0 r out.1).1 j ≡ get disk j)
  discarded path files disk out (ok uploads) spooled fresh = (refl, λ e h. absurd (cc h))
  discarded path files disk out (err x) spooled fresh = (
    refl,
    λ e h j.
        rw (get-discard_finished codec sha256 max_bytes extra out.0 out.1 j)
          (all_gone path (length files) disk out spooled fresh j),
  )

  -- For all files, limits and metadata, the names of the new spool files being new: more files than
  -- `max_images` are refused; otherwise each file comes to the upload of its bytes or to its error,
  -- too large or empty, and the answer is all uploads in order, or the first error; and when there is
  -- an error, the spool directory is as before: the files that were spooled whole are gone again.
  pub collect_uploads_lem :
      (max_images : ℕ) (files : List UploadFile) (path : ℕ) (disk : Disk)
      → ((j : ℕ) → path ≤ j → get disk j ≡ none)
      → (max_images < length files
          → (collect_uploads codec sha256 max_bytes max_images files extra path disk).0
            ≡ err Error.batch_limit)
        × (length files ≤ max_images
            → AllOrFirst
                (results_of path files)
                (collect_uploads codec sha256 max_bytes max_images files extra path disk).0)
        × ((e : Error)
            → (collect_uploads codec sha256 max_bytes max_images files extra path disk).0 ≡ err e
            → (j : ℕ)
            → get (collect_uploads codec sha256 max_bytes max_images files extra path disk).1 j
              ≡ get disk j)
  unfolding collect_uploads reject_batch_count raise_spool_errors
  collect_uploads_lem max_images files path disk fresh =
      let out = spool_all codec sha256 max_bytes files extra path disk in
      let (answered, cleaned) =
        discarded path files disk out (uploads_or_error codec sha256 max_bytes out.0)
          (spool_all-Spooled codec sha256 max_bytes extra files path disk) fresh in
      elim (Bool-cases (ltb max_images (length files))) [
        | inl over ↦ rw over (λ h. refl, λ h. absurd (ground (arith, over, h)), λ e h j. refl)
        | inr fits ↦ rw fits (
          λ h. absurd (ground (arith, fits, h)),
          λ h.
              subst (λ r. AllOrFirst (results_of path files) r) (sym answered)
                (subst (λ l. AllOrFirst l (uploads_or_error codec sha256 max_bytes out.0))
                  (spool_all-results_of files path disk) (uploads_or_error-AllOrFirst out.0)),
          λ e h j. cleaned e (sym answered ∙ h) j,
        )
      ]
