-- ===== src/Sessions/Checked.antt =====
-- The checks of an upload whose bytes are in a spool file.
use pixeldive.Prelude.{
  string_eq, nat_eq, ℕ, ◌≡◌, refl, some, List, [], ◌∷◌, arith, ltb, ◌==◌, length,
}
use pixeldive.Errors.{◌>>=◌, ◌>>◌, Error, Result, ok, err, require, reject}
use pixeldive.Prelude.Dict.{get}
use pixeldive.Blobs.Spool.{Bytes, Disk}
use pixeldive.Blobs.Filenames.{sanitize_filename}
use pixeldive.Blobs.Store.{allowed_content_types, is_some}
use pixeldive.Blobs.Validate.{
  TextCase, normalize_content_type, matches_declared_type, upload_size, header_bytes,
  validate_upload,
}
use pixeldive.Sessions.Uploads.{Upload, validate_all}

-- A chain of checks that ends well has found its size.
sized_by :
    {A : Type 0} (before : Result (Unit {0})) (size : Result ℕ)
    (nonzero small : ℕ → Result (Unit {0})) (header : Result Bytes)
    (same : Bytes → Result (Unit {0})) (done : ℕ → A) {a : A}
    → (do before; n ← size; nonzero n; small n; b ← header; same b; ok (done n)) ≡ ok a
    → (n : ℕ) × (size ≡ ok n) × (done n ≡ a)
sized_by before (err e) nonzero small header same done h = ground arith
sized_by before (ok n) nonzero small header same done h = (n, refl, ground arith)

checked_first :
    {B C : Type 0} (rest : B → Result C) (first : Result B) (end : C)
    → (first >>= rest) ≡ ok end
    → (x : B) × (first ≡ ok x) × (rest x ≡ ok end)
checked_first rest (err problem) end failed = cc
checked_first rest (ok x) end done = (x, refl, done)

module _ {Json : Type 0} (texts : TextCase) (limit : ℕ) where
  upload_size_spooled :
      (disk : Disk) (u : Upload Json) (path : ℕ) (content : Bytes)
      → u.spool_path ≡ some path
      → get disk path ≡ some content
      → upload_size disk u ≡ ok (length content)
  unfolding upload_size
  upload_size_spooled disk u path content spooled file = ground (arith, spooled, file)

  pub validated :
      (disk : Disk) (u u' : Upload Json) (path : ℕ) (content : Bytes)
      → u.spool_path ≡ some path
      → get disk path ≡ some content
      → validate_upload texts limit disk u ≡ ok u'
      → (u'.spool_path ≡ some path)
        × (u'.digest_hex ≡ u.digest_hex)
        × (u'.size_bytes ≡ length content)
        × (u'.content_type ≡ normalize_content_type texts u.content_type)
  unfolding validate_upload
  validated disk u u' path content spooled file h =
      let checked = normalize_content_type texts u.content_type in
      let (size, sized, done) =
        sized_by
          (require (is_some (get allowed_content_types checked)) Error.unsupported_content_type)
          (upload_size disk u) (λ n. reject (n == 0) Error.empty_image)
          (λ n. reject (ltb limit n) Error.image_too_large) (header_bytes disk u)
          (λ b. require (matches_declared_type checked b) Error.unsupported_content_type)
          (λ n. record u {
            content_type = checked;
            size_bytes = n;
            filename = sanitize_filename u.filename;
          })
          h in
      let long = upload_size_spooled disk u path content spooled file in
      (
        ground (arith, done),
        ground (arith, done),
        ground (arith, done, sized, long),
        ground (arith, done),
      )

  pub validate_all_one :
      (disk : Disk) (u : Upload Json) (checks : List (Upload Json × ℕ))
      → validate_all texts limit disk (u ∷ []) ≡ ok checks
      → (u' : Upload Json) × (validate_upload texts limit disk u ≡ ok u')
        × (checks ≡ (u', u'.size_bytes) ∷ [])
  unfolding validate_all
  validate_all_one disk u checks h =
      let (u', valid, ends) = checked_first _ (validate_upload texts limit disk u) checks h in
      (u', valid, cc ends)
