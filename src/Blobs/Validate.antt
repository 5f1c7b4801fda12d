-- ===== src/Blobs/Validate.antt =====
-- app/blobs/magic.py, upload_validate.py and the helpers of uploads.py that read an upload. What
-- `str.strip` and `str.lower` do is a parameter.
use pixeldive.Prelude.{
  string_eq, nat_eq, ℕ, String, Bool, true, false, not, ◌&&◌, ◌||◌, none, some, List, [], ◌∷◌, ltb,
  ◌==◌, if◌then◌else◌, length, drop, take, is_empty, get_or_else, ◌=?◌,
}
use Prim.Native.Char.{Char, code}
use pixeldive.Prelude.Dict.{Dict, get}
use pixeldive.Errors.{Result, ok, err, Error, require, reject, ◌>>=◌, ◌>>◌}
use pixeldive.Blobs.Spool.{Bytes, Disk, header_size}
use pixeldive.Blobs.Filenames.{sanitize_filename, chars, of_chars}
use pixeldive.Blobs.Store.{allowed_content_types, is_some}
use pixeldive.Blobs.Uploads.{ImageUpload}

pub record TextCase : Type 0 where
  pub strip : String → String
  pub lower : String → String

-- `split(";")[0]`
unfoldable pub before_semicolon : List Char → List Char
before_semicolon [] = []
before_semicolon (c ∷ l) = let rest = c ∷ before_semicolon l in if code c == b';' then [] else rest

unfoldable pub normalize_content_type : TextCase → String → String
unfolding before_semicolon chars of_chars
normalize_content_type texts raw =
    texts.lower (texts.strip (of_chars (before_semicolon (chars raw))))

unfoldable pub bytes_eq : Bytes → Bytes → Bool
bytes_eq [] [] = true
bytes_eq [] (b ∷ bs) = false
bytes_eq (a ∷ xs) [] = false
bytes_eq (a ∷ xs) (b ∷ bs) = a == b && bytes_eq xs bs

unfoldable pub starts_with : Bytes → Bytes → Bool
unfolding bytes_eq
starts_with header item = bytes_eq (take (length item) header) item

unfoldable pub one_of : List Bytes → Bytes → Bool
unfolding bytes_eq
one_of [] b = false
one_of (a ∷ xs) b = bytes_eq a b || one_of xs b

unfoldable pub starts_with_any : List Bytes → Bytes → Bool
unfolding starts_with
starts_with_any [] header = false
starts_with_any (item ∷ items) header = starts_with header item || starts_with_any items header

abbrev pub png : Bytes
png = 137 ∷ 80 ∷ 78 ∷ 71 ∷ 13 ∷ 10 ∷ 26 ∷ 10 ∷ []

abbrev pub jpeg : Bytes
jpeg = 255 ∷ 216 ∷ 255 ∷ []

abbrev pub bmp : Bytes
bmp = b'B' ∷ b'M' ∷ []

abbrev pub tiff_le : Bytes
tiff_le = b'I' ∷ b'I' ∷ b'*' ∷ 0 ∷ []

abbrev pub tiff_be : Bytes
tiff_be = b'M' ∷ b'M' ∷ 0 ∷ b'*' ∷ []

abbrev pub riff : Bytes
riff = b'R' ∷ b'I' ∷ b'F' ∷ b'F' ∷ []

abbrev pub webp_brand : Bytes
webp_brand = b'W' ∷ b'E' ∷ b'B' ∷ b'P' ∷ []

abbrev pub ftyp : Bytes
ftyp = b'f' ∷ b't' ∷ b'y' ∷ b'p' ∷ []

abbrev pub prefixes : Dict String (List Bytes)
prefixes =
    ("image/png", png ∷ [])
    ∷ ("image/jpeg", jpeg ∷ [])
    ∷ ("image/jpg", jpeg ∷ [])
    ∷ ("image/bmp", bmp ∷ [])
    ∷ ("image/tiff", tiff_le ∷ tiff_be ∷ [])
    ∷ ("image/tif", tiff_le ∷ tiff_be ∷ [])
    ∷ []

abbrev pub heif_brands : List Bytes
heif_brands =
    (b'h' ∷ b'e' ∷ b'i' ∷ b'c' ∷ [])
    ∷ (b'h' ∷ b'e' ∷ b'i' ∷ b'x' ∷ [])
    ∷ (b'h' ∷ b'e' ∷ b'v' ∷ b'c' ∷ [])
    ∷ (b'h' ∷ b'e' ∷ b'v' ∷ b'x' ∷ [])
    ∷ (b'm' ∷ b'i' ∷ b'f' ∷ b'1' ∷ [])
    ∷ (b'm' ∷ b's' ∷ b'f' ∷ b'1' ∷ [])
    ∷ (b'h' ∷ b'e' ∷ b'i' ∷ b'm' ∷ [])
    ∷ (b'h' ∷ b'e' ∷ b'i' ∷ b's' ∷ [])
    ∷ []

unfoldable pub webp : Bytes → Bool
unfolding bytes_eq
webp header = bytes_eq (take 4 header) riff && bytes_eq (take 4 (drop 8 header)) webp_brand

unfoldable pub heif : Bytes → Bool
unfolding bytes_eq one_of
heif header = bytes_eq (take 4 (drop 4 header)) ftyp && one_of heif_brands (take 4 (drop 8 header))

unfoldable pub matches_declared_type : String → Bytes → Bool
unfolding webp heif starts_with_any get
matches_declared_type content_type header =
    if content_type =? "image/webp"
    then webp header
    else (if (content_type =? "image/heic") || (content_type =? "image/heif")
        then heif header
        else starts_with_any (get_or_else [] (get prefixes content_type)) header)

-- The file of a spool that is not there raises FileNotFoundError.
abbrev pub file_at : Disk → ℕ → Result Bytes
file_at disk path = elim (get disk path) [ none ↦ err Error.file_not_found | some f ↦ ok f ]

module _ {Meta : Type 0} where
  unfoldable pub upload_size : Disk → ImageUpload Meta → Result ℕ
  upload_size disk upload = elim upload.spool_path [
    | none ↦ ok (length upload.payload)
    | some path ↦ file_at disk path >>= λ f. ok (length f)
  ]

  unfoldable pub header_bytes : Disk → ImageUpload Meta → Result Bytes
  header_bytes disk upload =
      if not (is_empty upload.payload)
      then ok (take header_size upload.payload)
      else (if not (is_empty upload.header_prefix)
          then ok (take header_size upload.header_prefix)
          else elim upload.spool_path [
            | none ↦ ok []
            | some path ↦ file_at disk path >>= λ f. ok (take header_size f)
          ])

  -- The upload as it stands after its checks.
  unfoldable pub validate_upload :
      TextCase → ℕ → Disk → ImageUpload Meta → Result (ImageUpload Meta)
  unfolding normalize_content_type upload_size header_bytes matches_declared_type
  validate_upload texts max_image_bytes disk upload = do
    let content_type = normalize_content_type texts upload.content_type
    require (is_some (get allowed_content_types content_type)) Error.unsupported_content_type
    size ← upload_size disk upload
    reject (size == 0) Error.empty_image
    reject (ltb max_image_bytes size) Error.image_too_large
    header ← header_bytes disk upload
    require (matches_declared_type content_type header) Error.unsupported_content_type
    ok (record upload {
      content_type = content_type;
      size_bytes = size;
      filename = sanitize_filename upload.filename;
    })
