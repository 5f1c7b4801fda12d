-- ===== src/Blobs/Uploads.antt =====
-- `ImageUpload` of app/schemas.py, and `upload_from_spool` of app/blobs/uploads.py. `Meta` is the
-- type of a parsed JSON object.
use pixeldive.Prelude.{string_eq, ℕ, String, Option, some, []}
use pixeldive.Blobs.Spool.{Bytes, Spool}
use pixeldive.Blobs.Filenames.{sanitize_filename}

pub record ImageUpload (Meta : Type 0) : Type 0 where
  pub filename : String
  pub content_type : String
  pub payload : Bytes
  pub extra_metadata : Meta
  pub spool_path : Option ℕ
  pub digest_hex : Option String
  pub size_bytes : ℕ
  pub header_prefix : Bytes

unfoldable pub upload_from_spool :
    {Meta : Type 0} → String → String → Spool → Meta → ImageUpload Meta
upload_from_spool filename content_type spool extra = record {
  filename = sanitize_filename filename;
  content_type = content_type;
  payload = [];
  extra_metadata = extra;
  spool_path = some spool.path;
  digest_hex = some spool.digest_hex;
  size_bytes = spool.size_bytes;
  header_prefix = spool.header;
}
