-- ===== src/Rpc/Wire.antt =====
-- The upload messages of proto/session_service.proto, app/sessions/metadata.py and the helpers of
-- app/rpc/grpc_headers.py, grpc_errors.py and `as_uuid` of grpc_codec.py. What Python's `uuid` and
-- `json` do is a parameter.
use pixeldive.Prelude.{string_eq, ℕ, String, Bool, Option, none, some, ltb, if◌then◌else◌, ◌=?◌}
use Prim.Native.String.{count}
use pixeldive.Errors.{Result, ok, err, Error}
use pixeldive.Errors.Status.{abort_code}
use pixeldive.Blobs.Spool.{Bytes}
use pixeldive.Blobs.Filenames.{or_default}

pub record ImageChunk : Type 0 where
  pub session_id : String
  pub filename : String
  pub content_type : String
  pub content : Bytes
  pub metadata_json : String

pub record BatchImageChunk : Type 0 where
  pub session_id : String
  pub image_index : ℕ
  pub filename : String
  pub content_type : String
  pub content : Bytes
  pub end_of_image : Bool
  pub metadata_json : String

-- What `json.loads` does: it gives a dict or another value; or it raises JSONDecodeError or
-- RecursionError, or another ValueError, as for a number with too many digits.
pub data Loaded (Meta : Type 0) : Type 0 where
  object : Meta → Loaded Meta
  other_value undecodable unloadable : Loaded Meta

-- `parse_uuid` has no answer where `uuid.UUID` raises ValueError; `is_blank` is `raw.strip() == ""`.
pub record Codec (Meta : Type 0) : Type 0 where
  pub parse_uuid : String → Option ℕ
  pub is_blank : String → Bool
  pub parse_object : String → Loaded Meta
  pub no_meta : Meta

abbrev pub max_metadata_json_chars : ℕ
max_metadata_json_chars = 65536

module _ {Meta : Type 0} (codec : Codec Meta) where
  abbrev pub object_or_error : Loaded Meta → Result Meta
  object_or_error (object m) = ok m
  object_or_error other_value = err Error.invalid_metadata
  object_or_error undecodable = err Error.invalid_metadata
  object_or_error unloadable = err Error.value_error

  unfoldable pub parse_metadata_json : Option String → Result Meta
  parse_metadata_json none = ok codec.no_meta
  parse_metadata_json (some raw) =
      if codec.is_blank raw
      then ok codec.no_meta
      else (if ltb max_metadata_json_chars (count raw)
          then err Error.invalid_metadata
          else object_or_error (codec.parse_object raw))

  abbrev pub with_headers : String → String → Result Meta → Result (String × String × Meta)
  with_headers f c (ok m) = ok (f, c, m)
  with_headers f c (err e) = err e

  -- `metadata_json or None`
  abbrev pub non_empty : String → Option String
  non_empty s = if s =? "" then none else some s

  unfoldable pub chunk_headers : String → String → String → Result (String × String × Meta)
  unfolding parse_metadata_json
  chunk_headers filename content_type metadata_json =
      with_headers (or_default filename "upload.bin")
        (or_default content_type "application/octet-stream")
        (parse_metadata_json (non_empty metadata_json))

  abbrev pub uuid_or_error : Option ℕ → Result ℕ
  uuid_or_error none = err Error.invalid_id
  uuid_or_error (some u) = ok u

  unfoldable pub as_uuid : String → Result ℕ
  as_uuid value = uuid_or_error (codec.parse_uuid value)

-- What `rethrow_ingest` raises after its cleanup.
unfoldable pub rethrow : Error → Error
unfolding abort_code
rethrow Error.image_too_large = Error.rpc_aborted (abort_code Error.image_too_large)
rethrow Error.empty_image = Error.rpc_aborted (abort_code Error.empty_image)
rethrow e = e
