-- ===== src/Rest/Messages.antt =====
-- The requests and the responses of the routes: app/schemas.py, app/rest/http_errors.py and
-- disposition.py. A response is its status and its body; an error that no handler knows leaves the
-- route.
use pixeldive.Prelude.{string_eq, ℕ, String, Option, none, some, List}
use Prim.Native.String.{◌++◌ as concat}
use pixeldive.Errors.{Result, Error}
use pixeldive.Errors.Status.{http_status}
use pixeldive.Blobs.Filenames.{sanitize_filename}
use pixeldive.Blobs.Spool.{Bytes}
use pixeldive.Rest.Images.{UploadFile}
use pixeldive.Prelude.Dict.{Dict}
use pixeldive.Sessions.Model.{Session, SessionImage, SessionStatus, SessionCreate, SessionUpdate}

pub record SessionRead (Json : Type 0) : Type 0 where
  pub id : ℕ
  pub session_name : String
  pub status : SessionStatus
  pub created_at : ℕ
  pub updated_at : ℕ
  pub phone_info : Json
  pub phone_capabilities : Json
  pub camera_capabilities : Json
  pub extra_metadata : Dict String Json

-- The fields of an image that a client sees: not the place where it is stored.
pub record SessionImageRead (Json : Type 0) : Type 0 where
  pub id : ℕ
  pub session_id : ℕ
  pub filename : String
  pub content_type : String
  pub size_bytes : ℕ
  pub uploaded_at : ℕ
  pub extra_metadata : Dict String Json

-- The body of a download is read after the status is sent, so it may end in an error.
pub record Download : Type 0 where
  pub media_type : String
  pub disposition : String
  pub body : Result (List Bytes)

pub data Response (A : Type 0) : Type 0 where
  answered : ℕ → A → Response A
  refused : ℕ → Response A
  crashed : Error → Response A

abbrev pub refused_with : {A : Type 0} → Error → Option ℕ → Response A
refused_with e none = crashed e
refused_with e (some code) = refused code

-- `handle_service_error`
unfoldable pub error_response : {A : Type 0} → Error → Response A
unfolding http_status
error_response e = refused_with e (http_status e)

unfoldable pub attachment_disposition : (String → String) → String → String
unfolding sanitize_filename
attachment_disposition quote filename =
    let safe = sanitize_filename filename in
    concat "attachment; filename=\"" (concat safe (concat "\"; filename*=UTF-8''" (quote safe)))

-- The requests, each with what it takes of the clock and of `uuid4`.
pub data Request (Json : Type 0) : Type 0 where
  creating : ℕ → ℕ → SessionCreate Json → Request Json
  listing : ℕ → Option String → Request Json
  getting : ℕ → Request Json
  updating : ℕ → ℕ → SessionUpdate Json → Request Json
  deleting : ℕ → ℕ → Request Json
  uploading : (ℕ → ℕ) → ℕ → ℕ → ℕ → UploadFile → Option String → Request Json
  uploading_batch : (ℕ → ℕ) → ℕ → ℕ → ℕ → List UploadFile → Option String → Request Json
  listing_images : ℕ → ℕ → Option String → Request Json
  downloading : ℕ → ℕ → Request Json

module _ {Json : Type 0} where
  unfoldable pub session_read : Session Json → SessionRead Json
  session_read row = record {
    id = row.id;
    session_name = row.session_name;
    status = row.status;
    created_at = row.created_at;
    updated_at = row.updated_at;
    phone_info = row.phone_info;
    phone_capabilities = row.phone_capabilities;
    camera_capabilities = row.camera_capabilities;
    extra_metadata = row.extra_metadata;
  }

  unfoldable pub image_read : SessionImage Json → SessionImageRead Json
  image_read image = record {
    id = image.id;
    session_id = image.session_id;
    filename = image.filename;
    content_type = image.content_type;
    size_bytes = image.size_bytes;
    uploaded_at = image.uploaded_at;
    extra_metadata = image.extra_metadata;
  }
