-- ===== src/Rest/Routes.antt =====
-- The routes of app/rest/api.py and api_images.py, with api_deps.py. FastAPI has parsed the path, the query and the body, and resolved the caller, before a route
-- runs. Clock readings, new UUIDs and the names of new spool files are arguments.
pub mod Refused
use pixeldive.Prelude.{string_eq, ℕ, String, Bool, true, Option, none, some, List, map}
use Prim.Native.String.{◌++◌ as concat}
use pixeldive.Errors.{Result, ok, err, Error}
use pixeldive.Errors.Status.{http_status}
use pixeldive.Exec.{Exec, pure, lift, continue, ◌>>=◌, ◌>>◌}
use pixeldive.Blobs.Filenames.{sanitize_filename}
use pixeldive.Blobs.Spool.{Bytes, Disk}
use pixeldive.Rpc.Wire.{Codec, parse_metadata_json}
use pixeldive.Rest.Images.{UploadFile, to_upload, collect_uploads}
use pixeldive.Sessions.Ingest.{add_image, add_images_batch}
use pixeldive.Prelude.Dict.{Dict}
use pixeldive.Auth.{authenticate}
use pixeldive.Quota.Tenant.{Principal}
use pixeldive.Pagination.{Key, CursorCodec}
use pixeldive.Sessions.Model.{
  Session, SessionImage, SessionStatus, SessionCreate, SessionUpdate, World, Service,
}
use pixeldive.Sessions.Service.{
  create_session, get_session, update_session, delete_session, get_image, stream_image,
}
use pixeldive.Sessions.Listing.{list_sessions, list_images}
use pixeldive.Rest.Messages.{
  SessionRead, SessionImageRead, Download, Response, answered, refused, crashed, error_response,
  attachment_disposition, Request, creating, listing, getting, updating, deleting, uploading,
  uploading_batch, listing_images, downloading, session_read, image_read,
}

-- What the routes use of the app's state, of the settings, and of other libraries.
pub record App (Json Q : Type 0) : Type 1 where
  pub service : Service Q
  pub codec : Codec (Dict String Json)
  pub encode : String → Bytes
  pub auth_required : Bool
  pub keys : Dict String String
  pub cursors : CursorCodec
  pub order_by : (A : Type 0) → (A → Key) → Bool → List A → List A
  pub quote : String → String

module _ {Json Q : Type 0} (app : App Json Q) where
  open app use {service, codec}

  unfoldable pub current_principal : Option String → Result (Option Principal)
  unfolding authenticate
  current_principal header = authenticate service.texts app.encode app.auth_required app.keys header

  abbrev pub responded : {A : Type 0} → ℕ → Result A × World Json Q → Response A × World Json Q
  responded code (ok a, w) = (answered code a, w)
  responded code (err e, w) = (error_response e, w)

  -- A route with its status code; the dependencies are resolved first.
  unfoldable pub route :
      {A : Type 0}
      → ℕ
      → Option String
      → (Option Principal → Exec (World Json Q) A)
      → World Json Q
      → Response A × World Json Q
  unfolding current_principal error_response
  route code header work w = responded code (continue work (current_principal header, w))

  unfoldable pub create_session_route :
      ℕ
      → ℕ
      → SessionCreate Json
      → Option String
      → World Json Q
      → Response (SessionRead Json) × World Json Q
  unfolding route create_session session_read
  create_session_route sid now payload header = route 201 header (λ principal. do
    row ← create_session service sid now payload principal
    pure (session_read row))

  unfoldable pub list_sessions_route :
      ℕ
      → Option String
      → Option String
      → World Json Q
      → Response (List (SessionRead Json) × Option String) × World Json Q
  unfolding route list_sessions session_read
  list_sessions_route limit cursor header = route 200 header (λ principal. do
    page ← list_sessions service app.cursors app.order_by (some limit) cursor principal
    pure (map session_read page.items, page.next_cursor))

  unfoldable pub get_session_route :
      ℕ → Option String → World Json Q → Response (SessionRead Json) × World Json Q
  unfolding route get_session session_read
  get_session_route sid header =
      route 200 header
        (λ principal. do row ← get_session service sid principal; pure (session_read row))

  unfoldable pub update_session_route :
      ℕ
      → ℕ
      → SessionUpdate Json
      → Option String
      → World Json Q
      → Response (SessionRead Json) × World Json Q
  unfolding route update_session session_read
  update_session_route now sid payload header = route 200 header (λ principal. do
    row ← update_session service now sid payload principal
    pure (session_read row))

  unfoldable pub delete_session_route :
      ℕ → ℕ → Option String → World Json Q → Response (Unit {0}) × World Json Q
  unfolding route delete_session
  delete_session_route now sid header = route 204 header (delete_session service now sid)

  -- The spool directory of the uploads is part of the world.
  abbrev pub on_disk : {A : Type 0} → (Disk → Result A × Disk) → Exec (World Json Q) A
  on_disk op w = let (r, disk) = op w.disk in (r, record w { disk = disk })

  unfoldable pub upload_image_route :
      (ℕ → ℕ)
      → ℕ
      → ℕ
      → ℕ
      → UploadFile
      → Option String
      → Option String
      → World Json Q
      → Response (SessionImageRead Json) × World Json Q
  unfolding route to_upload add_image image_read
  upload_image_route ids now path sid file metadata header = route 201 header (λ principal. do
    upload ←
        on_disk
          (to_upload codec service.sha256 service.settings.max_image_bytes file metadata none path)
    image ← add_image service ids now sid upload principal
    pure (image_read image))

  unfoldable pub upload_images_batch_route :
      (ℕ → ℕ)
      → ℕ
      → ℕ
      → ℕ
      → List UploadFile
      → Option String
      → Option String
      → World Json Q
      → Response (List (SessionImageRead Json)) × World Json Q
  unfolding route parse_metadata_json collect_uploads add_images_batch image_read
  upload_images_batch_route ids now path sid files metadata header = route 201 header (λ principal.
      do
        extra ← lift (parse_metadata_json codec metadata)
        uploads ← on_disk (
            collect_uploads codec service.sha256 service.settings.max_image_bytes
              service.settings.max_batch_images files extra path)
        images ← add_images_batch service true ids now sid uploads principal
        pure (map image_read images))

  unfoldable pub list_images_route :
      ℕ
      → ℕ
      → Option String
      → Option String
      → World Json Q
      → Response (List (SessionImageRead Json) × Option String) × World Json Q
  unfolding route list_images image_read
  list_images_route sid limit cursor header = route 200 header (λ principal. do
    page ← list_images service app.cursors app.order_by sid (some limit) cursor principal
    pure (map image_read page.items, page.next_cursor))

  abbrev pub download_of : SessionImage Json → Result (List Bytes) → Download
  download_of image body = record {
    media_type = image.content_type;
    disposition = attachment_disposition app.quote image.filename;
    body = body;
  }

  unfoldable pub download_image_route :
      ℕ → ℕ → Option String → World Json Q → Response Download × World Json Q
  unfolding route get_image stream_image attachment_disposition
  download_image_route sid image_id header = route 200 header (λ principal. do
    image ← get_image service sid image_id principal
    (λ w.
        let (body, w') = stream_image service sid image_id principal (some image) w in
        (ok (download_of image body), w')))

  abbrev pub bodiless :
      {A : Type 0} → Response A × World Json Q → Response (Unit {0}) × World Json Q
  bodiless (answered code a, w) = (answered code tt, w)
  bodiless (refused code, w) = (refused code, w)
  bodiless (crashed e, w) = (crashed e, w)

  -- The status of the response.
  unfoldable pub respond :
      Request Json → Option String → World Json Q → Response (Unit {0}) × World Json Q
  unfolding create_session_route list_sessions_route get_session_route update_session_route
      delete_session_route upload_image_route upload_images_batch_route list_images_route
      download_image_route
  respond (creating sid now payload) header w =
      bodiless (create_session_route sid now payload header w)
  respond (listing limit cursor) header w = bodiless (list_sessions_route limit cursor header w)
  respond (getting sid) header w = bodiless (get_session_route sid header w)
  respond (updating now sid payload) header w =
      bodiless (update_session_route now sid payload header w)
  respond (deleting now sid) header w = bodiless (delete_session_route now sid header w)
  respond (uploading ids now path sid file metadata) header w =
      bodiless (upload_image_route ids now path sid file metadata header w)
  respond (uploading_batch ids now path sid files metadata) header w =
      bodiless (upload_images_batch_route ids now path sid files metadata header w)
  respond (listing_images sid limit cursor) header w =
      bodiless (list_images_route sid limit cursor header w)
  respond (downloading sid image_id) header w =
      bodiless (download_image_route sid image_id header w)
