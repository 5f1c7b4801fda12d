-- ===== src/Rpc/Servicer.antt =====
-- app/rpc/grpc_session_rpcs.py, grpc_image_rpcs.py and grpc_rpc.py: the nine calls of the gRPC
-- service, over the session service. `invocation_metadata` of the context is a list of pairs. Clock
-- readings, new UUIDs and the names of new spool files are arguments.
pub mod Tests
pub mod Refused
pub mod Download
pub mod Uploaded
use pixeldive.Prelude.{
  string_eq, nat_eq, ℕ, String, Bool, true, false, Option, none, some, List, map, ◌==◌,
  if◌then◌else◌, get_or_else, ◌=?◌,
}
use pixeldive.Prelude.Dict.{Dict}
use pixeldive.Errors.{Result, ok, err, Error}
use pixeldive.Errors.Status.{error_status, abort_code}
use pixeldive.Exec.{Exec, pure, lift, ◌>>=◌, ◌>>◌}
use pixeldive.Blobs.Spool.{Bytes}
use pixeldive.Auth.{authenticate, metadata_authorization}
use pixeldive.Quota.Tenant.{Principal}
use pixeldive.Pagination.{Key, CursorCodec}
use pixeldive.Sessions.Model.{SessionImage, World, Service}
use pixeldive.Sessions.Uploads.{Upload}
use pixeldive.Sessions.Service.{
  create_session, get_session, update_session, delete_session, get_image, stream_image,
}
use pixeldive.Sessions.Ingest.{add_image, add_images_batch}
use pixeldive.Sessions.Listing.{list_sessions, list_images}
use pixeldive.Rpc.Wire.{Codec, ImageChunk, BatchImageChunk, as_uuid}
use pixeldive.Rpc.Single.{assemble_single}
use pixeldive.Rpc.Batch.{assemble_batch}
use pixeldive.Rpc.Codec.{
  StructCodec, DeviceCodec, CreateSessionRequest, UpdateSessionRequest, PbSession, PbImage,
  session_to_pb, image_to_pb, create_payload, update_patch,
}

-- The service, and what the calls use of other libraries and of the settings.
pub record Server (Struct Json Q : Type 0) : Type 1 where
  pub service : Service Q
  pub codec : Codec (Dict String Json)
  pub structs : StructCodec Struct Json
  pub devices : DeviceCodec Json
  pub show_uuid : ℕ → String
  pub encode : String → Bytes
  pub auth_required : Bool
  pub keys : Dict String String
  pub cursors : CursorCodec
  pub order_by : (A : Type 0) → (A → Key) → Bool → List A → List A

-- A message of `DownloadImage`.
pub record DownloadChunk : Type 0 where
  pub session_id : String
  pub image_id : String
  pub filename : String
  pub content_type : String
  pub chunk_bytes : Bytes

abbrev pub Metadata : Type 0
Metadata = List (String × String)

-- The calls of the service, each with its request and what it takes of the clock and of `uuid4`.
pub data Rpc (Struct Json : Type 0) : Type 0 where
  creating : ℕ → ℕ → CreateSessionRequest Struct Json → Rpc Struct Json
  getting : String → Rpc Struct Json
  updating : ℕ → UpdateSessionRequest Struct → Rpc Struct Json
  deleting : ℕ → String → Rpc Struct Json
  listing : ℕ → String → Rpc Struct Json
  uploading : (ℕ → ℕ) → ℕ → ℕ → List ImageChunk → Rpc Struct Json
  uploading_batch : (ℕ → ℕ) → ℕ → ℕ → List BatchImageChunk → Rpc Struct Json
  listing_images : String → ℕ → String → Rpc Struct Json
  downloading : String → String → Rpc Struct Json

-- SessionServiceError or ValidationError: the errors that a call ends with a status.
unfoldable pub is_mapped : Error → Bool
unfolding error_status
is_mapped Error.validation_error = true
is_mapped e = elim (error_status e) [ none ↦ false | some s ↦ true ]

-- What `abort_rpc` raises for a mapped error.
unfoldable pub aborted_with : Error → Error
unfolding is_mapped abort_code
aborted_with e = if is_mapped e then Error.rpc_aborted (abort_code e) else e

abbrev pub or_abort : {A S : Type 0} → Result A × S → Result A × S
or_abort (ok a, s) = (ok a, s)
or_abort (err e, s) = (err (aborted_with e), s)

-- `request.limit or None`
abbrev pub limit_or_none : ℕ → Option ℕ
limit_or_none n = if n == 0 then none else some n

abbrev pub cursor_or_none : String → Option String
cursor_or_none s = if s =? "" then none else some s

module _ {Struct Json Q : Type 0} (server : Server Struct Json Q) where
  open server use {service, codec, structs, devices, show_uuid}

  unfoldable pub rpc_principal : Metadata → Result (Option Principal)
  unfolding authenticate metadata_authorization
  rpc_principal metadata =
      authenticate service.texts server.encode server.auth_required server.keys
        (metadata_authorization service.texts metadata)

  unfoldable pub run_unary :
      {A : Type 0} → Metadata → (Option Principal → Exec (World Json Q) A) → Exec (World Json Q) A
  unfolding rpc_principal aborted_with
  run_unary metadata work w = or_abort ((lift (rpc_principal metadata) >>= work) w)

  unfoldable pub create_session_rpc :
      ℕ
      → ℕ
      → CreateSessionRequest Struct Json
      → Metadata
      → Exec (World Json Q) (PbSession Struct Json)
  unfolding run_unary create_payload create_session session_to_pb
  create_session_rpc sid now request metadata = run_unary metadata (λ principal. do
    payload ← lift (create_payload structs devices request)
    row ← create_session service sid now payload principal
    pure (session_to_pb structs show_uuid row))

  unfoldable pub get_session_rpc : String → Metadata → Exec (World Json Q) (PbSession Struct Json)
  unfolding run_unary as_uuid get_session session_to_pb
  get_session_rpc session_id metadata = run_unary metadata (λ principal. do
    sid ← lift (as_uuid codec session_id)
    row ← get_session service sid principal
    pure (session_to_pb structs show_uuid row))

  unfoldable pub update_session_rpc :
      ℕ → UpdateSessionRequest Struct → Metadata → Exec (World Json Q) (PbSession Struct Json)
  unfolding run_unary as_uuid update_patch update_session session_to_pb
  update_session_rpc now request metadata = run_unary metadata (λ principal. do
    sid ← lift (as_uuid codec request.session_id)
    patch ← lift (update_patch structs request)
    row ← update_session service now sid patch principal
    pure (session_to_pb structs show_uuid row))

  -- The answer says `deleted`.
  unfoldable pub delete_session_rpc : ℕ → String → Metadata → Exec (World Json Q) Bool
  unfolding run_unary as_uuid delete_session
  delete_session_rpc now session_id metadata = run_unary metadata (λ principal. do
    sid ← lift (as_uuid codec session_id)
    delete_session service now sid principal
    pure true)

  unfoldable pub list_sessions_rpc :
      ℕ → String → Metadata → Exec (World Json Q) (List (PbSession Struct Json) × String)
  unfolding run_unary list_sessions session_to_pb
  list_sessions_rpc limit cursor metadata = run_unary metadata (λ principal. do
    page ←
        list_sessions service server.cursors server.order_by (limit_or_none limit)
          (cursor_or_none cursor) principal
    pure (map (session_to_pb structs show_uuid) page.items, get_or_else "" page.next_cursor))

  -- The streams of an upload are read into the spool directory.
  abbrev pub assembling : ℕ → List ImageChunk → Exec (World Json Q) (ℕ × Upload Json)
  assembling path chunks w =
      let (r, sp) =
        assemble_single codec service.sha256 chunks path service.settings.max_image_bytes w.disk in
      (r, record w { disk = sp.disk })

  abbrev pub assembling_batch :
      ℕ → List BatchImageChunk → Exec (World Json Q) (ℕ × List (Upload Json))
  assembling_batch path chunks w =
      let (r, batch) =
        assemble_batch codec service.sha256 service.settings.max_image_bytes
          service.settings.max_batch_images chunks w.disk path in
      (r, record w { disk = batch.disk })

  unfoldable pub upload_image_rpc :
      (ℕ → ℕ) → ℕ → ℕ → List ImageChunk → Metadata → Exec (World Json Q) (PbImage Struct)
  unfolding run_unary assemble_single add_image image_to_pb
  upload_image_rpc ids now path chunks metadata = run_unary metadata (λ principal. do
    (sid, upload) ← assembling path chunks
    image ← add_image service ids now sid upload principal
    pure (image_to_pb structs show_uuid image))

  unfoldable pub upload_images_batch_rpc :
      (ℕ → ℕ)
      → ℕ
      → ℕ
      → List BatchImageChunk
      → Metadata
      → Exec (World Json Q) (List (PbImage Struct))
  unfolding run_unary assemble_batch add_images_batch image_to_pb
  upload_images_batch_rpc ids now path chunks metadata = run_unary metadata (λ principal. do
    (sid, uploads) ← assembling_batch path chunks
    images ← add_images_batch service true ids now sid uploads principal
    pure (map (image_to_pb structs show_uuid) images))

  unfoldable pub list_session_images_rpc :
      String → ℕ → String → Metadata → Exec (World Json Q) (List (PbImage Struct) × String)
  unfolding run_unary as_uuid list_images image_to_pb
  list_session_images_rpc session_id limit cursor metadata = run_unary metadata (λ principal. do
    sid ← lift (as_uuid codec session_id)
    page ←
        list_images service server.cursors server.order_by sid (limit_or_none limit)
          (cursor_or_none cursor) principal
    pure (map (image_to_pb structs show_uuid) page.items, get_or_else "" page.next_cursor))

  abbrev pub download_chunk : ℕ → ℕ → SessionImage Json → Bytes → DownloadChunk
  download_chunk sid image_id image chunk = record {
    session_id = show_uuid sid;
    image_id = show_uuid image_id;
    filename = image.filename;
    content_type = image.content_type;
    chunk_bytes = chunk;
  }

  unfoldable pub download_image_rpc :
      String → String → Metadata → Exec (World Json Q) (List DownloadChunk)
  unfolding run_unary as_uuid get_image stream_image
  download_image_rpc session_id image metadata = run_unary metadata (λ principal. do
    sid ← lift (as_uuid codec session_id)
    image_id ← lift (as_uuid codec image)
    row ← get_image service sid image_id principal
    chunks ← stream_image service sid image_id principal (some row)
    pure (map (download_chunk sid image_id row) chunks))

  abbrev pub status_of_call :
      {A : Type 0} → Result A × World Json Q → Result (Unit {0}) × World Json Q
  status_of_call (ok a, w) = (ok tt, w)
  status_of_call (err e, w) = (err e, w)

  -- How a call ends.
  unfoldable pub serve : Rpc Struct Json → Metadata → Exec (World Json Q) (Unit {0})
  unfolding create_session_rpc get_session_rpc update_session_rpc delete_session_rpc
      list_sessions_rpc upload_image_rpc upload_images_batch_rpc list_session_images_rpc
      download_image_rpc
  serve (creating sid now request) metadata w =
      status_of_call (create_session_rpc sid now request metadata w)
  serve (getting session_id) metadata w = status_of_call (get_session_rpc session_id metadata w)
  serve (updating now request) metadata w =
      status_of_call (update_session_rpc now request metadata w)
  serve (deleting now session_id) metadata w =
      status_of_call (delete_session_rpc now session_id metadata w)
  serve (listing limit cursor) metadata w =
      status_of_call (list_sessions_rpc limit cursor metadata w)
  serve (uploading ids now path chunks) metadata w =
      status_of_call (upload_image_rpc ids now path chunks metadata w)
  serve (uploading_batch ids now path chunks) metadata w =
      status_of_call (upload_images_batch_rpc ids now path chunks metadata w)
  serve (listing_images session_id limit cursor) metadata w =
      status_of_call (list_session_images_rpc session_id limit cursor metadata w)
  serve (downloading session_id image_id) metadata w =
      status_of_call (download_image_rpc session_id image_id metadata w)
