-- ===== src/Sdk/Client.antt =====
-- sdk/pixeldive_sdk/grpc_client.py, grpc_channel.py, grpc_host.py, grpc_sessions.py, grpc_images.py
-- and ids.py: the gRPC client of one server. The channel is the calls of `Rpc.Servicer`: nothing is
-- lost or repeated between them. The clock readings, UUIDs and spool names that a call of the server
-- takes are arguments. The calls for batches, whose frames are in `Sdk.Chunks`, are left out.
pub mod RoundTrip
mod Tests
use pixeldive.Prelude.{
  string_eq, nat_eq, ℕ, suc, String, Bool, true, false, not, ◌||◌, Option, none, some, List, [],
  ◌∷◌, map, if◌then◌else◌, length, ◌=?◌,
}
use Prim.Native.String.{◌++◌ as concat}
use pixeldive.Exec.{◌>>=◌, ◌>>◌, Exec, pure, lift, continue}
use pixeldive.Errors.{Error, Result, ok, err}
use pixeldive.Blobs.Spool.{Bytes}
use pixeldive.Blobs.Filenames.{or_default}
use pixeldive.Blobs.Store.{is_some}
use pixeldive.Sessions.Model.{World}
use pixeldive.Rpc.Codec.{CreateSessionRequest, PbSession, PbImage}
use pixeldive.Rpc.Servicer.{
  Server, Metadata, create_session_rpc, get_session_rpc, update_session_rpc, delete_session_rpc,
  list_sessions_rpc, upload_image_rpc, list_session_images_rpc, download_image_rpc,
}
use pixeldive.Sdk.Mapping.{PatchPayload, update_session_request}
use pixeldive.Sdk.Chunks.{iter_bytes, iter_path, single_image_chunks}

pub record GrpcClient : Type 0 where
  pub token : Option String
  pub insecure : Bool
  pub root_certificates : Option Bytes
  pub private_key : Option Bytes
  pub certificate_chain : Option Bytes
  pub ssl_target_name_override : Option String
  -- The channel and its stub are open.
  pub connected : Bool

-- `value not in (None, "")`
abbrev pub is_text : Option String → Bool
is_text none = false
is_text (some s) = not (s =? "")

unfoldable pub reject_tls_on_insecure : GrpcClient → Result (Unit {0})
reject_tls_on_insecure c =
    if is_some c.root_certificates
      || (is_some c.private_key
          || (is_some c.certificate_chain || is_text c.ssl_target_name_override))
    then err Error.value_error
    else ok tt

-- The check of `__init__`, and of `open_channel` again.
unfoldable pub open_channel : GrpcClient → Result (Unit {0})
unfolding reject_tls_on_insecure
open_channel c = if c.insecure then reject_tls_on_insecure c else ok tt

-- `_metadata`: an empty token is none.
unfoldable pub metadata_of : GrpcClient → Metadata
metadata_of c = elim c.token [
  | none ↦ []
  | some token ↦ if token =? "" then [] else ("authorization", concat "Bearer " token) ∷ []
]

-- `first or second` of an optional text.
abbrev pub text_or : Option String → String → String
text_or none d = d
text_or (some s) d = or_default s d

-- The client beside what the server holds.
abbrev pub Remote : Type 0 → Type 0
Remote W = GrpcClient × W

module _ {W : Type 0} where
  unfoldable pub connect : Exec (Remote W) (Unit {0})
  unfolding open_channel
  connect (c, w) =
      if c.connected
      then (ok tt, (c, w))
      else continue (λ _ s. (ok tt, s)) (open_channel c, (record c { connected = true }, w))

  unfoldable pub aclose : Exec (Remote W) (Unit {0})
  aclose (c, w) = (ok tt, (record c { connected = false }, w))

  unfoldable pub require_stub : Exec (Remote W) (Unit {0})
  require_stub (c, w) = if c.connected then (ok tt, (c, w)) else (err Error.runtime_error, (c, w))

  -- A call of the stub, with the metadata of the client.
  abbrev pub remote_after : {A : Type 0} → GrpcClient → Result A × W → Result A × Remote W
  remote_after c (r, w) = (r, (c, w))

  abbrev pub remote : {A : Type 0} → (Metadata → Exec W A) → Exec (Remote W) A
  remote rpc (c, w) = remote_after c (rpc (metadata_of c) w)

  -- `_unary`
  unfoldable pub unary : {A : Type 0} → (Metadata → Exec W A) → Exec (Remote W) A
  unfolding connect require_stub metadata_of
  unary rpc = do connect; require_stub; remote rpc

module _ {Struct Json Q : Type 0} (server : Server Struct Json Q) where
  open server use {codec, show_uuid}

  -- `str(UUID(value))`
  abbrev pub canonical : Option ℕ → Result String
  canonical none = err Error.value_error
  canonical (some u) = ok (show_uuid u)

  unfoldable pub resource_id : String → Result String
  resource_id value = canonical (codec.parse_uuid value)

  unfoldable pub create_session :
      ℕ
      → ℕ
      → CreateSessionRequest Struct Json
      → Exec (Remote (World Json Q)) (PbSession Struct Json)
  unfolding unary create_session_rpc
  create_session sid now request = unary (create_session_rpc server sid now request)

  unfoldable pub get_session : String → Exec (Remote (World Json Q)) (PbSession Struct Json)
  unfolding unary resource_id get_session_rpc
  get_session session_id = do
    sid ← lift (resource_id session_id)
    unary (get_session_rpc server sid)

  unfoldable pub update_session :
      ℕ → String → PatchPayload Json → Bool → Exec (Remote (World Json Q)) (PbSession Struct Json)
  unfolding unary resource_id update_session_rpc update_session_request
  update_session now session_id payload merge_metadata = do
    sid ← lift (resource_id session_id)
    unary (
        update_session_rpc server now
          (update_session_request server.structs sid payload merge_metadata))

  unfoldable pub delete_session : ℕ → String → Exec (Remote (World Json Q)) (Unit {0})
  unfolding unary resource_id delete_session_rpc
  delete_session now session_id = do
    sid ← lift (resource_id session_id)
    deleted ← unary (delete_session_rpc server now sid)
    pure tt

  unfoldable pub list_sessions :
      ℕ → String → Exec (Remote (World Json Q)) (List (PbSession Struct Json) × String)
  unfolding unary list_sessions_rpc
  list_sessions limit cursor = unary (list_sessions_rpc server limit cursor)

  unfoldable pub list_images :
      String → ℕ → String → Exec (Remote (World Json Q)) (List (PbImage Struct) × String)
  unfolding unary resource_id list_session_images_rpc
  list_images session_id limit cursor = do
    sid ← lift (resource_id session_id)
    unary (list_session_images_rpc server sid limit cursor)

  -- The payload in pieces, with the id, the name and the type of its first frame.
  unfoldable pub upload_chunks :
      (ℕ → ℕ)
      → ℕ
      → ℕ
      → String
      → String
      → String
      → List Bytes
      → Exec (Remote (World Json Q)) (PbImage Struct)
  unfolding connect require_stub metadata_of single_image_chunks upload_image_rpc
  upload_chunks ids now path session_id filename content_type pieces = do
    connect
    require_stub
    remote (
        upload_image_rpc server ids now path
          (single_image_chunks session_id filename content_type pieces))

  unfoldable pub upload_image :
      (ℕ → ℕ)
      → ℕ
      → ℕ
      → String
      → String
      → Bytes
      → String
      → ℕ
      → Exec (Remote (World Json Q)) (PbImage Struct)
  unfolding resource_id upload_chunks iter_bytes
  upload_image ids now path session_id filename payload content_type chunk_size = do
    sid ← lift (resource_id session_id)
    upload_chunks ids now path sid filename content_type (iter_bytes payload chunk_size)

  -- The file's last path component stands for its name.
  unfoldable pub upload_image_from_path :
      (ℕ → ℕ)
      → ℕ
      → ℕ
      → String
      → String × Bytes
      → Option String
      → String
      → ℕ
      → Exec (Remote (World Json Q)) (PbImage Struct)
  unfolding resource_id upload_chunks iter_path
  upload_image_from_path ids now path session_id (source_name, file) filename content_type
        chunk_size =
      do
        sid ← lift (resource_id session_id)
        upload_chunks ids now path sid (text_or filename source_name) content_type
            (iter_path (suc (length file)) file chunk_size)

  unfoldable pub upload_image_from_iter :
      (ℕ → ℕ)
      → ℕ
      → ℕ
      → String
      → List Bytes
      → String
      → String
      → Exec (Remote (World Json Q)) (PbImage Struct)
  unfolding resource_id upload_chunks
  upload_image_from_iter ids now path session_id pieces filename content_type = do
    sid ← lift (resource_id session_id)
    upload_chunks ids now path sid filename content_type pieces

  -- What `download_image` yields: the channel opens before the ids are read.
  unfoldable pub download_image : String → String → Exec (Remote (World Json Q)) (List Bytes)
  unfolding connect require_stub resource_id metadata_of download_image_rpc
  download_image session_id image_id = do
    connect
    require_stub
    sid ← lift (resource_id session_id)
    image ← lift (resource_id image_id)
    messages ← remote (download_image_rpc server sid image)
    pure (map (λ m. m.chunk_bytes) messages)
