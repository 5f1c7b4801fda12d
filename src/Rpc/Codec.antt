-- ===== src/Rpc/Codec.antt =====
-- The messages of proto/session_service.proto about sessions, and app/rpc/grpc_codec.py and
-- grpc_update.py, which map them to the types of the service. What protobuf does with a Struct is a
-- parameter; a device message stands for the dictionary that `MessageToDict` makes of it.
pub mod Update
use pixeldive.Prelude.{
  string_eq, ℕ, String, Bool, false, not, ◌&&◌, ◌||◌, Option, none, some, [], leb, if◌then◌else◌,
  is_empty, ◌=?◌,
}
use Prim.Native.String.{count}
use pixeldive.Prelude.Dict.{Dict}
use pixeldive.Errors.{Result, ok, err, Error, ◌>>=◌, ◌>>◌}
use pixeldive.Sessions.Model.{
  SessionStatus, Session, SessionImage, SessionCreate, SessionUpdate, created, in_progress,
  completed, failed,
}

-- `to_dict` is `MessageToDict`, `parse_dict` is `ParseDict` into a new Struct.
pub record StructCodec (Struct Json : Type 0) : Type 0 where
  pub no_fields : Struct
  pub has_fields : Struct → Bool
  pub to_dict : Struct → Dict String Json
  pub parse_dict : Dict String Json → Struct

-- pydantic's validation of the device models.
pub record DeviceCodec (Json : Type 0) : Type 0 where
  pub phone_info : Json → Result Json
  pub phone_caps : Json → Result Json
  pub camera_caps : Json → Result Json

pub record CreateSessionRequest (Struct Json : Type 0) : Type 0 where
  pub session_name : String
  pub phone_info : Json
  pub phone_capabilities : Json
  pub camera_capabilities : Json
  pub metadata : Struct

-- An optional field that is not set is `none`.
pub record UpdateSessionRequest (Struct : Type 0) : Type 0 where
  pub session_id : String
  pub session_name : Option String
  pub status : Option String
  pub metadata : Struct
  pub merge_metadata : Option Bool
  pub clear_metadata : Option Bool

pub record PbSession (Struct Json : Type 0) : Type 0 where
  pub id : String
  pub session_name : String
  pub status : String
  pub created_at : ℕ
  pub updated_at : ℕ
  pub phone_info : Json
  pub phone_capabilities : Json
  pub camera_capabilities : Json
  pub metadata : Struct

pub record PbImage (Struct : Type 0) : Type 0 where
  pub id : String
  pub session_id : String
  pub filename : String
  pub content_type : String
  pub size_bytes : ℕ
  pub uploaded_at : ℕ
  pub metadata : Struct

unfoldable pub status_text : SessionStatus → String
status_text SessionStatus.created = "CREATED"
status_text SessionStatus.in_progress = "IN_PROGRESS"
status_text SessionStatus.completed = "COMPLETED"
status_text SessionStatus.failed = "FAILED"

-- The status with this text; pydantic and `status_value` accept no other.
unfoldable pub status_of : String → Result SessionStatus
unfolding status_text
status_of s =
    if s =? status_text SessionStatus.created
    then ok SessionStatus.created
    else (if s =? status_text SessionStatus.in_progress
        then ok SessionStatus.in_progress
        else (if s =? status_text SessionStatus.completed
            then ok SessionStatus.completed
            else (if s =? status_text SessionStatus.failed
                then ok SessionStatus.failed
                else err Error.validation_error)))

-- min_length=1 and max_length=255 of a session's name.
unfoldable pub valid_name : String → Result String
valid_name s = if leb 1 (count s) && leb (count s) 255 then ok s else err Error.validation_error

-- A field that may be None is checked only where it is there.
abbrev pub optional : {A B : Type 0} → (A → Result B) → Option A → Result (Option B)
optional check none = ok none
optional check (some a) = check a >>= λ b. ok (some b)

module _ {Struct Json : Type 0} (structs : StructCodec Struct Json) where
  unfoldable pub struct_to_dict : Struct → Dict String Json
  struct_to_dict message = if structs.has_fields message then structs.to_dict message else []

  unfoldable pub dict_to_struct : Dict String Json → Struct
  dict_to_struct bag = if is_empty bag then structs.no_fields else structs.parse_dict bag

  unfoldable pub session_to_pb : (ℕ → String) → Session Json → PbSession Struct Json
  unfolding status_text dict_to_struct
  session_to_pb show_uuid row = record {
    id = show_uuid row.id;
    session_name = row.session_name;
    status = status_text row.status;
    created_at = row.created_at;
    updated_at = row.updated_at;
    phone_info = row.phone_info;
    phone_capabilities = row.phone_capabilities;
    camera_capabilities = row.camera_capabilities;
    metadata = dict_to_struct row.extra_metadata;
  }

  unfoldable pub image_to_pb : (ℕ → String) → SessionImage Json → PbImage Struct
  unfolding dict_to_struct
  image_to_pb show_uuid image = record {
    id = show_uuid image.id;
    session_id = show_uuid image.session_id;
    filename = image.filename;
    content_type = image.content_type;
    size_bytes = image.size_bytes;
    uploaded_at = image.uploaded_at;
    metadata = dict_to_struct image.extra_metadata;
  }

  -- The payload that `CreateSession` builds.
  unfoldable pub create_payload :
      DeviceCodec Json → CreateSessionRequest Struct Json → Result (SessionCreate Json)
  unfolding struct_to_dict valid_name
  create_payload devices request = do
    phone_info ← devices.phone_info request.phone_info
    phone_capabilities ← devices.phone_caps request.phone_capabilities
    camera_capabilities ← devices.camera_caps request.camera_capabilities
    session_name ← valid_name request.session_name
    ok (record {
      session_name = session_name;
      phone_info = phone_info;
      phone_capabilities = phone_capabilities;
      camera_capabilities = camera_capabilities;
      extra_metadata = struct_to_dict request.metadata;
    })

  -- `request.HasField(…) and request.…`
  abbrev pub is_set : Option Bool → Bool
  is_set none = false
  is_set (some flag) = flag

  -- `extra` and `merge` of `update_patch`.
  unfoldable pub patch_metadata : UpdateSessionRequest Struct → Option (Dict String Json) × Bool
  unfolding struct_to_dict
  patch_metadata request =
      let incoming = struct_to_dict request.metadata in
      let merge = is_set request.merge_metadata in
      if is_set request.clear_metadata
      then (some [], false)
      else (if merge || not (is_empty incoming) then (some incoming, merge) else (none, merge))

  unfoldable pub update_patch : UpdateSessionRequest Struct → Result (SessionUpdate Json)
  unfolding patch_metadata valid_name status_of
  update_patch request = do
    let (extra, merge) = patch_metadata request
    session_name ← optional valid_name request.session_name
    status ← optional status_of request.status
    ok (record {
      session_name = session_name;
      status = status;
      extra_metadata = extra;
      merge_metadata = merge;
    })
