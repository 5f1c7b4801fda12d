-- ===== src/Sdk/Mapping.antt =====
-- sdk/pixeldive_sdk/grpc_mapping.py: the patch of a session as a gRPC request.
use pixeldive.Prelude.{string_eq, String, Bool, true, Option, none, some, if◌then◌else◌}
use pixeldive.Prelude.Dict.{Dict}
use pixeldive.Rpc.Codec.{StructCodec, UpdateSessionRequest}

-- The keys that `update_session_request` reads of its payload; a missing one is None.
pub record PatchPayload (Json : Type 0) : Type 0 where
  pub session_name : Option String
  pub status : Option String
  pub metadata : Option (Dict String Json)
  pub clear_metadata : Bool

module _ {Struct Json : Type 0} (structs : StructCodec Struct Json) where
  abbrev pub sent_metadata : Option (Dict String Json) → Struct
  sent_metadata none = structs.no_fields
  sent_metadata (some metadata) = structs.parse_dict metadata

  unfoldable pub update_session_request :
      String → PatchPayload Json → Bool → UpdateSessionRequest Struct
  update_session_request session_id payload merge_metadata = record {
    session_id = session_id;
    session_name = payload.session_name;
    status = payload.status;
    metadata = sent_metadata payload.metadata;
    merge_metadata = some merge_metadata;
    clear_metadata = if payload.clear_metadata then some true else none;
  }
