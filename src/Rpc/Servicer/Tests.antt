-- ===== src/Rpc/Servicer/Tests.antt =====
-- A server over the small service, where one session has one image.
use pixeldive.Prelude.{
  string_eq, nat_eq, ℕ, String, ◌≡◌, refl, Bool, true, false, not, none, some, [], ◌∷◌, arith,
  if◌then◌else◌, is_empty, ◌=?◌,
}
use pixeldive.Prelude.Dict.{Dict, get}
use pixeldive.Errors.{ok, ◌>>=◌}
use pixeldive.Quota.Memory.{MemoryQuotaStore}
use pixeldive.Quota.Tenant.{hit_quota}
use pixeldive.Auth.{authenticate}
use pixeldive.Pagination.Tests.{codec as cursor_codec}
use pixeldive.Sessions.Model.{World, SessionImage}
use pixeldive.Sessions.Rows.{apply_update, require_session, wrong_owner}
use pixeldive.Sessions.Service.{get_image}
use pixeldive.Sessions.Tests.{service, scan, start}
use pixeldive.Rpc.Wire.{Codec, undecodable}
use pixeldive.Rpc.Codec.{StructCodec, update_patch}
use pixeldive.Rpc.Codec.Update.{IsStructCodec, asked, update_session_request-update_patch}
use pixeldive.Sdk.Mapping.{PatchPayload, update_session_request}
use pixeldive.Rpc.Servicer.{Server, rpc_principal, download_image_rpc, serve, downloading}
use pixeldive.Rpc.Servicer.Refused.{Guarded, serve-Guarded}
use pixeldive.Rpc.Servicer.Download.{Downloaded, download_image_rpc_lem}

-- A Struct is the dictionary itself.
abbrev structs : StructCodec (Dict String ℕ) ℕ
structs = record {
  no_fields = [];
  has_fields = λ s. not (is_empty s);
  to_dict = λ s. s;
  parse_dict = λ d. d;
}

structs-IsStructCodec : IsStructCodec structs
structs-IsStructCodec = record { none_there = refl; fields = λ bag. refl; same = λ bag. refl }

abbrev pub codec : Codec (Dict String ℕ)
codec = record {
  parse_uuid = λ s. if s =? "one" then some 1 else (if s =? "seven" then some 7 else none);
  is_blank = λ s. s =? "";
  parse_object = λ s. undecodable;
  no_meta = [];
}

abbrev pub server : Bool → Server (Dict String ℕ) ℕ MemoryQuotaStore
server auth_required = record {
  service = service;
  codec = codec;
  structs = structs;
  devices = record { phone_info = λ d. ok d; phone_caps = λ d. ok d; camera_caps = λ d. ok d };
  show_uuid = λ n. "id";
  encode = λ s. [];
  auth_required = auth_required;
  keys = [];
  cursors = cursor_codec;
  order_by = λ A key down rows. rows;
}

abbrev image : SessionImage ℕ
image = record {
  id = 7;
  session_id = 1;
  filename = "a.png";
  content_type = "image/png";
  size_bytes = 5;
  storage_path = "k";
  uploaded_at = 3;
  extra_metadata = [];
}

abbrev world : World ℕ MemoryQuotaStore
world = record start {
  images = (7, image) ∷ [];
  blobs = ("k", record { content = 1 ∷ 2 ∷ 3 ∷ 4 ∷ 5 ∷ []; mtime = 3 }) ∷ [];
}

abbrev payload : PatchPayload ℕ
payload = record {
  session_name = some "dive";
  status = some "COMPLETED";
  metadata = some (("depth", 4) ∷ []);
  clear_metadata = false;
}

update_session_request-update_patch_example :
    (update_patch structs (update_session_request structs "one" payload true) >>= λ patch.
    ok (apply_update scan patch 9))
    ≡ asked scan payload true 9
update_session_request-update_patch_example =
    update_session_request-update_patch structs structs-IsStructCodec "one" payload true scan 9

serve-Guarded_example :
    Guarded (server true) [] world (serve (server true) (downloading "one" "seven") [] world)
serve-Guarded_example = serve-Guarded (server true) (downloading "one" "seven") [] world

found : get_image service 1 7 none world ≡ (ok image, world)
unfolding get_image require_session wrong_owner get hit_quota
found = refl

let_in : rpc_principal (server false) [] ≡ ok none
unfolding rpc_principal authenticate
let_in = refl

download_image_rpc_lem_example :
    Downloaded
      (server false)
      1
      7
      image
      (get world.blobs "k")
      (download_image_rpc (server false) "one" "seven" [] world).0
download_image_rpc_lem_example =
    download_image_rpc_lem (server false) "one" "seven" [] none 1 7 image world world (omega arith)
      let_in refl refl found refl refl
