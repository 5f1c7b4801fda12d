-- ===== src/Sdk/Client/Tests.antt =====
-- A client that uploads a picture to the small server. A UUID is shown as a text of its length.
use pixeldive.Prelude.{
  string_eq, nat_eq, ℕ, zero, suc, String, ◌≡◌, refl, true, false, Option, none, some, List, [],
  arith,
}
use pixeldive.Blobs.Spool.{Bytes, feed}
use pixeldive.Blobs.Spool.Laws.{flatten}
use pixeldive.Blobs.Filenames.{or_default, sanitize_filename}
use pixeldive.Sessions.Tests.{service, start}
use pixeldive.Rpc.Servicer.Tests.{server}
use pixeldive.Prelude.Dict.{Dict, get, put}
use pixeldive.Errors.{Result, ok}
use pixeldive.Blobs.Validate.{png, normalize_content_type}
use pixeldive.Quota.Memory.{MemoryQuotaStore}
use pixeldive.Sessions.Model.{World, Session}
use pixeldive.Rpc.Codec.{PbImage}
use pixeldive.Rpc.Servicer.{Server, rpc_principal}
use pixeldive.Sdk.Client.{GrpcClient, Remote, upload_image, metadata_of, download_image}
use pixeldive.Auth.{authenticate}
use pixeldive.Sessions.Uploads.{new_images}
use pixeldive.Sessions.Kept.{Keyed}
use pixeldive.Blobs.Store.{object_key, is_file}
use pixeldive.Blobs.Uploads.{upload_from_spool}
use pixeldive.Rpc.Single.{single_header}
use pixeldive.Sdk.Client.RoundTrip.{upload_image-download_image}
use pixeldive.Quota.Tenant.{hit_quota, reserve_bytes}

show : ℕ → String
show zero = "u"
show (suc n) = String.◌∷◌ "u" (show n)

abbrev one_more : Option ℕ → Option ℕ
one_more none = some 0
one_more (some n) = some (suc n)

parse : String → Option ℕ
parse String.[] = none
parse (String.◌∷◌ c s) = one_more (parse s)

parse-show : (n : ℕ) → parse (show n) ≡ some n
unfolding parse show
parse-show zero = refl
parse-show (suc n) = rw (parse-show n)

abbrev uuid_server : Server (Dict String ℕ) ℕ MemoryQuotaStore
uuid_server = record (server false) {
  codec = record (server false).codec { parse_uuid = parse };
  show_uuid = show;
}

abbrev client : GrpcClient
client = record {
  token = none;
  insecure = true;
  root_certificates = none;
  private_key = none;
  certificate_chain = none;
  ssl_target_name_override = none;
  connected = false;
}

abbrev outcome : Result (PbImage (Dict String ℕ)) × Remote (World ℕ MemoryQuotaStore)
outcome = upload_image uuid_server (λ n. 7) 3 9 "uu" "a.png" png "image/png" 3 (client, start)

abbrev answered : PbImage (Dict String ℕ)
answered = record {
  id = "uuuuuuuu";
  session_id = "uu";
  filename = "a.png";
  content_type = "image/png";
  size_bytes = 8;
  uploaded_at = 3;
  metadata = [];
}

uploaded : outcome ≡ (ok answered, outcome.1)
unfolding upload_image parse show single_header feed upload_from_spool put hit_quota reserve_bytes
    is_file new_images sanitize_filename
uploaded = refl

-- The only session row is under its own id.
start_named : (row : Session ℕ) → get start.sessions 1 ≡ some row → row.id ≡ 1
unfolding get
start_named row h = cc

nothing_stored :
    Keyed start.blobs
      (object_key
        (service.sha256 png)
        (normalize_content_type service.texts (or_default "image/png" "application/octet-stream")))
      png
unfolding get
nothing_stored b h = cc

let_in : rpc_principal uuid_server (metadata_of client) ≡ ok none
unfolding rpc_principal authenticate metadata_of
let_in = refl

one_call_more : (service.tenant.hit none outcome.1.1.quota).0 ≡ ok tt
unfolding hit_quota
one_call_more = refl

two_parsed : parse "uu" ≡ some 1
unfolding parse
two_parsed = refl

empty_refused : parse "" ≡ none
unfolding parse
empty_refused = refl

upload_image-download_image_example :
    (pieces : List Bytes) × ((download_image uuid_server "uu" "uuuuuuuu" outcome.1).0 ≡ ok pieces)
    × (flatten pieces ≡ png)
    × (answered.size_bytes ≡ 8)
upload_image-download_image_example =
    upload_image-download_image uuid_server (λ n. 7) 3 9 1 3 "uu" "a.png" "image/png" png client
      none start answered outcome.1 (omega arith) parse-show empty_refused two_parsed let_in
      start_named nothing_stored uploaded one_call_more
