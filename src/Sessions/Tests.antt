-- ===== src/Sessions/Tests.antt =====
-- A small service over the in-process quota, and its theorems there.
use pixeldive.Prelude.{
  string_eq, nat_eq, ℕ, ◌+◌, String, ◌≡◌, refl, true, false, Option, none, some, List, [], ◌∷◌,
  arith, ==_iff,
}
use pixeldive.Prelude.Dict.{get, Dict}
use pixeldive.Blobs.Uploads.{ImageUpload}
use pixeldive.Quota.Memory.{MemoryQuotaStore, hit, reserve, release}
use pixeldive.Quota.Memory.Window.{empty_store}
use pixeldive.Quota.Samples.{limits}
use pixeldive.Quota.Tenant.{Principal, hit_quota, reserve_bytes, release_bytes}
use pixeldive.Sessions.Model.{SessionStatus, Session, World, Service}
use pixeldive.Sessions.Requests.{Request, adding, deleting, handle_all, respond}
use pixeldive.Sessions.Integrity.{IsWhole}
use pixeldive.Sessions.Isolation.{respond_refused, is_hidden, hides, may_see}
use pixeldive.Sessions.Reach.{handle_all-IsWhole}

abbrev pub service : Service MemoryQuotaStore
service = record {
  settings = record {
    max_image_bytes = 100;
    max_batch_images = 3;
    gc_min_age_seconds = 0;
    orphan_min_age_seconds = 60;
    download_chunk_bytes = 4;
    list_default_limit = 10;
    list_max_limit = 50;
  };
  tenant = record {
    hit = hit_quota hit 7 limits;
    reserve_bytes = reserve_bytes reserve limits;
    release_bytes = release_bytes release limits;
  };
  texts = record { strip = λ s. s; lower = λ s. s };
  sha256 = λ b. "abcdef";
  links = true;
}

abbrev alice : Option Principal
alice = some (record { owner_id = "alice" })

abbrev bob : Option Principal
bob = some (record { owner_id = "bob" })

abbrev pub scan : Session ℕ
scan = record {
  id = 1;
  session_name = "scan";
  status = SessionStatus.created;
  created_at = 3;
  updated_at = 3;
  phone_info = 0;
  phone_capabilities = 0;
  camera_capabilities = 0;
  extra_metadata = [];
  owner_id = some "alice";
}

abbrev pub start : World ℕ MemoryQuotaStore
start = record {
  sessions = (1, scan) ∷ [];
  images = [];
  blobs = [];
  disk = [];
  quota = empty_store;
}

abbrev pub photo : ImageUpload (Dict String ℕ)
photo = record {
  filename = "a.bmp";
  content_type = "image/bmp";
  payload = b'B' ∷ b'M' ∷ 1 ∷ [];
  extra_metadata = [];
  spool_path = none;
  digest_hex = none;
  size_bytes = 0;
  header_prefix = [];
}

abbrev requests : List (Request ℕ)
requests = adding true (λ n. n + 10) 5 1 (photo ∷ []) alice ∷ deleting 9 1 alice ∷ []

start-IsWhole : IsWhole start.sessions start.images start.blobs
unfolding get
start-IsWhole = record { keyed = λ i row found. ground (arith, ==_iff 1 i, found); placed = tt }

handle_all-IsWhole_example :
    IsWhole
      (handle_all service requests start).sessions
      (handle_all service requests start).images
      (handle_all service requests start).blobs
handle_all-IsWhole_example = handle_all-IsWhole service requests start start-IsWhole

hidden_from_bob : is_hidden service (deleting 9 1 bob) start ≡ true
unfolding is_hidden hides may_see get
hidden_from_bob = refl

respond_refused_example :
    ((respond service (deleting 9 1 bob) start).0 ≡ false)
    × ((respond service (deleting 9 1 bob) start).1.sessions ≡ start.sessions)
    × ((respond service (deleting 9 1 bob) start).1.images ≡ start.images)
    × ((respond service (deleting 9 1 bob) start).1.blobs ≡ start.blobs)
respond_refused_example = respond_refused service (deleting 9 1 bob) start hidden_from_bob
