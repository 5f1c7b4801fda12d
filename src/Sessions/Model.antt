-- ===== src/Sessions/Model.antt =====
-- app/models.py, app/schemas.py, app/timestamps.py and what the service holds. `Json` is the type of
-- the parsed device specifications and of a metadata value; `Q` is the state of the quota's store.
use pixeldive.Prelude.{string_eq, nat_eq, ℕ, String, Bool, Option}
use pixeldive.Prelude.Dict.{Dict}
use pixeldive.Exec.{Exec}
use pixeldive.Blobs.Spool.{Bytes, Disk}
use pixeldive.Blobs.Store.{Blobs}
use pixeldive.Blobs.Validate.{TextCase}
use pixeldive.Quota.Tenant.{Principal}

pub data SessionStatus : Type 0 where
  created in_progress completed failed : SessionStatus

pub record Session (Json : Type 0) : Type 0 where
  pub id : ℕ
  pub session_name : String
  pub status : SessionStatus
  pub created_at : ℕ
  pub updated_at : ℕ
  pub phone_info : Json
  pub phone_capabilities : Json
  pub camera_capabilities : Json
  pub extra_metadata : Dict String Json
  pub owner_id : Option String

pub record SessionImage (Json : Type 0) : Type 0 where
  pub id : ℕ
  pub session_id : ℕ
  pub filename : String
  pub content_type : String
  pub size_bytes : ℕ
  pub storage_path : String
  pub uploaded_at : ℕ
  pub extra_metadata : Dict String Json

pub record SessionCreate (Json : Type 0) : Type 0 where
  pub session_name : String
  pub phone_info : Json
  pub phone_capabilities : Json
  pub camera_capabilities : Json
  pub extra_metadata : Dict String Json

pub record SessionUpdate (Json : Type 0) : Type 0 where
  pub session_name : Option String
  pub status : Option SessionStatus
  pub extra_metadata : Option (Dict String Json)
  pub merge_metadata : Bool

pub record Settings : Type 0 where
  pub max_image_bytes : ℕ
  pub max_batch_images : ℕ
  pub gc_min_age_seconds : ℕ
  pub orphan_min_age_seconds : ℕ
  pub download_chunk_bytes : ℕ
  pub list_default_limit : ℕ
  pub list_max_limit : ℕ

-- `TenantQuota`, as the service calls it.
pub record TenantQuota (Q : Type 0) : Type 0 where
  pub hit : Option Principal → Exec Q (Unit {0})
  pub reserve_bytes : Option Principal → ℕ → ℕ → Exec Q (Unit {0})
  pub release_bytes : Option Principal → ℕ → ℕ → Exec Q (Unit {0})

-- The tables, the blob store, the spool files, and the quota's store.
pub record World (Json Q : Type 0) : Type 0 where
  pub sessions : Dict ℕ (Session Json)
  pub images : Dict ℕ (SessionImage Json)
  pub blobs : Blobs
  pub disk : Disk
  pub quota : Q

-- What a `SessionService` is built from; `links` says whether the disk allows hard links.
pub record Service (Q : Type 0) : Type 0 where
  pub settings : Settings
  pub tenant : TenantQuota Q
  pub texts : TextCase
  pub sha256 : Bytes → String
  pub links : Bool
