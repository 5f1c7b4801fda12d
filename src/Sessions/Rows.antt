-- ===== src/Sessions/Rows.antt =====
-- The rows of the session service: `_require_session` and `_wrong_owner` of app/sessions/service.py,
-- session_patch.py, and the rows that a method writes.
use pixeldive.Prelude.{
  string_eq, nat_eq, ℕ, ◌+◌, String, Bool, true, false, not, Option, none, some, List, [], ◌∷◌, map,
  ◌==◌, if◌then◌else◌, get_or_else, keep, ◌=?◌,
}
use pixeldive.Prelude.Dict.{Dict, get, put}
use pixeldive.Errors.{Result, ok, err, Error}
use pixeldive.Quota.Tenant.{Principal}
use pixeldive.Sessions.Model.{created, Session, SessionImage, SessionCreate, SessionUpdate}

-- `owner_id != principal.owner_id`
abbrev pub other_owner : Option String → String → Bool
other_owner none owner = true
other_owner (some o) owner = not (o =? owner)

abbrev pub owner_of : Option Principal → Option String
owner_of none = none
owner_of (some p) = some p.owner_id

module _ {Json : Type 0} where
  unfoldable pub wrong_owner : Session Json → Option Principal → Bool
  wrong_owner row none = false
  wrong_owner row (some p) = other_owner row.owner_id p.owner_id

  abbrev pub session_or_error : Option Principal → Option (Session Json) → Result (Session Json)
  session_or_error principal none = err Error.session_not_found
  session_or_error principal (some row) =
      if wrong_owner row principal then err Error.session_not_found else ok row

  unfoldable pub require_session :
      Dict ℕ (Session Json) → ℕ → Option Principal → Result (Session Json)
  unfolding wrong_owner
  require_session sessions sid principal = session_or_error principal (get sessions sid)

  unfoldable pub new_session : ℕ → ℕ → SessionCreate Json → Option Principal → Session Json
  new_session sid now payload principal = record {
    id = sid;
    session_name = payload.session_name;
    status = created;
    created_at = now;
    updated_at = now;
    phone_info = payload.phone_info;
    phone_capabilities = payload.phone_capabilities;
    camera_capabilities = payload.camera_capabilities;
    extra_metadata = payload.extra_metadata;
    owner_id = owner_of principal;
  }

  -- `merged.update(incoming)`
  unfoldable pub update_all : Dict String Json → Dict String Json → Dict String Json
  update_all existing [] = existing
  update_all existing ((k, v) ∷ incoming) = update_all (put existing k v) incoming

  unfoldable pub apply_metadata : Dict String Json → Dict String Json → Bool → Dict String Json
  unfolding update_all
  apply_metadata existing incoming merge = if merge then update_all existing incoming else incoming

  abbrev pub patched_metadata :
      Dict String Json → Option (Dict String Json) → Bool → Dict String Json
  patched_metadata existing none merge = existing
  patched_metadata existing (some incoming) merge = apply_metadata existing incoming merge

  -- The row with the fields of the patch that are not None.
  unfoldable pub apply_update : Session Json → SessionUpdate Json → ℕ → Session Json
  unfolding apply_metadata
  apply_update row patch now = record row {
    session_name = get_or_else row.session_name patch.session_name;
    status = get_or_else row.status patch.status;
    extra_metadata = patched_metadata row.extra_metadata patch.extra_metadata patch.merge_metadata;
    updated_at = now;
  }

  abbrev pub storage_paths : Dict ℕ (SessionImage Json) → List String
  storage_paths = map (λ r. r.1.storage_path)

  -- `record.images`
  unfoldable pub images_of : ℕ → Dict ℕ (SessionImage Json) → Dict ℕ (SessionImage Json)
  unfolding keep
  images_of sid = keep (λ r. r.1.session_id == sid)

  -- The images that stay when the session's rows go.
  unfoldable pub cascade : ℕ → Dict ℕ (SessionImage Json) → Dict ℕ (SessionImage Json)
  unfolding keep
  cascade sid = keep (λ r. not (r.1.session_id == sid))

  unfoldable pub total_size : Dict ℕ (SessionImage Json) → ℕ
  total_size [] = 0
  total_size ((i, image) ∷ images) = image.size_bytes + total_size images

  abbrev pub image_or_error : ℕ → Option (SessionImage Json) → Result (SessionImage Json)
  image_or_error sid none = err Error.image_not_found
  image_or_error sid (some image) =
      if image.session_id == sid then ok image else err Error.image_not_found
