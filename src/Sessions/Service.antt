-- ===== src/Sessions/Service.antt =====
-- app/sessions/service.py and session_ops.py. A method is one
-- step: other requests run before or after it. Clock readings and new UUIDs are arguments.
use pixeldive.Prelude.{
  string_eq, nat_eq, ℕ, not, ◌||◌, Option, none, some, List, ◌==◌, if◌then◌else◌,
}
use pixeldive.Sessions.Rows.{
  require_session, new_session, apply_update, storage_paths, images_of, cascade, total_size,
  image_or_error,
}
use pixeldive.Prelude.Dict.{get, put, remove}
use pixeldive.Errors.{Result, err, Error}
use pixeldive.Blobs.Spool.{Bytes}
use pixeldive.Blobs.Store.{stream}
use pixeldive.Exec.{Exec, pure, gets, modify, lift, ◌>>=◌, ◌>>◌}
use pixeldive.Blobs.Gc.{gc_unreferenced}
use pixeldive.Quota.Tenant.{Principal}
use pixeldive.Sessions.Model.{Session, SessionImage, SessionCreate, SessionUpdate, World, Service}

-- `except FileNotFoundError` of `stream_image`.
abbrev pub or_missing : Result (List Bytes) → Result (List Bytes)
or_missing (err Error.file_not_found) = err Error.image_not_found
or_missing r = r

module _ {Json Q : Type 0} where
  -- A call of the quota, which sees only its own store.
  abbrev pub on_quota : Exec Q (Unit {0}) → Exec (World Json Q) (Unit {0})
  on_quota op w = let (r, q) = op w.quota in (r, record w { quota = q })

module _ {Json Q : Type 0} (service : Service Q) where
  open service use {settings, tenant}

  unfoldable pub create_session :
      ℕ → ℕ → SessionCreate Json → Option Principal → Exec (World Json Q) (Session Json)
  unfolding new_session
  create_session sid now payload principal = do
    on_quota (tenant.hit principal)
    let row = new_session sid now payload principal
    modify (λ w. record w { sessions = put w.sessions sid row })
    pure row

  unfoldable pub get_session : ℕ → Option Principal → Exec (World Json Q) (Session Json)
  unfolding require_session
  get_session sid principal = do
    on_quota (tenant.hit principal)
    sessions ← gets (λ w. w.sessions)
    lift (require_session sessions sid principal)

  unfoldable pub update_session :
      ℕ → ℕ → SessionUpdate Json → Option Principal → Exec (World Json Q) (Session Json)
  unfolding require_session apply_update
  update_session now sid patch principal = do
    on_quota (tenant.hit principal)
    sessions ← gets (λ w. w.sessions)
    row ← lift (require_session sessions sid principal)
    let row' = apply_update row patch now
    modify (λ w. record w { sessions = put w.sessions sid row' })
    pure row'

  unfoldable pub delete_session : ℕ → ℕ → Option Principal → Exec (World Json Q) (Unit {0})
  unfolding require_session images_of cascade total_size
  delete_session now sid principal = do
    on_quota (tenant.hit principal)
    sessions ← gets (λ w. w.sessions)
    row ← lift (require_session sessions sid principal)
    images ← gets (λ w. images_of sid w.images)
    modify (λ w. record w { sessions = remove w.sessions sid; images = cascade sid w.images })
    on_quota (tenant.release_bytes principal sid (total_size images))
    modify (λ w. record w {
      blobs =
          gc_unreferenced (λ n. storage_paths w.images) settings.gc_min_age_seconds now
            (storage_paths images) w.blobs;
    })

  unfoldable pub get_image : ℕ → ℕ → Option Principal → Exec (World Json Q) (SessionImage Json)
  unfolding require_session
  get_image sid image_id principal = do
    on_quota (tenant.hit principal)
    sessions ← gets (λ w. w.sessions)
    row ← lift (require_session sessions sid principal)
    image ← gets (λ w. get w.images image_id)
    lift (image_or_error sid image)

  abbrev pub image_row :
      ℕ
      → ℕ
      → Option Principal
      → Option (SessionImage Json)
      → Exec (World Json Q) (SessionImage Json)
  image_row sid image_id principal (some image) = pure image
  image_row sid image_id principal none = get_image sid image_id principal

  unfoldable pub stream_image :
      ℕ → ℕ → Option Principal → Option (SessionImage Json) → Exec (World Json Q) (List Bytes)
  unfolding get_image stream
  stream_image sid image_id principal image = do
    row ← image_row sid image_id principal image
    blobs ← gets (λ w. w.blobs)
    lift (
        if not (row.session_id == sid) || not (row.id == image_id)
        then err Error.image_not_found
        else or_missing (stream blobs row.storage_path settings.download_chunk_bytes))
