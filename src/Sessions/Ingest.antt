-- ===== src/Sessions/Ingest.antt =====
-- app/sessions/session_batch.py, and `persist_upload` of app/blobs/uploads.py: uploads become blobs
-- and image rows. `asyncio.gather` starts all saves, so one that fails does not undo the others. `ids` gives the new UUIDs.
use pixeldive.Prelude.{
  string_eq, nat_eq, ℕ, String, Bool, false, Option, none, some, List, [], ◌∷◌, if◌then◌else◌,
}
use pixeldive.Prelude.Dict.{get, put}
use pixeldive.Errors.{Result, ok, err, Error}
use pixeldive.Exec.{Exec, pure, gets, modify, lift, on_error, ◌>>=◌, ◌>>◌, continue}
use pixeldive.Blobs.Store.{Blob, save_payload, save_spool_file, object_key, is_file}
use pixeldive.Blobs.Spool.{Bytes}
use pixeldive.Quota.Tenant.{Principal}
use pixeldive.Sessions.Model.{SessionImage, World, Service}
use pixeldive.Sessions.Rows.{require_session}
use pixeldive.Sessions.Uploads.{
  Upload, reject_bad_batch, apply_first_upload, validate_all, sum_sizes, discard_all, new_images,
  add_all,
}
use pixeldive.Sessions.Service.{on_quota}

module _ {Json Q : Type 0} (service : Service Q) where
  open service use {settings, tenant, texts, sha256, links}

  -- The spool file was written for this request, so its time is taken to be `now`.
  abbrev pub save_found : ℕ → String → String → Option Bytes → Exec (World Json Q) String
  save_found now digest content_type none w = (err Error.file_not_found, w)
  save_found now digest content_type (some content) w =
      let source : Blob = record { content = content; mtime = now } in
      let (key, blobs) = save_spool_file links source digest content_type now w.blobs in
      (ok key, record w { blobs = blobs })

  -- `LocalFilesystemStorage.save_file` of a spool file.
  unfoldable pub save_file : ℕ → ℕ → String → String → Exec (World Json Q) String
  save_file now path digest content_type w =
      let key = object_key digest content_type in
      if is_file w.blobs key
      then (ok key, w)
      else save_found now digest content_type (get w.disk path) w

  unfoldable pub save : ℕ → Bytes → String → Exec (World Json Q) String
  save now payload content_type w =
      let (key, blobs) = save_payload sha256 payload content_type now w.blobs in
      (ok key, record w { blobs = blobs })

  abbrev pub save_spooled : ℕ → ℕ → Option String → Bytes → String → Exec (World Json Q) String
  save_spooled now path none payload content_type = save now payload content_type
  save_spooled now path (some digest) payload content_type = save_file now path digest content_type

  abbrev pub persist_at : ℕ → Upload Json → Option ℕ → Exec (World Json Q) String
  persist_at now u none w = save now u.payload u.content_type w
  persist_at now u (some path) w = save_spooled now path u.digest_hex u.payload u.content_type w

  unfoldable pub persist_upload : ℕ → Upload Json → Exec (World Json Q) String
  unfolding save save_file
  persist_upload now u w = persist_at now u u.spool_path w

  abbrev pub with_path :
      Upload Json × ℕ
      → Result String
      → Result (List (Upload Json × ℕ × String))
      → Result (List (Upload Json × ℕ × String))
  with_path (u, n) (ok path) (ok rest) = ok ((u, n, path) ∷ rest)
  with_path (u, n) (ok path) (err e) = err e
  with_path (u, n) (err e) rest = err e

  -- `asyncio.gather` of the saves: all of them run, and the first error is raised.
  unfoldable pub persist_all :
      ℕ → List (Upload Json × ℕ) → Exec (World Json Q) (List (Upload Json × ℕ × String))
  unfolding persist_upload
  persist_all now [] w = (ok [], w)
  persist_all now ((u, n) ∷ uploads) w =
      let (r, w') = persist_upload now u w in
      let (rest, w'') = persist_all now uploads w' in (with_path (u, n) r rest, w'')

  -- The rows of the images that were saved, in one transaction.
  abbrev pub insert_rows :
      (ℕ → ℕ)
      → ℕ
      → ℕ
      → Option Principal
      → List (Upload Json × ℕ × String)
      → Exec (World Json Q) (List (SessionImage Json))
  insert_rows ids now sid principal stored = do
    sessions ← gets (λ w. w.sessions)
    row ← lift (require_session sessions sid principal)
    let images = new_images ids now row stored
    let (changed, row') = apply_first_upload now row
    modify (λ w. record w {
      images = add_all images w.images;
      sessions = if changed then put w.sessions sid row' else w.sessions;
    })
    pure images

  abbrev pub insert_stored :
      (ℕ → ℕ)
      → ℕ
      → ℕ
      → Option Principal
      → Result (List (Upload Json × ℕ × String)) × World Json Q
      → Result (List (SessionImage Json)) × World Json Q
  insert_stored ids now sid principal out = continue (insert_rows ids now sid principal) out

  unfoldable pub commit_batch :
      (ℕ → ℕ)
      → ℕ
      → ℕ
      → List (Upload Json × ℕ)
      → Option Principal
      → Exec (World Json Q) (List (SessionImage Json))
  unfolding persist_all
  commit_batch ids now sid uploads principal w =
      insert_stored ids now sid principal (persist_all now uploads w)

  -- The `try` block of `add_images_batch`, under its guard for a bounded batch.
  unfoldable pub ingest :
      (ℕ → ℕ)
      → ℕ
      → ℕ
      → List (Upload Json)
      → Option Principal
      → Exec (World Json Q) (List (SessionImage Json))
  unfolding validate_all require_session sum_sizes commit_batch
  ingest ids now sid uploads principal = do
    disk ← gets (λ w. w.disk)
    checked ← lift (validate_all texts settings.max_image_bytes disk uploads)
    on_quota (tenant.hit principal)
    sessions ← gets (λ w. w.sessions)
    row ← lift (require_session sessions sid principal)
    let total = sum_sizes checked
    on_quota (tenant.reserve_bytes principal sid total)
    on_error (commit_batch ids now sid checked principal)
        (λ e. on_quota (tenant.release_bytes principal sid total))

  -- `finally`: the spools go, whatever happened.
  abbrev pub and_discard :
      {A : Type 0} → List (Upload Json) → Result A × World Json Q → Result A × World Json Q
  and_discard uploads (r, w) = (r, record w { disk = discard_all uploads w.disk })

  -- The guard for a bounded batch, which stands before the `try` block.
  abbrev pub after_guard :
      {A : Type 0} → Result (Unit {0}) → Exec (World Json Q) A → Exec (World Json Q) A
  after_guard (ok u) m w = m w
  after_guard (err e) m w = (err e, w)

  unfoldable pub add_images_batch :
      Bool
      → (ℕ → ℕ)
      → ℕ
      → ℕ
      → List (Upload Json)
      → Option Principal
      → Exec (World Json Q) (List (SessionImage Json))
  unfolding reject_bad_batch ingest discard_all
  add_images_batch bounded ids now sid uploads principal w =
      after_guard (if bounded then reject_bad_batch uploads settings.max_batch_images else ok tt)
        (λ w. and_discard uploads (ingest ids now sid uploads principal w)) w

  abbrev pub first_of :
      Result (List (SessionImage Json)) × World Json Q → Result (SessionImage Json) × World Json Q
  first_of (ok [], w) = (err Error.runtime_error, w)
  first_of (ok (image ∷ images), w) = (ok image, w)
  first_of (err e, w) = (err e, w)

  unfoldable pub add_image :
      (ℕ → ℕ) → ℕ → ℕ → Upload Json → Option Principal → Exec (World Json Q) (SessionImage Json)
  unfolding add_images_batch
  add_image ids now sid upload principal w =
      first_of (add_images_batch false ids now sid (upload ∷ []) principal w)
