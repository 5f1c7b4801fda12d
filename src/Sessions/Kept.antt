-- ===== src/Sessions/Kept.antt =====
-- What an upload of a spooled file leaves behind: its blob and its row.
mod Committed
pub mod Batch
use pixeldive.Prelude.{
  string_eq, nat_eq, ℕ, String, ◌≡◌, refl, ap, inl, inr, Bool, false, Option, some, arith,
  if◌then◌else◌, Bool-cases, Option-cases, length,
}
use text.Mathlib.TextEquality.{eq_iff}
use mathlib.Core.Path.{subst}
use pixeldive.Prelude.Dict.{get, put, get-put, Dict}
use pixeldive.Errors.{ok, Result, err, Error}
use pixeldive.Blobs.Spool.{Bytes}
use pixeldive.Blobs.Store.{Blob, Blobs, object_key, is_file, save_atomic, try_link, save_spool_file}
use pixeldive.Blobs.Validate.{normalize_content_type}
use pixeldive.Sessions.Model.{World, Service, Session, SessionImage, in_progress}
use pixeldive.Sessions.Uploads.{
  Upload, apply_first_upload, is_created, new_image, new_images, add_all, sum_sizes, discard_all,
}
use pixeldive.Sessions.Ingest.{
  save_file, insert_rows, persist_upload, persist_all, commit_batch, ingest, add_images_batch,
  add_image, and_discard, first_of,
}
use pixeldive.Quota.Tenant.{Principal}
use pixeldive.Sessions.Rows.{wrong_owner, require_session}
use pixeldive.Exec.{continue_ok, ◌>>=◌, ◌>>◌, Exec, continue, lift, gets, on_error, on_error_after}
use pixeldive.Sessions.Service.{on_quota}
use pixeldive.Sessions.Checked.{validated, validate_all_one}

-- No other bytes stand under a key: the names of the store are taken for digests.
abbrev pub Keyed : Blobs → String → Bytes → Type 0
Keyed blobs key content = (b : Blob) → get blobs key ≡ some b → b.content ≡ content

abbrev pub Holds : Blobs → String → Bytes → Type 0
Holds blobs key content = (b : Blob) × (get blobs key ≡ some b) × (b.content ≡ content)

abbrev new_blob : Bytes → ℕ → Blob
new_blob content now = record { content = content; mtime = now }

put-Holds : (blobs : Blobs) (key : String) (b : Blob) → Holds (put blobs key b) key b.content
put-Holds blobs key b = (b, ground (arith, get-put blobs key key b, eq_iff key key), refl)

save_spool_file-Holds :
    (links : Bool) (source : Blob) (digest content_type : String) (now : ℕ) (blobs : Blobs)
    → Keyed blobs (object_key digest content_type) source.content
    → ((save_spool_file links source digest content_type now blobs).0
        ≡ object_key digest content_type)
      × Holds
          (save_spool_file links source digest content_type now blobs).1
          (object_key digest content_type)
          source.content
unfolding save_spool_file try_link is_file save_atomic
save_spool_file-Holds links source digest content_type now blobs keyed =
    elim (Option-cases (get blobs (object_key digest content_type))) [
      | inl new ↦ elim (Bool-cases links) [
        | inl linked ↦
            rw (new, linked) (refl, put-Holds blobs (object_key digest content_type) source)
        | inr copied ↦
            rw (new, copied)
              (refl, put-Holds blobs (object_key digest content_type) (new_blob source.content now))
      ]
      | inr (b, there) ↦ rw there (refl, (b, there, keyed b there))
    ]

module _ {Json : Type 0} where
  -- What the tables and the store hold of an image, for a caller that may see its session.
  pub record Kept {Q : Type 0} (w : World Json Q) (sid id : ℕ) (principal : Option Principal)
      (content : Bytes) (image : SessionImage Json) : Type 0 where
    pub there : get w.images id ≡ some image
    pub keyed : image.id ≡ id
    pub of_session : image.session_id ≡ sid
    pub sized : image.size_bytes ≡ length content
    pub seen : (row : Session Json) × (require_session w.sessions sid principal ≡ ok row)
    pub stored : Holds w.blobs image.storage_path content

  pub require_session-eq_ok :
      (sessions : Dict ℕ (Session Json)) (sid : ℕ) (principal : Option Principal)
      (row : Session Json)
      → require_session sessions sid principal ≡ ok row
      → (get sessions sid ≡ some row) × (wrong_owner row principal ≡ false)
  unfolding require_session
  require_session-eq_ok sessions sid principal row found = ground arith

  -- A session that changes its status stays with its owner.
  pub still_seen :
      (sessions : Dict ℕ (Session Json)) (sid now : ℕ) (principal : Option Principal)
      (row : Session Json)
      → require_session sessions sid principal ≡ ok row
      → (row' : Session Json) × (require_session
            (if (apply_first_upload now row).0
              then put sessions sid (apply_first_upload now row).1
              else sessions)
            sid
            principal
          ≡ ok row')
  unfolding apply_first_upload require_session wrong_owner
  still_seen sessions sid now principal row found =
      let (there, own) = require_session-eq_ok sessions sid principal row found in
      elim (Bool-cases (is_created row.status)) [
        | inl fresh ↦ rw fresh (
            let row' = (apply_first_upload now row).1 in
            (
              record row { status = in_progress; updated_at = now },
              (ground (
                arith,
                get-put sessions sid sid (record row { status = in_progress; updated_at = now }),
                own,
              )),
            ))
        | inr old ↦ rw old (row, found)
      ]

module _ {Json Q : Type 0} (service : Service Q) where
  pub save_file-Holds :
      (now path : ℕ) (digest content_type : String) (content : Bytes) (w : World Json Q)
      → get w.disk path ≡ some content
      → Keyed w.blobs (object_key digest content_type) content
      → (blobs : Blobs) × (save_file service now path digest content_type w
          ≡ (ok (object_key digest content_type), record w { blobs = blobs }))
        × Holds blobs (object_key digest content_type) content
  unfolding save_file is_file
  save_file-Holds now path digest content_type content w file keyed =
      let key = object_key digest content_type in
      let source : Blob = new_blob content now in
      elim (Option-cases (get w.blobs key)) [
        | inl new ↦
            rw (new, file)
              (let stored =
                  save_spool_file-Holds service.links source digest content_type now w.blobs
                    keyed in
                (
                  (save_spool_file service.links source digest content_type now w.blobs).1,
                  ap
                      (λ k. (
                        ok k,
                        record w {
                          blobs =
                              (save_spool_file service.links source digest content_type now
                                w.blobs).1;
                        },
                      ))
                      stored.0,
                  stored.1,
                ))
        | inr (b, there) ↦ rw there (w.blobs, refl, (b, there, keyed b there))
      ]
