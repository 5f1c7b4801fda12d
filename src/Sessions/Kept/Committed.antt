-- ===== src/Sessions/Kept/Committed.antt =====
-- The commit of a batch of one spooled upload: the rows that it inserts.
use pixeldive.Prelude.{
  string_eq, nat_eq, ℕ, String, ◌≡◌, refl, ap, Option, some, List, [], ◌∷◌, arith, if◌then◌else◌,
  ==_iff, length,
}
use mathlib.Core.Path.{subst}
use pixeldive.Prelude.Dict.{get, put, get-put}
use pixeldive.Errors.{ok, Result, err, Error}
use pixeldive.Blobs.Spool.{Bytes}
use pixeldive.Blobs.Store.{object_key}
use pixeldive.Sessions.Model.{World, Service, Session, SessionImage}
use pixeldive.Sessions.Uploads.{Upload, apply_first_upload, new_image, new_images, add_all}
use pixeldive.Sessions.Ingest.{save_file, insert_rows, persist_upload, persist_all, commit_batch}
use pixeldive.Quota.Tenant.{Principal}
use pixeldive.Sessions.Rows.{require_session}
use pixeldive.Exec.{continue_ok, Exec, continue, on_error_after, raise_again}
use pixeldive.Sessions.Kept.{Keyed, Holds, Kept, require_session-eq_ok, still_seen, save_file-Holds}

not_raised :
    {A S : Type 0} (e : Error) (out : Result (Unit {0}) × S) {a : A} {s : S}
    → ¬ (raise_again e out ≡ (ok a, s))
not_raised e (ok u, s') h = cc
not_raised e (err new, s') h = cc

pub no_error :
    {A S : Type 0} (handler : Error → Exec S (Unit {0})) (out : Result A × S) {a : A} {s : S}
    → on_error_after handler out ≡ (ok a, s)
    → out ≡ (ok a, s)
no_error handler (ok a, s) h = h
no_error handler (err e, s) h = absurd (not_raised e (handler e s) h)

pub quota_ok :
    {Json Q B : Type 0} (out : Result (Unit {0}) × Q) (rest : Exec (World Json Q) B)
    (w : World Json Q) {b : B} {w' : World Json Q}
    → continue (λ _. rest) (out.0, record w { quota = out.1 }) ≡ (ok b, w')
    → rest (record w { quota = out.1 }) ≡ (ok b, w')
quota_ok (ok u, q) rest w h = h
quota_ok (err e, q) rest w h = cc

module _ {Json Q : Type 0} (service : Service Q) where
  -- The world once the rows of one image are in.
  abbrev with_row :
      (ℕ → ℕ) → ℕ → ℕ → Session Json → Upload Json → String → World Json Q → World Json Q
  with_row ids now sid row u key w =
      let image = new_image (ids 0) now row u u.size_bytes key in
      record w {
        images = put w.images image.id image;
        sessions =
            if (apply_first_upload now row).0
            then put w.sessions sid (apply_first_upload now row).1
            else w.sessions;
      }

  inserted_for :
      (ids : ℕ → ℕ) (now sid : ℕ) (principal : Option Principal) (u : Upload Json) (key : String)
      (content : Bytes) (row : Session Json) (w : World Json Q)
      → get w.sessions sid ≡ some row
      → row.id ≡ sid
      → require_session w.sessions sid principal ≡ ok row
      → Holds w.blobs key content
      → u.size_bytes ≡ length content
      → Kept
          (with_row ids now sid row u key w)
          sid
          (ids 0)
          principal
          content
          (new_image (ids 0) now row u u.size_bytes key)
  unfolding new_image
  inserted_for ids now sid principal u key content row w there named found holds counted = record {
    there = ground (
      arith,
      get-put w.images (ids 0) (ids 0) (new_image (ids 0) now row u u.size_bytes key),
      ==_iff (ids 0) (ids 0),
    );
    keyed = refl;
    of_session = named;
    sized = counted;
    seen = still_seen w.sessions sid now principal row found;
    stored = holds;
  }

  inserted :
      (ids : ℕ → ℕ) (now sid : ℕ) (principal : Option Principal) (u : Upload Json) (key : String)
      (content : Bytes) (images : List (SessionImage Json)) (w w' : World Json Q)
      → ((row : Session Json) → get w.sessions sid ≡ some row → row.id ≡ sid)
      → Holds w.blobs key content
      → u.size_bytes ≡ length content
      → insert_rows service ids now sid principal ((u, u.size_bytes, key) ∷ []) w ≡ (ok images, w')
      → (image : SessionImage Json) × (images ≡ image ∷ [])
        × Kept w' sid (ids 0) principal content image
  unfolding new_images add_all
  inserted ids now sid principal u key content images w w' named holds counted h =
      let (row, found, done) = continue_ok _ (require_session w.sessions sid principal) w h in
      let there = (require_session-eq_ok w.sessions sid principal row found).0 in
      let kept =
        inserted_for ids now sid principal u key content row w there (named row there) found holds
          counted in
      let same : ◌≡◌ {A = Result (List (SessionImage Json)) × World Json Q}
          (ok (new_image (ids 0) now row u u.size_bytes key ∷ []), with_row ids now sid row u key w)
          (ok images, w') =
        done in
      (
        new_image (ids 0) now row u u.size_bytes key,
        cc same,
        subst
            (λ x.
              Kept x sid (ids 0) principal content (new_image (ids 0) now row u u.size_bytes key))
            (ap (λ p. p.1) same) kept,
      )

  persisted :
      (now path : ℕ) (u : Upload Json) (digest : String) (out : Result String × World Json Q)
      (w : World Json Q)
      → u.spool_path ≡ some path
      → u.digest_hex ≡ some digest
      → save_file service now path digest u.content_type w ≡ out
      → persist_upload service now u w ≡ out
  unfolding persist_upload
  persisted now path u digest out w spooled digested saved = simp (spooled, digested) saved

  pub committed :
      (ids : ℕ → ℕ) (now sid path : ℕ) (principal : Option Principal) (u : Upload Json)
      (digest : String) (content : Bytes) (images : List (SessionImage Json)) (w w' : World Json Q)
      → ((row : Session Json) → get w.sessions sid ≡ some row → row.id ≡ sid)
      → u.spool_path ≡ some path
      → u.digest_hex ≡ some digest
      → get w.disk path ≡ some content
      → u.size_bytes ≡ length content
      → Keyed w.blobs (object_key digest u.content_type) content
      → commit_batch service ids now sid ((u, u.size_bytes) ∷ []) principal w ≡ (ok images, w')
      → (image : SessionImage Json) × (images ≡ image ∷ [])
        × Kept w' sid (ids 0) principal content image
  unfolding commit_batch persist_all
  committed ids now sid path principal u digest content images w w' named spooled digested file
        counted keyed h =
      let (blobs, saved, holds) =
        save_file-Holds service now path digest u.content_type content w file keyed in
      let out : Result String × World Json Q =
        (ok (object_key digest u.content_type), record w { blobs = blobs }) in
      inserted ids now sid principal u (object_key digest u.content_type) content images
        (record w { blobs = blobs }) w' named holds counted
        (rw (persisted now path u digest out w spooled digested saved) at h)
