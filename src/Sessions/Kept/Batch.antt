-- ===== src/Sessions/Kept/Batch.antt =====
-- A batch of one spooled upload, from its checks to the rows that it inserts.
use pixeldive.Prelude.{
  string_eq, nat_eq, ℕ, String, ◌≡◌, refl, ap, ◌∙◌, Option, some, List, [], ◌∷◌,
}
use mathlib.Core.Path.{subst}
use pixeldive.Prelude.Dict.{get}
use pixeldive.Errors.{ok, Result, err, Error}
use pixeldive.Blobs.Spool.{Bytes}
use pixeldive.Blobs.Store.{object_key}
use pixeldive.Blobs.Validate.{normalize_content_type}
use pixeldive.Sessions.Model.{World, Service, Session, SessionImage}
use pixeldive.Sessions.Uploads.{Upload, sum_sizes, discard_all}
use pixeldive.Sessions.Ingest.{
  commit_batch, ingest, add_images_batch, add_image, and_discard, first_of,
}
use pixeldive.Quota.Tenant.{Principal}
use pixeldive.Sessions.Rows.{require_session}
use pixeldive.Exec.{continue_ok, ◌>>=◌, ◌>>◌, lift, gets, on_error}
use pixeldive.Sessions.Service.{on_quota}
use pixeldive.Sessions.Checked.{validated, validate_all_one}
use pixeldive.Sessions.Kept.{Keyed, Kept}
use pixeldive.Sessions.Kept.Committed.{no_error, quota_ok, committed}

module _ {Json Q : Type 0} (service : Service Q) where
  -- A batch that passes its checks, the quota and the look-up of its session is committed.
  reserved :
      (ids : ℕ → ℕ) (now sid : ℕ) (principal : Option Principal) (checks : List (Upload Json × ℕ))
      (images : List (SessionImage Json)) (w w' : World Json Q)
      → (do
        on_quota (service.tenant.hit principal)
        sessions ← gets (λ w. w.sessions)
        row ← lift (require_session sessions sid principal)
        on_quota (service.tenant.reserve_bytes principal sid (sum_sizes checks))
        on_error
            (commit_batch service ids now sid checks principal)
            (λ e. on_quota (service.tenant.release_bytes principal sid (sum_sizes checks))))
          w
        ≡ (ok images, w')
      → (q : Q) × (commit_batch service ids now sid checks principal (record w { quota = q })
          ≡ (ok images, w'))
  reserved ids now sid principal checks images w w' h =
      let h1 = quota_ok (service.tenant.hit principal w.quota) _ w h in
      let (row, found, h2) =
        continue_ok _ (require_session w.sessions sid principal)
          (record w { quota = (service.tenant.hit principal w.quota).1 }) h1 in
      let q = (service.tenant.hit principal w.quota).1 in
      let refund =
        λ (e : Error). on_quota (service.tenant.release_bytes principal sid (sum_sizes checks)) in
      let commit = commit_batch service ids now sid checks principal in
      let reserve = service.tenant.reserve_bytes principal sid (sum_sizes checks) q in
      let h3 = quota_ok reserve (on_error commit refund) (record w { quota = q }) h2 in
      (reserve.1, no_error refund (commit (record w { quota = reserve.1 })) h3)

  ingested :
      (ids : ℕ → ℕ) (now sid path : ℕ) (principal : Option Principal) (u : Upload Json)
      (digest : String) (content : Bytes) (images : List (SessionImage Json)) (w w' : World Json Q)
      → ((row : Session Json) → get w.sessions sid ≡ some row → row.id ≡ sid)
      → u.spool_path ≡ some path
      → u.digest_hex ≡ some digest
      → get w.disk path ≡ some content
      → Keyed w.blobs
          (object_key digest (normalize_content_type service.texts u.content_type))
          content
      → ingest service ids now sid (u ∷ []) principal w ≡ (ok images, w')
      → (image : SessionImage Json) × (images ≡ image ∷ [])
        × Kept w' sid (ids 0) principal content image
  unfolding ingest
  ingested ids now sid path principal u digest content images w w' named spooled digested file keyed
        h =
      let (checks, passed, h1) = continue_ok _ _ w h in
      let (u', valid, one) =
        validate_all_one service.texts service.settings.max_image_bytes w.disk u checks passed in
      let (spool, digest', counted, normal) =
        validated service.texts service.settings.max_image_bytes w.disk u u' path content spooled
          file valid in
      let (q, done) = reserved ids now sid principal checks images w w' h1 in
      committed service ids now sid path principal u' digest content images (record w { quota = q })
        w' named spool (digest' ∙ digested) file counted (rw normal keyed)
        (subst
          (λ c.
            commit_batch service ids now sid c principal (record w { quota = q }) ≡ (ok images, w'))
          one done)

  first_of-Kept :
      (sid id : ℕ) (principal : Option Principal) (content : Bytes) (uploads : List (Upload Json))
      (image : SessionImage Json) (w' : World Json Q)
      (out : Result (List (SessionImage Json)) × World Json Q)
      → ((images : List (SessionImage Json))
          → out ≡ (ok images, out.1)
          → (i : SessionImage Json) × (images ≡ i ∷ []) × Kept out.1 sid id principal content i)
      → first_of service (and_discard service uploads out) ≡ (ok image, w')
      → Kept w' sid id principal content image
  first_of-Kept sid id principal content uploads image w' (ok [], w) kept h = cc
  first_of-Kept sid id principal content uploads image w' (ok (i ∷ rest), w) kept h =
      let (i', one, k) = kept (i ∷ rest) refl in
      let undisked : Kept (record w { disk = discard_all uploads w.disk }) sid id principal content
          i' =
        record {
          there = k.there;
          keyed = k.keyed;
          of_session = k.of_session;
          sized = k.sized;
          seen = k.seen;
          stored = k.stored;
        } in
      let same : i' ≡ image = cc (one, h) in
      subst (λ x. Kept x sid id principal content image) (ap (λ p. p.1) h)
        (subst
          (λ x. Kept (record w { disk = discard_all uploads w.disk }) sid id principal content x)
          same undisked)
  first_of-Kept sid id principal content uploads image w' (err e, w) kept h = cc

  -- An upload of a spooled file that is answered with an image leaves that image.
  pub add_image-Kept :
      (ids : ℕ → ℕ) (now sid path : ℕ) (principal : Option Principal) (u : Upload Json)
      (digest : String) (content : Bytes) (image : SessionImage Json) (w w' : World Json Q)
      → ((row : Session Json) → get w.sessions sid ≡ some row → row.id ≡ sid)
      → u.spool_path ≡ some path
      → u.digest_hex ≡ some digest
      → get w.disk path ≡ some content
      → Keyed w.blobs
          (object_key digest (normalize_content_type service.texts u.content_type))
          content
      → add_image service ids now sid u principal w ≡ (ok image, w')
      → Kept w' sid (ids 0) principal content image
  unfolding add_image add_images_batch
  add_image-Kept ids now sid path principal u digest content image w w' named spooled digested file
        keyed h =
      let out = ingest service ids now sid (u ∷ []) principal w in
      first_of-Kept sid (ids 0) principal content (u ∷ []) image w' out
        (λ images e.
          ingested ids now sid path principal u digest content images w out.1 named spooled digested
            file keyed e)
        h
