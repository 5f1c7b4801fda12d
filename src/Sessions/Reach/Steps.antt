-- ===== src/Sessions/Reach/Steps.antt =====
-- Each request on one session keeps the world whole.
use pixeldive.Prelude.{string_eq, nat_eq, ℕ, ◌≡◌, refl, Option, some, arith}
use pixeldive.Prelude.Dict.{Dict, get, remove}
use pixeldive.Errors.{Result, ok, err}
use pixeldive.Exec.{Exec, continue}
use pixeldive.Quota.Tenant.{Principal}
use pixeldive.Sessions.Model.{Session, SessionCreate, SessionUpdate, World, Service}
use pixeldive.Sessions.Rows.{
  require_session, total_size, images_of, storage_paths, cascade, apply_update, new_session,
}
use pixeldive.Sessions.Service.{
  on_quota, create_session, get_session, update_session, delete_session, get_image,
}
use pixeldive.Sessions.Integrity.{
  IsWhole, put_session-IsWhole, gc_unreferenced-IsWhole, cascade-IsWhole,
}

module _ {Json Q : Type 0} where
  abbrev pub Whole : World Json Q → Type 0
  Whole w = IsWhole w.sessions w.images w.blobs

  -- A run that leaves the world whole, whether it answers or raises.
  abbrev pub EndsWhole : {A : Type 0} → Result A × World Json Q → Type 0
  EndsWhole out = Whole out.1

module _ {Json Q : Type 0} (service : Service Q) where
  pub required :
      (sessions : Dict ℕ (Session Json)) (sid : ℕ) (principal : Option Principal)
      (row : Session Json)
      → require_session sessions sid principal ≡ ok row
      → get sessions sid ≡ some row
  unfolding require_session
  required sessions sid principal row h = ground arith

  pub continue-Whole :
      {A B : Type 0}
      → (f : A → Exec (World Json Q) B) (out : Result A × World Json Q) → Whole out.1
      → ((a : A) (w : World Json Q) → Whole w → Whole (f a w).1)
      → Whole (continue f out).1
  continue-Whole f (ok a, w) h next = next a w h
  continue-Whole f (err e, w) h next = h

  pub lifted :
      {A B : Type 0}
      → (r : Result A) (f : A → Exec (World Json Q) B) (w : World Json Q) → Whole w
      → ((a : A) → r ≡ ok a → Whole (f a w).1)
      → Whole (continue f (r, w)).1
  lifted (ok a) f w h next = next a refl
  lifted (err e) f w h next = h

  pub create-Whole :
      (sid now : ℕ) (payload : SessionCreate Json) (principal : Option Principal) (w : World Json Q)
      → Whole w
      → Whole (create_session service sid now payload principal w).1
  unfolding create_session new_session
  create-Whole sid now payload principal w h =
      continue-Whole _ (on_quota (service.tenant.hit principal) w) h
        (λ u w' h'. put_session-IsWhole w'.sessions w'.images w'.blobs sid _ refl h')

  pub get-Whole :
      (sid : ℕ) (principal : Option Principal) (w : World Json Q)
      → Whole w
      → Whole (get_session service sid principal w).1
  unfolding get_session
  get-Whole sid principal w h =
      continue-Whole _ (on_quota (service.tenant.hit principal) w) h (λ u w' h'. h')

  pub update-Whole :
      (now sid : ℕ) (patch : SessionUpdate Json) (principal : Option Principal) (w : World Json Q)
      → Whole w
      → Whole (update_session service now sid patch principal w).1
  unfolding update_session apply_update
  update-Whole now sid patch principal w h =
      continue-Whole _ (on_quota (service.tenant.hit principal) w) h (λ u w' h'.
        lifted (require_session w'.sessions sid principal) _ w' h' (λ row found.
          put_session-IsWhole w'.sessions w'.images w'.blobs sid _
            (h'.keyed sid row (required w'.sessions sid principal row found)) h'))

  pub get_image-Whole :
      (sid image_id : ℕ) (principal : Option Principal) (w : World Json Q)
      → Whole w
      → Whole (get_image service sid image_id principal w).1
  unfolding get_image
  get_image-Whole sid image_id principal w h =
      continue-Whole _ (on_quota (service.tenant.hit principal) w) h
        (λ u w' h'. lifted (require_session w'.sessions sid principal) _ w' h' (λ row found. h'))

  pub delete-Whole :
      (now sid : ℕ) (principal : Option Principal) (w : World Json Q)
      → Whole w
      → Whole (delete_session service now sid principal w).1
  unfolding delete_session
  delete-Whole now sid principal w h =
      continue-Whole _ (on_quota (service.tenant.hit principal) w) h (λ u w' h'.
        lifted (require_session w'.sessions sid principal) _ w' h' (λ row found.
          let left = cascade-IsWhole w'.sessions w'.images w'.blobs sid h' in
          continue-Whole _
            (on_quota
              (service.tenant.release_bytes principal sid (total_size (images_of sid w'.images)))
              (record w' { sessions = remove w'.sessions sid; images = cascade sid w'.images }))
            left
            (λ u w'' h''.
              gc_unreferenced-IsWhole w''.sessions w''.images w''.blobs
                service.settings.gc_min_age_seconds now (storage_paths (images_of sid w'.images))
                h'')))
