-- ===== src/Sessions/Isolation.antt =====
-- A caller and the sessions of others.
use pixeldive.Prelude.{
  string_eq, nat_eq, ℕ, ◌≡◌, refl, Bool, true, false, not, Option, none, some, List, arith,
  if◌then◌else◌, ◌=?◌,
}
use pixeldive.Prelude.Dict.{get, Dict}
use pixeldive.Errors.{Result, ok, err, Error, is_ok}
use pixeldive.Exec.{Exec, continue}
use pixeldive.Quota.Tenant.{Principal}
use pixeldive.Sessions.Model.{World, Service, Session}
use pixeldive.Sessions.Rows.{wrong_owner, require_session}
use pixeldive.Sessions.Uploads.{Upload, validate_all, reject_bad_batch}
use pixeldive.Sessions.Ingest.{add_images_batch, ingest, and_discard, after_guard}
use pixeldive.Sessions.Service.{get_session, update_session, delete_session, get_image}
use pixeldive.Sessions.Requests.{
  Request, respond, target, creating, getting, updating, deleting, fetching, adding,
}

module _ {Json Q : Type 0} where
  -- A run that raises, and leaves the tables and the blobs as they are.
  abbrev pub Refused : {A : Type 0} → World Json Q → Result A × World Json Q → Type 0
  Refused w out =
      (is_ok out.0 ≡ false)
      × (out.1.sessions ≡ w.sessions)
      × (out.1.images ≡ w.images)
      × (out.1.blobs ≡ w.blobs)

  after_quota :
      {A : Type 0}
      → (f : Unit {0} → Exec (World Json Q) A) (out : Result (Unit {0}) × Q) (w : World Json Q)
      → ((q : Q) → Refused w (f tt (record w { quota = q })))
      → Refused w (continue f (out.0, record w { quota = out.1 }))
  after_quota f (ok u, q) w h = h q
  after_quota f (err e, q) w h = (refl, refl, refl, refl)

  after_lift :
      {A B : Type 0}
      → (f : A → Exec (World Json Q) B) (r : Result A) (w : World Json Q) (q : Q)
      → ((a : A) → r ≡ ok a → Refused w (f a (record w { quota = q })))
      → Refused w (continue f (r, record w { quota = q }))
  after_lift f (ok a) w q h = h a refl
  after_lift f (err e) w q h = (refl, refl, refl, refl)

module _ {Json Q : Type 0} (service : Service Q) (w : World Json Q) (sid : ℕ)
    (principal : Option Principal) (e : Error)
    (hidden : require_session w.sessions sid principal ≡ err e) where
  not_found :
      {B : Type 0}
      → (f : Session Json → Exec (World Json Q) B) (q : Q)
      → Refused w (continue f (require_session w.sessions sid principal, record w { quota = q }))
  not_found f q = rw hidden (refl, refl, refl, refl)

  ingest-Refused :
      (ids : ℕ → ℕ) (now : ℕ) (uploads : List (Upload Json))
      → Refused w (ingest service ids now sid uploads principal w)
  unfolding ingest
  ingest-Refused ids now uploads =
      after_lift _ (validate_all service.texts service.settings.max_image_bytes w.disk uploads) w
        w.quota
        (λ checked valid.
          after_quota _ (service.tenant.hit principal w.quota) w (λ q. not_found _ q))

  after_discard :
      {A : Type 0}
      → (uploads : List (Upload Json)) (out : Result A × World Json Q) → Refused w out
      → Refused w (and_discard service uploads out)
  after_discard uploads (r, w') h = h

  guard-Refused :
      {A : Type 0}
      → (r : Result (Unit {0})) (m : Exec (World Json Q) A) → Refused w (m w)
      → Refused w (after_guard service r m w)
  guard-Refused (ok u) m h = h
  guard-Refused (err e) m h = (refl, refl, refl, refl)

error_of : {A : Type 0} → (r : Result A) → is_ok r ≡ false → (e : Error) × (r ≡ err e)
error_of (ok a) h = cc
error_of (err e) h = (e, refl)

-- An authenticated caller sees the sessions that carry its own owner id; without authentication a
-- caller sees every session.
unfoldable pub may_see : {Json : Type 0} → Session Json → Option Principal → Bool
may_see row none = true
may_see row (some p) = elim row.owner_id [ none ↦ false | some owner ↦ owner =? p.owner_id ]

unfoldable pub hides : {Json : Type 0} → Option (Session Json) → Option Principal → Bool
hides none principal = true
hides (some row) principal = not (may_see row principal)

hides-require_session :
    {Json : Type 0} (sessions : Dict ℕ (Session Json)) (sid : ℕ) (principal : Option Principal)
    → hides (get sessions sid) principal ≡ true
    → is_ok (require_session sessions sid principal) ≡ false
unfolding hides may_see require_session wrong_owner
hides-require_session sessions sid none h = ground arith
hides-require_session sessions sid (some p) h = ground (arith, h)

module _ {Json Q : Type 0} (service : Service Q) where
  -- Whether the session that a request names is missing or belongs to another owner.
  unfoldable pub is_hidden : Request Json → World Json Q → Bool
  unfolding hides may_see
  is_hidden r w = elim (target r) [ none ↦ false | some t ↦ hides (get w.sessions t.0) t.1 ]

  -- For each request of `Requests`, which are all calls but the lists and the stream of an image:
  -- when the session that a request names does not exist, or its owner is not the caller, the
  -- request fails, and no session, no image row and no blob changes.
  pub respond_refused :
      (r : Request Json) (w : World Json Q)
      → is_hidden r w ≡ true
      → ((respond service r w).0 ≡ false)
        × ((respond service r w).1.sessions ≡ w.sessions)
        × ((respond service r w).1.images ≡ w.images)
        × ((respond service r w).1.blobs ≡ w.blobs)
  unfolding respond get_session update_session delete_session get_image add_images_batch is_hidden
  respond_refused (creating sid now payload principal) w h = cc
  respond_refused (getting sid principal) w h =
      let (e, hidden) =
        error_of (require_session w.sessions sid principal)
          (hides-require_session w.sessions sid principal h) in
      after_quota _ (service.tenant.hit principal w.quota) w
        (λ q. rw hidden (refl, refl, refl, refl))
  respond_refused (updating now sid patch principal) w h =
      let (e, hidden) =
        error_of (require_session w.sessions sid principal)
          (hides-require_session w.sessions sid principal h) in
      after_quota _ (service.tenant.hit principal w.quota) w
        (λ q. not_found service w sid principal e hidden _ q)
  respond_refused (deleting now sid principal) w h =
      let (e, hidden) =
        error_of (require_session w.sessions sid principal)
          (hides-require_session w.sessions sid principal h) in
      after_quota _ (service.tenant.hit principal w.quota) w
        (λ q. not_found service w sid principal e hidden _ q)
  respond_refused (fetching sid image principal) w h =
      let (e, hidden) =
        error_of (require_session w.sessions sid principal)
          (hides-require_session w.sessions sid principal h) in
      after_quota _ (service.tenant.hit principal w.quota) w
        (λ q. not_found service w sid principal e hidden _ q)
  respond_refused (adding bounded ids now sid uploads principal) w h =
      let (e, hidden) =
        error_of (require_session w.sessions sid principal)
          (hides-require_session w.sessions sid principal h) in
      guard-Refused service w sid principal e hidden
        (if bounded then reject_bad_batch uploads service.settings.max_batch_images else ok tt) _
        (after_discard service w sid principal e hidden uploads
          (ingest service ids now sid uploads principal w)
          (ingest-Refused service w sid principal e hidden ids now uploads))
