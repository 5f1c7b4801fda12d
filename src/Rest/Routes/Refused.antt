-- ===== src/Rest/Routes/Refused.antt =====
-- How the routes answer when they do not succeed.
use pixeldive.Prelude.{string_eq, ℕ, String, ◌≡◌, refl, Option, none, some}
use pixeldive.Errors.{Result, ok, err, Error}
use pixeldive.Errors.Status.{TransportStatus, error_status, http_status}
use pixeldive.Exec.{Exec, continue}
use pixeldive.Quota.Tenant.{Principal}
use pixeldive.Sessions.Model.{World}
use pixeldive.Rest.Messages.{
  Response, refused, crashed, refused_with, error_response, Request, creating, listing, getting,
  updating, deleting, uploading, uploading_batch, listing_images, downloading,
}
use pixeldive.Rest.Routes.{
  App, current_principal, responded, route, create_session_route, list_sessions_route,
  get_session_route, update_session_route, delete_session_route, upload_image_route,
  upload_images_batch_route, list_images_route, download_image_route, bodiless, respond,
}
use pixeldive.Auth.Refusal.{authenticate-eq_err}

module _ {Json Q : Type 0} (app : App Json Q) where
  -- A refused caller gets 401 and changes nothing, and an error of the table has its status.
  abbrev pub Guarded : Option String → World Json Q → Response (Unit {0}) × World Json Q → Type 0
  Guarded header w out =
      ((e : Error) → current_principal app header ≡ err e → out ≡ (refused 401, w))
      × ((e : Error) → out.0 ≡ crashed e → error_status e ≡ none)

  refusal :
      (header : Option String) (e : Error)
      → current_principal app header ≡ err e
      → e ≡ Error.unauthenticated
  unfolding current_principal
  refusal header e h =
      authenticate-eq_err app.service.texts app.encode app.auth_required app.keys header e h

  mapped :
      (A : Type 0) (x e : Error) (w : World Json Q) (status : Option TransportStatus)
      → error_status x ≡ status
      → (bodiless app (
        refused_with {A = A} x
            (elim status as (λ s. Option ℕ) [ none ↦ none | some s ↦ some s.http ]),
        w,
      )).0
        ≡ crashed e
      → error_status e ≡ none
  mapped A x e w none h q = let same : x ≡ e = cc q in rw (← same) h
  mapped A x e w (some s) h q = absurd (cc q)

  ended :
      {A : Type 0} (code : ℕ) (p : Result A × World Json Q) (e : Error)
      → (bodiless app (responded app code p)).0 ≡ crashed e
      → error_status e ≡ none
  unfolding error_response http_status
  ended code (ok a, w) e h = absurd (cc h)
  ended {A} code (err x, w) e h = mapped A x e w (error_status x) refl h

  routed :
      {A : Type 0} (code : ℕ) (header : Option String)
      (work : Option Principal → Exec (World Json Q) A) (w : World Json Q)
      → Guarded header w (bodiless app (route app code header work w))
  unfolding route error_response http_status error_status
  routed code header work w = (
    λ e h. rw (h, refusal header e h) refl,
    λ e h. ended code (continue work (current_principal app header, w)) e h,
  )

  -- For every route: where the caller's token is refused, the answer is 401 and nothing changes,
  -- neither tables nor blobs, spool files or quota; and an error that leaves a route without a response
  -- is none of the error table.
  pub respond-Guarded :
      (request : Request Json) (header : Option String) (w : World Json Q)
      → Guarded header w (respond app request header w)
  unfolding respond create_session_route list_sessions_route get_session_route update_session_route
      delete_session_route upload_image_route upload_images_batch_route list_images_route
      download_image_route
  respond-Guarded (creating sid now payload) header w = routed 201 header _ w
  respond-Guarded (listing limit cursor) header w = routed 200 header _ w
  respond-Guarded (getting sid) header w = routed 200 header _ w
  respond-Guarded (updating now sid payload) header w = routed 200 header _ w
  respond-Guarded (deleting now sid) header w = routed 204 header _ w
  respond-Guarded (uploading ids now path sid file metadata) header w = routed 201 header _ w
  respond-Guarded (uploading_batch ids now path sid files metadata) header w = routed 201 header _ w
  respond-Guarded (listing_images sid limit cursor) header w = routed 200 header _ w
  respond-Guarded (downloading sid image_id) header w = routed 200 header _ w
