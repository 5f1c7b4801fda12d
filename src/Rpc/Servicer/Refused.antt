-- ===== src/Rpc/Servicer/Refused.antt =====
-- How the calls of the gRPC service end when they do not succeed.
use pixeldive.Prelude.{string_eq, ◌≡◌, refl, inl, inr, false, Option, none, arith, Bool-cases}
use pixeldive.Errors.{Result, ok, err, Error, GrpcCode}
use pixeldive.Errors.Status.{error_status, abort_code}
use pixeldive.Auth.{metadata_authorization}
use pixeldive.Auth.Refusal.{authenticate-eq_err}
use pixeldive.Exec.{Exec, continue}
use pixeldive.Quota.Tenant.{Principal}
use pixeldive.Sessions.Model.{World}
use pixeldive.Rpc.Servicer.{
  Server, Rpc, serve, creating, getting, updating, deleting, listing, uploading, uploading_batch,
  listing_images, downloading, Metadata, run_unary, rpc_principal, is_mapped, aborted_with,
  or_abort, status_of_call, create_session_rpc, get_session_rpc, update_session_rpc,
  delete_session_rpc, list_sessions_rpc, upload_image_rpc, upload_images_batch_rpc,
  list_session_images_rpc, download_image_rpc,
}

aborted_once : (e : Error) → is_mapped (aborted_with e) ≡ false
unfolding aborted_with is_mapped error_status
aborted_once e = elim (Bool-cases (is_mapped e)) [
  | inl mapped ↦ rw mapped refl
  | inr raised ↦ rw raised raised
]

-- An error that has no status: the error table does not have it, and it is not pydantic's.
abbrev pub Unmapped : Error → Type 0
Unmapped e = (error_status e ≡ none) × ¬ (e ≡ Error.validation_error)

is_mapped-Unmapped : (e : Error) → is_mapped e ≡ false → Unmapped e
unfolding is_mapped error_status
is_mapped-Unmapped e h = (ground (arith, h), λ q. absurd (cc (rw q at h)))

module _ {Struct Json Q : Type 0} (server : Server Struct Json Q) where
  -- A refused caller changes nothing, and an error that ends a call has gone through the table.
  abbrev pub Guarded : Metadata → World Json Q → Result (Unit {0}) × World Json Q → Type 0
  Guarded metadata w out =
      ((e : Error)
        → rpc_principal server metadata ≡ err e
        → out ≡ (err (Error.rpc_aborted GrpcCode.unauthenticated), w))
      × ((e : Error) → out.0 ≡ err e → Unmapped e)

  ended :
      {A : Type 0} (p : Result A × World Json Q) (e : Error)
      → (status_of_call server (or_abort p)).0 ≡ err e
      → Unmapped e
  ended (ok a, w) e h = absurd (cc h)
  ended (err x, w) e h =
      let same : aborted_with x ≡ e = cc h in is_mapped-Unmapped e (rw (← same) (aborted_once x))

  refusal :
      (metadata : Metadata) (e : Error)
      → rpc_principal server metadata ≡ err e
      → aborted_with e ≡ Error.rpc_aborted GrpcCode.unauthenticated
  unfolding rpc_principal aborted_with is_mapped error_status abort_code
  refusal metadata e h =
      let same =
        authenticate-eq_err server.service.texts server.encode server.auth_required server.keys
          (metadata_authorization server.service.texts metadata) e h in
      rw same refl

  unary :
      {A : Type 0} (metadata : Metadata) (work : Option Principal → Exec (World Json Q) A)
      (w : World Json Q)
      → Guarded metadata w (status_of_call server (run_unary server metadata work w))
  unfolding run_unary
  unary metadata work w = (
    λ e h. rw (h, refusal metadata e h) refl,
    λ e h. ended (continue work (rpc_principal server metadata, w)) e h,
  )

  -- For every call of the service: where the caller's token is refused, the call ends with
  -- UNAUTHENTICATED and changes nothing, neither tables nor blobs, spool files or quota; and no call
  -- raises an error of the service as it is: each one that the error table or pydantic's rule knows
  -- has become a status.
  pub serve-Guarded :
      (rpc : Rpc Struct Json) (metadata : Metadata) (w : World Json Q)
      → Guarded metadata w (serve server rpc metadata w)
  unfolding serve create_session_rpc get_session_rpc update_session_rpc delete_session_rpc
      list_sessions_rpc upload_image_rpc upload_images_batch_rpc list_session_images_rpc
      download_image_rpc
  serve-Guarded (creating sid now request) metadata w = unary metadata _ w
  serve-Guarded (getting session_id) metadata w = unary metadata _ w
  serve-Guarded (updating now request) metadata w = unary metadata _ w
  serve-Guarded (deleting now session_id) metadata w = unary metadata _ w
  serve-Guarded (listing limit cursor) metadata w = unary metadata _ w
  serve-Guarded (uploading ids now path chunks) metadata w = unary metadata _ w
  serve-Guarded (uploading_batch ids now path chunks) metadata w = unary metadata _ w
  serve-Guarded (listing_images session_id limit cursor) metadata w = unary metadata _ w
  serve-Guarded (downloading session_id image_id) metadata w = unary metadata _ w
