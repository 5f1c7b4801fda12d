-- ===== src/Sessions/Listing.antt =====
-- app/sessions/session_list.py. What the database's ORDER BY does is a parameter.
use pixeldive.Prelude.{
  string_eq, nat_eq, ℕ, String, Bool, true, false, not, Option, List, map, keep,
}
use pixeldive.Exec.{Exec, gets, lift, ◌>>=◌, ◌>>◌}
use pixeldive.Pagination.{Key, CursorCodec, Page, clamp_limit, list_page}
use pixeldive.Quota.Tenant.{Principal}
use pixeldive.Sessions.Model.{Session, SessionImage, World, Service}
use pixeldive.Sessions.Rows.{require_session, wrong_owner, images_of}
use pixeldive.Sessions.Service.{on_quota}

module _ {Json Q : Type 0} (service : Service Q) (codec : CursorCodec)
    (order_by : (A : Type 0) → (A → Key) → Bool → List A → List A) where
  open service use {settings, tenant}

  abbrev pub session_key : Session Json → Key
  session_key row = (row.created_at, row.id)

  abbrev pub image_key : SessionImage Json → Key
  image_key row = (row.uploaded_at, row.id)

  unfoldable pub list_sessions :
      Option ℕ → Option String → Option Principal → Exec (World Json Q) (Page (Session Json))
  unfolding clamp_limit wrong_owner list_page
  list_sessions limit cursor principal = do
    on_quota (tenant.hit principal)
    let page_size = clamp_limit limit settings.list_default_limit settings.list_max_limit
    rows ← gets (λ w. keep (λ row. not (wrong_owner row principal)) (map (λ r. r.1) w.sessions))
    lift (
        list_page session_key codec true (order_by (Session Json) session_key true rows) page_size
          cursor)

  unfoldable pub list_images :
      ℕ
      → Option ℕ
      → Option String
      → Option Principal
      → Exec (World Json Q) (Page (SessionImage Json))
  unfolding clamp_limit require_session images_of list_page
  list_images sid limit cursor principal = do
    on_quota (tenant.hit principal)
    let page_size = clamp_limit limit settings.list_default_limit settings.list_max_limit
    sessions ← gets (λ w. w.sessions)
    row ← lift (require_session sessions sid principal)
    rows ← gets (λ w. map (λ r. r.1) (images_of sid w.images))
    lift (
        list_page image_key codec false (order_by (SessionImage Json) image_key false rows)
          page_size cursor)
