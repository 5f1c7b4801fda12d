-- ===== src/Sessions/Reach/Batch.antt =====
-- A batch keeps the world whole: rows go in only after the blobs are there.
use pixeldive.Prelude.{
  string_eq, nat_eq, ℕ, String, ◌≡◌, refl, inl, inr, Bool, true, Option, some, List, if◌then◌else◌,
  Bool-cases,
}
use pixeldive.Sessions.Reach.Steps.{Whole, required, continue-Whole, lifted}
use pixeldive.Prelude.Dict.{get, put}
use pixeldive.Errors.{Result, ok, err, Error}
use pixeldive.Exec.{Exec, on_error_after, raise_again}
use pixeldive.Quota.Tenant.{Principal}
use pixeldive.Sessions.Model.{Session, World, Service}
use pixeldive.Sessions.Rows.{require_session}
use pixeldive.Sessions.Uploads.{
  Upload, new_images, add_all, apply_first_upload, validate_all, sum_sizes, reject_bad_batch,
  is_created,
}
use pixeldive.Sessions.Ingest.{
  persist_all, commit_batch, ingest, insert_stored, add_images_batch, and_discard, after_guard,
}
use pixeldive.Sessions.Service.{on_quota}
use pixeldive.Blobs.Store.{is_some}
use pixeldive.Sessions.Stored.{persist_all-Stores, AllPresent, Stores}
use pixeldive.Sessions.Integrity.{
  IsWhole, put_session-IsWhole, grow-IsWhole, add_all-Placed, new_images-Placed,
}

module _ {Json Q : Type 0} (service : Service Q) where
  rows-Whole :
      (ids : ℕ → ℕ) (now sid : ℕ) (row : Session Json) (stored : List (Upload Json × ℕ × String))
      (w : World Json Q)
      → Whole w
      → row.id ≡ sid
      → get w.sessions sid ≡ some row
      → AllPresent w.blobs stored
      → IsWhole
          (if (apply_first_upload now row).0
            then put w.sessions sid (apply_first_upload now row).1
            else w.sessions)
          (add_all (new_images ids now row stored) w.images)
          w.blobs
  unfolding apply_first_upload
  rows-Whole ids now sid row stored w h key found files =
      let there : is_some (get w.sessions row.id) ≡ true = rw (key, found) refl in
      let added : IsWhole w.sessions (add_all (new_images ids now row stored) w.images) w.blobs =
        record {
          keyed = h.keyed;
          placed =
              add_all-Placed w.sessions w.blobs (new_images ids now row stored) w.images
                (new_images-Placed w.sessions w.blobs ids now row stored there files) h.placed;
        } in
      elim (Bool-cases (is_created row.status)) [
        | inl first ↦ rw first (put_session-IsWhole w.sessions _ w.blobs sid _ key added)
        | inr later ↦ rw later added
      ]

  -- The rows go in after the saves.
  stored-Whole :
      (ids : ℕ → ℕ) (now sid : ℕ) (principal : Option Principal) (w : World Json Q)
      (out : Result (List (Upload Json × ℕ × String)) × World Json Q)
      → Whole w
      → Stores AllPresent w out
      → Whole (insert_stored service ids now sid principal out).1
  unfolding apply_first_upload
  stored-Whole ids now sid principal w (err e, w') h st =
      rw (st.0, st.1) (grow-IsWhole w.sessions w.images w.blobs w'.blobs st.2 h)
  stored-Whole ids now sid principal w (ok stored, w') h st =
      let h' : Whole w' =
        rw (st.0, st.1) (grow-IsWhole w.sessions w.images w.blobs w'.blobs st.2 h) in
      lifted service (require_session w'.sessions sid principal) _ w' h' (λ row found.
        rows-Whole ids now sid row stored w' h'
          (h'.keyed sid row (required service w'.sessions sid principal row found))
          (required service w'.sessions sid principal row found) st.3)

  raised_again :
      (A : Type 0) (e : Error) (out : Result (Unit {0}) × World Json Q)
      → Whole out.1
      → Whole (raise_again {A = A} e out).1
  raised_again A e (ok u, w) h = h
  raised_again A e (err new, w) h = h

  -- A failure that gives the bytes back.
  undone :
      {A : Type 0}
      → (out : Result A × World Json Q) (release : Exec Q (Unit {0})) → Whole out.1
      → Whole (on_error_after (λ e. on_quota release) out).1
  undone (ok a, w) release h = h
  undone (err e, w) release h = raised_again _ e (on_quota release w) h

  commit-Whole :
      (ids : ℕ → ℕ) (now sid : ℕ) (uploads : List (Upload Json × ℕ)) (principal : Option Principal)
      (w : World Json Q)
      → Whole w
      → Whole (commit_batch service ids now sid uploads principal w).1
  unfolding commit_batch
  commit-Whole ids now sid uploads principal w h =
      stored-Whole ids now sid principal w (persist_all service now uploads w) h
        (persist_all-Stores service now uploads w)

  ingest-Whole :
      (ids : ℕ → ℕ) (now sid : ℕ) (uploads : List (Upload Json)) (principal : Option Principal)
      (w : World Json Q)
      → Whole w
      → Whole (ingest service ids now sid uploads principal w).1
  unfolding ingest
  ingest-Whole ids now sid uploads principal w h =
      lifted service (validate_all service.texts service.settings.max_image_bytes w.disk uploads) _
        w h
        (λ checked valid.
          continue-Whole service _ (on_quota (service.tenant.hit principal) w) h (λ u w' h'.
            lifted service (require_session w'.sessions sid principal) _ w' h' (λ row found.
              continue-Whole service _
                (on_quota (service.tenant.reserve_bytes principal sid (sum_sizes checked)) w') h'
                (λ u w'' h''.
                  undone (commit_batch service ids now sid checked principal w'')
                    (service.tenant.release_bytes principal sid (sum_sizes checked))
                    (commit-Whole ids now sid checked principal w'' h'')))))

  discarded :
      {A : Type 0}
      → (uploads : List (Upload Json)) (out : Result A × World Json Q) → Whole out.1
      → Whole (and_discard service uploads out).1
  discarded uploads (r, w) h = record { keyed = h.keyed; placed = h.placed }

  guarded :
      {A : Type 0}
      → (r : Result (Unit {0})) (m : Exec (World Json Q) A) (w : World Json Q) → Whole w
      → Whole (m w).1
      → Whole (after_guard service r m w).1
  guarded (ok u) m w h next = next
  guarded (err e) m w h next = h

  pub add-Whole :
      (bounded : Bool) (ids : ℕ → ℕ) (now sid : ℕ) (uploads : List (Upload Json))
      (principal : Option Principal) (w : World Json Q)
      → Whole w
      → Whole (add_images_batch service bounded ids now sid uploads principal w).1
  unfolding add_images_batch
  add-Whole bounded ids now sid uploads principal w h =
      guarded
        (if bounded then reject_bad_batch uploads service.settings.max_batch_images else ok tt)
        (λ w. and_discard service uploads (ingest service ids now sid uploads principal w)) w h
        (discarded uploads (ingest service ids now sid uploads principal w)
          (ingest-Whole ids now sid uploads principal w h))
