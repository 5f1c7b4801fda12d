-- ===== src/Sessions/Stored.antt =====
-- The saves of a batch: what they leave in the blob store.
use pixeldive.Prelude.{
  string_eq, nat_eq, ℕ, String, ◌≡◌, refl, ◌∙◌, inl, inr, Bool, true, Option, none, some, List, [],
  ◌∷◌, arith, Bool-cases,
}
use text.Mathlib.TextEquality.{eq_iff}
use pixeldive.Prelude.Dict.{get, get-put}
use pixeldive.Prelude.All.{All}
use pixeldive.Errors.{Result, ok, err}
use pixeldive.Blobs.Store.{
  Blob, Blobs, is_file, save_atomic, save_payload, save_spool_file, try_link, object_key,
}
use pixeldive.Blobs.Spool.{Bytes}
use pixeldive.Sessions.Model.{World, Service}
use pixeldive.Sessions.Uploads.{Upload}
use pixeldive.Sessions.Ingest.{
  persist_upload, persist_all, save, save_file, save_spooled, with_path, save_found, persist_at,
}

-- No file goes.
abbrev pub Grows : Blobs → Blobs → Type 0
Grows old new = (key : String) → is_file old key ≡ true → is_file new key ≡ true

save_atomic_lem :
    (key : String) (content : Bytes) (now : ℕ) (blobs : Blobs)
    → (is_file (save_atomic key content now blobs).1 (save_atomic key content now blobs).0 ≡ true)
      × Grows blobs (save_atomic key content now blobs).1
unfolding save_atomic is_file
save_atomic_lem key content now blobs =
    let new : Blob = record { content = content; mtime = now } in
    (
      ground (arith, get-put blobs key key new, eq_iff key key),
      λ k h. ground (arith, get-put blobs key k new, h),
    )

save_spool_file_lem :
    (links : Bool) (source : Blob) (digest content_type : String) (now : ℕ) (blobs : Blobs)
    → (is_file
          (save_spool_file links source digest content_type now blobs).1
          (save_spool_file links source digest content_type now blobs).0
        ≡ true)
      × Grows blobs (save_spool_file links source digest content_type now blobs).1
unfolding save_spool_file try_link is_file save_atomic
save_spool_file_lem links source digest content_type now blobs =
    let key = object_key digest content_type in
    let new : Blob = record { content = source.content; mtime = now } in
    (
      ground (arith, get-put blobs key key new, get-put blobs key key source, eq_iff key key),
      λ k h. ground (arith, get-put blobs key k new, get-put blobs key k source, h),
    )

abbrev pub Present : Blobs → String → Type 0
Present blobs key = is_file blobs key ≡ true

-- The blobs of a batch.
abbrev pub AllPresent : {Json : Type 0} → Blobs → List (Upload Json × ℕ × String) → Type 0
AllPresent blobs = All (λ t. is_file blobs t.2 ≡ true)

-- A predicate on an answer, if there is one.
abbrev pub Answered : {A : Type 0} → (A → Type 0) → Result A → Type 0
Answered P (ok a) = P a
Answered P (err e) = Unit

module _ {Json Q : Type 0} where
  -- A save changes the blob store only, loses no file, and what it names is there.
  abbrev pub Stores :
      {A : Type 0} → (Blobs → A → Type 0) → World Json Q → Result A × World Json Q → Type 0
  Stores Named w out =
      (out.1.sessions ≡ w.sessions)
      × (out.1.images ≡ w.images)
      × Grows w.blobs out.1.blobs
      × Answered (Named out.1.blobs) out.0

module _ {Json Q : Type 0} (service : Service Q) where
  save-Stores :
      (now : ℕ) (payload : Bytes) (content_type : String) (w : World Json Q)
      → Stores Present w (save service now payload content_type w)
  unfolding save save_payload
  save-Stores now payload content_type w =
      let l =
        save_atomic_lem (object_key (service.sha256 payload) content_type) payload now w.blobs in
      (refl, refl, l.1, l.0)

  from_file :
      (now path : ℕ) (digest content_type : String) (file : Option Bytes) (w : World Json Q)
      → Stores Present w (save_found service now digest content_type file w)
  from_file now path digest content_type none w = (refl, refl, λ k h. h, tt)
  from_file now path digest content_type (some content) w =
      let source : Blob = record { content = content; mtime = now } in
      let l = save_spool_file_lem service.links source digest content_type now w.blobs in
      (refl, refl, l.1, l.0)

  save_file-Stores :
      (now path : ℕ) (digest content_type : String) (w : World Json Q)
      → Stores Present w (save_file service now path digest content_type w)
  unfolding save_file
  save_file-Stores now path digest content_type w =
      elim (Bool-cases (is_file w.blobs (object_key digest content_type))) [
        | inl there ↦ rw there (refl, refl, λ k h. h, there)
        | inr absent ↦ rw absent (from_file now path digest content_type (get w.disk path) w)
      ]

  persist_upload-Stores :
      (now : ℕ) (u : Upload Json) (w : World Json Q)
      → Stores Present w (persist_upload service now u w)
  unfolding persist_upload
  persist_upload-Stores now u w =
      elim u.spool_path as (λ p. Stores Present w (persist_at service now u p w)) [
        | none ↦ save-Stores now u.payload u.content_type w
        | some path ↦
            elim u.digest_hex
              as (λ d.
                Stores Present w (save_spooled service now path d u.payload u.content_type w)) [
                  | none ↦ save-Stores now u.payload u.content_type w
                  | some digest ↦ save_file-Stores now path digest u.content_type w
                ]
      ]

  with_path-Stores :
      (u : Upload Json) (n : ℕ) (w : World Json Q) (one : Result String × World Json Q)
      (rest : Result (List (Upload Json × ℕ × String)) × World Json Q)
      → Stores Present w one
      → Stores AllPresent one.1 rest
      → Stores AllPresent w (with_path service (u, n) one.0 rest.0, rest.1)
  with_path-Stores u n w (ok path, w') (ok stored, w'') a b =
      (b.0 ∙ a.0, b.1 ∙ a.1, λ k h. b.2 k (a.2 k h), ((b.2 path a.3, b.3)))
  with_path-Stores u n w (ok path, w') (err e, w'') a b =
      (b.0 ∙ a.0, b.1 ∙ a.1, λ k h. b.2 k (a.2 k h), tt)
  with_path-Stores u n w (err e, w') (rest, w'') a b =
      (b.0 ∙ a.0, b.1 ∙ a.1, λ k h. b.2 k (a.2 k h), tt)

  pub persist_all-Stores :
      (now : ℕ) (uploads : List (Upload Json × ℕ)) (w : World Json Q)
      → Stores AllPresent w (persist_all service now uploads w)
  unfolding persist_all
  persist_all-Stores now [] w = (refl, refl, λ k h. h, tt)
  persist_all-Stores now ((u, n) ∷ uploads) w =
      with_path-Stores u n w (persist_upload service now u w)
        (persist_all service now uploads (persist_upload service now u w).1)
        (persist_upload-Stores now u w)
        (persist_all-Stores now uploads (persist_upload service now u w).1)
