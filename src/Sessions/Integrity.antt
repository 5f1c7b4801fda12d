-- ===== src/Sessions/Integrity.antt =====
-- What holds between the tables and the blob store, whatever the requests: an image row's session
-- is there, and its blob is stored.
use pixeldive.Prelude.{
  string_eq, nat_eq, ℕ, suc, String, ◌≡◌, inl, inr, true, not, some, List, [], ◌∷◌, arith, ◌==◌,
  ==_iff, Bool-cases, contains,
}
use text.Mathlib.TextEquality.{eq_iff}
use pixeldive.Prelude.Dict.{Dict, get, put, remove, get-put, get-remove}
use pixeldive.Prelude.All.{All, All-map, All-both, All-keep, All-put}
use pixeldive.Blobs.Store.{Blobs, is_file, is_some}
use pixeldive.Blobs.Gc.{gc_unreferenced}
use pixeldive.Blobs.Gc.Laws.{gc_unreferenced_lem}
use pixeldive.Sessions.Model.{Session, SessionImage}
use pixeldive.Sessions.Rows.{cascade, storage_paths}
use pixeldive.Sessions.Uploads.{Upload, new_images, add_all, new_image}

module _ {Json : Type 0} where
  -- The row's session and blob exist.
  abbrev pub Placed : Dict ℕ (Session Json) → Blobs → SessionImage Json → Type 0
  Placed sessions blobs image =
      (is_some (get sessions image.session_id) ≡ true) × (is_file blobs image.storage_path ≡ true)

  abbrev pub Keyed : Dict ℕ (Session Json) → Type 0
  Keyed sessions = (i : ℕ) (row : Session Json) → get sessions i ≡ some row → row.id ≡ i

  -- Every row of the image table is placed, and a session's row has the id of its key.
  pub record IsWhole (sessions : Dict ℕ (Session Json)) (images : Dict ℕ (SessionImage Json))
      (blobs : Blobs) : Type 0 where
    pub keyed : Keyed sessions
    pub placed : All (λ r. Placed sessions blobs r.1) images

  -- A row under its own id.
  pub put_session-IsWhole :
      (sessions : Dict ℕ (Session Json)) (images : Dict ℕ (SessionImage Json)) (blobs : Blobs)
      (sid : ℕ) (row : Session Json)
      → row.id ≡ sid
      → IsWhole sessions images blobs
      → IsWhole (put sessions sid row) images blobs
  put_session-IsWhole sessions images blobs sid row e h = record {
    keyed = λ i row' found. elim (Bool-cases (sid == i)) [
      | inl here ↦ ground (arith, get-put sessions sid i row, ==_iff sid i)
      | inr there ↦ h.keyed i row' (ground (arith, get-put sessions sid i row))
    ];
    placed =
        All-map images (λ r p. (ground (arith, p.0, get-put sessions sid r.1.session_id row), p.1))
          h.placed;
  }

  -- More blobs.
  pub grow-IsWhole :
      (sessions : Dict ℕ (Session Json)) (images : Dict ℕ (SessionImage Json)) (old new : Blobs)
      → ((key : String) → is_file old key ≡ true → is_file new key ≡ true)
      → IsWhole sessions images old
      → IsWhole sessions images new
  grow-IsWhole sessions images old new grows h = record {
    keyed = h.keyed;
    placed = All-map images (λ r p. (p.0, grows r.1.storage_path p.1)) h.placed;
  }

  pub add_all-Placed :
      (sessions : Dict ℕ (Session Json)) (blobs : Blobs) (added : List (SessionImage Json))
      (images : Dict ℕ (SessionImage Json))
      → All (Placed sessions blobs) added
      → All (λ r. Placed sessions blobs r.1) images
      → All (λ r. Placed sessions blobs r.1) (add_all added images)
  unfolding add_all
  add_all-Placed sessions blobs [] images new old = old
  add_all-Placed sessions blobs (image ∷ added) images new old =
      add_all-Placed sessions blobs added (put images image.id image) new.1
        (All-put (Placed sessions blobs) images image.id image new.0 old)

  -- Rows of a session that is there, over blobs that are there.
  pub new_images-Placed :
      (sessions : Dict ℕ (Session Json)) (blobs : Blobs) (ids : ℕ → ℕ) (now : ℕ)
      (row : Session Json) (stored : List (Upload Json × ℕ × String))
      → is_some (get sessions row.id) ≡ true
      → All (λ t. is_file blobs t.2 ≡ true) stored
      → All (Placed sessions blobs) (new_images ids now row stored)
  unfolding new_images new_image
  new_images-Placed sessions blobs ids now row [] there files = tt
  new_images-Placed sessions blobs ids now row ((u, n, path) ∷ stored) there files = (
    (there, files.0),
    new_images-Placed sessions blobs (λ n. ids (suc n)) now row stored there files.1,
  )

  paths_contained :
      (images : Dict ℕ (SessionImage Json))
      → All (λ r. contains r.1.storage_path (storage_paths images) ≡ true) images
  unfolding contains
  paths_contained [] = tt
  paths_contained ((i, image) ∷ images) = (
    ground (arith, eq_iff image.storage_path image.storage_path),
    All-map images (λ r h. ground (arith, h)) (paths_contained images),
  )

  -- The collection after a deletion takes no blob that a row left refers to.
  pub gc_unreferenced-IsWhole :
      (sessions : Dict ℕ (Session Json)) (images : Dict ℕ (SessionImage Json)) (blobs : Blobs)
      (min_age now : ℕ) (paths : List String)
      → IsWhole sessions images blobs
      → IsWhole sessions images
          (gc_unreferenced (λ n. storage_paths images) min_age now paths blobs)
  gc_unreferenced-IsWhole sessions images blobs min_age now paths h = record {
    keyed = h.keyed;
    placed =
        All-both {P = λ r. Placed sessions blobs r.1}
          {Q = λ r. contains r.1.storage_path (storage_paths images) ≡ true} images
          (λ r p used. (
            p.0,
            unfold is_file in
                (let kept =
                    gc_unreferenced_lem min_age now (storage_paths images) paths blobs
                      r.1.storage_path in
                  ground (arith, kept, used, p.1)),
          ))
          h.placed (paths_contained images);
  }

  -- A session and its rows go.
  pub cascade-IsWhole :
      (sessions : Dict ℕ (Session Json)) (images : Dict ℕ (SessionImage Json)) (blobs : Blobs)
      (sid : ℕ)
      → IsWhole sessions images blobs
      → IsWhole (remove sessions sid) (cascade sid images) blobs
  unfolding cascade
  cascade-IsWhole sessions images blobs sid h = record {
    keyed = λ i row found. h.keyed i row (ground (arith, get-remove sessions sid i));
    placed =
        All-keep (λ r. not (r.1.session_id == sid)) images
          (λ r other p. (
            ground (
              arith,
              p.0,
              other,
              get-remove sessions sid r.1.session_id,
              ==_iff sid r.1.session_id,
              ==_iff r.1.session_id sid,
            ),
            p.1,
          ))
          h.placed;
  }
