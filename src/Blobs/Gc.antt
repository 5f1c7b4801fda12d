-- ===== src/Blobs/Gc.antt =====
-- app/blobs/blob_gc.py. Other clients write rows while a collection runs: `rows n` holds the storage
-- paths of the image rows at its n-th query. The clock's reading `now` is an argument.
pub mod Laws
pub mod Sweep
use pixeldive.Prelude.{
  string_eq, ℕ, ◌+◌, ◌-◌, String, not, ◌&&◌, ◌||◌, List, [], ◌∷◌, ltb, if◌then◌else◌, is_empty,
  keep, ◌=?◌, contains,
}
use pixeldive.Prelude.Dict.{remove}
use pixeldive.Blobs.Store.{Blobs, Blob, age_seconds}

-- `list(dict.fromkeys(paths))`
unfoldable pub unique : List String → List String
unfolding contains
unique [] = []
unique (path ∷ paths) = path ∷ keep (λ other. not (other =? path)) (unique paths)

-- The rows whose path is one of `paths`.
unfoldable pub referenced_paths : List String → List String → List String
unfolding keep contains
referenced_paths rows paths = keep (λ row. contains row paths) rows

-- The number of queries so far, and the blobs.
pub record Collecting : Type 0 where
  pub queries : ℕ
  pub deleted : ℕ
  pub blobs : Blobs

module _ (rows : ℕ → List String) (min_age now : ℕ) where
  -- `if path in await referenced_paths(factory, [path]): continue`, and else the deletion.
  unfoldable pub reclaim : String → Collecting → Collecting
  unfolding referenced_paths contains
  reclaim path s =
      if contains path (referenced_paths (rows s.queries) (path ∷ []))
      then record s { queries = s.queries + 1 }
      else record { queries = s.queries + 1; deleted = s.deleted + 1; blobs = remove s.blobs path }

  -- One round of the loop of `gc_unreferenced`.
  unfoldable pub gc_round : List String → String → Collecting → Collecting
  unfolding reclaim contains age_seconds
  gc_round still_used path s =
      if contains path still_used || (ltb 0 min_age && ltb (age_seconds now s.blobs path) min_age)
      then s
      else reclaim path s

  unfoldable pub gc_loop : List String → List String → Collecting → Collecting
  gc_loop still_used [] s = s
  gc_loop still_used (path ∷ paths) s = gc_loop still_used paths (gc_round still_used path s)

  unfoldable pub gc_unreferenced : List String → Blobs → Blobs
  unfolding unique referenced_paths gc_loop
  gc_unreferenced paths blobs =
      if is_empty (unique paths)
      then blobs
      else (gc_loop (referenced_paths (rows 0) (unique paths)) (unique paths)
          (record { queries = 1; deleted = 0; blobs = blobs })).blobs

  -- One round of the loop of `sweep_orphans`, over the listing of the store. A time in the future
  -- makes a negative age, which is below every `min_age_seconds`.
  unfoldable pub sweep_round : List String → String × Blob → Collecting → Collecting
  unfolding reclaim contains
  sweep_round used (key, blob) s =
      if contains key used || (ltb now blob.mtime || ltb (now - blob.mtime) min_age)
      then s
      else reclaim key s

  unfoldable pub sweep_loop : List String → Blobs → Collecting → Collecting
  sweep_loop used [] s = s
  sweep_loop used (entry ∷ listing) s = sweep_loop used listing (sweep_round used entry s)

  unfoldable pub sweep_orphans : Blobs → ℕ × Blobs
  unfolding sweep_loop
  sweep_orphans blobs =
      let s = sweep_loop (rows 0) blobs (record { queries = 1; deleted = 0; blobs = blobs }) in
      if is_empty blobs then (0, blobs) else (s.deleted, s.blobs)
