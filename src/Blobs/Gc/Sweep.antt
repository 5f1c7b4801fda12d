-- ===== src/Blobs/Gc/Sweep.antt =====
-- What the sweep for orphans leaves alone.
use pixeldive.Prelude.{
  string_eq, ℕ, ◌+◌, ◌<◌, String, ◌≡◌, refl, ◌∙◌, ◌⊎◌, inl, inr, true, List, [], ◌∷◌, arith, ◌=?◌,
  contains,
}
use text.Mathlib.TextEquality.{eq_iff}
use pixeldive.Prelude.Dict.{get}
use pixeldive.Prelude.All.{All}
use pixeldive.Blobs.Store.{Blobs, Blob}
use pixeldive.Blobs.Gc.{Collecting, sweep_round, sweep_loop, sweep_orphans}
use pixeldive.Blobs.Gc.Laws.{get-reclaim, young}

module _ (min_age now : ℕ) (rows : ℕ → List String) where
  round_referenced :
      (used : List String) (entry : String × Blob) (p : String) (s : Collecting)
      → ((n : ℕ) → contains p (rows n) ≡ true)
      → get (sweep_round rows min_age now used entry s).blobs p ≡ get s.blobs p
  unfolding sweep_round
  round_referenced used (key, blob) p s h =
      ground (arith, get-reclaim min_age now rows key p s, h s.queries, eq_iff key p)

  loop_referenced :
      (used : List String) (listing : Blobs) (p : String) (s : Collecting)
      → ((n : ℕ) → contains p (rows n) ≡ true)
      → get (sweep_loop rows min_age now used listing s).blobs p ≡ get s.blobs p
  unfolding sweep_loop
  loop_referenced used [] p s h = refl
  loop_referenced used (entry ∷ listing) p s h =
      loop_referenced used listing p (sweep_round rows min_age now used entry s) h
      ∙ round_referenced used entry p s h

  -- No entry of the listing under this key is old enough: its age is below `min_age_seconds`, also
  -- with a time in the future.
  abbrev pub AllYoung : String → Blobs → Type 0
  AllYoung p = All (λ entry. (entry.0 =? p) ≡ true → now < entry.1.mtime + min_age)

  loop_young :
      (used : List String) (listing : Blobs) (p : String) (s : Collecting)
      → AllYoung p listing
      → get (sweep_loop rows min_age now used listing s).blobs p ≡ get s.blobs p
  unfolding sweep_loop sweep_round
  loop_young used [] p s h = refl
  loop_young used ((key, blob) ∷ listing) p s h =
      loop_young used listing p (sweep_round rows min_age now used (key, blob) s) h.1
      ∙ ground (arith, get-reclaim min_age now rows key p s, h.0)

  -- Whatever other clients do between its queries, a sweep leaves a blob alone that an image row
  -- refers to all the while, and one that is younger than `min_age_seconds`.
  pub sweep_orphans_keeps :
      (blobs : Blobs) (p : String)
      → (((n : ℕ) → contains p (rows n) ≡ true) ⊎ AllYoung p blobs)
      → get (sweep_orphans rows min_age now blobs).1 p ≡ get blobs p
  unfolding sweep_orphans
  sweep_orphans_keeps blobs p (inl referenced) = ground (
    arith,
    loop_referenced (rows 0) blobs p (record { queries = 1; deleted = 0; blobs = blobs })
        referenced,
  )
  sweep_orphans_keeps blobs p (inr young) = ground (
    arith,
    loop_young (rows 0) blobs p (record { queries = 1; deleted = 0; blobs = blobs }) young,
  )
