-- ===== src/Blobs/Gc/Laws.antt =====
-- What a collection removes, and what it leaves alone.
use pixeldive.Prelude.{
  string_eq, ℕ, String, ◌≡◌, refl, ap, ◌∙◌, inl, inr, Bool, true, not, ◌&&◌, ◌||◌, Option, none,
  List, [], ◌∷◌, arith, ltb, if◌then◌else◌, Bool-cases, is_empty, keep, ◌=?◌, contains,
}
use text.Mathlib.TextEquality.{eq_iff}
use pixeldive.Prelude.Dict.{get, get-remove}
use pixeldive.Blobs.Store.{Blobs, Blob, age_seconds, age_of}
use pixeldive.Blobs.Gc.{
  unique, referenced_paths, Collecting, reclaim, gc_round, gc_loop, gc_unreferenced,
}

contains-keep :
    (p : String → Bool) (a : String) (xs : List String)
    → contains a (keep p xs) ≡ (p a && contains a xs)
unfolding contains keep
contains-keep p a [] = ground arith
contains-keep p a (x ∷ xs) =
    let rest = contains-keep p a xs in
    let here : (x =? a) ≡ true → p x ≡ p a = λ h. ap p ((eq_iff x a).0 h) in
    elim (Bool-cases (p x)) [
      | inl y ↦ rw (keep, y) (ground (arith, rest, here))
      | inr n ↦ rw (keep, n) (ground (arith, rest, here))
    ]

contains-unique : (a : String) (xs : List String) → contains a (unique xs) ≡ contains a xs
unfolding unique contains
contains-unique a [] = refl
contains-unique a (x ∷ xs) = ground (
  arith,
  eq_iff x a,
  eq_iff a x,
  contains-keep (λ other. not (other =? x)) a (unique xs),
  contains-unique a xs,
)

contains-referenced_paths :
    (a : String) (rows paths : List String)
    → contains a (referenced_paths rows paths) ≡ (contains a paths && contains a rows)
unfolding referenced_paths
contains-referenced_paths a rows paths = contains-keep (λ row. contains row paths) a rows

contains_one :
    (a : String) (rows : List String)
    → contains a (referenced_paths rows (a ∷ [])) ≡ contains a rows
unfolding contains
contains_one a rows = ground (arith, eq_iff a a, contains-referenced_paths a rows (a ∷ []))

unique_empty : (xs : List String) → is_empty (unique xs) ≡ true → xs ≡ []
unfolding unique
unique_empty [] h = refl
unique_empty (x ∷ xs) h = cc

module _ (min_age now : ℕ) where
  -- Too young to be collected.
  abbrev pub young : Option Blob → Bool
  young b = ltb 0 min_age && ltb (age_of now b) min_age

  module _ (rows : ℕ → List String) where
    pub get-reclaim :
        (q p : String) (s : Collecting)
        → get (reclaim rows min_age now q s).blobs p
          ≡ (if (q =? p) && not (contains q (rows s.queries)) then none else get s.blobs p)
    unfolding reclaim
    get-reclaim q p s = ground (arith, get-remove s.blobs q p, contains_one q (rows s.queries))

    get-gc_round :
        (su : List String) (q p : String) (s : Collecting)
        → get (gc_round rows min_age now su q s).blobs p ≡ (
            if (q =? p)
              && not (contains p su || young (get s.blobs p))
              && not (contains p (rows s.queries))
            then none
            else get s.blobs p)
    unfolding gc_round age_seconds
    get-gc_round su q p s = elim (Bool-cases (q =? p)) [
      | inl same ↦
          let e : q ≡ p = (eq_iff q p).0 same in
          rw e (ground (arith, eq_iff p p, get-reclaim p p s))
      | inr other ↦ ground (arith, other, get-reclaim q p s)
    ]

    gc_loop_keeps :
        (su paths : List String) (p : String) (s : Collecting)
        → ((n : ℕ) → contains p (rows n) ≡ true)
        → get (gc_loop rows min_age now su paths s).blobs p ≡ get s.blobs p
    unfolding gc_loop
    gc_loop_keeps su [] p s h = refl
    gc_loop_keeps su (q ∷ paths) p s h =
        gc_loop_keeps su paths p (gc_round rows min_age now su q s) h
        ∙ ground (arith, get-gc_round su q p s, h s.queries)

    -- Whatever other clients do between its queries, a collection leaves a blob alone that an image
    -- row refers to all the while.
    pub gc_unreferenced_keeps :
        (paths : List String) (blobs : Blobs) (p : String)
        → ((n : ℕ) → contains p (rows n) ≡ true)
        → get (gc_unreferenced rows min_age now paths blobs) p ≡ get blobs p
    unfolding gc_unreferenced
    gc_unreferenced_keeps paths blobs p h = ground (
      arith,
      gc_loop_keeps (referenced_paths (rows 0) (unique paths)) (unique paths) p
          (record { queries = 1; deleted = 0; blobs = blobs }) h,
    )

  -- What is collected when the rows do not change meanwhile.
  abbrev pub collected : List String → List String → Blobs → String → Bool
  collected rows paths blobs p =
      contains p paths && not (contains p rows) && not (young (get blobs p))

  gc_loop_lem :
      (rows su paths : List String) (p : String) (s : Collecting)
      → get (gc_loop (λ n. rows) min_age now su paths s).blobs p ≡ (
          if contains p paths
            && not (contains p su || young (get s.blobs p))
            && not (contains p rows)
          then none
          else get s.blobs p)
  unfolding gc_loop contains
  gc_loop_lem rows su [] p s = refl
  gc_loop_lem rows su (q ∷ paths) p s =
      let r = get-gc_round (λ n. rows) su q p s in
      let rest = gc_loop_lem rows su paths p (gc_round (λ n. rows) min_age now su q s) in
      ground (arith, r, rest)

  -- With the image rows fixed, for every list of paths, `gc_unreferenced` removes exactly the blobs
  -- whose path is in the list and in no row, and, with a positive `min_age_seconds`, whose age is at
  -- least that; every other blob stays as it is.
  pub gc_unreferenced_lem :
      (rows paths : List String) (blobs : Blobs) (p : String)
      → get (gc_unreferenced (λ n. rows) min_age now paths blobs) p
        ≡ (if collected rows paths blobs p then none else get blobs p)
  unfolding gc_unreferenced
  gc_unreferenced_lem rows paths blobs p =
      let u = contains-unique p paths in
      let su = contains-referenced_paths p rows (unique paths) in
      let l =
        gc_loop_lem rows (referenced_paths rows (unique paths)) (unique paths) p
          (record { queries = 1; deleted = 0; blobs = blobs }) in
      let z = unique_empty paths in
      elim (Bool-cases (is_empty (unique paths))) [
        | inl none_left ↦ rw (none_left, z none_left) (unfold contains in refl)
        | inr some_left ↦ rw (some_left, l, su, u) (ground arith)
      ]
