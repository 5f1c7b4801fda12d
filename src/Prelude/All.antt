-- ===== src/Prelude/All.antt =====
-- A predicate on every item of a list.
use mathlib.Core.Path.{◌≡◌}
use mathlib.Core.Bool.{Bool, true}
use mathlib.Core.List.{List, [], ◌∷◌}
use mathlib.Core.Logic.{inl, inr}
use pixeldive.Prelude.Tests.{Bool-cases}
use pixeldive.Prelude.Lists.{keep}
use pixeldive.Prelude.Equality.{Eq}
use pixeldive.Prelude.Dict.{Dict, put}

abbrev pub All {ℓ κ} : {A : Type ℓ} → (A → Type κ) → List A → Type κ
All P [] = Unit
All P (x ∷ xs) = P x × All P xs

module _ {ℓ κ} {A : Type ℓ} {P Q R : A → Type κ} where
  pub All-both : (xs : List A) → ((x : A) → P x → Q x → R x) → All P xs → All Q xs → All R xs
  All-both [] f p q = tt
  All-both (x ∷ xs) f p q = (f x p.0 q.0, All-both xs f p.1 q.1)

module _ {ℓ κ} {A : Type ℓ} {P Q : A → Type κ} where
  pub All-map : (xs : List A) → ((x : A) → P x → Q x) → All P xs → All Q xs
  All-map [] f p = tt
  All-map (x ∷ xs) f p = (f x p.0, All-map xs f p.1)

  -- What is kept passes the test, too.
  pub All-keep :
      (test : A → Bool) (xs : List A)
      → ((x : A) → test x ≡ true → P x → Q x)
      → All P xs
      → All Q (keep test xs)
  unfolding keep
  All-keep test [] f p = tt
  All-keep test (x ∷ xs) f p = elim (Bool-cases (test x)) [
    | inl y ↦ rw (keep, y) (f x y p.0, All-keep test xs f p.1)
    | inr n ↦ rw (keep, n) (All-keep test xs f p.1)
  ]

module _ {ℓ κ μ} {K : Type ℓ} {V : Type κ} ⦃e : Eq K⦄ (P : V → Type μ) where
  pub All-put :
      (d : Dict K V) (k : K) (v : V) → P v → All (λ r. P r.1) d → All (λ r. P r.1) (put d k v)
  unfolding put
  All-put [] k v h p = (h, tt)
  All-put ((j, w) ∷ d) k v h p = elim (Bool-cases (e.beq j k)) [
    | inl y ↦ rw y (h, p.1)
    | inr n ↦ rw n (p.0, All-put d k v h p.1)
  ]
