-- ===== src/Quota/Memory/Window.antt =====
-- The sliding window of the in-process store bounds the admitted requests of every window.
use pixeldive.Prelude.{
  ℕ, ◌+◌, ◌≤◌, String, ◌≡◌, refl, Bool, ◌&&◌, List, [], ◌∷◌, ◌++◌, arith, ltb, leb, if◌then◌else◌,
  length, get_or_else, ◌=?◌, nat_eq, string_eq,
}
use pixeldive.Prelude.Dict.{get, get-put}
use text.Mathlib.TextEquality.{eq_iff}
use pixeldive.Errors.{is_ok}
use pixeldive.Quota.Limits.{QuotaLimits}
use pixeldive.Quota.Memory.{MemoryQuotaStore, drop_stale, hit_bucket, record_hit, hit}

abbrev pub bucket : MemoryQuotaStore → String → List ℕ
bucket s owner = get_or_else [] (get s.hits owner)

-- The requests of `attempts`, in order, and those that were admitted, the latest first.
unfoldable pub hit_all :
    QuotaLimits → List (String × ℕ) → MemoryQuotaStore → List (String × ℕ) → List (String × ℕ)
hit_all lim [] s admitted = admitted
hit_all lim ((owner, now) ∷ attempts) s admitted =
    hit_all lim attempts (hit now owner lim s).1
      (if is_ok (hit now owner lim s).0 then (owner, now) ∷ admitted else admitted)

-- Does the window that ends at `t` hold the instant `x`?
abbrev pub in_window : ℕ → ℕ → ℕ → Bool
in_window t window x = leb x t && ltb t (x + window)

-- How many of the admitted requests of `owner` lie in the window that ends at `t`.
unfoldable pub admitted_within : String → ℕ → ℕ → List (String × ℕ) → ℕ
admitted_within owner t window [] = 0
admitted_within owner t window ((o, x) ∷ l) =
    (if (o =? owner) && in_window t window x then 1 else 0) + admitted_within owner t window l

-- The clock does not run backwards, from `now` on.
abbrev pub Ordered : ℕ → List (String × ℕ) → Type 0
Ordered now [] = Unit {0}
Ordered now ((o, t) ∷ l) = (now ≤ t) × Ordered t l

count_live : ℕ → ℕ → List ℕ → ℕ
count_live t window [] = 0
count_live t window (x ∷ l) = (if ltb t (x + window) then 1 else 0) + count_live t window l

count_live-le-length : (t window : ℕ) (l : List ℕ) → count_live t window l ≤ length l
unfolding count_live
count_live-le-length t window [] = omega arith
count_live-le-length t window (x ∷ l) = ground (arith, count_live-le-length t window l)

count_live-append :
    (t window x : ℕ) (l : List ℕ)
    → count_live t window (l ++ x ∷ [])
      ≡ count_live t window l + (if ltb t (x + window) then 1 else 0)
unfolding count_live
count_live-append t window x [] = ground arith
count_live-append t window x (y ∷ l) = ground (arith, count_live-append t window x l)

-- What is dropped at `now` lies in no later window.
count_live-drop_stale :
    (t now window : ℕ) (l : List ℕ)
    → now ≤ t
    → count_live t window (drop_stale now window l) ≡ count_live t window l
unfolding count_live drop_stale
count_live-drop_stale t now window [] h = refl
count_live-drop_stale t now window (x ∷ l) h = ground (arith, count_live-drop_stale t now window l)

record Bounded (lim : QuotaLimits) (now : ℕ) (s : MemoryQuotaStore) (l : List (String × ℕ))
    : Type 0 where
  -- The bucket remembers whatever may still lie in a window.
  remembers :
      (o : String) (t : ℕ)
      → now ≤ t
      → admitted_within o t lim.window_seconds l ≤ count_live t lim.window_seconds (bucket s o)
  bounded :
      (o : String) (t : ℕ) → admitted_within o t lim.window_seconds l ≤ lim.requests_per_window

bucket-hit :
    (now : ℕ) (owner : String) (lim : QuotaLimits) (s : MemoryQuotaStore) (o : String)
    → bucket (hit now owner lim s).1 o ≡ (
        if owner =? o
        then (hit_bucket now lim (drop_stale now lim.window_seconds (bucket s owner))).1
        else bucket s o)
unfolding hit record_hit
bucket-hit now owner lim s o = ground (
  arith,
  get-put s.hits owner o
      (hit_bucket now lim (drop_stale now lim.window_seconds (bucket s owner))).1,
)

-- The verdict of a hit is that of the pruned bucket.
ok-hit :
    (now : ℕ) (owner : String) (lim : QuotaLimits) (s : MemoryQuotaStore)
    → (hit now owner lim s).0
      ≡ (hit_bucket now lim (drop_stale now lim.window_seconds (bucket s owner))).0
unfolding hit record_hit
ok-hit now owner lim s = refl

module _ (lim : QuotaLimits) (now now' : ℕ) (owner : String) (s : MemoryQuotaStore)
    (l : List (String × ℕ)) (later : now ≤ now') (b : Bounded lim now s l) where
  abbrev window : ℕ
  window = lim.window_seconds

  abbrev pruned : List ℕ
  pruned = drop_stale now' window (bucket s owner)

  abbrev after : List (String × ℕ)
  after = if is_ok (hit now' owner lim s).0 then (owner, now') ∷ l else l

  step_remembers :
      (o : String) (t : ℕ)
      → now' ≤ t
      → admitted_within o t window after ≤ count_live t window (bucket (hit now' owner lim s).1 o)
  unfolding admitted_within hit_bucket
  step_remembers o t h =
      rw (bucket-hit now' owner lim s o, ok-hit now' owner lim s)
        (ground (
          arith,
          eq_iff owner o,
          b.remembers o t,
          count_live-append t window now' pruned,
          count_live-drop_stale t now' window (bucket s owner),
        ))

  step_bounded : (o : String) (t : ℕ) → admitted_within o t window after ≤ lim.requests_per_window
  unfolding admitted_within hit_bucket
  step_bounded o t = rw (ok-hit now' owner lim s) (
      ground (
        arith,
        eq_iff owner o,
        b.bounded o t,
        b.remembers o t,
        count_live-le-length t window pruned,
        count_live-drop_stale t now' window (bucket s owner),
      ))

  step-Bounded : Bounded lim now' (hit now' owner lim s).1 after
  step-Bounded = record { remembers = step_remembers; bounded = step_bounded }

hit_all-Bounded :
    (lim : QuotaLimits) (attempts : List (String × ℕ)) (now : ℕ) (s : MemoryQuotaStore)
    (l : List (String × ℕ))
    → Ordered now attempts
    → Bounded lim now s l
    → (o : String) (t : ℕ)
    → admitted_within o t lim.window_seconds (hit_all lim attempts s l) ≤ lim.requests_per_window
unfolding hit_all
hit_all-Bounded lim [] now s l h b o t = b.bounded o t
hit_all-Bounded lim ((owner, now') ∷ attempts) now s l h b o t =
    hit_all-Bounded lim attempts now' _ _ h.1 (step-Bounded lim now now' owner s l h.0 b) o t

abbrev pub empty_store : MemoryQuotaStore
empty_store = record { hits = []; tenant_bytes = []; session_bytes = [] }

-- Whatever the tenants request, by a clock that does not run backwards, from a store with no
-- counters: no window, whenever it ends, holds more admitted requests of one tenant than
-- `requests_per_window`.
pub admitted_within-le-limit :
    (lim : QuotaLimits) (attempts : List (String × ℕ)) (start : ℕ)
    → Ordered start attempts
    → (owner : String) (t : ℕ)
    → admitted_within owner t lim.window_seconds (hit_all lim attempts empty_store [])
      ≤ lim.requests_per_window
admitted_within-le-limit lim attempts start h =
    hit_all-Bounded lim attempts start empty_store [] h (record {
      remembers = λ o t _. unfold admitted_within in omega arith;
      bounded = λ o t. unfold admitted_within in omega arith;
    })
