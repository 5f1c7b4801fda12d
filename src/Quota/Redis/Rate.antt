-- ===== src/Quota/Redis/Rate.antt =====
-- The fixed window of the Redis store.
use pixeldive.Prelude.{
  nat_eq, string_eq, ℕ, ◌+◌, ◌*◌, ◌≤◌, ◌<◌, String, ◌≡◌, refl, ◌∙◌, ◌⊎◌, inl, inr, ◌&&◌, some,
  arith, ltb, ◌==◌, if◌then◌else◌, Bool-cases, ◌=?◌,
}
use text.Mathlib.TextEquality.{eq_iff}
use pixeldive.Errors.{ok, err, Error, Cap}
use pixeldive.Quota.Limits.{QuotaLimits}
use pixeldive.Quota.Redis.{RedisServer, rate_key, used_at, rate_script, hit, expire_seconds}

-- The time to live is positive, covers the window, and is less than a second longer, unless it is
-- the least one, a second.
pub expire_seconds_bounds :
    (second window : ℕ)
    → 0 < second
    → (0 < expire_seconds second window)
      × (window ≤ expire_seconds second window * second)
      × ((expire_seconds second window ≡ 1)
          ⊎ (expire_seconds second window * second < window + second))
unfolding expire_seconds
expire_seconds_bounds second window h = grind arith

module _ {Db : Type 0} (redis : RedisServer Db) (second : ℕ) (owner : String) (lim : QuotaLimits)
    (db : Db) (positive : 0 < second) where
  abbrev rate : String
  rate = rate_key owner

  abbrev seconds : ℕ
  seconds = expire_seconds second lim.window_seconds

  abbrev counted : Db
  counted = redis.incrby db rate 1

  abbrev count : ℕ
  count = used_at redis db rate

  counted_lem : redis.get counted rate ≡ some (count + 1)
  counted_lem = ground (arith, redis.get-incrby db rate 1 rate, eq_iff rate rate)

  some_time : 0 < seconds
  some_time = (expire_seconds_bounds second lim.window_seconds positive).0

  abbrev timed : Db
  timed = if count + 1 == 1 then redis.expire counted rate seconds else counted

  timed_get : (j : String) → redis.get timed j ≡ redis.get counted j
  timed_get j = elim (Bool-cases (count + 1 == 1)) [
    | inl first ↦ rw first (redis.get-expire counted rate seconds j some_time)
    | inr later ↦ rw later refl
  ]

  -- The first request of a window starts the time to live.
  timed_ttl :
      (j : String)
      → redis.ttl timed j ≡ (if (rate =? j) && count == 0 then some seconds else redis.ttl db j)
  timed_ttl j = elim (Bool-cases (count + 1 == 1)) [
    | inl first ↦ rw first (
        ground (
          arith,
          first,
          redis.ttl-expire counted rate seconds (count + 1) j some_time counted_lem,
          redis.ttl-incrby db rate 1 j,
        ))
    | inr later ↦ rw later (ground (arith, later, redis.ttl-incrby db rate 1 j))
  ]

  -- The counter that an admitted request leaves, or a refused one.
  taken_back : (j : String) → used_at redis (redis.decr timed rate) j ≡ used_at redis db j
  taken_back j =
      let at : redis.get timed rate ≡ some (count + 1) = timed_get rate ∙ counted_lem in
      ground (
        arith,
        redis.get-decr timed rate count j at,
        timed_get j,
        redis.get-incrby db rate 1 j,
        eq_iff rate j,
      )

  kept_one :
      (j : String)
      → used_at redis timed j ≡ (if rate =? j then used_at redis db j + 1 else used_at redis db j)
  kept_one j = ground (arith, timed_get j, redis.get-incrby db rate 1 j, eq_iff rate j)

  -- With at least one clock tick to the second: a request is admitted exactly when the tenant's
  -- counter is below the limit. An admitted request
  -- counts one more, a refused one leaves the counter as it was, and no other key changes. A request
  -- that finds the counter at zero, also a refused one, gives it the window's time to live; any other
  -- leaves all times to live.
  pub hit_rate :
      ((hit redis second owner lim db).0 ≡ (
        if ltb (used_at redis db (rate_key owner)) lim.requests_per_window
        then ok tt
        else err (Error.quota_exceeded Cap.rate)))
      × ((key : String)
          → used_at redis (hit redis second owner lim db).1 key ≡ (
              if (rate_key owner =? key)
                && ltb (used_at redis db (rate_key owner)) lim.requests_per_window
              then used_at redis db key + 1
              else used_at redis db key))
      × ((key : String)
          → redis.ttl (hit redis second owner lim db).1 key ≡ (
              if (rate_key owner =? key) && used_at redis db (rate_key owner) == 0
              then some (expire_seconds second lim.window_seconds)
              else redis.ttl db key))
  unfolding hit rate_script
  hit_rate =
      let known : used_at redis counted rate ≡ count + 1 = ground (arith, counted_lem) in
      elim (Bool-cases (ltb lim.requests_per_window (count + 1))) [
        | inl over ↦
            rw (known, over)
              (
                ground (arith, over),
                λ j. rw (taken_back j) (ground (arith, over)),
                λ j. redis.ttl-decr timed rate j ∙ timed_ttl j,
              )
        | inr room ↦
            rw (known, room)
              (ground (arith, room), λ j. rw (kept_one j) (ground (arith, room)), timed_ttl)
      ]
