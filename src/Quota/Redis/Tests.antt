-- ===== src/Quota/Redis/Tests.antt =====
-- The theorems of the Redis store at concrete inputs, over a server that is a dictionary.
use pixeldive.Prelude.{
  nat_eq, string_eq, ℕ, ◌+◌, ◌-◌, ◌*◌, ◌≤◌, ◌<◌, String, ◌≡◌, refl, ap, ◌⊎◌, ◌&&◌, Option, none,
  some, [], ◌∷◌, arith, ltb, ◌==◌, if◌then◌else◌, get_or_else, ◌=?◌,
}
use pixeldive.Prelude.Dict.{Dict, get, put, remove, get-put, get-remove}
use pixeldive.Errors.{ok, err, Error, Cap}
use pixeldive.Quota.Ledger.{IsLedger}
use pixeldive.Quota.Redis.{RedisServer, used_at, rate_key, hit, reserve, release, expire_seconds}
use pixeldive.Quota.Redis.Bytes.{tenant_used, session_used, redis-IsLedger}
use pixeldive.Quota.Redis.Rate.{hit_rate, expire_seconds_bounds}
use pixeldive.Quota.Samples.{limits, unary, unary_injective}

-- The numbers, and the times to live.
record Store : Type 0 where
  values : Dict String ℕ
  times : Dict String ℕ

abbrev expired_in : ℕ → String → Store → Option ℕ → Store
expired_in seconds k db none = db
expired_in seconds k db (some n) = record db { times = put db.times k seconds }

expired_in-values :
    (seconds : ℕ) (k : String) (db : Store) (o : Option ℕ)
    → (expired_in seconds k db o).values ≡ db.values
expired_in-values seconds k db none = refl
expired_in-values seconds k db (some n) = refl

get-times :
    (seconds n : ℕ) (k j : String) (db : Store) (o : Option ℕ)
    → o ≡ some n
    → get (expired_in seconds k db o).times j ≡ (if k =? j then some seconds else get db.times j)
get-times seconds n k j db none h = cc
get-times seconds n k j db (some m) h = get-put db.times k j seconds

get-decremented :
    (d : Dict String ℕ) (k : String) (n : ℕ) (j : String)
    → get d k ≡ some (n + 1)
    → get (put d k (get_or_else 0 (get d k) - 1)) j ≡ (if k =? j then some n else get d j)
get-decremented d k n j h = ground (arith, h, get-put d k j (get_or_else 0 (get d k) - 1))

abbrev server : RedisServer Store
server = record {
  get = λ db k. get db.values k;
  ttl = λ db k. get db.times k;
  incrby = λ db k n. record db { values = put db.values k (get_or_else 0 (get db.values k) + n) };
  decr = λ db k. record db { values = put db.values k (get_or_else 0 (get db.values k) - 1) };
  set = λ db k n. record { values = put db.values k n; times = remove db.times k };
  del = λ db k. record { values = remove db.values k; times = remove db.times k };
  expire = λ db k seconds. expired_in seconds k db (get db.values k);
  get-incrby = λ db k n j. get-put db.values k j (get_or_else 0 (get db.values k) + n);
  get-decr = λ db k n j h. get-decremented db.values k n j h;
  get-set = λ db k n j. get-put db.values k j n;
  get-del = λ db k j. get-remove db.values k j;
  get-expire =
      λ db k seconds j h. ap (λ d. get d j) (expired_in-values seconds k db (get db.values k));
  ttl-incrby = λ db k n j. refl;
  ttl-decr = λ db k j. refl;
  ttl-expire = λ db k seconds n j positive h. get-times seconds n k j db (get db.values k) h;
}

-- One request was counted, and the window ends in 3 seconds.
abbrev db : Store
db = record { values = ("pd:rate:a", 1) ∷ []; times = ("pd:rate:a", 3) ∷ [] }

redis-IsLedger_example :
    IsLedger
      (tenant_used server unary unary_injective)
      (session_used server unary unary_injective)
      (reserve server unary)
      (release server unary)
redis-IsLedger_example = redis-IsLedger server unary unary_injective

hit_rate_example :
    ((hit server 1 "a" limits db).0 ≡ (
      if ltb (used_at server db (rate_key "a")) 2
      then ok tt
      else err (Error.quota_exceeded Cap.rate)))
    × ((key : String)
        → used_at server (hit server 1 "a" limits db).1 key ≡ (
            if (rate_key "a" =? key) && ltb (used_at server db (rate_key "a")) 2
            then used_at server db key + 1
            else used_at server db key))
    × ((key : String)
        → server.ttl (hit server 1 "a" limits db).1 key ≡ (
            if (rate_key "a" =? key) && used_at server db (rate_key "a") == 0
            then some (expire_seconds 1 limits.window_seconds)
            else server.ttl db key))
hit_rate_example = hit_rate server 1 "a" limits db (omega arith)

expire_seconds_bounds_example :
    (0 < expire_seconds 10 25)
    × (25 ≤ expire_seconds 10 25 * 10)
    × ((expire_seconds 10 25 ≡ 1) ⊎ (expire_seconds 10 25 * 10 < 35))
expire_seconds_bounds_example = expire_seconds_bounds 10 25 (omega arith)
