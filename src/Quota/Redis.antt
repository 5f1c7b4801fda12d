-- ===== src/Quota/Redis.antt =====
-- app/sessions/quota_redis.py: the Lua scripts, each one step of the server, and the store's
-- methods. The server's commands are a parameter, with the laws that its documentation gives. A
-- `second` is the number of clock ticks in a second.
mod Tests
pub mod Bytes
pub mod Rate
use pixeldive.Prelude.{
  nat_eq, string_eq, ℕ, ◌+◌, ◌-◌, ◌*◌, ◌/◌, ◌<◌, String, ◌≡◌, Bool, true, false, ◌&&◌, Option, none,
  some, ltb, leb, ◌==◌, if◌then◌else◌, get_or_else, ◌=?◌,
}
use Prim.Native.String.{◌++◌ as concat}
use pixeldive.Errors.{Result, ok, err, Error, Cap}
use pixeldive.Exec.{Exec}
use pixeldive.Quota.Limits.{QuotaLimits}

-- Keys hold numbers here; `get` has no answer for a key that is not there or has expired, and `ttl`
-- is the time to live in seconds, which a key without an expiry does not have. INCRBY counts a key
-- that is not there from 0. What DECR makes of a number that is not positive is not said here: the
-- script only calls it after an INCR.
pub record RedisServer (Db : Type 0) : Type 0 where
  pub get : Db → String → Option ℕ
  pub ttl : Db → String → Option ℕ
  pub incrby : Db → String → ℕ → Db
  pub decr : Db → String → Db
  pub set : Db → String → ℕ → Db
  pub del : Db → String → Db
  pub expire : Db → String → ℕ → Db
  pub get-incrby :
      (db : Db) (k : String) (n : ℕ) (j : String)
      → get (incrby db k n) j ≡ (if k =? j then some (get_or_else 0 (get db k) + n) else get db j)
  pub get-decr :
      (db : Db) (k : String) (n : ℕ) (j : String)
      → get db k ≡ some (n + 1)
      → get (decr db k) j ≡ (if k =? j then some n else get db j)
  pub get-set :
      (db : Db) (k : String) (n : ℕ) (j : String)
      → get (set db k n) j ≡ (if k =? j then some n else get db j)
  pub get-del : (db : Db) (k j : String) → get (del db k) j ≡ (if k =? j then none else get db j)
  -- A positive time to live does not remove the key at once; EXPIRE by 0 would.
  pub get-expire :
      (db : Db) (k : String) (seconds : ℕ) (j : String)
      → 0 < seconds
      → get (expire db k seconds) j ≡ get db j
  -- INCRBY and DECR leave the time to live; EXPIRE sets it, where the key is there.
  pub ttl-incrby : (db : Db) (k : String) (n : ℕ) (j : String) → ttl (incrby db k n) j ≡ ttl db j
  pub ttl-decr : (db : Db) (k j : String) → ttl (decr db k) j ≡ ttl db j
  pub ttl-expire :
      (db : Db) (k : String) (seconds n : ℕ) (j : String)
      → 0 < seconds
      → get db k ≡ some n
      → ttl (expire db k seconds) j ≡ (if k =? j then some seconds else ttl db j)

unfoldable pub expire_seconds : ℕ → ℕ → ℕ
expire_seconds second window =
    let whole = window / second in
    let up = if ltb (whole * second) window then whole + 1 else whole in if ltb up 1 then 1 else up

unfoldable pub rate_key : String → String
rate_key owner = concat "pd:rate:" owner

unfoldable pub tenant_bytes_key : String → String
tenant_bytes_key owner = concat "pd:bytes:t:" owner

unfoldable pub session_bytes_key : (ℕ → String) → ℕ → String
session_bytes_key uuid_text sid = concat "pd:bytes:s:" (uuid_text sid)

unfoldable pub raise_reserve : ℕ → Result (Unit {0})
raise_reserve code =
    if code == 1
    then err (Error.quota_exceeded Cap.tenant)
    else (if code == 2 then err (Error.quota_exceeded Cap.session) else ok tt)

module _ {Db : Type 0} (redis : RedisServer Db) where
  -- `tonumber(redis.call('GET', key) or '0')`
  abbrev pub used_at : Db → String → ℕ
  used_at db key = get_or_else 0 (redis.get db key)

  -- The script `_RATE`.
  unfoldable pub rate_script : String → ℕ → ℕ → Db → ℕ × Db
  rate_script key ttl limit db =
      let db₁ = redis.incrby db key 1 in
      let n = used_at db₁ key in
      let db₂ = if n == 1 then redis.expire db₁ key ttl else db₁ in
      if ltb limit n then (0, redis.decr db₂ key) else (1, db₂)

  abbrev add_if : Bool → Db → String → ℕ → Db
  add_if true db key n = redis.incrby db key n
  add_if false db key n = db

  -- The script `_RESERVE`.
  unfoldable pub reserve_script : String → String → ℕ → ℕ → ℕ → Db → ℕ × Db
  reserve_script tenant_key session_key add tcap scap db =
      if ltb 0 tcap && ltb tcap (used_at db tenant_key + add)
      then (1, db)
      else (if ltb 0 scap && ltb scap (used_at db session_key + add)
          then (2, db)
          else (0, add_if (ltb 0 scap) (add_if (ltb 0 tcap) db tenant_key add) session_key add))

  -- The local function `give` of the script `_RELEASE`.
  unfoldable pub give : String → ℕ → ℕ → Db → Db
  give key sub cap db =
      let left = used_at db key - sub in
      if leb cap 0 then db else (if ltb 0 left then redis.set db key left else redis.del db key)

  -- The script `_RELEASE`.
  unfoldable pub release_script : String → String → ℕ → ℕ → ℕ → Db → ℕ × Db
  release_script tenant_key session_key sub tcap scap db =
      (1, give session_key sub scap (give tenant_key sub tcap db))

  unfoldable pub hit : ℕ → String → QuotaLimits → Exec Db (Unit {0})
  hit second owner lim db =
      let (allowed, db') =
        rate_script (rate_key owner) (expire_seconds second lim.window_seconds)
          lim.requests_per_window db in
      (if allowed == 0 then err (Error.quota_exceeded Cap.rate) else ok tt, db')

  module _ (uuid_text : ℕ → String) where
    unfoldable pub reserve : String → ℕ → ℕ → QuotaLimits → Exec Db (Unit {0})
    reserve owner sid n lim db =
        let (code, db') =
          reserve_script (tenant_bytes_key owner) (session_bytes_key uuid_text sid) n
            lim.tenant_max_bytes lim.session_max_bytes db in
        (raise_reserve code, db')

    unfoldable pub release : String → ℕ → ℕ → QuotaLimits → Exec Db (Unit {0})
    release owner sid n lim db =
        let (code, db') =
          release_script (tenant_bytes_key owner) (session_bytes_key uuid_text sid) n
            lim.tenant_max_bytes lim.session_max_bytes db in
        (ok tt, db')
