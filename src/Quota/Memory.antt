-- ===== src/Quota/Memory.antt =====
-- app/sessions/quota_memory.py: the in-process counters. The lock makes each method one step, so a
-- method is a function of the store. The clock's reading is an argument of `hit`.
mod Tests
pub mod Bytes
pub mod Window
use pixeldive.Prelude.{
  ℕ, ◌+◌, ◌-◌, String, ◌&&◌, List, [], ◌∷◌, ◌++◌, ltb, leb, if◌then◌else◌, length, get_or_else, Eq,
  nat_eq, string_eq,
}
use pixeldive.Prelude.Dict.{Dict, get, put, remove}
use pixeldive.Errors.{Result, ok, err, Error, Cap, reject}
use pixeldive.Exec.{Exec, lift, modify, ◌>>◌}
use pixeldive.Quota.Limits.{QuotaLimits}

pub record MemoryQuotaStore : Type 0 where
  pub hits : Dict String (List ℕ)
  pub tenant_bytes : Dict String ℕ
  pub session_bytes : Dict ℕ ℕ

-- `while bucket and bucket[0] <= cutoff: bucket.popleft()`, with `cutoff = now - window` moved to
-- the other side of the test.
unfoldable pub drop_stale : ℕ → ℕ → List ℕ → List ℕ
drop_stale now window [] = []
drop_stale now window (t ∷ bucket) =
    if leb (t + window) now then drop_stale now window bucket else t ∷ bucket

-- The bucket after the hit, and whether the hit is counted.
unfoldable pub hit_bucket : ℕ → QuotaLimits → List ℕ → Result (Unit {0}) × List ℕ
hit_bucket now lim bucket =
    if leb lim.requests_per_window (length bucket)
    then (err (Error.quota_exceeded Cap.rate), bucket)
    else (ok tt, bucket ++ now ∷ [])

-- The pruned bucket stays in the dictionary also when the hit is refused.
unfoldable pub record_hit : ℕ → String → QuotaLimits → Exec (Dict String (List ℕ)) (Unit {0})
record_hit now owner lim hits =
    let bucket = drop_stale now lim.window_seconds (get_or_else [] (get hits owner)) in
    let (r, bucket') = hit_bucket now lim bucket in (r, put hits owner bucket')

unfoldable pub reject_if_over : ℕ → ℕ → ℕ → Cap → Result (Unit {0})
reject_if_over used n cap which =
    reject (ltb 0 cap && ltb cap (used + n)) (Error.quota_exceeded which)

module _ {K : Type 0} ⦃e : Eq K⦄ where
  unfoldable pub add_bytes : Dict K ℕ → K → ℕ → ℕ → Dict K ℕ
  add_bytes store key n cap =
      if ltb 0 cap then put store key (get_or_else 0 (get store key) + n) else store

  -- `leftover > 0` holds of the difference exactly when it holds of the truncated one.
  unfoldable pub sub_bytes : Dict K ℕ → K → ℕ → ℕ → Dict K ℕ
  sub_bytes store key n cap =
      let leftover = get_or_else 0 (get store key) - n in
      if leb cap 0
      then store
      else (if ltb 0 leftover then put store key leftover else remove store key)

unfoldable pub hit : ℕ → String → QuotaLimits → Exec MemoryQuotaStore (Unit {0})
hit now owner lim s =
    let (r, hits') = record_hit now owner lim s.hits in (r, record s { hits = hits' })

unfoldable pub reserve : String → ℕ → ℕ → QuotaLimits → Exec MemoryQuotaStore (Unit {0})
reserve owner sid n lim s =
    (do
      lift (
          reject_if_over (get_or_else 0 (get s.tenant_bytes owner)) n lim.tenant_max_bytes
            Cap.tenant)
      lift (
          reject_if_over (get_or_else 0 (get s.session_bytes sid)) n lim.session_max_bytes
            Cap.session)
      modify (λ s. record s {
        tenant_bytes = add_bytes s.tenant_bytes owner n lim.tenant_max_bytes;
        session_bytes = add_bytes s.session_bytes sid n lim.session_max_bytes;
      }))
      s

unfoldable pub release : String → ℕ → ℕ → QuotaLimits → Exec MemoryQuotaStore (Unit {0})
release owner sid n lim = modify (λ s. record s {
  tenant_bytes = sub_bytes s.tenant_bytes owner n lim.tenant_max_bytes;
  session_bytes = sub_bytes s.session_bytes sid n lim.session_max_bytes;
})
