-- ===== src/Quota/Tenant/Tests.antt =====
-- The quota's theorems over the in-process store.
use pixeldive.Prelude.{nat_eq, string_eq, ℕ, ◌+◌, String, ◌≡◌, refl, Option, some, [], ◌∷◌, arith}
use pixeldive.Quota.Ledger.Caps.{WithinCaps}
use pixeldive.Quota.Memory.{reserve, reject_if_over}
use pixeldive.Quota.Memory.Bytes.{memory-IsLedger, tenant_used, session_used}
use pixeldive.Quota.Memory.Window.{empty_store}
use pixeldive.Quota.Tenant.{Principal, reserve_bytes, release_bytes, hit_quota}
use pixeldive.Quota.Limits.{QuotaLimits}
use pixeldive.Quota.Ledger.{Op}
use pixeldive.Errors.{err, Error}
use pixeldive.Exec.{Exec}
use pixeldive.Quota.Tenant.Laws.{
  reserving, releasing, serve, serve-WithinCaps, quota_answers, hit_seen, bytes_seen,
  release_bytes-reserve_bytes, given, reserved,
}
use pixeldive.Quota.Samples.{limits}
use pixeldive.Prelude.Dict.{get}

abbrev alice : Option Principal
alice = some (record { owner_id = "alice" })

empty-WithinCaps : WithinCaps memory-IsLedger limits empty_store
unfolding get
empty-WithinCaps = record { tenants = λ o p. omega arith; sessions = λ i p. omega arith }

serve-WithinCaps_example :
    WithinCaps memory-IsLedger limits
      (serve memory-IsLedger limits (reserving alice 1 50 ∷ releasing alice 1 20 ∷ []) empty_store)
serve-WithinCaps_example =
    serve-WithinCaps memory-IsLedger limits (reserving alice 1 50 ∷ releasing alice 1 20 ∷ [])
      empty_store empty-WithinCaps

-- A store that cannot be reached; it has seen `n` calls.
abbrev broken_hit : ℕ → String → QuotaLimits → Exec ℕ (Unit {0})
broken_hit now owner lim calls = (err Error.backend_error, calls + 1)

abbrev broken : Op ℕ
broken owner sid n lim calls = (err Error.backend_error, calls + 1)

broken_lem : reserve_bytes broken limits alice 1 50 7 ≡ (err Error.quota_unavailable, 8)
unfolding reserve_bytes
broken_lem = refl

quota_answers_example :
    (hit_quota broken_hit 3 limits alice 7 ≡ hit_seen broken_hit 3 limits alice 7)
    × (reserve_bytes broken limits alice 1 50 7 ≡ bytes_seen broken limits alice 1 50 7)
    × (release_bytes broken limits alice 1 50 7 ≡ bytes_seen broken limits alice 1 50 7)
quota_answers_example = quota_answers broken_hit broken broken limits alice 3 1 50 7

release_bytes-reserve_bytes_example :
    ((o : String)
      → tenant_used
          (given memory-IsLedger limits alice 1 50
            (reserved memory-IsLedger limits alice 1 50 empty_store))
          o
        ≡ tenant_used empty_store o)
    × ((i : ℕ)
        → session_used
            (given memory-IsLedger limits alice 1 50
              (reserved memory-IsLedger limits alice 1 50 empty_store))
            i
          ≡ session_used empty_store i)
unfolding reserve_bytes reserve reject_if_over get
release_bytes-reserve_bytes_example =
    release_bytes-reserve_bytes memory-IsLedger limits alice 1 50 empty_store refl
