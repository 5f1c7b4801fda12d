-- ===== src/Quota/Tenant.antt =====
-- app/sessions/quotas.py: `TenantQuota` over one of the stores. A caller with no principal, and a
-- cap that is off, are not counted.
mod Tests
pub mod Laws
use pixeldive.Prelude.{nat_eq, string_eq, ℕ, String, ◌&&◌, Option, none, some, leb, if◌then◌else◌}
use pixeldive.Errors.{Result, ok, err, Error}
use pixeldive.Exec.{Exec, pure}
use pixeldive.Quota.Limits.{QuotaLimits}
use pixeldive.Quota.Ledger.{Op}

pub record Principal : Type 0 where
  pub owner_id : String

unfoldable pub byte_owner : Option Principal → ℕ → ℕ → ℕ → Option String
byte_owner none n tcap scap = none
byte_owner (some p) n tcap scap =
    if leb n 0 then none else (if leb tcap 0 && leb scap 0 then none else some p.owner_id)

-- The `except` clauses of `_run`: a quota error passes, any other becomes QuotaUnavailableError.
unfoldable pub fail_closed : Error → Error
fail_closed (Error.quota_exceeded c) = Error.quota_exceeded c
fail_closed _ = Error.quota_unavailable

module _ {S : Type 0} where
  abbrev pub run_after : Result (Unit {0}) × S → Result (Unit {0}) × S
  run_after (ok u, s) = (ok u, s)
  run_after (err e, s) = (err (fail_closed e), s)

  unfoldable pub run_op : Exec S (Unit {0}) → Exec S (Unit {0})
  unfolding fail_closed
  run_op op s = run_after (op s)

  unfoldable pub hit_quota :
      (ℕ → String → QuotaLimits → Exec S (Unit {0}))
      → ℕ
      → QuotaLimits
      → Option Principal
      → Exec S (Unit {0})
  unfolding run_op
  hit_quota hit now lim none = pure tt
  hit_quota hit now lim (some p) =
      if leb lim.requests_per_window 0 then pure tt else run_op (hit now p.owner_id lim)

  -- `if owner_id is None: return`, and else the store's operation.
  abbrev pub for_owner : (String → Exec S (Unit {0})) → Option String → Exec S (Unit {0})
  for_owner op none = pure tt
  for_owner op (some owner) = run_op (op owner)

  unfoldable pub reserve_bytes : Op S → QuotaLimits → Option Principal → ℕ → ℕ → Exec S (Unit {0})
  unfolding byte_owner run_op
  reserve_bytes reserve lim principal sid n =
      for_owner (λ owner. reserve owner sid n lim)
        (byte_owner principal n lim.tenant_max_bytes lim.session_max_bytes)

  unfoldable pub release_bytes : Op S → QuotaLimits → Option Principal → ℕ → ℕ → Exec S (Unit {0})
  unfolding byte_owner run_op
  release_bytes release lim principal sid n =
      for_owner (λ owner. release owner sid n lim)
        (byte_owner principal n lim.tenant_max_bytes lim.session_max_bytes)
