-- ===== src/Quota/Ledger.antt =====
-- What every quota store promises about bytes: the verdict of a reservation and the bytes that a
-- tenant and a session are charged with, before and after.
pub mod Caps
use pixeldive.Prelude.{
  ℕ, ◌+◌, ◌-◌, String, ◌≡◌, Bool, ◌&&◌, ltb, if◌then◌else◌, ◌=?◌, nat_eq, string_eq,
}
use pixeldive.Errors.{Result, ok, Error, Cap, reject, is_ok, ◌>>◌}
use pixeldive.Exec.{Exec}
use pixeldive.Quota.Limits.{QuotaLimits}

-- Would `n` more bytes on top of `used` pass an enabled cap?
abbrev pub passes : ℕ → ℕ → ℕ → Bool
passes used n cap = ltb 0 cap && ltb cap (used + n)

-- The tenant's cap is looked at first.
unfoldable pub verdict : QuotaLimits → ℕ → ℕ → ℕ → Result (Unit {0})
verdict lim n by_tenant by_session = do
  reject (passes by_tenant n lim.tenant_max_bytes) (Error.quota_exceeded Cap.tenant)
  reject (passes by_session n lim.session_max_bytes) (Error.quota_exceeded Cap.session)

-- A charge is made to an enabled cap, and only if the whole reservation succeeds.
unfoldable pub charged : Bool → ℕ → ℕ → ℕ → ℕ
charged done cap n used = if done && ltb 0 cap then used + n else used

unfoldable pub given_back : ℕ → ℕ → ℕ → ℕ
given_back cap n used = if ltb 0 cap then used - n else used

abbrev pub Op : Type 0 → Type 0
Op S = String → ℕ → ℕ → QuotaLimits → Exec S (Unit {0})

pub record IsLedger {S : Type 0} (tenant_used : S → String → ℕ) (session_used : S → ℕ → ℕ)
    (reserve release : Op S) : Type 0 where
  pub reserve_verdict :
      (owner : String) (sid n : ℕ) (lim : QuotaLimits) (s : S)
      → (reserve owner sid n lim s).0 ≡ verdict lim n (tenant_used s owner) (session_used s sid)
  pub reserve_tenant :
      (owner : String) (sid n : ℕ) (lim : QuotaLimits) (s : S) (o : String)
      → tenant_used (reserve owner sid n lim s).1 o ≡ (
          if owner =? o
          then charged
              (is_ok (verdict lim n (tenant_used s owner) (session_used s sid)))
              lim.tenant_max_bytes
              n
              (tenant_used s o)
          else tenant_used s o)
  pub reserve_session :
      (owner : String) (sid n : ℕ) (lim : QuotaLimits) (s : S) (i : ℕ)
      → session_used (reserve owner sid n lim s).1 i ≡ (
          if sid =? i
          then charged
              (is_ok (verdict lim n (tenant_used s owner) (session_used s sid)))
              lim.session_max_bytes
              n
              (session_used s i)
          else session_used s i)
  pub release_ok :
      (owner : String) (sid n : ℕ) (lim : QuotaLimits) (s : S)
      → (release owner sid n lim s).0 ≡ ok tt
  pub release_tenant :
      (owner : String) (sid n : ℕ) (lim : QuotaLimits) (s : S) (o : String)
      → tenant_used (release owner sid n lim s).1 o ≡ (
          if owner =? o
          then given_back lim.tenant_max_bytes n (tenant_used s o)
          else tenant_used s o)
  pub release_session :
      (owner : String) (sid n : ℕ) (lim : QuotaLimits) (s : S) (i : ℕ)
      → session_used (release owner sid n lim s).1 i ≡ (
          if sid =? i
          then given_back lim.session_max_bytes n (session_used s i)
          else session_used s i)
