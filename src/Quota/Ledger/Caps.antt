-- ===== src/Quota/Ledger/Caps.antt =====
-- What follows for every store that keeps the ledger's promise.
use pixeldive.Prelude.{nat_eq, string_eq, ℕ, ◌≤◌, ◌<◌, String, ◌≡◌, sym, ◌∙◌, arith}
use text.Mathlib.TextEquality.{eq_iff}
use pixeldive.Errors.{ok}
use pixeldive.Quota.Limits.{QuotaLimits}
use pixeldive.Quota.Ledger.{IsLedger, Op, verdict, charged, given_back}

module _ {S : Type 0} {tenant_used : S → String → ℕ} {session_used : S → ℕ → ℕ}
    {reserve release : Op S} (ledger : IsLedger tenant_used session_used reserve release)
    (lim : QuotaLimits) where
  open ledger use {
    reserve_verdict, reserve_tenant, reserve_session, release_tenant, release_session,
  }

  -- An enabled cap is not exceeded.
  pub record WithinCaps (s : S) : Type 0 where
    pub tenants : (o : String) → 0 < lim.tenant_max_bytes → tenant_used s o ≤ lim.tenant_max_bytes
    pub sessions : (i : ℕ) → 0 < lim.session_max_bytes → session_used s i ≤ lim.session_max_bytes

  pub reserve-WithinCaps :
      (owner : String) (sid n : ℕ) (s : S) → WithinCaps s → WithinCaps (reserve owner sid n lim s).1
  unfolding verdict charged
  reserve-WithinCaps owner sid n s h = record {
    tenants =
        λ o p. ground (arith, reserve_tenant owner sid n lim s o, h.tenants o p, eq_iff owner o);
    sessions = λ i p. ground (arith, reserve_session owner sid n lim s i, h.sessions i p);
  }

  pub release-WithinCaps :
      (owner : String) (sid n : ℕ) (s : S) → WithinCaps s → WithinCaps (release owner sid n lim s).1
  unfolding given_back
  release-WithinCaps owner sid n s h = record {
    tenants = λ o p. ground (arith, release_tenant owner sid n lim s o, h.tenants o p);
    sessions = λ i p. ground (arith, release_session owner sid n lim s i, h.sessions i p);
  }

  -- A reservation that is given back leaves every tenant and every session charged as before.
  pub release-reserve :
      (owner : String) (sid n : ℕ) (s : S)
      → (reserve owner sid n lim s).0 ≡ ok tt
      → ((o : String)
          → tenant_used (release owner sid n lim (reserve owner sid n lim s).1).1 o
            ≡ tenant_used s o)
        × ((i : ℕ)
            → session_used (release owner sid n lim (reserve owner sid n lim s).1).1 i
              ≡ session_used s i)
  unfolding charged given_back
  release-reserve owner sid n s h =
      let s' = (reserve owner sid n lim s).1 in
      let v : verdict lim n (tenant_used s owner) (session_used s sid) ≡ ok tt =
        sym (reserve_verdict owner sid n lim s) ∙ h in
      (
        λ o.
            ground
              (arith, v, release_tenant owner sid n lim s' o, reserve_tenant owner sid n lim s o),
        λ i.
            ground
              (arith, v, release_session owner sid n lim s' i, reserve_session owner sid n lim s i),
      )
