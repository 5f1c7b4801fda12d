-- ===== src/Quota/Memory/Bytes.antt =====
-- The in-process store keeps the ledger's promise.
use pixeldive.Prelude.{
  ℕ, ◌+◌, ◌-◌, String, ◌≡◌, refl, true, arith, if◌then◌else◌, get_or_else, Eq, nat_eq, string_eq,
}
use pixeldive.Prelude.Dict.{Dict, get, get-put, get-remove}
use pixeldive.Quota.Ledger.{IsLedger, verdict, charged, given_back}
use pixeldive.Quota.Memory.{
  MemoryQuotaStore, reject_if_over, add_bytes, sub_bytes, reserve, release,
}

-- What `d.get(k, 0)` answers.
abbrev pub used : {K : Type 0} ⦃e : Eq K⦄ → Dict K ℕ → K → ℕ
used d k = get_or_else 0 (get d k)

abbrev pub tenant_used : MemoryQuotaStore → String → ℕ
tenant_used s = used s.tenant_bytes

abbrev pub session_used : MemoryQuotaStore → ℕ → ℕ
session_used s = used s.session_bytes

module _ {K : Type 0} ⦃e : Eq K⦄ (d : Dict K ℕ) (k : K) (n cap : ℕ) (j : K) where
  pub used-add_bytes :
      used (add_bytes d k n cap) j ≡ (if e.beq k j then charged true cap n (used d j) else used d j)
  unfolding add_bytes charged
  used-add_bytes = ground (arith, e.beq_iff k j, get-put d k j (used d k + n))

  pub used-sub_bytes :
      used (sub_bytes d k n cap) j ≡ (if e.beq k j then given_back cap n (used d j) else used d j)
  unfolding sub_bytes given_back
  used-sub_bytes = ground (arith, e.beq_iff k j, get-put d k j (used d k - n), get-remove d k j)

-- The verdict, the charge and the return of bytes are those of the specification.
pub memory-IsLedger : IsLedger tenant_used session_used reserve release
unfolding reserve release reject_if_over verdict charged
memory-IsLedger = record {
  reserve_verdict = λ owner sid n lim s. ground arith;
  reserve_tenant = λ owner sid n lim s o.
      ground (arith, used-add_bytes s.tenant_bytes owner n lim.tenant_max_bytes o);
  reserve_session = λ owner sid n lim s i.
      ground (arith, used-add_bytes s.session_bytes sid n lim.session_max_bytes i);
  release_ok = λ owner sid n lim s. refl;
  release_tenant =
      λ owner sid n lim s o. used-sub_bytes s.tenant_bytes owner n lim.tenant_max_bytes o;
  release_session =
      λ owner sid n lim s i. used-sub_bytes s.session_bytes sid n lim.session_max_bytes i;
}
