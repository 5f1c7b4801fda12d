-- ===== src/Quota/Tenant/Laws.antt =====
-- `TenantQuota` over a store that keeps the ledger's promise.
use pixeldive.Prelude.{
  nat_eq, string_eq, ℕ, String, ◌≡◌, refl, sym, inl, inr, ◌&&◌, ◌||◌, Option, none, some, List, [],
  ◌∷◌, arith, leb, ◌==◌, if◌then◌else◌, Bool-cases,
}
use mathlib.Core.Path.{subst}
use pixeldive.Errors.{Result, ok, err, Error}
use pixeldive.Exec.{Exec}
use pixeldive.Quota.Limits.{QuotaLimits}
use pixeldive.Quota.Ledger.{IsLedger, Op}
use pixeldive.Quota.Ledger.Caps.{
  WithinCaps, reserve-WithinCaps, release-WithinCaps, release-reserve,
}
use pixeldive.Quota.Tenant.{
  Principal, reserve_bytes, release_bytes, byte_owner, run_op, for_owner, run_after, fail_closed,
  hit_quota,
}

-- A call of the quota; what it raises is dropped.
pub data Request : Type 0 where
  reserving releasing : Option Principal → ℕ → ℕ → Request

module _ {S : Type 0} where
  -- `_run` maps the error and leaves the state alone.
  state-run_op : (op : Exec S (Unit {0})) (s : S) → (run_op op s).1 ≡ (op s).1
  unfolding run_op
  state-run_op op s = ground arith

  -- The state after a call of the quota is the store's, or the old one.
  for_owner_cases :
      (P : S → Type 0) (op : String → Exec S (Unit {0})) (p : Principal) (n tcap scap : ℕ) (s : S)
      → P s
      → P (op p.owner_id s).1
      → P (for_owner op (byte_owner (some p) n tcap scap) s).1
  unfolding byte_owner
  for_owner_cases P op p n tcap scap s old new = elim (Bool-cases (leb n 0)) [
    | inl z ↦ rw z old
    | inr z ↦ elim (Bool-cases (leb tcap 0 && leb scap 0)) [
      | inl o ↦ rw (z, o) old
      | inr o ↦ rw (z, o) (subst P (sym (state-run_op (op p.owner_id) s)) new)
    ]
  ]

module _ {S : Type 0} {tenant_used : S → String → ℕ} {session_used : S → ℕ → ℕ}
    {reserve release : Op S} (ledger : IsLedger tenant_used session_used reserve release)
    (lim : QuotaLimits) where
  -- The calls, one after the other.
  unfoldable pub serve : List Request → S → S
  serve [] s = s
  serve (reserving who sid n ∷ rest) s = serve rest (reserve_bytes reserve lim who sid n s).1
  serve (releasing who sid n ∷ rest) s = serve rest (release_bytes release lim who sid n s).1

  step_reserve :
      (who : Option Principal) (sid n : ℕ) (s : S)
      → WithinCaps ledger lim s
      → WithinCaps ledger lim (reserve_bytes reserve lim who sid n s).1
  unfolding reserve_bytes
  step_reserve none sid n s h = h
  step_reserve (some p) sid n s h =
      for_owner_cases (WithinCaps ledger lim) (λ owner. reserve owner sid n lim) p n
        lim.tenant_max_bytes lim.session_max_bytes s h
        (reserve-WithinCaps ledger lim p.owner_id sid n s h)

  step_release :
      (who : Option Principal) (sid n : ℕ) (s : S)
      → WithinCaps ledger lim s
      → WithinCaps ledger lim (release_bytes release lim who sid n s).1
  unfolding release_bytes
  step_release none sid n s h = h
  step_release (some p) sid n s h =
      for_owner_cases (WithinCaps ledger lim) (λ owner. release owner sid n lim) p n
        lim.tenant_max_bytes lim.session_max_bytes s h
        (release-WithinCaps ledger lim p.owner_id sid n s h)

  -- From a store within the enabled caps, no sequence of `reserve_bytes` and `release_bytes` calls,
  -- by any callers, charges a tenant or a session past an enabled cap.
  pub serve-WithinCaps :
      (requests : List Request) (s : S)
      → WithinCaps ledger lim s
      → WithinCaps ledger lim (serve requests s)
  unfolding serve
  serve-WithinCaps [] s h = h
  serve-WithinCaps (reserving who sid n ∷ rest) s h =
      serve-WithinCaps rest _ (step_reserve who sid n s h)
  serve-WithinCaps (releasing who sid n ∷ rest) s h =
      serve-WithinCaps rest _ (step_release who sid n s h)

  abbrev pub reserved : Option Principal → ℕ → ℕ → S → S
  reserved who sid n s = (reserve_bytes reserve lim who sid n s).1

  abbrev pub given : Option Principal → ℕ → ℕ → S → S
  given who sid n s = (release_bytes release lim who sid n s).1

  -- Bytes that were reserved without an error and are then released leave every tenant and every
  -- session charged as before.
  pub release_bytes-reserve_bytes :
      (who : Option Principal) (sid n : ℕ) (s : S)
      → (reserve_bytes reserve lim who sid n s).0 ≡ ok tt
      → ((o : String) → tenant_used (given who sid n (reserved who sid n s)) o ≡ tenant_used s o)
        × ((i : ℕ) → session_used (given who sid n (reserved who sid n s)) i ≡ session_used s i)
  unfolding reserve_bytes release_bytes
  release_bytes-reserve_bytes none sid n s h = (λ o. refl, λ i. refl)
  release_bytes-reserve_bytes (some p) sid n s h =
      elim (Bool-cases (leb n 0 || (leb lim.tenant_max_bytes 0 && leb lim.session_max_bytes 0))) [
        | inl off ↦ (λ o. ground arith, λ i. ground arith)
        | inr on ↦
            let stored : (reserve p.owner_id sid n lim s).0 ≡ ok tt = ground arith in
            let back = release-reserve ledger lim p.owner_id sid n s stored in
            (λ o. ground (arith, back.0 o), λ i. ground (arith, back.1 i))
      ]

-- What a caller sees of a store: a refusal passes, any other error is that the store cannot be
-- reached, and the store's state is what the store left.
abbrev pub seen : {S : Type 0} → Result (Unit {0}) × S → Result (Unit {0}) × S
seen (ok u, s) = (ok tt, s)
seen (err (Error.quota_exceeded cap), s) = (err (Error.quota_exceeded cap), s)
seen (err e, s) = (err Error.quota_unavailable, s)

-- A caller without a principal, no bytes, and both caps off do not reach the store.
abbrev pub bytes_seen :
    {S : Type 0} → Op S → QuotaLimits → Option Principal → ℕ → ℕ → Exec S (Unit {0})
bytes_seen op lim none sid n s = (ok tt, s)
bytes_seen op lim (some p) sid n s =
    if (n == 0) || (lim.tenant_max_bytes == 0 && lim.session_max_bytes == 0)
    then (ok tt, s)
    else seen (op p.owner_id sid n lim s)

-- No principal and a limit that is off do not reach the store.
abbrev pub hit_seen :
    {S : Type 0}
    → (ℕ → String → QuotaLimits → Exec S (Unit {0}))
    → ℕ
    → QuotaLimits
    → Option Principal
    → Exec S (Unit {0})
hit_seen hit now lim none s = (ok tt, s)
hit_seen hit now lim (some p) s =
    if lim.requests_per_window == 0 then (ok tt, s) else seen (hit now p.owner_id lim s)

module _ {S : Type 0} (hit : ℕ → String → QuotaLimits → Exec S (Unit {0})) (reserve release : Op S)
    (lim : QuotaLimits) where
  run_after-seen : (out : Result (Unit {0}) × S) → run_after out ≡ seen out
  unfolding fail_closed
  run_after-seen (ok tt, s) = refl
  run_after-seen (err e, s) = ground arith

  run_op_lem : (op : Exec S (Unit {0})) (s : S) → run_op op s ≡ seen (op s)
  unfolding run_op
  run_op_lem op s = run_after-seen (op s)

  for_owner_lem :
      (op : Op S) (who : Option Principal) (sid n : ℕ) (s : S)
      → for_owner
          (λ owner. op owner sid n lim)
          (byte_owner who n lim.tenant_max_bytes lim.session_max_bytes)
          s
        ≡ bytes_seen op lim who sid n s
  unfolding byte_owner
  for_owner_lem op none sid n s = refl
  for_owner_lem op (some p) sid n s =
      let called = run_op_lem (op p.owner_id sid n lim) s in
      elim (Bool-cases (leb n 0)) [
        | inl none_asked ↦ rw none_asked (ground (arith, none_asked))
        | inr asked ↦
            elim (Bool-cases (leb lim.tenant_max_bytes 0 && leb lim.session_max_bytes 0)) [
              | inl off ↦ rw (asked, off) (ground (arith, asked, off))
              | inr on ↦ rw (asked, on, called) (ground (arith, asked, on))
            ]
      ]

  hit_quota-hit_seen :
      (who : Option Principal) (now : ℕ) (s : S)
      → hit_quota hit now lim who s ≡ hit_seen hit now lim who s
  unfolding hit_quota
  hit_quota-hit_seen none now s = refl
  hit_quota-hit_seen (some p) now s = elim (Bool-cases (leb lim.requests_per_window 0)) [
    | inl off ↦ rw off (ground (arith, off))
    | inr on ↦ rw (on, run_op_lem (hit now p.owner_id lim) s) (ground (arith, on))
  ]

  -- For every store, whatever its operations answer and leave: a request, a reservation and a
  -- release do not reach it without a principal, without bytes, or with the limits concerned off.
  -- Otherwise they leave what the store leaves; a refusal of the store is passed on, and any other
  -- error of it becomes QuotaUnavailableError, so a store that fails admits nothing.
  pub quota_answers :
      (who : Option Principal) (now sid n : ℕ) (s : S)
      → (hit_quota hit now lim who s ≡ hit_seen hit now lim who s)
        × (reserve_bytes reserve lim who sid n s ≡ bytes_seen reserve lim who sid n s)
        × (release_bytes release lim who sid n s ≡ bytes_seen release lim who sid n s)
  unfolding reserve_bytes release_bytes
  quota_answers who now sid n s = (
    hit_quota-hit_seen who now s,
    for_owner_lem reserve who sid n s,
    for_owner_lem release who sid n s,
  )
