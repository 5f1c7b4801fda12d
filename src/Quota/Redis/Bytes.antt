-- ===== src/Quota/Redis/Bytes.antt =====
-- The Redis store keeps the ledger's promise.
use pixeldive.Prelude.{
  nat_eq, string_eq, ℕ, ◌+◌, ◌-◌, String, ◌≡◌, refl, false, arith, if◌then◌else◌, ◌=?◌,
}
use text.Mathlib.TextEquality.{eq_iff}
use text.Mathlib.TextLemmas.{append_cancel_left}
use pixeldive.Quota.Ledger.{IsLedger, verdict, charged, given_back}
use pixeldive.Quota.Redis.{
  RedisServer, tenant_bytes_key, session_bytes_key, used_at, raise_reserve, reserve_script, give,
  release_script, reserve, release,
}
use pixeldive.Prelude.Text.{concat_ne}

beq-tenant_key : (a b : String) → (tenant_bytes_key a =? tenant_bytes_key b) ≡ (a =? b)
beq-tenant_key a b =
    ground (arith, eq_iff a b, eq_iff (tenant_bytes_key a) (tenant_bytes_key b), injective)
  where
    injective : tenant_bytes_key a ≡ tenant_bytes_key b → a ≡ b
    injective e = unfold tenant_bytes_key in append_cancel_left "pd:bytes:t:" a b e

module _ {Db : Type 0} (redis : RedisServer Db) (uuid_text : ℕ → String)
    (injective : (i j : ℕ) → uuid_text i ≡ uuid_text j → i ≡ j) where
  session_key_injective :
      (i j : ℕ) → session_bytes_key uuid_text i ≡ session_bytes_key uuid_text j → i ≡ j
  unfolding session_bytes_key
  session_key_injective i j e = injective i j (append_cancel_left "pd:bytes:s:" _ _ e)

  beq-session_key :
      (i j : ℕ) → (session_bytes_key uuid_text i =? session_bytes_key uuid_text j) ≡ (i =? j)
  beq-session_key i j = ground (
    arith,
    eq_iff (session_bytes_key uuid_text i) (session_bytes_key uuid_text j),
    session_key_injective i j,
  )

  cross : (a : String) (i : ℕ) → (tenant_bytes_key a =? session_bytes_key uuid_text i) ≡ false
  unfolding tenant_bytes_key session_bytes_key
  cross a i = concat_ne "pd:bytes:t:" "pd:bytes:s:" a (uuid_text i) refl refl

  cross_back : (a : String) (i : ℕ) → (session_bytes_key uuid_text i =? tenant_bytes_key a) ≡ false
  unfolding tenant_bytes_key session_bytes_key
  cross_back a i = concat_ne "pd:bytes:s:" "pd:bytes:t:" (uuid_text i) a refl refl

  used-incrby :
      (db : Db) (k : String) (n : ℕ) (j : String)
      → used_at redis (redis.incrby db k n) j
        ≡ (if k =? j then used_at redis db j + n else used_at redis db j)
  used-incrby db k n j = ground (arith, redis.get-incrby db k n j, eq_iff k j)

  used-give :
      (k : String) (n cap : ℕ) (db : Db) (j : String)
      → used_at redis (give redis k n cap db) j
        ≡ (if k =? j then given_back cap n (used_at redis db j) else used_at redis db j)
  unfolding give given_back
  used-give k n cap db j =
      ground
        (arith, redis.get-set db k (used_at redis db k - n) j, redis.get-del db k j, eq_iff k j)

  abbrev pub tenant_used : Db → String → ℕ
  tenant_used db owner = used_at redis db (tenant_bytes_key owner)

  abbrev pub session_used : Db → ℕ → ℕ
  session_used db sid = used_at redis db (session_bytes_key uuid_text sid)

  -- The verdict, the charge and the return of bytes are those of the specification.
  pub redis-IsLedger :
      IsLedger tenant_used session_used (reserve redis uuid_text) (release redis uuid_text)
  unfolding reserve release reserve_script release_script raise_reserve verdict charged
  redis-IsLedger = record {
    reserve_verdict = λ owner sid n lim db. ground arith;
    reserve_tenant = λ owner sid n lim db o.
        let tk = tenant_bytes_key owner in
        let sk = session_bytes_key uuid_text sid in
        ground (
          arith,
          beq-tenant_key owner o,
          cross_back o sid,
          eq_iff owner o,
          used-incrby db tk n (tenant_bytes_key o),
          used-incrby db sk n (tenant_bytes_key o),
          used-incrby (redis.incrby db tk n) sk n (tenant_bytes_key o),
        );
    reserve_session = λ owner sid n lim db i.
        let tk = tenant_bytes_key owner in
        let sk = session_bytes_key uuid_text sid in
        ground (
          arith,
          beq-session_key sid i,
          cross owner i,
          used-incrby db tk n (session_bytes_key uuid_text i),
          used-incrby db sk n (session_bytes_key uuid_text i),
          used-incrby (redis.incrby db tk n) sk n (session_bytes_key uuid_text i),
        );
    release_ok = λ owner sid n lim db. refl;
    release_tenant = λ owner sid n lim db o.
        let tk = tenant_bytes_key owner in
        let sk = session_bytes_key uuid_text sid in
        ground (
          arith,
          beq-tenant_key owner o,
          cross_back o sid,
          used-give tk n lim.tenant_max_bytes db (tenant_bytes_key o),
          used-give sk n lim.session_max_bytes (give redis tk n lim.tenant_max_bytes db)
              (tenant_bytes_key o),
        );
    release_session = λ owner sid n lim db i.
        let tk = tenant_bytes_key owner in
        let sk = session_bytes_key uuid_text sid in
        ground (
          arith,
          beq-session_key sid i,
          cross owner i,
          used-give tk n lim.tenant_max_bytes db (session_bytes_key uuid_text i),
          used-give sk n lim.session_max_bytes (give redis tk n lim.tenant_max_bytes db)
              (session_bytes_key uuid_text i),
        );
  }
