-- ===== src/Quota/Sql/Bytes.antt =====
-- The SQL store keeps the ledger's promise.
use pixeldive.Prelude.{
  nat_eq, string_eq, ℕ, ◌+◌, ◌-◌, String, ◌≡◌, refl, arith, ltb, if◌then◌else◌, ◌=?◌,
}
use text.Mathlib.TextEquality.{eq_iff}
use pixeldive.Prelude.Dict.{put, get, get-put}
use pixeldive.Quota.Ledger.{verdict, charged, given_back, IsLedger}
use pixeldive.Quota.Sql.Scopes.{
  beq-tenant_scope, beq-cross_scope, beq-scope_cross, beq-session_scope,
}
use pixeldive.Quota.Limits.{QuotaLimits}
use pixeldive.Errors.{ok, err, Error, Cap, is_ok}
use pixeldive.Quota.Sql.{
  HitJson, Table, next_bytes, released_bytes, row_or_new, add_capped, give_back, tenant_scope,
  session_scope, reserve_both, reserve, release_both, release,
}

module _ {Text : Type 0} (json : HitJson Text) where
  -- The bytes in a scope's row; a scope with no row has none.
  abbrev pub bytes_at : Table Text → String → ℕ
  bytes_at table scope = (row_or_new json (get table scope)).bytes_used

  module _ (k : String) (n cap : ℕ) (which : Cap) (table : Table Text) where
    ok-add_capped :
        (add_capped json k n cap which table).0
        ≡ (if ltb cap (bytes_at table k + n) then err (Error.quota_exceeded which) else ok tt)
    unfolding add_capped next_bytes
    ok-add_capped = ground arith

    bytes-add_capped :
        (j : String)
        → bytes_at (add_capped json k n cap which table).1 j ≡ (
            if k =? j
            then (if ltb cap (bytes_at table k + n) then bytes_at table j else bytes_at table j + n)
            else bytes_at table j)
    unfolding add_capped next_bytes
    bytes-add_capped j =
        let row = row_or_new json (get table k) in
        let added = record row { bytes_used = row.bytes_used + n } in
        ground (arith, eq_iff k j, get-put table k j row, get-put (put table k row) k j added)

  module _ (k : String) (n : ℕ) (table : Table Text) where
    bytes-give_back :
        (j : String)
        → bytes_at (give_back json k n table).1 j
          ≡ (if k =? j then bytes_at table j - n else bytes_at table j)
    unfolding give_back released_bytes
    bytes-give_back j =
        let row = row_or_new json (get table k) in
        let left = record row { bytes_used = row.bytes_used - n } in
        ground (arith, eq_iff k j, get-put table k j row, get-put (put table k row) k j left)

    ok-give_back : (give_back json k n table).0 ≡ ok tt
    unfolding give_back
    ok-give_back = refl

  module _ (uuid_text : ℕ → String)
      (injective : (i j : ℕ) → uuid_text i ≡ uuid_text j → i ≡ j) where
    abbrev pub tenant_used : Table Text → String → ℕ
    tenant_used table owner = bytes_at table (tenant_scope owner)

    abbrev pub session_used : Table Text → ℕ → ℕ
    session_used table sid = bytes_at table (session_scope uuid_text sid)

    module _ (owner : String) (sid n : ℕ) (lim : QuotaLimits) (table : Table Text) where
      abbrev charged_tenant : Table Text
      charged_tenant =
          (add_capped json (tenant_scope owner) n lim.tenant_max_bytes Cap.tenant table).1

      reserve-verdict :
          (reserve json uuid_text owner sid n lim table).0
          ≡ verdict lim n (tenant_used table owner) (session_used table sid)
      unfolding reserve reserve_both verdict
      reserve-verdict = ground (
        arith,
        ok-add_capped (tenant_scope owner) n lim.tenant_max_bytes Cap.tenant table,
        ok-add_capped (session_scope uuid_text sid) n lim.session_max_bytes Cap.session table,
        ok-add_capped (session_scope uuid_text sid) n lim.session_max_bytes Cap.session
            charged_tenant,
        bytes-add_capped (tenant_scope owner) n lim.tenant_max_bytes Cap.tenant table
            (session_scope uuid_text sid),
        beq-cross_scope uuid_text owner sid,
      )

      reserve_tenant :
          (o : String)
          → tenant_used (reserve json uuid_text owner sid n lim table).1 o ≡ (
              if owner =? o
              then charged
                  (is_ok (verdict lim n (tenant_used table owner) (session_used table sid)))
                  lim.tenant_max_bytes
                  n
                  (tenant_used table o)
              else tenant_used table o)
      unfolding reserve reserve_both verdict charged
      reserve_tenant o = ground (
        arith,
        eq_iff owner o,
        beq-tenant_scope owner o,
        ok-add_capped (tenant_scope owner) n lim.tenant_max_bytes Cap.tenant table,
        bytes-add_capped (tenant_scope owner) n lim.tenant_max_bytes Cap.tenant table
            (session_scope uuid_text sid),
        bytes-add_capped (tenant_scope owner) n lim.tenant_max_bytes Cap.tenant table
            (tenant_scope o),
        beq-cross_scope uuid_text owner sid,
        beq-scope_cross uuid_text o sid,
        ok-add_capped (session_scope uuid_text sid) n lim.session_max_bytes Cap.session table,
        ok-add_capped (session_scope uuid_text sid) n lim.session_max_bytes Cap.session
            charged_tenant,
        bytes-add_capped (session_scope uuid_text sid) n lim.session_max_bytes Cap.session table
            (tenant_scope o),
        bytes-add_capped (session_scope uuid_text sid) n lim.session_max_bytes Cap.session
            charged_tenant (tenant_scope o),
      )

      reserve_session :
          (i : ℕ)
          → session_used (reserve json uuid_text owner sid n lim table).1 i ≡ (
              if sid =? i
              then charged
                  (is_ok (verdict lim n (tenant_used table owner) (session_used table sid)))
                  lim.session_max_bytes
                  n
                  (session_used table i)
              else session_used table i)
      unfolding reserve reserve_both verdict charged
      reserve_session i = ground (
        arith,
        beq-session_scope uuid_text injective sid i,
        ok-add_capped (tenant_scope owner) n lim.tenant_max_bytes Cap.tenant table,
        bytes-add_capped (tenant_scope owner) n lim.tenant_max_bytes Cap.tenant table
            (session_scope uuid_text sid),
        bytes-add_capped (tenant_scope owner) n lim.tenant_max_bytes Cap.tenant table
            (session_scope uuid_text i),
        beq-cross_scope uuid_text owner sid,
        beq-cross_scope uuid_text owner i,
        ok-add_capped (session_scope uuid_text sid) n lim.session_max_bytes Cap.session table,
        ok-add_capped (session_scope uuid_text sid) n lim.session_max_bytes Cap.session
            charged_tenant,
        bytes-add_capped (session_scope uuid_text sid) n lim.session_max_bytes Cap.session table
            (session_scope uuid_text i),
        bytes-add_capped (session_scope uuid_text sid) n lim.session_max_bytes Cap.session
            charged_tenant (session_scope uuid_text i),
      )

      abbrev given_tenant : Table Text
      given_tenant = (give_back json (tenant_scope owner) n table).1

      release_ok : (release json uuid_text owner sid n lim table).0 ≡ ok tt
      unfolding release release_both
      release_ok = ground (
        arith,
        ok-give_back (tenant_scope owner) n table,
        ok-give_back (session_scope uuid_text sid) n table,
        ok-give_back (session_scope uuid_text sid) n given_tenant,
      )

      release_tenant :
          (o : String)
          → tenant_used (release json uuid_text owner sid n lim table).1 o ≡ (
              if owner =? o
              then given_back lim.tenant_max_bytes n (tenant_used table o)
              else tenant_used table o)
      unfolding release release_both given_back
      release_tenant o = ground (
        arith,
        beq-tenant_scope owner o,
        beq-scope_cross uuid_text o sid,
        ok-give_back (tenant_scope owner) n table,
        ok-give_back (session_scope uuid_text sid) n table,
        ok-give_back (session_scope uuid_text sid) n given_tenant,
        bytes-give_back (tenant_scope owner) n table (tenant_scope o),
        bytes-give_back (session_scope uuid_text sid) n table (tenant_scope o),
        bytes-give_back (session_scope uuid_text sid) n given_tenant (tenant_scope o),
      )

      release_session :
          (i : ℕ)
          → session_used (release json uuid_text owner sid n lim table).1 i ≡ (
              if sid =? i
              then given_back lim.session_max_bytes n (session_used table i)
              else session_used table i)
      unfolding release release_both given_back
      release_session i = ground (
        arith,
        beq-session_scope uuid_text injective sid i,
        beq-cross_scope uuid_text owner i,
        ok-give_back (tenant_scope owner) n table,
        ok-give_back (session_scope uuid_text sid) n table,
        ok-give_back (session_scope uuid_text sid) n given_tenant,
        bytes-give_back (tenant_scope owner) n table (session_scope uuid_text i),
        bytes-give_back (session_scope uuid_text sid) n table (session_scope uuid_text i),
        bytes-give_back (session_scope uuid_text sid) n given_tenant (session_scope uuid_text i),
      )

    -- The verdict, the charge and the return of bytes are those of the specification.
    pub sql-IsLedger :
        IsLedger tenant_used session_used (reserve json uuid_text) (release json uuid_text)
    sql-IsLedger = record {
      reserve_verdict = reserve-verdict;
      reserve_tenant = reserve_tenant;
      reserve_session = reserve_session;
      release_ok = release_ok;
      release_tenant = release_tenant;
      release_session = release_session;
    }
