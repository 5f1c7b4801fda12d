-- ===== src/Quota/Sql.antt =====
-- app/sessions/quota_sql_rows.py, quota_sql_ops.py and the methods of quota_sql.py: counters in the
-- table `tenant_quota`, keyed by scope. A method runs in one transaction under the row's lock, so it
-- is a function of the table. The JSON library and the text of a UUID are parameters.
mod Tests
pub mod Scopes
pub mod Bytes
pub mod Hits
use pixeldive.Prelude.{
  ℕ, ◌+◌, ◌-◌, String, ◌≡◌, true, false, Option, none, some, List, [], ◌∷◌, ◌++◌, ltb, leb,
  if◌then◌else◌, length, keep, ◌=?◌, nat_eq, string_eq,
}
use pixeldive.Prelude.Dict.{Dict, get, put}
use Prim.Native.String.{◌++◌ as concat}
use text.Mathlib.Text.{starts_with}
use pixeldive.Errors.{Result, ok, err, Error, Cap}
use pixeldive.Exec.{Exec, lift, modify, transaction, ◌>>=◌, ◌>>◌}
use pixeldive.Quota.Limits.{QuotaLimits}

-- `json.dumps` and `json.loads` of a list of timestamps; `loads` has no answer where `parse_hits`
-- raises. `fresh` is the column's default, the text `[]`.
pub record HitJson (Text : Type 0) : Type 0 where
  pub dumps : List ℕ → Text
  pub loads : Text → Option (List ℕ)
  pub fresh : Text
  pub loads_dumps : (hits : List ℕ) → loads (dumps hits) ≡ some hits
  pub loads_fresh : loads fresh ≡ some []

pub record QuotaRow (Text : Type 0) : Type 0 where
  pub bytes_used : ℕ
  pub hits : Text

abbrev pub Table : Type 0 → Type 0
Table Text = Dict String (QuotaRow Text)

unfoldable pub dialect_name : String → String
dialect_name url = if starts_with url "postgresql" then "postgresql" else "other"

abbrev select_row : String
select_row = "SELECT bytes_used, hits FROM tenant_quota WHERE scope = :scope"

unfoldable pub lock_select : String → String
lock_select dialect =
    if dialect =? "postgresql" then concat select_row " FOR UPDATE" else select_row

unfoldable pub tenant_scope : String → String
tenant_scope owner = concat "t:" owner

unfoldable pub session_scope : (ℕ → String) → ℕ → String
session_scope uuid_text sid = concat "s:" (uuid_text sid)

-- `item > now - window`, with the subtraction moved to the other side.
unfoldable pub prune_hits : List ℕ → ℕ → ℕ → List ℕ
prune_hits hits now window = keep (λ item. ltb now (item + window)) hits

unfoldable pub accepted_hits : List ℕ → ℕ → ℕ → Result (List ℕ)
accepted_hits hits now limit =
    if leb limit (length hits) then err (Error.quota_exceeded Cap.rate) else ok (hits ++ now ∷ [])

unfoldable pub next_bytes : ℕ → ℕ → ℕ → Cap → Result ℕ
next_bytes used n cap which =
    let updated = used + n in
    if ltb cap updated then err (Error.quota_exceeded which) else ok updated

unfoldable pub released_bytes : ℕ → ℕ → ℕ
released_bytes used n = let leftover = used - n in if ltb 0 leftover then leftover else 0

module _ {Text : Type 0} (json : HitJson Text) where
  unfoldable pub parse_hits : Text → Result (List ℕ)
  parse_hits raw = elim (json.loads raw) [ none ↦ err Error.value_error | some hits ↦ ok hits ]

  abbrev pub new_row : QuotaRow Text
  new_row = record { bytes_used = 0; hits = json.fresh }

  abbrev pub row_or_new : Option (QuotaRow Text) → QuotaRow Text
  row_or_new none = new_row
  row_or_new (some row) = row

  -- INSERT … ON CONFLICT DO NOTHING, then SELECT.
  unfoldable pub locked_row : String → Exec (Table Text) (QuotaRow Text)
  locked_row scope table = let row = row_or_new (get table scope) in (ok row, put table scope row)

  unfoldable pub record_hit : ℕ → String → QuotaLimits → Exec (Table Text) (Unit {0})
  unfolding locked_row parse_hits
  record_hit now scope lim = do
    row ← locked_row scope
    hits ← lift (parse_hits row.hits)
    accepted ←
        lift (accepted_hits (prune_hits hits now lim.window_seconds) now lim.requests_per_window)
    modify (λ table. put table scope (record row { hits = json.dumps accepted }))

  unfoldable pub add_capped : String → ℕ → ℕ → Cap → Exec (Table Text) (Unit {0})
  unfolding locked_row
  add_capped scope n cap which = do
    row ← locked_row scope
    updated ← lift (next_bytes row.bytes_used n cap which)
    modify (λ table. put table scope (record row { bytes_used = updated }))

  unfoldable pub give_back : String → ℕ → Exec (Table Text) (Unit {0})
  unfolding locked_row
  give_back scope n = do
    row ← locked_row scope
    modify (λ table. put table scope (record row { bytes_used = released_bytes row.bytes_used n }))

  -- `if cap > 0: await op`
  abbrev pub when_capped : ℕ → Exec (Table Text) (Unit {0}) → Exec (Table Text) (Unit {0})
  when_capped cap op table = elim (ltb 0 cap) [ true ↦ op table | false ↦ (ok tt, table) ]

  module _ (uuid_text : ℕ → String) where
    unfoldable pub reserve_both : String → ℕ → ℕ → QuotaLimits → Exec (Table Text) (Unit {0})
    reserve_both owner sid n lim = do
      when_capped lim.tenant_max_bytes
          (add_capped (tenant_scope owner) n lim.tenant_max_bytes Cap.tenant)
      when_capped lim.session_max_bytes
          (add_capped (session_scope uuid_text sid) n lim.session_max_bytes Cap.session)

    unfoldable pub release_both : String → ℕ → ℕ → QuotaLimits → Exec (Table Text) (Unit {0})
    release_both owner sid n lim = do
      when_capped lim.tenant_max_bytes (give_back (tenant_scope owner) n)
      when_capped lim.session_max_bytes (give_back (session_scope uuid_text sid) n)

    unfoldable pub reserve : String → ℕ → ℕ → QuotaLimits → Exec (Table Text) (Unit {0})
    reserve owner sid n lim = transaction (reserve_both owner sid n lim)

    unfoldable pub release : String → ℕ → ℕ → QuotaLimits → Exec (Table Text) (Unit {0})
    release owner sid n lim = transaction (release_both owner sid n lim)

  unfoldable pub hit : ℕ → String → QuotaLimits → Exec (Table Text) (Unit {0})
  hit now owner lim = transaction (record_hit now (tenant_scope owner) lim)
