-- ===== src/Quota/Sql/Tests.antt =====
-- The theorems of the SQL store at concrete inputs: timestamps are stored as they are, and a UUID is
-- written in unary.
use pixeldive.Prelude.{nat_eq, string_eq, ℕ, ◌≡◌, refl, true, false, some, List, [], ◌∷◌, arith}
use pixeldive.Prelude.Dict.{get}
use pixeldive.Quota.Samples.{limits, unary, unary_injective}
use pixeldive.Errors.{is_ok}
use pixeldive.Quota.Ledger.{IsLedger}
use pixeldive.Quota.Memory.{drop_stale, hit_bucket}
use pixeldive.Quota.Sql.{HitJson, Table, hit, reserve, release, tenant_scope}
use pixeldive.Quota.Sql.Bytes.{tenant_used, session_used, sql-IsLedger}
use pixeldive.Quota.Sql.Hits.{stored_hits, sql_hit-memory_hit}

abbrev plain : HitJson (List ℕ)
plain = record {
  dumps = λ hits. hits;
  loads = λ text. some text;
  fresh = [];
  loads_dumps = λ hits. refl;
  loads_fresh = refl;
}

abbrev table : Table (List ℕ)
table = ("t:a", record { bytes_used = 7; hits = 1 ∷ 2 ∷ [] }) ∷ []

sql-IsLedger_example :
    IsLedger
      (tenant_used plain unary unary_injective)
      (session_used plain unary unary_injective)
      (reserve plain unary)
      (release plain unary)
sql-IsLedger_example = sql-IsLedger plain unary unary_injective

sql_hit-memory_hit_example :
    ((hit plain 12 "a" limits table).0 ≡ (hit_bucket 12 limits (drop_stale 12 10 (1 ∷ 2 ∷ []))).0)
    × (is_ok (hit plain 12 "a" limits table).0 ≡ true
        → stored_hits plain (hit plain 12 "a" limits table).1 "a"
          ≡ some (hit_bucket 12 limits (drop_stale 12 10 (1 ∷ 2 ∷ []))).1)
    × (is_ok (hit plain 12 "a" limits table).0 ≡ false → (hit plain 12 "a" limits table).1 ≡ table)
unfolding get tenant_scope
sql_hit-memory_hit_example =
    sql_hit-memory_hit plain 12 "a" limits table (1 ∷ 2 ∷ []) refl (omega arith)
