-- ===== src/Quota/Sql/Hits.antt =====
-- The SQL store's rate window against that of the in-process store.
use pixeldive.Prelude.{
  nat_eq, string_eq, ℕ, ◌+◌, ◌≤◌, ◌<◌, String, ◌≡◌, refl, true, false, Option, some, List, [], ◌∷◌,
  ◌++◌, arith, keep,
}
use text.Mathlib.TextEquality.{eq_iff}
use pixeldive.Prelude.Dict.{get, put, get-put}
use pixeldive.Quota.Limits.{QuotaLimits}
use pixeldive.Quota.Sql.{
  hit, HitJson, Table, tenant_scope, prune_hits, accepted_hits, row_or_new, record_hit,
}
use pixeldive.Quota.Memory.{drop_stale, hit_bucket}
use pixeldive.Errors.{is_ok}

-- Timestamps in the order in which they were taken.
abbrev pub Sorted : List ℕ → Type 0
Sorted [] = Unit {0}
Sorted (x ∷ []) = Unit {0}
Sorted (x ∷ y ∷ l) = (x ≤ y) × Sorted (y ∷ l)

-- Nothing is pruned from a sorted list whose first timestamp lies in the window.
prune_hits_live :
    (now window x : ℕ) (l : List ℕ)
    → now < x + window
    → Sorted (x ∷ l)
    → prune_hits (x ∷ l) now window ≡ x ∷ l
unfolding prune_hits keep
prune_hits_live now window x [] h s = ground arith
prune_hits_live now window x (y ∷ l) h s =
    ground (arith, prune_hits_live now window y l (omega arith) s.1)

-- On a sorted list the filter of the SQL store and the loop of the in-process store drop the same
-- timestamps.
pub prune_hits-drop_stale :
    (hits : List ℕ) (now window : ℕ)
    → Sorted hits
    → prune_hits hits now window ≡ drop_stale now window hits
unfolding prune_hits keep drop_stale
prune_hits-drop_stale [] now window s = refl
prune_hits-drop_stale (x ∷ []) now window s = ground arith
prune_hits-drop_stale (x ∷ y ∷ l) now window s = ground (
  arith,
  prune_hits-drop_stale (y ∷ l) now window s.1,
  λ (h : now < x + window). prune_hits_live now window x (y ∷ l) h s,
)

module _ {Text : Type 0} (json : HitJson Text) where
  -- What the row of a tenant records.
  abbrev pub stored_hits : Table Text → String → Option (List ℕ)
  stored_hits table owner = json.loads (row_or_new json (get table (tenant_scope owner))).hits

  -- If the tenant's row records the sorted list `hits`, the SQL store admits the request exactly
  -- when the in-process store with the bucket `hits` does. An admitted request leaves the row with
  -- the other store's bucket, and a refused one leaves the whole table as it was.
  pub sql_hit-memory_hit :
      (now : ℕ) (owner : String) (lim : QuotaLimits) (table : Table Text) (hits : List ℕ)
      → stored_hits table owner ≡ some hits
      → Sorted hits
      → ((hit json now owner lim table).0
          ≡ (hit_bucket now lim (drop_stale now lim.window_seconds hits)).0)
        × (is_ok (hit json now owner lim table).0 ≡ true
            → stored_hits (hit json now owner lim table).1 owner
              ≡ some (hit_bucket now lim (drop_stale now lim.window_seconds hits)).1)
        × (is_ok (hit json now owner lim table).0 ≡ false
            → (hit json now owner lim table).1 ≡ table)
  unfolding hit record_hit accepted_hits hit_bucket
  sql_hit-memory_hit now owner lim table hits e s =
      let scope = tenant_scope owner in
      let row = row_or_new json (get table scope) in
      let w = lim.window_seconds in
      let same = prune_hits-drop_stale hits now w s in
      let next = prune_hits hits now w ++ now ∷ [] in
      let row' = record row { hits = json.dumps next } in
      let stored = get-put table scope scope row in
      let updated = get-put (put table scope row) scope scope row' in
      (
        ground (arith, same),
        λ h. ground (arith, same, stored, updated, eq_iff scope scope, json.loads_dumps next),
        λ h. ground (arith, same),
      )
