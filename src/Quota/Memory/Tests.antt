-- ===== src/Quota/Memory/Tests.antt =====
-- Runs of the in-process store, and its theorems at concrete inputs.
use pixeldive.Prelude.{nat_eq, string_eq, ℕ, ◌≤◌, String, ◌≡◌, refl, List, [], ◌∷◌, arith}
use pixeldive.Prelude.Dict.{get, put}
use pixeldive.Quota.Samples.{limits}
use pixeldive.Errors.{err, Error, Cap}
use pixeldive.Quota.Memory.{
  drop_stale, hit_bucket, record_hit, hit, reserve, reject_if_over, add_bytes,
}
use pixeldive.Quota.Memory.Window.{admitted_within, hit_all, empty_store, admitted_within-le-limit}

abbrev attempts : List (String × ℕ)
attempts = ("a", 1) ∷ ("a", 2) ∷ ("b", 2) ∷ ("a", 3) ∷ ("a", 12) ∷ []

-- The third request of "a" is refused; at 12 its first one has left the window.
attempts_run :
    hit_all limits attempts empty_store [] ≡ ("a", 12) ∷ ("b", 2) ∷ ("a", 2) ∷ ("a", 1) ∷ []
unfolding hit_all hit record_hit drop_stale hit_bucket get put
attempts_run = refl

second_session_refused :
    (reserve "a" 2 50 limits (reserve "a" 1 60 limits empty_store).1).0
    ≡ err (Error.quota_exceeded Cap.tenant)
unfolding reserve reject_if_over add_bytes get put
second_session_refused = refl

admitted_within-le-limit_example :
    admitted_within "a" 12 10 (hit_all limits attempts empty_store []) ≤ 2
admitted_within-le-limit_example = admitted_within-le-limit limits attempts 0 (omega arith) "a" 12
