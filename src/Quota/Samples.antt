-- ===== src/Quota/Samples.antt =====
-- Concrete values for the tests: limits, and a text for each UUID, in unary.
use pixeldive.Prelude.{ℕ, zero, suc, String, ◌≡◌, refl, sym, ap, ◌≢◌, arith}
use Prim.Native.String.{◌++◌ as concat, count}
use text.Mathlib.TextLemmas.{append_cancel_left, length-append}
use pixeldive.Quota.Limits.{QuotaLimits}

abbrev pub limits : QuotaLimits
limits = record {
  requests_per_window = 2;
  window_seconds = 10;
  tenant_max_bytes = 100;
  session_max_bytes = 60;
}

abbrev pub unary : ℕ → String
unary zero = ""
unary (suc n) = concat "1" (unary n)

one_more_ne_empty : (s : String) → concat "1" s ≢ ""
one_more_ne_empty s e = absurd (omega (arith, ap count e, length-append "1" s))

pub unary_injective : (i j : ℕ) → unary i ≡ unary j → i ≡ j
unary_injective zero zero e = refl
unary_injective zero (suc j) e = absurd (one_more_ne_empty (unary j) (sym e))
unary_injective (suc i) zero e = absurd (one_more_ne_empty (unary i) e)
unary_injective (suc i) (suc j) e =
    ap suc (unary_injective i j (append_cancel_left "1" (unary i) (unary j) e))
