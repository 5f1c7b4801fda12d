-- ===== src/Prelude/Text.antt =====
-- Texts that begin with different tags differ.
use Prim.Native.String.{String, ◌++◌ as concat, count}
use mathlib.Core.Path.{◌≡◌}
use mathlib.Core.Bool.{false}
use text.Mathlib.Text.{◌==◌ as str_eq}
use text.Mathlib.TextEquality.{eq_iff}
use text.Mathlib.TextLemmas.{append_inj}
use native.Mathlib.Omega.{arith}

-- Two tags of one length that a comparison tells apart keep what follows them apart.
pub concat_ne :
    (p q s t : String)
    → count p ≡ count q
    → str_eq p q ≡ false
    → str_eq (concat p s) (concat q t) ≡ false
concat_ne p q s t h d = ground (
  arith,
  eq_iff (concat p s) (concat q t),
  eq_iff p q,
  λ (e : concat p s ≡ concat q t). append_inj e h,
)
