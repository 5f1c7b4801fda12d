-- ===== src/Auth/Tests.antt =====
-- A key, and a caller that presents it.
use pixeldive.Prelude.{
  string_eq, nat_eq, ◌^◌, ◌<◌, String, ◌≡◌, refl, true, none, some, List, [], ◌∷◌, arith,
  if◌then◌else◌, length,
}
use text.Mathlib.TextEquality.{Char-path}
use Prim.Native.Char.{Char, code}
use pixeldive.Prelude.Dict.{Dict, get}
use pixeldive.Errors.{ok}
use pixeldive.Blobs.Spool.{Bytes}
use pixeldive.Blobs.Filenames.{chars}
use pixeldive.Blobs.Validate.{TextCase}
use pixeldive.Auth.{authenticate, bearer_token}
use pixeldive.Auth.Laws.{authenticate_lem, expected}

abbrev code_points : List Char → Bytes
code_points [] = []
code_points (c ∷ l) = code c ∷ code_points l

-- One byte for each character.
abbrev encode : String → Bytes
encode s = code_points (chars s)

abbrev texts : TextCase
texts = record { strip = λ s. s; lower = λ s. s }

abbrev keys : Dict String String
keys = ("k1", "alice") ∷ []

tails_equal : (s t : String) → encode s ≡ encode t → s ≡ t
unfolding chars
tails_equal String.[] String.[] e = refl
tails_equal String.[] (String.◌∷◌ d t) e = cc
tails_equal (String.◌∷◌ c s) String.[] e = cc
tails_equal (String.◌∷◌ c s) (String.◌∷◌ d t) e =
    let heads : code c ≡ code d = ground (arith, e) in
    let tails : encode s ≡ encode t = ground (arith, e) in
    rw (Char-path c d heads, tails_equal s t tails) refl

let_in :
    authenticate texts encode true keys (some "bearer k1")
    ≡ ok (some (record { owner_id = "alice" }))
unfolding authenticate
let_in = refl

token_short :
    (t : String) → bearer_token texts (some "bearer k1") ≡ some t → length (encode t) < 2 ^ 32
unfolding bearer_token chars
token_short t e = let same : "k1" ≡ t = ground (arith, e) in rw (← same) (omega arith)

authenticate_lem_example :
    authenticate texts encode true keys (some "bearer k1")
    ≡ (if true then expected texts keys (some "bearer k1") else ok none)
authenticate_lem_example =
    authenticate_lem encode tails_equal texts true keys (some "bearer k1") (λ t e. token_short t e)
      (unfold chars in omega arith, tt) (unfold get in refl, tt)
