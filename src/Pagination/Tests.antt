-- ===== src/Pagination/Tests.antt =====
-- A cursor in unary, and three rows in pages of two.
use pixeldive.Prelude.{
  string_eq, nat_eq, ℕ, zero, suc, String, ◌≡◌, refl, ap, inl, inr, true, false, Option, none, some,
  List, [], ◌∷◌, ◌==◌, if◌then◌else◌, Bool-cases, ◌=?◌,
}
use Prim.Native.Char.{Char, char, code}
use text.Mathlib.TextEquality.{eq_iff}
use pixeldive.Errors.{ok}
use pixeldive.Pagination.{Key, CursorCodec, list_all, is_after}
use pixeldive.Pagination.Laws.{list_all_lem}

abbrev one : Char
one = char 49 tt

abbrev comma : Char
comma = char 44 tt

ones : ℕ → String
ones zero = ""
ones (suc n) = String.◌∷◌ one (ones n)

len : String → ℕ
len String.[] = 0
len (String.◌∷◌ c s) = suc (len s)

pub encode : ℕ → ℕ → String
encode zero id = String.◌∷◌ comma (ones id)
encode (suc stamp) id = String.◌∷◌ one (encode stamp id)

abbrev next_stamp : Option Key → Option Key
next_stamp none = none
next_stamp (some (stamp, id)) = some (suc stamp, id)

pub decode : String → Option Key
decode String.[] = none
decode (String.◌∷◌ c s) =
    let rest = next_stamp (decode s) in if code c == b',' then some (0, len s) else rest

len-ones : (n : ℕ) → len (ones n) ≡ n
unfolding len ones
len-ones zero = refl
len-ones (suc n) = ap suc (len-ones n)

pub decode-encode : (stamp id : ℕ) → decode (encode stamp id) ≡ some (stamp, id)
unfolding decode encode
decode-encode zero id = ap (λ n. some (0, n)) (len-ones id)
decode-encode (suc stamp) id = ap next_stamp (decode-encode stamp id)

not_empty : (c : Char) (s : String) → (String.◌∷◌ c s =? "") ≡ false
not_empty c s = elim (Bool-cases (String.◌∷◌ c s =? "")) [
  | inl same ↦ absurd (cc ((eq_iff (String.◌∷◌ c s) "").0 same))
  | inr other ↦ other
]

pub encode_ne : (stamp id : ℕ) → (encode stamp id =? "") ≡ false
unfolding encode
encode_ne zero id = not_empty comma (ones id)
encode_ne (suc stamp) id = not_empty one (encode stamp id)

abbrev pub codec : CursorCodec
codec = record {
  encode_cursor = λ k. encode k.0 k.1;
  decode = decode;
  decode-encode_cursor = λ k. decode-encode k.0 k.1;
  encode_cursor_ne = λ k. encode_ne k.0 k.1;
}

abbrev rows : List Key
rows = (3, 1) ∷ (2, 5) ∷ (2, 4) ∷ []

abbrev own_key : Key → Key
own_key k = k

list_all_lem_example : list_all own_key codec 3 true rows 2 ≡ ok rows
list_all_lem_example =
    list_all_lem own_key true codec rows
      (unfold is_after in ((refl, (refl, tt)), ((refl, tt), (tt, tt)))) 1
