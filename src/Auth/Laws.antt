-- ===== src/Auth/Laws.antt =====
-- Which tokens are let in.
use pixeldive.Prelude.{
  string_eq, nat_eq, ℕ, ◌-◌, ◌^◌, ◌<◌, max, String, ◌≡◌, refl, ap, ◌∙◌, ◌↔◌, inl, inr, Bool, true,
  false, Option, none, some, [], ◌∷◌, ◌++◌, arith, if◌then◌else◌, ==_iff, Bool-cases, length, drop,
  ◌=?◌,
}
use text.Mathlib.TextEquality.{eq_iff}
use pixeldive.Prelude.Dict.{Dict, get}
use pixeldive.Prelude.All.{All}
use pixeldive.Errors.{Result, ok, err, Error}
use pixeldive.Blobs.Spool.{Bytes}
use pixeldive.Blobs.Validate.{TextCase, bytes_eq}
use pixeldive.Quota.Tenant.{Principal}
use pixeldive.Auth.{
  to_bytes, zeros, folded, same_token, lookup_from, lookup_owner, bearer_token, authenticate,
  principal_or_error, owner_of_token,
}

bytes_eq_iff : (a b : Bytes) → (bytes_eq a b ≡ true) ↔ (a ≡ b)
unfolding bytes_eq
bytes_eq_iff [] [] = (λ h. refl, λ h. refl)
bytes_eq_iff [] (b ∷ bs) = (λ h. cc, λ h. cc)
bytes_eq_iff (a ∷ xs) [] = (λ h. cc, λ h. cc)
bytes_eq_iff (a ∷ xs) (b ∷ bs) = (
  λ h. ground (arith, bytes_eq_iff xs bs, ==_iff a b),
  λ h. ground (arith, bytes_eq_iff xs bs, ==_iff a b),
)

-- The four bytes tell lengths below 2 ^ 32 apart.
to_bytes_injective : (m n : ℕ) → m < 2 ^ 32 → n < 2 ^ 32 → to_bytes m ≡ to_bytes n → m ≡ n
unfolding to_bytes
to_bytes_injective m n hm hn e = ground (arith, e, hm, hn)

same_length_append : (a b c d : Bytes) → length a ≡ length b → a ++ c ≡ b ++ d → a ≡ b
same_length_append [] [] c d l e = refl
same_length_append [] (b ∷ bs) c d l e = absurd (omega arith)
same_length_append (a ∷ xs) [] c d l e = absurd (omega arith)
same_length_append (a ∷ xs) (b ∷ bs) c d l e = ground (arith, same_length_append xs bs c d, l, e)

folded_injective :
    (a b : Bytes) (width : ℕ)
    → length a < 2 ^ 32
    → length b < 2 ^ 32
    → folded a width ≡ folded b width
    → a ≡ b
unfolding folded
folded_injective a b width ha hb e =
    let n = to_bytes_injective (length a) (length b) ha hb (
      same_length_append (to_bytes (length a)) (to_bytes (length b)) _ _ (unfold to_bytes in refl)
        e) in
    same_length_append a b (zeros (width - length a)) (zeros (width - length b)) n (ap (drop 4) e)

same_token_iff :
    (a b : Bytes) → length a < 2 ^ 32 → length b < 2 ^ 32 → (same_token a b ≡ true) ↔ (a ≡ b)
unfolding same_token
same_token_iff a b ha hb =
    let width = max (length a) (length b) in
    (
      λ h. folded_injective a b width ha hb ((bytes_eq_iff (folded a width) (folded b width)).0 h),
      λ e. rw e ((bytes_eq_iff (folded b (max (length b) (length b))) _).1 refl),
    )

same_option : (o : Option String) → (elim o [ none ↦ none | some mapped ↦ some mapped ]) ≡ o
same_option none = refl
same_option (some mapped) = refl

-- A dictionary holds a key once.
abbrev pub HasUniqueKeys : Dict String String → Type 0
HasUniqueKeys [] = Unit
HasUniqueKeys ((k, v) ∷ d) = (get d k ≡ none) × HasUniqueKeys d

-- A later answer stands before an earlier one.
merged :
    (hit : Bool) (found owner : Option String) (mapped : String)
    → (hit ≡ true → found ≡ none)
    → (elim found [ none ↦ (if hit then some mapped else owner) | some m ↦ some m ])
      ≡ (elim (if hit then some mapped else found) [ none ↦ owner | some m ↦ some m ])
merged true none owner mapped h = refl
merged true (some m) owner mapped h = absurd (ground (arith, h refl))
merged false none owner mapped h = refl
merged false (some m) owner mapped h = refl

-- What `authenticate` answers with authentication on: the owner of the presented token, and else
-- UnauthenticatedError.
pub expected : TextCase → Dict String String → Option String → Result (Option Principal)
expected texts keys authorization = elim (bearer_token texts authorization) [
  | none ↦ err Error.unauthenticated
  | some token ↦ principal_or_error (get keys token)
]

module _ (encode : String → Bytes)
    (encode_injective : (s t : String) → encode s ≡ encode t → s ≡ t) where
  abbrev pub IsShort : String → Type 0
  IsShort s = length (encode s) < 2 ^ 32

  same_token-encode :
      (s t : String) → IsShort s → IsShort t → same_token (encode s) (encode t) ≡ (t =? s)
  same_token-encode s t hs ht = ground (
    arith,
    same_token_iff (encode s) (encode t) hs ht,
    eq_iff t s,
    encode_injective s t,
    ap encode,
  )

  lookup_from_lem :
      (token : String) (keys : Dict String String) (owner : Option String)
      → IsShort token
      → All (λ r. IsShort r.0) keys
      → HasUniqueKeys keys
      → lookup_from encode token keys owner
        ≡ elim (get keys token) [ none ↦ owner | some mapped ↦ some mapped ]
  unfolding lookup_from get
  lookup_from_lem token [] owner short all unique = refl
  lookup_from_lem token ((candidate, mapped) ∷ keys) owner short all unique =
      let owner' = if candidate =? token then some mapped else owner in
      let step =
        ap (λ b. lookup_from encode token keys (if b then some mapped else owner))
          (same_token-encode token candidate short all.0) in
      let rest = lookup_from_lem token keys owner' short all.1 unique.1 in
      let here : candidate ≡ token → get keys token ≡ none = λ e. rw (← e) unique.0 in
      step
      ∙ rest
      ∙ merged (candidate =? token) (get keys token) owner mapped
          (λ same. here ((eq_iff candidate token).0 same))

  from_token :
      (keys : Dict String String) (token : Option String)
      → ((t : String) → token ≡ some t → IsShort t)
      → All (λ r. IsShort r.0) keys
      → HasUniqueKeys keys
      → principal_or_error (owner_of_token encode keys token) ≡ (elim token [
        | none ↦ err Error.unauthenticated
        | some t ↦ principal_or_error (get keys t)
      ])
  from_token keys none short all unique = refl
  from_token keys (some token) short all unique = ap principal_or_error (
      unfold lookup_owner in
      (lookup_from_lem token keys none (short token refl) all unique
        ∙ same_option (get keys token)))

  -- With authentication off every caller passes, without a principal. With it on, for an injective
  -- encoding, distinct keys, and tokens and keys shorter than 2 ^ 32 bytes, a caller passes exactly
  -- with a bearer token that is one of the keys, as the owner that the key is mapped to, although
  -- the look-up compares padded digests and does not stop at a match.
  pub authenticate_lem :
      (texts : TextCase) (auth_required : Bool) (keys : Dict String String)
      (authorization : Option String)
      → ((t : String) → bearer_token texts authorization ≡ some t → IsShort t)
      → All (λ r. IsShort r.0) keys
      → HasUniqueKeys keys
      → authenticate texts encode auth_required keys authorization
        ≡ (if auth_required then expected texts keys authorization else ok none)
  unfolding authenticate expected
  authenticate_lem texts auth_required keys authorization short all unique =
      let e = from_token keys (bearer_token texts authorization) short all unique in
      elim (Bool-cases auth_required) [ inl on ↦ rw on e | inr off ↦ rw off refl ]
