-- ===== src/Settings/Keys.antt =====
-- What the keys of API_KEYS are.
use pixeldive.Prelude.{
  string_eq, String, ◌≡◌, refl, ap, ◌∙◌, inl, inr, Bool, true, false, not, ◌&&◌, ◌||◌, Option, none,
  some, List, [], ◌∷◌, ◌++◌, map, arith, if◌then◌else◌, Bool-cases, keep, ◌=?◌, contains,
}
use mathlib.Core.List.{append_assoc, append-nil}
use text.Mathlib.TextEquality.{eq_iff}
use pixeldive.Prelude.Dict.{Dict, get, put, get-put}
use pixeldive.Errors.{Result, ok, err, Error}
use pixeldive.Blobs.Store.{is_some}
use pixeldive.Settings.{
  KeyText, add_pairs, parse_json_keys, json_keys, parse_pair_keys, entries, parse_api_keys,
  token_owner,
}

-- No token stands twice.
unfoldable pub tokens_differ : List (String × String) → Bool
tokens_differ [] = true
tokens_differ ((token, owner) ∷ pairs) =
    not (contains token (map (λ p. p.0) pairs)) && tokens_differ pairs

-- No token of the pairs is among the keys.
unfoldable fresh : Dict String String → List (String × String) → Bool
fresh keys [] = true
fresh keys ((token, owner) ∷ pairs) = not (is_some (get keys token)) && fresh keys pairs

put_new :
    (keys : Dict String String) (token owner : String)
    → is_some (get keys token) ≡ false
    → put keys token owner ≡ keys ++ (token, owner) ∷ []
unfolding put get
put_new [] token owner new = refl
put_new ((t, o) ∷ keys) token owner new = elim (Bool-cases (t =? token)) [
  | inl same ↦ absurd (cc (rw same at new))
  | inr other ↦ rw (other, put_new keys token owner (rw other at new)) refl
]

-- A key that is put in must not stand among the pairs that follow.
fresh-put :
    (keys : Dict String String) (token owner : String) (pairs : List (String × String))
    → is_some (get keys token) ≡ false
    → fresh (put keys token owner) pairs
      ≡ (fresh keys pairs && not (contains token (map (λ p. p.0) pairs)))
unfolding fresh contains
fresh-put keys token owner [] new = refl
fresh-put keys token owner ((t, o) ∷ pairs) new = ground (
  arith,
  new,
  fresh-put keys token owner pairs new,
  get-put keys token t owner,
  eq_iff token t,
  eq_iff t token,
)

add_pairs_lem :
    (pairs : List (String × String)) (keys : Dict String String)
    → add_pairs keys pairs ≡ (
        if fresh keys pairs && tokens_differ pairs
        then ok (keys ++ pairs)
        else err Error.value_error)
unfolding add_pairs fresh tokens_differ
add_pairs_lem [] keys = rw (append-nil keys) refl
add_pairs_lem ((token, owner) ∷ pairs) keys = elim (Bool-cases (is_some (get keys token))) [
  | inl there ↦ rw there refl
  | inr new ↦
      let rest = add_pairs_lem pairs (put keys token owner) in
      rw (new, rest, fresh-put keys token owner pairs new, put_new keys token owner new)
        (rw (append_assoc keys ((token, owner) ∷ []) pairs) (ground (arith)))
]

fresh-empty : (pairs : List (String × String)) → fresh [] pairs ≡ true
unfolding fresh get
fresh-empty [] = refl
fresh-empty (pair ∷ pairs) = fresh-empty pairs

-- The keys of some pairs: the pairs themselves, or an error where a token stands twice.
abbrev pub keys_of : Result (List (String × String)) → Result (Dict String String)
keys_of (err e) = err e
keys_of (ok pairs) = if tokens_differ pairs then ok pairs else err Error.value_error

add_pairs-keys_of : (pairs : List (String × String)) → add_pairs [] pairs ≡ keys_of (ok pairs)
add_pairs-keys_of pairs = rw (add_pairs_lem pairs [], fresh-empty pairs) refl

module _ {A : Type 0} (p : A → Bool) (a : A) (l : List A) where
  keep-true : p a ≡ true → keep p (a ∷ l) ≡ a ∷ keep p l
  unfolding keep
  keep-true h = rw (h, keep) refl

  keep-false : p a ≡ false → keep p (a ∷ l) ≡ keep p l
  unfolding keep
  keep-false h = rw (h, keep) refl

module _ (texts : KeyText) where
  -- What a text of API_KEYS says. A JSON text has to be an object; an entry of a list is a token and
  -- its owner, or a token that owns itself; an entry that is blank or has no token does not count.
  abbrev pub named : String × Option String → String × String
  named (token, none) = (texts.strip token, texts.strip token)
  named (token, some owner) =
      (texts.strip token, if texts.strip owner =? "" then texts.strip token else texts.strip owner)

  abbrev pub listed : List String → List (String × String)
  listed parts =
      keep (λ entry. not (entry.0 =? ""))
        (map (λ item. named (texts.partition item))
          (keep (λ item. not (item =? "")) (map texts.strip parts)))

  abbrev pub of_json : Option (Option (List (String × String))) → Result (List (String × String))
  of_json (some (some pairs)) = ok pairs
  of_json (some none) = err Error.value_error
  of_json none = err Error.value_error

  unfoldable pub spelled : String → Result (List (String × String))
  unfolding keep
  spelled raw =
      if texts.strip raw =? ""
      then ok []
      else (if texts.opens_json (texts.strip raw)
          then of_json (texts.json_object (texts.strip raw))
          else ok (listed (texts.split_commas (texts.strip raw))))

  json_keys-of_json :
      (answer : Option (Option (List (String × String))))
      → json_keys texts answer ≡ keys_of (of_json answer)
  json_keys-of_json none = refl
  json_keys-of_json (some none) = refl
  json_keys-of_json (some (some pairs)) = add_pairs-keys_of pairs

  token_owner-named : (item : String × Option String) → token_owner texts item ≡ named item
  token_owner-named (token, none) = refl
  token_owner-named (token, some owner) = refl

  abbrev filled : String → Bool
  filled item = not (item =? "")

  abbrev tokened : String × String → Bool
  tokened entry = not (entry.0 =? "")

  abbrev read : List String → List (String × String)
  read items = keep tokened (map (λ item. named (texts.partition item)) items)

  listed_more :
      (part : String) (parts : List String)
      → listed (part ∷ parts) ≡ (
          if (texts.strip part =? "") || ((named (texts.partition (texts.strip part))).0 =? "")
          then listed parts
          else named (texts.partition (texts.strip part)) ∷ listed parts)
  listed_more part parts =
      let item = texts.strip part in
      let entry = named (texts.partition item) in
      elim (Bool-cases (item =? "")) [
        | inl blank ↦
            ap read (keep-false filled item (map texts.strip parts) (ap not blank)) ∙ rw blank refl
        | inr there ↦
            ap read (keep-true filled item (map texts.strip parts) (ap not there))
            ∙ elim (Bool-cases (entry.0 =? "")) [
              | inl nameless ↦
                  keep-false tokened entry (named_items parts) (ap not nameless)
                  ∙ rw (there, nameless) refl
              | inr some_token ↦
                  keep-true tokened entry (named_items parts) (ap not some_token)
                  ∙ rw (there, some_token) refl
            ]
      ]
    where
      named_items : List String → List (String × String)
      named_items l = map (λ item. named (texts.partition item)) (keep filled (map texts.strip l))

  entries-listed : (parts : List String) → entries texts parts ≡ listed parts
  unfolding entries
  entries-listed [] = unfold keep in refl
  entries-listed (part ∷ parts) =
      rw
        (
          listed_more part parts,
          entries-listed parts,
          token_owner-named (texts.partition (texts.strip part)),
        )
        refl

  -- For every text of API_KEYS, as JSON or as a list: a text in which a token stands twice is
  -- refused, as is a JSON text that is no object; from any other the keys are the pairs that it
  -- says, in their order, and an empty text has no keys.
  pub parse_api_keys_lem : (raw : String) → parse_api_keys texts raw ≡ keys_of (spelled raw)
  unfolding parse_api_keys parse_json_keys parse_pair_keys spelled tokens_differ
  parse_api_keys_lem raw = elim (Bool-cases (texts.strip raw =? "")) [
    | inl empty ↦ rw empty refl
    | inr full ↦ elim (Bool-cases (texts.opens_json (texts.strip raw))) [
      | inl json ↦ rw (full, json) (json_keys-of_json (texts.json_object (texts.strip raw)))
      | inr pairs ↦
          let parts = texts.split_commas (texts.strip raw) in
          rw (full, pairs, entries-listed parts) (add_pairs-keys_of (listed parts))
    ]
  ]
