-- ===== src/Auth.antt =====
-- app/sessions/auth.py: bearer tokens, and the owner that a token stands for. `encode` is UTF-8; what
-- `str.strip` and `str.lower` do is a parameter. The keys are the dictionary that the
-- parsers of API_KEYS return.
mod Tests
pub mod Laws
pub mod Refusal
use pixeldive.Prelude.{
  string_eq, nat_eq, ℕ, zero, suc, ◌-◌, ◌/◌, ◌%◌, max, String, Bool, Option, none, some, List, [],
  ◌∷◌, ◌++◌, ◌==◌, if◌then◌else◌, length, ◌=?◌,
}
use Prim.Native.Char.{Char, code}
use pixeldive.Prelude.Dict.{Dict}
use pixeldive.Errors.{Result, ok, err, Error}
use pixeldive.Blobs.Spool.{Bytes}
use pixeldive.Blobs.Filenames.{chars, of_chars}
use pixeldive.Blobs.Validate.{TextCase, bytes_eq}
use pixeldive.Quota.Tenant.{Principal}

-- `len(value).to_bytes(4, "big")`, for a length below 2 ** 32; a longer one raises OverflowError.
unfoldable pub to_bytes : ℕ → Bytes
to_bytes n = n / 16777216 ∷ (n / 65536) % 256 ∷ (n / 256) % 256 ∷ n % 256 ∷ []

unfoldable pub zeros : ℕ → Bytes
zeros zero = []
zeros (suc n) = 0 ∷ zeros n

unfoldable pub folded : Bytes → ℕ → Bytes
unfolding to_bytes zeros
folded value width = to_bytes (length value) ++ (value ++ zeros (width - length value))

-- `hmac.compare_digest` of the folded values.
unfoldable pub same_token : Bytes → Bytes → Bool
unfolding folded bytes_eq
same_token presented stored =
    let width = max (length presented) (length stored) in
    bytes_eq (folded presented width) (folded stored width)

-- The loop of `lookup_owner`, which goes on after a match.
unfoldable pub lookup_from :
    (String → Bytes) → String → Dict String String → Option String → Option String
unfolding same_token
lookup_from encode token [] owner = owner
lookup_from encode token ((candidate, mapped) ∷ keys) owner =
    lookup_from encode token keys
      (if same_token (encode token) (encode candidate) then some mapped else owner)

unfoldable pub lookup_owner : (String → Bytes) → String → Dict String String → Option String
unfolding lookup_from
lookup_owner encode token keys = lookup_from encode token keys none

-- `partition(" ")`: what stands before the first space, and behind it.
unfoldable pub partition : List Char → List Char × List Char
partition [] = ([], [])
partition (c ∷ l) =
    let (scheme, remainder) = partition l in
    if code c == b' ' then ([], l) else (c ∷ scheme, remainder)

abbrev pub or_none : String → Option String
or_none s = if s =? "" then none else some s

unfoldable pub bearer_token : TextCase → Option String → Option String
unfolding partition chars of_chars
bearer_token texts none = none
bearer_token texts (some authorization) =
    let (scheme, remainder) = partition (chars authorization) in
    if authorization =? ""
    then none
    else (if texts.lower (of_chars scheme) =? "bearer"
        then or_none (texts.strip (of_chars remainder))
        else none)

abbrev pub principal_or_error : Option String → Result (Option Principal)
principal_or_error none = err Error.unauthenticated
principal_or_error (some owner) = ok (some (record { owner_id = owner }))

abbrev pub owner_of_token : (String → Bytes) → Dict String String → Option String → Option String
owner_of_token encode keys none = none
owner_of_token encode keys (some token) = lookup_owner encode token keys

unfoldable pub authenticate :
    TextCase
    → (String → Bytes)
    → Bool
    → Dict String String
    → Option String
    → Result (Option Principal)
unfolding bearer_token lookup_owner
authenticate texts encode auth_required keys authorization =
    if auth_required
    then principal_or_error (owner_of_token encode keys (bearer_token texts authorization))
    else ok none

unfoldable pub metadata_authorization : TextCase → List (String × String) → Option String
metadata_authorization texts [] = none
metadata_authorization texts ((key, value) ∷ pairs) =
    if texts.lower key =? "authorization" then some value else metadata_authorization texts pairs
