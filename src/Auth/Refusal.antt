-- ===== src/Auth/Refusal.antt =====
-- The error of a caller that is refused.
use pixeldive.Prelude.{string_eq, String, ◌≡◌, inl, inr, Bool, Option, none, some, Bool-cases}
use pixeldive.Prelude.Dict.{Dict}
use pixeldive.Errors.{err, Error}
use pixeldive.Blobs.Spool.{Bytes}
use pixeldive.Blobs.Validate.{TextCase}
use pixeldive.Auth.{authenticate, principal_or_error, owner_of_token, bearer_token}

only_unauthenticated :
    (o : Option String) (e : Error) → principal_or_error o ≡ err e → e ≡ Error.unauthenticated
only_unauthenticated none e h = cc h
only_unauthenticated (some owner) e h = absurd (cc h)

pub authenticate-eq_err :
    (texts : TextCase) (encode : String → Bytes) (auth_required : Bool) (keys : Dict String String)
    (authorization : Option String) (e : Error)
    → authenticate texts encode auth_required keys authorization ≡ err e
    → e ≡ Error.unauthenticated
unfolding authenticate
authenticate-eq_err texts encode auth_required keys authorization e h =
    elim (Bool-cases auth_required) [
      | inl required ↦
          only_unauthenticated (owner_of_token encode keys (bearer_token texts authorization)) e
            (rw required at h)
      | inr open_to_all ↦ absurd (cc (rw open_to_all at h))
    ]
