-- ===== src/Blobs/S3.antt =====
-- app/blobs/s3_storage.py, s3_multipart.py, s3_listing.py, s3_pages.py, s3_stream.py and the
-- protocol of s3_types.py. The object client is a parameter, a record with one field per method of
-- the protocol: a method runs on the client's own state and answers or raises. The bucket is fixed,
-- so no call names it. Times are whole seconds.
pub mod Multipart
pub mod Storage
pub mod Parts
pub mod Bucket
pub mod Stores
pub mod Saves
pub mod Pages
pub mod Tests
use pixeldive.Prelude.{
  string_eq, ℕ, zero, suc, ◌-◌, String, Bool, false, ◌||◌, Option, none, some, List, [], ◌∷◌, ◌==◌,
  if◌then◌else◌, drop, take, is_empty, contains,
}
use pixeldive.Blobs.Spool.{Bytes}

-- What `is_missing` reads of an exception; a part that is not there is `none`.
pub record ClientError : Type 0 where
  pub error_code : Option String
  pub http_status : Option ℕ
  pub type_name : String

pub data Failure : Type 0 where
  client_error : ClientError → Failure
  value_error : Failure
  file_not_found : String → Failure

pub data Reply (A : Type 0) : Type 0 where
  done : A → Reply A
  raised : Failure → Reply A

abbrev pub Call : Type 0 → Type 0 → Type 0
Call S A = S → Reply A × S

module _ {S A : Type 0} where
  abbrev pub give : A → Call S A
  give a s = (done a, s)

  abbrev pub fail : Failure → Call S A
  fail e s = (raised e, s)

module _ {S A B : Type 0} where
  abbrev pub next : (A → Call S B) → Reply A × S → Reply B × S
  next f (done a, s) = f a s
  next f (raised e, s) = (raised e, s)

  infixl 5 ◌>>=◌ ◌>>◌
  abbrev pub ◌>>=◌ : Call S A → (A → Call S B) → Call S B
  ◌>>=◌ m f s = next f (m s)

  abbrev pub ◌>>◌ : Call S A → Call S B → Call S B
  ◌>>◌ m k s = next (λ _. k) (m s)

-- `LastModified`
pub data Stamp : Type 0 where
  at_datetime : ℕ → Stamp
  unix_time : ℕ → Stamp
  unreadable : Stamp

-- A response of `list_objects_v2`; `Contents` is missing where it is `none`.
pub record ListPage (Token : Type 0) : Type 0 where
  pub contents : Option (List (String × Option Stamp))
  pub is_truncated : Bool
  pub next_token : Option Token

pub record ObjectClient (S Token : Type 0) : Type 0 where
  pub put_object : String → Bytes → String → Call S (Unit {0})
  pub get_object : String → Call S Bytes
  pub delete_object : String → Call S (Unit {0})
  pub head_object : String → Call S (Option Stamp)
  pub list_objects : Option Token → Call S (ListPage Token)
  pub create_multipart_upload : String → String → Call S String
  pub upload_part : String → String → ℕ → Bytes → Call S String
  pub complete_multipart_upload : String → String → List (String × ℕ) → Call S (Unit {0})
  pub abort_multipart_upload : String → String → Call S (Unit {0})

abbrev missing_codes : List String
missing_codes = "404" ∷ "NotFound" ∷ "NoSuchKey" ∷ []

abbrev named_missing : Option String → Bool
named_missing none = false
named_missing (some code) = contains code missing_codes

abbrev status_missing : Option ℕ → Bool
status_missing none = false
status_missing (some status) = status == 404

unfoldable pub is_missing : Failure → Bool
unfolding contains
is_missing (client_error e) =
    named_missing e.error_code
    || (status_missing e.http_status || contains e.type_name ("NoSuchKey" ∷ "NotFound" ∷ []))
is_missing value_error = false
is_missing (file_not_found path) = false

unfoldable pub mtime : Option Stamp → ℕ
mtime (some (at_datetime t)) = t
mtime (some (unix_time t)) = t
mtime (some unreadable) = 0
mtime none = 0

unfoldable pub age_from_head : ℕ → Option Stamp → ℕ
unfolding mtime
age_from_head now none = 0
age_from_head now (some stamp) = now - mtime (some stamp)

-- The windows of `iter_body`: the body is read until a window is empty.
unfoldable pub iter_body : ℕ → Bytes → ℕ → List Bytes
iter_body zero body chunk_size = []
iter_body (suc fuel) body chunk_size =
    let rest = take chunk_size body ∷ iter_body fuel (drop chunk_size body) chunk_size in
    if is_empty (take chunk_size body) then [] else rest
