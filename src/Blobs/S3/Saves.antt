-- ===== src/Blobs/S3/Saves.antt =====
-- `save_file`: the file, the bucket and the keys that the process remembers.
use pixeldive.Prelude.{
  string_eq, nat_eq, ℕ, suc, ◌≤◌, String, ◌≡◌, refl, inl, inr, Bool, true, false, some, List, [],
  ◌∷◌, ◌++◌, arith, leb, ◌==◌, if◌then◌else◌, Bool-cases, length, ◌=?◌, contains,
}
use text.Mathlib.TextEquality.{eq_iff}
use pixeldive.Blobs.Spool.{Bytes}
use pixeldive.Blobs.Store.{object_key}
use pixeldive.Blobs.S3.{Call, Reply, done, raised, next, ObjectClient}
use pixeldive.Blobs.S3.Multipart.{upload_parts, put_parts, put_file_multipart, or_abort}
use pixeldive.Blobs.S3.Storage.{
  S3Storage, store_once, still_stored, remember, save_file, kept_known, with_key,
}
use pixeldive.Blobs.S3.Parts.{part_bodies, send_parts, upload_parts_lem}
use pixeldive.Blobs.S3.Bucket.{Bucket, IsMultipart}
use pixeldive.Blobs.S3.Stores.{put_file_multipart-Stores}

abbrev pub is_done : {A : Type 0} → Reply A → Bool
is_done (done a) = true
is_done (raised e) = false

-- The client answers every call of a multipart upload.
pub record IsReliable {S Token : Type 0} (client : ObjectClient S Token) : Type 0 where
  pub creates :
      (key content_type : String) (s : S)
      → is_done (client.create_multipart_upload key content_type s).0 ≡ true
  pub sends :
      (key upload_id : String) (n : ℕ) (body : Bytes) (s : S)
      → is_done (client.upload_part key upload_id n body s).0 ≡ true
  pub completes :
      (key upload_id : String) (parts : List (String × ℕ)) (s : S)
      → is_done (client.complete_multipart_upload key upload_id parts s).0 ≡ true

next_done :
    {S A B : Type 0} (f : A → Call S B) (p : Reply A × S)
    → is_done p.0 ≡ true
    → ((a : A) (s : S) → is_done (f a s).0 ≡ true)
    → is_done (next f p).0 ≡ true
next_done f (done a, s) h more = more a s
next_done f (raised e, s) h more = absurd (cc h)

contains_last : (key : String) (known : List String) → contains key (known ++ key ∷ []) ≡ true
unfolding contains
contains_last key [] = ground (arith, eq_iff key key)
contains_last key (k ∷ known) = ground (arith, contains_last key known)

with_key_lem :
    {S Token : Type 0} (client : ObjectClient S Token) (key : String) (known : List String)
    → contains key (with_key client key known) ≡ true
with_key_lem client key known = elim (Bool-cases (contains key known)) [
  | inl there ↦ rw (there, there) refl
  | inr new ↦ rw new (contains_last key known)
]

module _ {S Token : Type 0} (client : ObjectClient S Token) (reliable : IsReliable client) where
  send_parts-done :
      (key upload_id : String) (bodies : List Bytes) (n : ℕ) (parts : List (String × ℕ)) (s : S)
      → is_done (send_parts client key upload_id n parts bodies s).0 ≡ true
  unfolding send_parts
  send_parts-done key upload_id [] n parts s = refl
  send_parts-done key upload_id (body ∷ bodies) n parts s =
      next_done (λ etag. send_parts client key upload_id (suc n) (parts ++ (etag, n) ∷ []) bodies)
        (client.upload_part key upload_id n body s) (reliable.sends key upload_id n body s)
        (λ etag s'. send_parts-done key upload_id bodies (suc n) (parts ++ (etag, n) ∷ []) s')

  or_abort-done :
      (key upload_id : String) (part_size : ℕ) (p : Reply (Unit {0}) × S)
      → is_done p.0 ≡ true
      → (or_abort client key upload_id part_size p).0 ≡ done tt
  or_abort-done key upload_id part_size (done u, s) h = refl
  or_abort-done key upload_id part_size (raised e, s) h = absurd (cc h)

  put_parts-done :
      (key upload_id : String) (part_size : ℕ) (file : Bytes) (s : S)
      → 1 ≤ part_size
      → (put_parts client key upload_id part_size file s).0 ≡ done tt
  unfolding put_parts
  put_parts-done key upload_id part_size file s positive =
      let (same, whole, one, fits) =
        upload_parts_lem client key upload_id part_size positive file s in
      or_abort-done key upload_id part_size
        (next (λ parts. client.complete_multipart_upload key upload_id parts)
          (upload_parts client key upload_id part_size file s))
        (next_done (λ parts. client.complete_multipart_upload key upload_id parts)
          (upload_parts client key upload_id part_size file s)
          (rw same (send_parts-done key upload_id (part_bodies part_size file) 1 [] s))
          (λ parts s'. reliable.completes key upload_id parts s'))

  created_done :
      (key : String) (part_size : ℕ) (file : Bytes) (p : Reply String × S)
      → 1 ≤ part_size
      → is_done p.0 ≡ true
      → (next (λ upload_id. put_parts client key upload_id part_size file) p).0 ≡ done tt
  created_done key part_size file (done upload_id, s) positive h =
      put_parts-done key upload_id part_size file s positive
  created_done key part_size file (raised e, s) positive h = absurd (cc h)

  put_file_done :
      (key content_type : String) (part_size : ℕ) (file : Bytes) (s : S)
      → 1 ≤ part_size
      → (put_file_multipart client key file content_type part_size s).0 ≡ done tt
  unfolding put_file_multipart
  put_file_done key content_type part_size file s positive =
      let sized : (part_size == 0) ≡ false = ground (arith, positive) in
      rw sized (
        created_done key part_size file (client.create_multipart_upload key content_type s) positive
          (reliable.creates key content_type s))

  module _ (bucket : Bucket S) (multipart : IsMultipart client bucket) (known_limit part_size : ℕ)
      (positive : 1 ≤ part_size) where
    abbrev pub Saved : String → Bytes → S3Storage S → Reply String × S3Storage S → Type 0
    Saved key file st out =
        (out.0 ≡ done key)
        × (bucket.object out.1.client key ≡ some file)
        × ((k : String)
            → (key =? k) ≡ false
            → bucket.object out.1.client k ≡ bucket.object st.client k)
        × (contains key out.1.known ≡ true)

    written :
        (key : String) (file : Bytes) (st : S3Storage S) (p : Reply (Unit {0}) × S)
        → p.0 ≡ done tt
        → bucket.object p.1 key ≡ some file
        → ((k : String) → (key =? k) ≡ false → bucket.object p.1 k ≡ bucket.object st.client k)
        → Saved key file st (
            next
              (λ u. λ st'. (done key, remember client known_limit key st'))
              (kept_known client st.known p))
    unfolding remember
    written key file st (done u, s) h at others = (
      refl,
      at,
      others,
      with_key_lem client key (if leb known_limit (length st.known) then [] else st.known),
    )
    written key file st (raised e, s) h at others = absurd (cc h)

    -- For a client that answers every call of a multipart upload, and whose service behaves as S3
    -- documents, a save of a file under a key that the process does not remember answers with the key;
    -- then the object of the key holds exactly the file, no other object has changed, and the process
    -- remembers the key.
    pub save_file_lem :
        (file : Bytes) (digest content_type : String) (st : S3Storage S)
        → contains (object_key digest content_type) st.known ≡ false
        → Saved
            (object_key digest content_type)
            file
            st
            (save_file client known_limit part_size file digest content_type st)
    unfolding save_file store_once still_stored
    save_file_lem file digest content_type st new =
        let key = object_key digest content_type in
        let (at, others) =
          put_file_multipart-Stores client bucket multipart key content_type part_size file
            st.client positive in
        let finished = put_file_done key content_type part_size file st.client positive in
        rw new (
          written key file st (put_file_multipart client key file content_type part_size st.client)
            finished (at finished) others)
