-- ===== src/Blobs/S3/Bucket.antt =====
-- What S3 documents of its multipart uploads (app/blobs/s3_multipart.py calls them).
use pixeldive.Prelude.{
  string_eq, nat_eq, ℕ, String, ◌≡◌, false, Option, some, List, [], ◌∷◌, ◌==◌, if◌then◌else◌, ◌=?◌,
}
use pixeldive.Blobs.Spool.{Bytes}
use pixeldive.Blobs.Spool.Laws.{flatten}
use pixeldive.Blobs.S3.{done, ObjectClient}

-- What the service keeps: the objects of the bucket, and the parts of the uploads.
pub record Bucket (S : Type 0) : Type 0 where
  pub object : S → String → Option Bytes
  pub part : S → String → ℕ → Option Bytes

-- The listed parts are there, with these bodies.
abbrev pub Holds : {S : Type 0} → Bucket S → S → String → List (String × ℕ) → List Bytes → Type 0
Holds bucket s upload_id [] [] = Unit
Holds bucket s upload_id ((etag, n) ∷ parts) (body ∷ bodies) =
    (bucket.part s upload_id n ≡ some body) × Holds bucket s upload_id parts bodies
Holds bucket s upload_id [] (body ∷ bodies) = ⊥
Holds bucket s upload_id (part ∷ parts) [] = ⊥

-- The documented behaviour: starting and aborting an upload and sending a part leave the objects; a
-- part that is sent is there under its number; and to complete an upload makes the object of the
-- listed parts, in their order, and leaves the others.
pub record IsMultipart {S Token : Type 0} (client : ObjectClient S Token) (bucket : Bucket S)
    : Type 0 where
  pub created :
      (key content_type k : String) (s : S)
      → bucket.object (client.create_multipart_upload key content_type s).1 k ≡ bucket.object s k
  pub sent :
      (key upload_id k : String) (n : ℕ) (body : Bytes) (s : S)
      → bucket.object (client.upload_part key upload_id n body s).1 k ≡ bucket.object s k
  pub part_sent :
      (key upload_id etag : String) (n m : ℕ) (body : Bytes) (s : S)
      → (client.upload_part key upload_id n body s).0 ≡ done etag
      → bucket.part (client.upload_part key upload_id n body s).1 upload_id m
        ≡ (if n == m then some body else bucket.part s upload_id m)
  pub completed :
      (key upload_id : String) (parts : List (String × ℕ)) (bodies : List Bytes) (s : S)
      → Holds bucket s upload_id parts bodies
      → (client.complete_multipart_upload key upload_id parts s).0 ≡ done tt
      → bucket.object (client.complete_multipart_upload key upload_id parts s).1 key
        ≡ some (flatten bodies)
  pub others_stay :
      (key upload_id k : String) (parts : List (String × ℕ)) (s : S)
      → (key =? k) ≡ false
      → bucket.object (client.complete_multipart_upload key upload_id parts s).1 k
        ≡ bucket.object s k
  pub aborted :
      (key upload_id k : String) (s : S)
      → bucket.object (client.abort_multipart_upload key upload_id s).1 k ≡ bucket.object s k
