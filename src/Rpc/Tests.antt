-- ===== src/Rpc/Tests.antt =====
-- A payload on its way from the client to the server.
use pixeldive.Prelude.{
  string_eq, nat_eq, ℕ, ◌≤◌, String, ◌≡◌, refl, false, ◌||◌, none, some, List, [], ◌∷◌, ltb, ◌==◌,
  if◌then◌else◌, length, ◌=?◌,
}
use pixeldive.Prelude.Dict.{get}
use pixeldive.Errors.{Result, ok}
use pixeldive.Blobs.Spool.{Bytes, Spooling}
use pixeldive.Blobs.Uploads.{ImageUpload}
use pixeldive.Rpc.Wire.{Codec, undecodable}
use pixeldive.Rpc.Batch.{Batch, assemble_batch}
use pixeldive.Rpc.Batch.Arrived.Items.{Item, batch_uploads, file_after}
use pixeldive.Rpc.Batch.RoundTrip.{
  upload_images_batch-assemble_batch, batch_answer, received as batch_received,
}
use pixeldive.Rpc.Batch.Limit.Slots.{Within}
use pixeldive.Rpc.Batch.Limit.{assemble_batch-Within}
use pixeldive.Sdk.Chunks.{upload_images_batch}
use pixeldive.Rpc.Single.RoundTrip.{upload_image-assemble_single, received, upload_answer}

-- One session id parses, and no metadata does.
abbrev codec : Codec ℕ
codec = record {
  parse_uuid = λ s. if s =? "one" then some 1 else none;
  is_blank = λ s. s =? "";
  parse_object = λ s. undecodable;
  no_meta = 0;
}

abbrev no_digest : Bytes → String
no_digest d = "digest"

abbrev photo : Bytes
photo = 1 ∷ 2 ∷ 3 ∷ []

abbrev run : Result (ℕ × ImageUpload ℕ) × Spooling
run = received codec no_digest "one" "a.png" "image/png" 1 refl refl photo 2 7 10 []

upload_image-assemble_single_example :
    (run.0 ≡ upload_answer no_digest codec "a.png" "image/png" 1 7 10 photo)
    × (get run.1.disk 7 ≡ (if ltb 10 (length photo) || length photo == 0 then none else some photo))
    × ((j : ℕ) → (7 == j) ≡ false → get run.1.disk j ≡ get [] j)
upload_image-assemble_single_example =
    upload_image-assemble_single codec no_digest "one" "a.png" "image/png" 1 refl refl photo 2 7 10
      []

-- The second payload is too large.
abbrev two_photos : List Item
two_photos = ("a.png", photo, "image/png") ∷ ("b.png", 1 ∷ 2 ∷ 3 ∷ 4 ∷ 5 ∷ [], "image/png") ∷ []

abbrev batch_run : Result (ℕ × List (ImageUpload ℕ)) × Batch ℕ
batch_run = batch_received codec no_digest 4 10 "one" 1 refl refl two_photos 2 [] 7

upload_images_batch-assemble_batch_example :
    (batch_run.0 ≡ batch_answer 1 two_photos (batch_uploads codec no_digest 4 10 0 7 two_photos))
    × ((j : ℕ) → get batch_run.1.disk j ≡ file_after 4 10 0 7 two_photos j (get [] j))
upload_images_batch-assemble_batch_example =
    upload_images_batch-assemble_batch codec no_digest 4 10 "one" 1 refl refl two_photos 2 7 []

assemble_batch-Within_example :
    Within codec no_digest 4 1
      (assemble_batch codec no_digest 4 1 (upload_images_batch "one" two_photos 2) [] 7).1
    × ((sid : ℕ) (uploads : List (ImageUpload ℕ))
        → (assemble_batch codec no_digest 4 1 (upload_images_batch "one" two_photos 2) [] 7).0
          ≡ ok (sid, uploads)
        → length uploads ≤ 1)
assemble_batch-Within_example =
    assemble_batch-Within codec no_digest 4 1 (upload_images_batch "one" two_photos 2) [] 7
