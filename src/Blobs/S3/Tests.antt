-- ===== src/Blobs/S3/Tests.antt =====
-- A bucket in memory, and files that are stored in it.
use pixeldive.Prelude.{
  string_eq, nat_eq, ℕ, String, ◌≡◌, refl, true, false, Option, none, some, List, [], ◌∷◌, ◌++◌,
  map, arith, ◌==◌, if◌then◌else◌, get_or_else, ◌=?◌, contains,
}
use text.Mathlib.TextEquality.{eq_iff}
use pixeldive.Prelude.All.{All}
use pixeldive.Blobs.Spool.{Bytes}
use pixeldive.Blobs.Spool.Laws.{flatten}
use pixeldive.Blobs.Store.{object_key}
use pixeldive.Sdk.Chunks.Laws.{Fits}
use pixeldive.Blobs.S3.{done, ObjectClient, ListPage, at_datetime, unix_time}
use pixeldive.Blobs.S3.Multipart.{upload_parts, put_file_multipart}
use pixeldive.Blobs.S3.Storage.{S3Storage, list_blobs, save_file, store_once, delete}
use pixeldive.Blobs.S3.Parts.{part_bodies, send_parts, upload_parts_lem}
use pixeldive.Blobs.S3.Saves.{IsReliable, save_file_lem, Saved}
use pixeldive.Blobs.S3.Pages.{
  Serves, entries, timed, list_blobs_lem, Bounded, store_once-delete-Bounded,
}
use pixeldive.Blobs.S3.Bucket.{Bucket, Holds, IsMultipart}
use pixeldive.Blobs.S3.Stores.{put_file_multipart-Stores}

record Memory : Type 0 where
  objects : String → Option Bytes
  parts : String → ℕ → Option Bytes

abbrev empty_memory : Memory
empty_memory = record { objects = λ k. none; parts = λ u n. none }

-- A part that is not there counts as an empty one.
abbrev joined : Memory → String → List (String × ℕ) → Bytes
joined s upload_id [] = []
joined s upload_id ((etag, n) ∷ parts) =
    get_or_else [] (s.parts upload_id n) ++ joined s upload_id parts

abbrev with_part : String → ℕ → Bytes → Memory → Memory
with_part upload_id n body s = record s {
  parts =
      λ u m. if u =? upload_id then (if n == m then some body else s.parts u m) else s.parts u m;
}

abbrev with_object : String → Bytes → Memory → Memory
with_object key body s = record s { objects = λ k. if key =? k then some body else s.objects k }

-- Two pages, the first of them truncated.
abbrev first_page : ListPage ℕ
first_page = record {
  contents = some (("a", some (at_datetime 5)) ∷ ("b", none) ∷ []);
  is_truncated = true;
  next_token = some 9;
}

abbrev last_page : ListPage ℕ
last_page = record {
  contents = some (("c", some (unix_time 7)) ∷ []);
  is_truncated = false;
  next_token = none;
}

abbrev page_at : Option ℕ → ListPage ℕ
page_at none = first_page
page_at (some token) = last_page

abbrev memory_client : ObjectClient Memory ℕ
memory_client = record {
  put_object = λ key body content_type s. (done tt, with_object key body s);
  get_object = λ key s. (done (get_or_else [] (s.objects key)), s);
  delete_object =
      λ key s. (done tt, record s { objects = λ k. if key =? k then none else s.objects k });
  head_object = λ key s. (done (some (at_datetime 5)), s);
  list_objects = λ token s. (done (page_at token), s);
  create_multipart_upload = λ key content_type s. (done "upload", s);
  upload_part = λ key upload_id n body s. (done "etag", with_part upload_id n body s);
  complete_multipart_upload =
      λ key upload_id parts s. (done tt, with_object key (joined s upload_id parts) s);
  abort_multipart_upload = λ key upload_id s. (done tt, s);
}

abbrev memory_bucket : Bucket Memory
memory_bucket = record { object = λ s. s.objects; part = λ s. s.parts }

joined_lem :
    (s : Memory) (upload_id : String) (parts : List (String × ℕ)) (bodies : List Bytes)
    → Holds memory_bucket s upload_id parts bodies
    → joined s upload_id parts ≡ flatten bodies
joined_lem s upload_id [] [] h = refl
joined_lem s upload_id ((etag, n) ∷ parts) (body ∷ bodies) h =
    rw (h.0, joined_lem s upload_id parts bodies h.1) refl
joined_lem s upload_id [] (body ∷ bodies) h = absurd h
joined_lem s upload_id (part ∷ parts) [] h = absurd h

memory-IsMultipart : IsMultipart memory_client memory_bucket
memory-IsMultipart = record {
  created = λ key content_type k s. refl;
  sent = λ key upload_id k n body s. refl;
  part_sent = λ key upload_id etag n m body s h. ground (arith, eq_iff upload_id upload_id);
  completed = λ key upload_id parts bodies s h q.
      ground (arith, eq_iff key key, joined_lem s upload_id parts bodies h);
  others_stay = λ key upload_id k parts s h. rw h refl;
  aborted = λ key upload_id k s. refl;
}

memory-IsReliable : IsReliable memory_client
memory-IsReliable = record {
  creates = λ key content_type s. refl;
  sends = λ key upload_id n body s. refl;
  completes = λ key upload_id parts s. refl;
}

abbrev file : Bytes
file = 1 ∷ 2 ∷ 3 ∷ []

upload_parts_lem_example :
    (upload_parts memory_client "k" "u" 2 file empty_memory
      ≡ send_parts memory_client "k" "u" 1 [] (part_bodies 2 file) empty_memory)
    × (flatten (part_bodies 2 file) ≡ file)
    × (file ≡ [] → part_bodies 2 file ≡ [] ∷ [])
    × (¬ (file ≡ []) → All (Fits 2) (part_bodies 2 file))
upload_parts_lem_example = upload_parts_lem memory_client "k" "u" 2 (omega arith) file empty_memory

put_file_multipart-Stores_example :
    ((put_file_multipart memory_client "k" file "image/png" 2 empty_memory).0 ≡ done tt
      → (put_file_multipart memory_client "k" file "image/png" 2 empty_memory).1.objects "k"
        ≡ some file)
    × ((k : String)
        → ("k" =? k) ≡ false
        → (put_file_multipart memory_client "k" file "image/png" 2 empty_memory).1.objects k ≡ none)
put_file_multipart-Stores_example =
    put_file_multipart-Stores memory_client memory_bucket memory-IsMultipart "k" "image/png" 2 file
      empty_memory (omega arith)

abbrev fresh : S3Storage Memory
fresh = record { client = empty_memory; known = [] }

save_file_lem_example :
    Saved memory_client memory-IsReliable memory_bucket memory-IsMultipart 4 2
      (omega arith)
      (object_key "abcdef" "image/png")
      file
      fresh
      (save_file memory_client 4 2 file "abcdef" "image/png" fresh)
save_file_lem_example =
    save_file_lem memory_client memory-IsReliable memory_bucket memory-IsMultipart 4 2 (omega arith)
      file "abcdef" "image/png" fresh (unfold contains in refl)

all_keys :
    map (timed memory_client) (entries memory_client (first_page ∷ last_page ∷ []))
    ≡ ("a", 5) ∷ ("b", 0) ∷ ("c", 7) ∷ []
unfolding entries
all_keys = refl

list_blobs_lem_example : list_blobs memory_client 3 empty_memory ≡ (
  done (map (timed memory_client) (entries memory_client (first_page ∷ last_page ∷ []))),
  empty_memory,
)
list_blobs_lem_example =
    list_blobs_lem memory_client 3 (first_page ∷ last_page ∷ []) empty_memory
      (unfold Serves in (refl, refl, (refl, refl))) (omega arith)

store_once-delete-Bounded_example :
    Bounded memory_client 4 (store_once memory_client 4 "k" (λ s. (done tt, s)) fresh).1
    × Bounded memory_client 4 (delete memory_client "j" fresh).1
store_once-delete-Bounded_example =
    store_once-delete-Bounded memory_client 4 "k" "j" (λ s. (done tt, s)) fresh (omega arith)
