-- ===== src/Blobs/Store.antt =====
-- app/blobs/hash_keys.py, app/content_types.py, local_storage.py and local_write.py: blobs in a
-- layout that is addressed by their digest. The store maps a relative key to a file. `resolve` and
-- the hidden names of unfinished writes are not modelled: a write is one step.
use pixeldive.Prelude.{
  string_eq, ℕ, zero, suc, ◌-◌, String, Bool, true, false, Option, none, some, List, [], ◌∷◌,
  if◌then◌else◌, length, drop, take, is_empty, get_or_else,
}
use Prim.Native.String.{◌++◌ as concat}
use pixeldive.Prelude.Dict.{Dict, get, put}
use pixeldive.Errors.{Result, ok, err, Error}
use pixeldive.Blobs.Spool.{Bytes}
use pixeldive.Blobs.Filenames.{chars, of_chars}

pub record Blob : Type 0 where
  pub content : Bytes
  pub mtime : ℕ

abbrev pub Blobs : Type 0
Blobs = Dict String Blob

abbrev pub allowed_content_types : Dict String String
allowed_content_types =
    ("image/jpeg", ".jpg")
    ∷ ("image/jpg", ".jpg")
    ∷ ("image/png", ".png")
    ∷ ("image/webp", ".webp")
    ∷ ("image/heic", ".heic")
    ∷ ("image/heif", ".heif")
    ∷ ("image/bmp", ".bmp")
    ∷ ("image/tiff", ".tiff")
    ∷ ("image/tif", ".tiff")
    ∷ []

unfoldable pub object_key : String → String → String
unfolding get chars of_chars
object_key digest content_type =
    let extension = get_or_else ".bin" (get allowed_content_types content_type) in
    concat (of_chars (take 2 (chars digest))) (
      concat "/"
        (concat (of_chars (take 2 (drop 2 (chars digest)))) (concat "/" (concat digest extension))))

abbrev pub is_some {ℓ} : {A : Type ℓ} → Option A → Bool
is_some none = false
is_some (some a) = true

unfoldable pub is_file : Blobs → String → Bool
is_file blobs key = is_some (get blobs key)

-- `save_atomic`, with what `write_tmp` writes and the time of it.
unfoldable pub save_atomic : String → Bytes → ℕ → Blobs → String × Blobs
unfolding is_file
save_atomic key content now blobs =
    if is_file blobs key
    then (key, blobs)
    else (key, put blobs key (record { content = content; mtime = now }))

unfoldable pub save_payload : (Bytes → String) → Bytes → String → ℕ → Blobs → String × Blobs
unfolding save_atomic
save_payload sha256 payload content_type now blobs =
    save_atomic (object_key (sha256 payload) content_type) payload now blobs

-- `os.link`: the new name is the spool file itself, with its bytes and its time.
unfoldable pub try_link : Bool → Blob → String → Blobs → Bool × Blobs
unfolding is_file
try_link allowed source key blobs =
    if is_file blobs key
    then (true, blobs)
    else (if allowed then (true, put blobs key source) else (false, blobs))

-- `save_spool_file` of a source file; `links` says whether the file system allows a hard link.
unfoldable pub save_spool_file : Bool → Blob → String → String → ℕ → Blobs → String × Blobs
unfolding is_file try_link save_atomic
save_spool_file links source digest content_type now blobs =
    let key = object_key digest content_type in
    let (linked, blobs') = try_link links source key blobs in
    if is_file blobs key
    then (key, blobs)
    else (if linked then (key, blobs') else save_atomic key source.content now blobs)

-- max(0.0, now - mtime), and 0 for a missing file.
abbrev pub age_of : ℕ → Option Blob → ℕ
age_of now none = 0
age_of now (some b) = now - b.mtime

unfoldable pub age_seconds : ℕ → Blobs → String → ℕ
age_seconds now blobs key = age_of now (get blobs key)

-- The reads of `stream`: `handle.read(chunk_size)` until it gives nothing.
unfoldable pub read_chunks : ℕ → Bytes → ℕ → List Bytes
read_chunks zero rest chunk_size = []
read_chunks (suc fuel) rest chunk_size =
    let more = take chunk_size rest ∷ read_chunks fuel (drop chunk_size rest) chunk_size in
    if is_empty (take chunk_size rest) then [] else more

abbrev pub stream_of : ℕ → Option Blob → Result (List Bytes)
stream_of chunk_size none = err Error.file_not_found
stream_of chunk_size (some b) = ok (read_chunks (suc (length b.content)) b.content chunk_size)

unfoldable pub stream : Blobs → String → ℕ → Result (List Bytes)
unfolding read_chunks
stream blobs key chunk_size = stream_of chunk_size (get blobs key)
