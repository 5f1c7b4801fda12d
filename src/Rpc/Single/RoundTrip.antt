-- ===== src/Rpc/Single/RoundTrip.antt =====
-- A payload that the Python client uploads arrives in the server's spool.
use pixeldive.Prelude.{
  string_eq, nat_eq, ℕ, ◌≤◌, max, String, ◌≡◌, refl, ap, ◌∙◌, inl, inr, false, ◌||◌, none, some,
  List, [], ◌∷◌, ◌++◌, arith, ltb, ◌==◌, if◌then◌else◌, Bool-cases, length, length-append, ◌=?◌,
}
use mathlib.Core.List.{append_assoc, append-nil}
use pixeldive.Rpc.Wire.{Codec, ImageChunk, rethrow}
use pixeldive.Rpc.Single.{assemble_single}
use pixeldive.Blobs.Spool.{Disk, Spooling, Bytes, Spool}
use pixeldive.Rpc.Single.Laws.{upload_for, assemble_single-spooled, frames}
use pixeldive.Blobs.Uploads.{ImageUpload}
use pixeldive.Blobs.Spool.Outcome.{spool_chunks_lem, answer, spool_for}
use pixeldive.Sdk.Chunks.{single_image_chunks, iter_bytes}
use pixeldive.Prelude.Dict.{get}
use pixeldive.Errors.{Result, ok, err, Error, invalid_argument, resource_exhausted}
use pixeldive.Blobs.Spool.Laws.{flatten}
use pixeldive.Sdk.Chunks.Laws.{Fits, iter_bytes_lem}
use pixeldive.Prelude.All.{All}

-- The answer for a whole payload.
unfoldable pub whole : (Bytes → String) → ℕ → ℕ → Bytes → Result Spool
whole sha256 path max_bytes p =
    if ltb max_bytes (length p)
    then err Error.image_too_large
    else (if length p == 0 then err Error.empty_image else ok (spool_for sha256 path p))

-- Frames with bytes in them are answered like the payload that they hold.
pub answer-whole :
    (sha256 : Bytes → String) (chunks : List Bytes) (path max_bytes size r : ℕ) (d : Bytes)
    → All (Fits size) chunks
    → length d ≤ max_bytes
    → answer sha256 path max_bytes r d chunks ≡ whole sha256 path max_bytes (d ++ flatten chunks)
unfolding answer whole
answer-whole sha256 [] path max_bytes size r d h fits = rw (append-nil d) (ground arith)
answer-whole sha256 ([] ∷ chunks) path max_bytes size r d h fits = absurd (omega (arith, h.0.0))
answer-whole sha256 ((b ∷ c) ∷ chunks) path max_bytes size r d h fits =
    elim (Bool-cases (ltb max_bytes (length (d ++ b ∷ c)))) [
      | inl large ↦
          let n = length-append (d ++ b ∷ c) (flatten chunks) in
          let m = append_assoc d (b ∷ c) (flatten chunks) in ground (arith, n, ap length m)
      | inr small ↦
          rw (small, ← append_assoc d (b ∷ c) (flatten chunks))
            (answer-whole sha256 chunks path max_bytes size 0 (d ++ b ∷ c) h.1 (ground arith))
    ]

-- A stream that holds bytes is sent as it is.
frames_full : (l : List Bytes) (x : ℕ) (xs : Bytes) → flatten l ≡ x ∷ xs → frames l ≡ l
frames_full [] x xs h = cc
frames_full (c ∷ l) x xs h = refl

pub answer-iter_bytes :
    (sha256 : Bytes → String) (p : Bytes) (chunk_size path max_bytes : ℕ)
    → answer sha256 path max_bytes 0 [] (frames (iter_bytes p chunk_size))
      ≡ whole sha256 path max_bytes p
answer-iter_bytes sha256 [] chunk_size path max_bytes =
    unfold answer whole iter_bytes in ground arith
answer-iter_bytes sha256 (b ∷ p) chunk_size path max_bytes =
    let (same, fit) = iter_bytes_lem (b ∷ p) chunk_size in
    rw (frames_full (iter_bytes (b ∷ p) chunk_size) b p same) (
      answer-whole sha256 (iter_bytes (b ∷ p) chunk_size) path max_bytes (max chunk_size 1) 0 []
        (fit (λ e. cc e)) (omega arith)
      ∙ ap (whole sha256 path max_bytes) same)

-- The frames of a payload hold the payload.
pub iter_frames : (p : Bytes) (chunk_size : ℕ) → flatten (frames (iter_bytes p chunk_size)) ≡ p
iter_frames [] chunk_size = unfold iter_bytes in refl
iter_frames (b ∷ p) chunk_size =
    let same = (iter_bytes_lem (b ∷ p) chunk_size).0 in
    ap flatten (frames_full (iter_bytes (b ∷ p) chunk_size) b p same) ∙ same

-- What the server has to answer to the upload of the payload `p`.
pub upload_answer :
    {Meta : Type 0}
    → (Bytes → String)
    → Codec Meta
    → String
    → String
    → ℕ
    → ℕ
    → ℕ
    → Bytes
    → Result (ℕ × ImageUpload Meta)
upload_answer sha256 codec filename content_type sid path max_bytes p =
    if ltb max_bytes (length p)
    then err (Error.rpc_aborted resource_exhausted)
    else (if length p == 0
        then err (Error.rpc_aborted invalid_argument)
        else ok (sid, upload_for codec filename content_type (spool_for sha256 path p)))

-- A payload that is accepted is neither too large nor empty.
pub upload_answer-eq_ok :
    {Meta : Type 0} (sha256 : Bytes → String) (codec : Codec Meta) (filename content_type : String)
    (sid path max_bytes : ℕ) (p : Bytes) (x : ℕ × ImageUpload Meta)
    → upload_answer sha256 codec filename content_type sid path max_bytes p ≡ ok x
    → ((ltb max_bytes (length p) || length p == 0) ≡ false)
      × (x ≡ (sid, upload_for codec filename content_type (spool_for sha256 path p)))
unfolding upload_answer
upload_answer-eq_ok sha256 codec filename content_type sid path max_bytes p x h = ground arith

module _ {Meta : Type 0} (codec : Codec Meta) (sha256 : Bytes → String)
    (session_id filename content_type : String) (sid : ℕ) (named : (session_id =? "") ≡ false)
    (parsed : codec.parse_uuid session_id ≡ some sid) where
  abbrev pub sent : Bytes → ℕ → List ImageChunk
  sent p chunk_size = single_image_chunks session_id filename content_type (iter_bytes p chunk_size)

  abbrev pub received : Bytes → ℕ → ℕ → ℕ → Disk → Result (ℕ × ImageUpload Meta) × Spooling
  received p chunk_size path max_bytes disk =
      assemble_single codec sha256 (sent p chunk_size) path max_bytes disk

  -- For every payload and chunk size of the client, with a session id that the server parses: a
  -- payload above the limit ends the call with RESOURCE_EXHAUSTED and an empty one with
  -- INVALID_ARGUMENT; any other becomes the upload of a spool with its digest, its length and its
  -- first bytes, and then the spool's file holds exactly the payload. After an error the spool has
  -- no file, and no other file changes.
  pub upload_image-assemble_single :
      (p : Bytes) (chunk_size path max_bytes : ℕ) (disk : Disk)
      → ((received p chunk_size path max_bytes disk).0
          ≡ upload_answer sha256 codec filename content_type sid path max_bytes p)
        × (get (received p chunk_size path max_bytes disk).1.disk path
            ≡ (if ltb max_bytes (length p) || length p == 0 then none else some p))
        × ((j : ℕ)
            → (path == j) ≡ false
            → get (received p chunk_size path max_bytes disk).1.disk j ≡ get disk j)
  unfolding upload_answer whole rethrow
  upload_image-assemble_single p chunk_size path max_bytes disk =
      let cs = iter_bytes p chunk_size in
      let e =
        assemble_single-spooled codec sha256 session_id filename content_type sid named parsed cs
          path max_bytes disk in
      let a = answer-iter_bytes sha256 p chunk_size path max_bytes in
      let (answered, stored, gone, others) =
        spool_chunks_lem sha256 (frames cs) path max_bytes disk in
      (
        rw (e, answered, a) (ground arith),
        rw e (
            ground (
              arith,
              answered,
              a,
              stored (spool_for sha256 path p),
              gone Error.image_too_large,
              gone Error.empty_image,
              iter_frames p chunk_size,
            )),
        λ j h. rw e (others j h),
      )
