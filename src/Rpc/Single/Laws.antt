-- ===== src/Rpc/Single/Laws.antt =====
-- The single upload, from the client's frames to the spooled file.
use pixeldive.Prelude.{
  string_eq, nat_eq, ℕ, String, ◌≡◌, refl, false, some, List, [], ◌∷◌, map, arith, ◌=?◌,
}
use pixeldive.Errors.{Result, ok, err}
use pixeldive.Exec.{Exec, continue, pure, on_error_after, ◌>>=◌}
use pixeldive.Blobs.Spool.Outcome.{loop, spooled, started}
use pixeldive.Blobs.Spool.{
  Bytes, feed_all, Spooling, Spool, feed, Disk, abort, finish, spool_chunks,
}
use pixeldive.Blobs.Filenames.{or_default}
use pixeldive.Blobs.Uploads.{ImageUpload, upload_from_spool}
use pixeldive.Rpc.Wire.{Codec, rethrow, ImageChunk}
use pixeldive.Rpc.Single.{
  Headers, fill_spool, no_headers, single_header, finished, collect_single, rethrown,
  assemble_single,
}
use pixeldive.Sdk.Chunks.{tail_chunk, head_chunk, single_image_chunks}

-- Two continuations that agree from every state agree after an action.
pub continue_both :
    {S A B C : Type 0} (f : B → Exec S C) (m : A → Exec S C) (n : A → Exec S B) (p : Result A × S)
    → ((a : A) (s : S) → m a s ≡ continue f (n a s))
    → continue m p ≡ continue f (continue n p)
continue_both f m n (ok a, s) h = h a s
continue_both f m n (err e, s) h = refl

-- The data of the frames that `single_image_chunks` sends: an upload with no piece sends one.
abbrev pub frames : List Bytes → List Bytes
frames [] = [] ∷ []
frames (piece ∷ pieces) = piece ∷ pieces

module _ {Meta : Type 0} (codec : Codec Meta) where
  abbrev known : ℕ → String → String → Meta → Headers Meta
  known sid f t m = record { session_id = some sid; filename = f; content_type = t; metadata = m }

  -- Once the headers are known, the loop feeds the rest of the stream.
  fill_spool-feed_all :
      (pieces : List Bytes) (sid : ℕ) (f t : String) (m : Meta) (s : Spooling)
      → fill_spool codec (map tail_chunk pieces) (known sid f t m) s
        ≡ continue (λ _. pure (known sid f t m)) (feed_all pieces s)
  unfolding fill_spool feed_all
  fill_spool-feed_all [] sid f t m s = refl
  fill_spool-feed_all (piece ∷ pieces) sid f t m s =
      continue_both (λ _. pure (known sid f t m))
        (λ _. fill_spool codec (map tail_chunk pieces) (known sid f t m)) (λ _. feed_all pieces)
        (feed piece s) (λ _ s'. fill_spool-feed_all pieces sid f t m s')

-- The upload that a finished spool stands for.
abbrev pub upload_for : {Meta : Type 0} → Codec Meta → String → String → Spool → ImageUpload Meta
upload_for codec filename content_type spool =
    upload_from_spool (or_default filename "upload.bin")
      (or_default content_type "application/octet-stream") spool codec.no_meta

module _ {Meta : Type 0} (codec : Codec Meta) (sha256 : Bytes → String)
    (session_id filename content_type : String) (sid : ℕ) where
  abbrev first_headers : Headers Meta
  first_headers = record {
    session_id = some sid;
    filename = or_default filename "upload.bin";
    content_type = or_default content_type "application/octet-stream";
    metadata = codec.no_meta;
  }

  -- What the call answers with, by the spool's answer.
  abbrev pub uploaded : Result Spool → Result (ℕ × ImageUpload Meta)
  uploaded (ok spool) = ok (sid, upload_for codec filename content_type spool)
  uploaded (err e) = err (rethrow e)

  header_lem :
      (piece : Bytes) (s : Spooling)
      → (session_id =? "") ≡ false
      → codec.parse_uuid session_id ≡ some sid
      → single_header codec (head_chunk session_id filename content_type piece) (no_headers codec) s
        ≡ (ok first_headers, s)
  unfolding single_header
  header_lem piece s named parsed = ground (arith, named, parsed)

  module _ (named : (session_id =? "") ≡ false)
      (parsed : codec.parse_uuid session_id ≡ some sid) where
    abbrev stream : List Bytes → List ImageChunk
    stream = single_image_chunks session_id filename content_type

    fill_lem :
        (pieces : List Bytes) (s : Spooling)
        → fill_spool codec (stream pieces) (no_headers codec) s
          ≡ continue (λ _. pure first_headers) (feed_all (frames pieces) s)
    unfolding fill_spool feed_all single_image_chunks
    fill_lem [] s = rw (header_lem [] s named parsed) (
        continue_both (λ _. pure first_headers) (λ _. pure first_headers) (λ _. pure tt) (feed [] s)
          (λ _ s'. refl))
    fill_lem (piece ∷ pieces) s = rw (header_lem piece s named parsed) (
        continue_both (λ _. pure first_headers)
          (λ _. fill_spool codec (map tail_chunk pieces) first_headers) (λ _. feed_all pieces)
          (feed piece s)
          (λ _ s'.
            fill_spool-feed_all codec pieces sid (or_default filename "upload.bin")
              (or_default content_type "application/octet-stream") codec.no_meta s'))

    abbrev after_loop : Result Spool × Spooling → Result (ℕ × ImageUpload Meta) × Spooling
    after_loop = continue (λ spool. pure (sid, upload_for codec filename content_type spool))

    after_fill :
        (p : Result (Unit {0}) × Spooling)
        → continue
            (λ h. finish sha256 >>= λ spool. finished codec sha256 h h.session_id spool)
            (continue (λ _. pure first_headers) p)
          ≡ after_loop (continue (λ _. finish sha256) p)
    after_fill (ok u, s) = refl
    after_fill (err e, s) = refl

    collect_lem :
        (pieces : List Bytes) (s : Spooling)
        → collect_single codec sha256 (stream pieces) s ≡ after_loop (loop sha256 (frames pieces) s)
    unfolding collect_single
    collect_lem pieces s = rw (fill_lem pieces s) (after_fill (feed_all (frames pieces) s))

    assembled :
        (p : Result Spool × Spooling)
        → rethrown codec sha256 (on_error_after (λ _. abort) (after_loop p))
          ≡ (uploaded (on_error_after (λ _. abort) p).0, (on_error_after (λ _. abort) p).1)
    unfolding abort
    assembled (ok sp, s) = refl
    assembled (err e, s) = refl

    -- The call's answer and disk are those of spooling the frames.
    pub assemble_single-spooled :
        (pieces : List Bytes) (path max_bytes : ℕ) (disk : Disk)
        → assemble_single codec sha256 (stream pieces) path max_bytes disk ≡ (
          uploaded (spooled sha256 (frames pieces) path max_bytes disk).0,
          (spooled sha256 (frames pieces) path max_bytes disk).1,
        )
    unfolding assemble_single spool_chunks
    assemble_single-spooled pieces path max_bytes disk =
        rw (collect_lem pieces (started sha256 path max_bytes disk))
          (assembled (loop sha256 (frames pieces) (started sha256 path max_bytes disk)))
