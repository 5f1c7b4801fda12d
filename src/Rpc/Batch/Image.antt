-- ===== src/Rpc/Batch/Image.antt =====
-- The frames of one image of a batch: what they leave in the variables of `assemble_batch`.
pub mod Frames
use pixeldive.Prelude.{
  string_eq, nat_eq, ℕ, suc, ◌+◌, String, ◌≡◌, refl, ◌∙◌, Bool, true, false, Option, some, List, [],
  ◌∷◌, ◌++◌, arith, leb, length,
}
use pixeldive.Prelude.Dict.{get, put, remove}
use pixeldive.Errors.{Result, ok, err}
use pixeldive.Exec.{Exec, pure, continue, on_error_after}
use pixeldive.Blobs.Spool.{
  Bytes, Disk, Spool, Spooling, Writer, abort, feed, feed_all, finish, start, new_writer,
  spool_chunks,
}
use pixeldive.Blobs.Spool.Outcome.{loop, spooled, started}
use pixeldive.Blobs.Uploads.{ImageUpload}
use pixeldive.Blobs.Filenames.{or_default}
use pixeldive.Rpc.Wire.{Codec, BatchImageChunk, rethrow, chunk_headers, parse_metadata_json}
use pixeldive.Rpc.Single.Laws.{frames, upload_for}
use pixeldive.Rpc.Batch.{
  Slot, Batch, batch_session_id, reject_full, new_batch_slot, apply_headers, apply_batch_chunk,
  ingest_batch_chunk, ingest_all, abort_slots, after_feed, write_back, complete,
}
use pixeldive.Sdk.Chunks.{batch_frame, batch_from, batch_image_chunks}
use pixeldive.Rpc.Batch.Image.Frames.{settled, image_slot, filling, image_end, mark, frames_lem}

module _ {Meta : Type 0} (codec : Codec Meta) (sha256 : Bytes → String) (max_bytes max_images : ℕ)
    (session_id filename content_type : String) (index sid : ℕ) where
  -- The variables before an image.
  abbrev pub before : Option ℕ → List (ImageUpload Meta) → Disk → ℕ → Batch Meta
  before o completed disk next_path = record {
    session_id = o;
    pending = [];
    completed = completed;
    disk = disk;
    next_path = next_path;
  }

  abbrev slot₀ : ℕ → Disk → Slot Meta
  slot₀ next_path disk =
      image_slot codec sha256 max_bytes max_images session_id filename content_type index sid
        (started sha256 next_path max_bytes disk).writer

  headers_lem :
      (piece : Bytes) (end : Bool) (writer : Writer)
      → apply_headers codec sha256 max_bytes max_images
          (batch_frame session_id filename content_type index piece true end)
          (image_slot codec sha256 max_bytes max_images session_id filename content_type index sid
            writer)
        ≡ ok (
            image_slot codec sha256 max_bytes max_images session_id filename content_type index sid
              writer)
  unfolding apply_headers batch_frame chunk_headers parse_metadata_json
  headers_lem piece end writer = ground arith

  head_frame :
      (o : Option ℕ) (piece : Bytes) (end : Bool) (completed : List (ImageUpload Meta))
      (disk : Disk) (next_path : ℕ)
      → batch_session_id codec sha256 max_bytes max_images
          (batch_frame session_id filename content_type index piece true end)
          (before o completed disk next_path)
        ≡ (ok sid, before o completed disk next_path)
      → leb max_images (length completed) ≡ false
      → ingest_batch_chunk codec sha256 max_bytes max_images
          (batch_frame session_id filename content_type index piece true end)
          (before o completed disk next_path)
        ≡ continue
            (λ _.
              mark codec sha256 max_bytes max_images session_id filename content_type index sid
                completed
                (suc next_path))
            (after_feed codec sha256 max_bytes max_images
              (batch_frame session_id filename content_type index piece true end)
              (slot₀ next_path disk)
              (feed piece (started sha256 next_path max_bytes disk))
              (filling codec sha256 max_bytes max_images session_id filename content_type index sid
                completed
                (suc next_path)
                o
                (started sha256 next_path max_bytes disk)))
  unfolding ingest_batch_chunk reject_full new_batch_slot apply_batch_chunk batch_frame get put
      start new_writer chunk_headers parse_metadata_json
  head_frame o piece end completed disk next_path known room =
      let empty : leb max_images (0 + length completed) ≡ false = ground (arith, room) in
      rw (known, empty, headers_lem piece end (started sha256 next_path max_bytes disk).writer) refl

  -- What the frames of an image leave: its upload beside those before it, or its error; and the disk
  -- that spooling the pieces leaves.
  abbrev pub image_done :
      List (ImageUpload Meta) → ℕ → Result Spool × Spooling → Result (Batch Meta) × Disk
  image_done completed next_path (ok spool, sp) = (
    ok (record {
      session_id = some sid;
      pending = [];
      completed = completed ++ upload_for codec filename content_type spool ∷ [];
      disk = sp.disk;
      next_path = suc next_path;
    }),
    sp.disk,
  )
  image_done completed next_path (err e, sp) = (err (rethrow e), sp.disk)

  settled_end :
      (o : Option ℕ) (completed : List (ImageUpload Meta)) (next_path : ℕ)
      (p : Result Spool × Spooling)
      → settled (
          image_end codec sha256 max_bytes max_images session_id filename content_type index sid
            completed
            (suc next_path)
            o
            p)
        ≡ image_done completed next_path (on_error_after (λ _. abort) p)
  unfolding abort
  settled_end o completed next_path (ok spool, sp) = refl
  settled_end o completed next_path (err e, sp) = refl

  abbrev pub Known : Option ℕ → Type 0
  Known o =
      (piece : Bytes) (end : Bool) (s : Batch Meta)
      → s.session_id ≡ o
      → batch_session_id codec sha256 max_bytes max_images
          (batch_frame session_id filename content_type index piece true end) s
        ≡ (ok sid, s)

  module _ (o : Option ℕ) (completed : List (ImageUpload Meta)) (disk : Disk) (next_path : ℕ)
      (known : Known o) (room : leb max_images (length completed) ≡ false) where
    image_from :
        (piece : Bytes) (pieces : List Bytes)
        → settled (
            ingest_all codec sha256 max_bytes max_images
              (batch_from session_id filename content_type index (some piece) true pieces)
              (before o completed disk next_path))
          ≡ image_done completed next_path
              (spooled sha256 (piece ∷ pieces) next_path max_bytes disk)
    unfolding spool_chunks
    image_from piece pieces =
        frames_lem codec sha256 max_bytes max_images session_id filename content_type index sid
          completed (suc next_path) pieces piece true o (before o completed disk next_path)
          (started sha256 next_path max_bytes disk)
          (λ end.
            head_frame o piece end completed disk next_path
              (known piece end (before o completed disk next_path) refl) room)
        ∙ settled_end o completed next_path
            (loop sha256 (piece ∷ pieces) (started sha256 next_path max_bytes disk))

    pub image_lem :
        (pieces : List Bytes)
        → settled (
            ingest_all codec sha256 max_bytes max_images
              (batch_image_chunks session_id filename content_type index pieces)
              (before o completed disk next_path))
          ≡ image_done completed next_path (spooled sha256 (frames pieces) next_path max_bytes disk)
    unfolding batch_image_chunks batch_from
    image_lem [] = image_from [] []
    image_lem (piece ∷ pieces) = image_from piece pieces
