-- ===== src/Rpc/Batch/Image/Frames.antt =====
-- One frame after the other of an image of a batch.
use pixeldive.Prelude.{
  string_eq, nat_eq, ℕ, String, ◌≡◌, refl, ap, Bool, true, false, Option, some, List, [], ◌∷◌, ◌++◌,
  ==_iff,
}
use pixeldive.Prelude.Dict.{get, put, remove}
use pixeldive.Errors.{Result, ok, err}
use pixeldive.Exec.{Exec, pure, continue}
use pixeldive.Blobs.Spool.{Bytes, Disk, Spool, Spooling, Writer, feed, feed_all, finish}
use pixeldive.Blobs.Spool.Outcome.{loop}
use pixeldive.Blobs.Uploads.{ImageUpload}
use pixeldive.Blobs.Filenames.{or_default}
use pixeldive.Rpc.Wire.{Codec, BatchImageChunk, rethrow}
use pixeldive.Rpc.Single.Laws.{upload_for}
use pixeldive.Rpc.Batch.{
  Slot, Batch, batch_session_id, reject_full, apply_headers, apply_batch_chunk, ingest_batch_chunk,
  ingest_all, abort_slots, after_feed, write_back, complete,
}
use pixeldive.Sdk.Chunks.{batch_frame, batch_from}

-- What the rest of `assemble_batch` makes of the loop: the variables, or the error that it raises,
-- and the disk once the pending slots are aborted.
abbrev pub settled : {Meta A : Type 0} → Result A × Batch Meta → Result (Batch Meta) × Disk
settled (ok a, s) = (ok s, s.disk)
settled (err e, s) = (err (rethrow e), abort_slots s.pending s.disk)

module _ {Meta : Type 0} (codec : Codec Meta) (sha256 : Bytes → String)
    (max_bytes max_images : ℕ) where
  abbrev ingest : BatchImageChunk → Exec (Batch Meta) (Unit {0})
  ingest = ingest_batch_chunk codec sha256 max_bytes max_images

  abbrev ingest_frames : List BatchImageChunk → Exec (Batch Meta) (Unit {0})
  ingest_frames = ingest_all codec sha256 max_bytes max_images

  module _ (session_id filename content_type : String) (index sid : ℕ) where
    abbrev pub image_slot : Writer → Slot Meta
    image_slot writer = record {
      filename = or_default filename "upload.bin";
      content_type = or_default content_type "application/octet-stream";
      metadata = codec.no_meta;
      writer = writer;
    }

    module _ (completed : List (ImageUpload Meta)) (next_path : ℕ) where
      -- The variables while the image's bytes come in.
      abbrev pub filling : Option ℕ → Spooling → Batch Meta
      filling o sp = record {
        session_id = o;
        pending = (index, image_slot sp.writer) ∷ [];
        completed = completed;
        disk = sp.disk;
        next_path = next_path;
      }

      abbrev pub image_end : Option ℕ → Result Spool × Spooling → Result (Unit {0}) × Batch Meta
      image_end o (ok spool, sp) = (
        ok tt,
        record {
          session_id = some sid;
          pending = [];
          completed = completed ++ upload_for codec filename content_type spool ∷ [];
          disk = sp.disk;
          next_path = next_path;
        },
      )
      image_end o (err e, sp) = (err e, filling o sp)

      abbrev frame : Bytes → Bool → Bool → BatchImageChunk
      frame = batch_frame session_id filename content_type index

      abbrev pub mark : Exec (Batch Meta) (Unit {0})
      mark s = (ok tt, record s { session_id = some sid })

      -- The pending slots before a frame is fed.
      abbrev opened : Option ℕ → Writer → Disk → Batch Meta
      opened o writer disk = filling o (record { writer = writer; disk = disk })

      written_back :
          {A : Type 0} (o : Option ℕ) (writer : Writer) (disk : Disk) (r : Result A) (sp : Spooling)
          → write_back codec sha256 max_bytes max_images index
              (image_slot writer)
              (r, sp)
              (opened o writer disk)
            ≡ (r, filling o sp)
      unfolding put
      written_back o writer disk r sp = rw ((==_iff index index).1 refl) refl

      complete_lem :
          (o : Option ℕ) (writer : Writer) (disk : Disk) (p : Result Spool × Spooling)
          → continue
              (λ _. mark)
              (complete codec sha256 max_bytes max_images index
                (image_slot writer)
                p
                (opened o writer disk))
            ≡ image_end o p
      unfolding put remove
      complete_lem o writer disk (ok spool, sp) = rw ((==_iff index index).1 refl) refl
      complete_lem o writer disk (err e, sp) = rw ((==_iff index index).1 refl) refl

      last_lem :
          (o : Option ℕ) (piece : Bytes) (first : Bool) (writer : Writer) (disk : Disk)
          (p : Result (Unit {0}) × Spooling)
          → continue
              (λ _. mark)
              (after_feed codec sha256 max_bytes max_images
                (frame piece first true)
                (image_slot writer)
                p
                (opened o writer disk))
            ≡ image_end o (continue (λ _. finish sha256) p)
      unfolding batch_frame
      last_lem o piece first writer disk (ok u, sp) = complete_lem o writer disk (finish sha256 sp)
      last_lem o piece first writer disk (err e, sp) =
          ap (continue {A = Unit {0}} (λ _. mark)) (written_back o writer disk (err e) sp)

      -- After a frame that does not end the image.
      abbrev fed : Option ℕ → Result (Unit {0}) × Spooling → Result (Unit {0}) × Batch Meta
      fed o (ok u, sp) = (ok tt, filling (some sid) sp)
      fed o (err e, sp) = (err e, filling o sp)

      inner_lem :
          (o : Option ℕ) (piece : Bytes) (first : Bool) (writer : Writer) (disk : Disk)
          (p : Result (Unit {0}) × Spooling)
          → continue
              (λ _. mark)
              (after_feed codec sha256 max_bytes max_images
                (frame piece first false)
                (image_slot writer)
                p
                (opened o writer disk))
            ≡ fed o p
      unfolding batch_frame
      inner_lem o piece first writer disk (ok u, sp) =
          ap (continue {A = Unit {0}} (λ _. mark)) (written_back o writer disk (ok u) sp)
      inner_lem o piece first writer disk (err e, sp) =
          ap (continue {A = Unit {0}} (λ _. mark)) (written_back o writer disk (err e) sp)

      -- A frame after the first goes to the slot that is there.
      tail_frame :
          (piece : Bytes) (end : Bool) (sp : Spooling)
          → ingest (frame piece false end) (filling (some sid) sp)
            ≡ continue
                (λ _. mark)
                (after_feed codec sha256 max_bytes max_images
                  (frame piece false end)
                  (image_slot sp.writer)
                  (feed piece sp)
                  (filling (some sid) sp))
      unfolding ingest_batch_chunk batch_session_id reject_full apply_batch_chunk apply_headers
          batch_frame get
      tail_frame piece end sp = rw ((==_iff index index).1 refl, (==_iff index index).1 refl) refl

      -- An error leaves no trace of the session's id.
      session_forgotten :
          (o : Option ℕ) (p : Result Spool × Spooling)
          → settled (image_end o p) ≡ settled (image_end (some sid) p)
      session_forgotten o (ok spool, sp) = refl
      session_forgotten o (err e, sp) = refl

      unit_last : {S : Type 0} (p : Result (Unit {0}) × S) → continue (λ _. pure tt) p ≡ p
      unit_last (ok u, s) = refl
      unit_last (err e, s) = refl

      after_fed :
          (pieces : List Bytes) (o : Option ℕ) (rest : List BatchImageChunk)
          (p : Result (Unit {0}) × Spooling)
          → ((sp : Spooling)
              → settled (ingest_frames rest (filling (some sid) sp))
                ≡ settled (image_end (some sid) (loop sha256 pieces sp)))
          → settled (continue (λ _. ingest_frames rest) (fed o p))
            ≡ settled (image_end o (continue (λ _. loop sha256 pieces) p))
      after_fed pieces o rest (ok u, sp) h = rw (session_forgotten o (loop sha256 pieces sp)) (h sp)
      after_fed pieces o rest (err e, sp) h = refl

      -- One frame that ends the image is the loop over one piece.
      single_piece :
          (piece : Bytes) (sp : Spooling)
          → loop sha256 (piece ∷ []) sp ≡ continue (λ _. finish sha256) (feed piece sp)
      unfolding feed_all
      single_piece piece sp = ap (continue (λ _. finish sha256)) (unit_last (feed piece sp))

      continue_twice :
          (pieces : List Bytes) (p : Result (Unit {0}) × Spooling)
          → continue (λ _. finish sha256) (continue (λ _. feed_all pieces) p)
            ≡ continue (λ _. loop sha256 pieces) p
      continue_twice pieces (ok u, sp) = refl
      continue_twice pieces (err e, sp) = refl

      loop_more :
          (pieces : List Bytes) (piece : Bytes) (sp : Spooling)
          → loop sha256 (piece ∷ pieces) sp ≡ continue (λ _. loop sha256 pieces) (feed piece sp)
      unfolding feed_all
      loop_more pieces piece sp = continue_twice pieces (feed piece sp)

      pub frames_lem :
          (pieces : List Bytes) (piece : Bytes) (first : Bool) (o : Option ℕ) (s : Batch Meta)
          (sp : Spooling)
          → ((end : Bool)
              → ingest (frame piece first end) s
                ≡ continue
                    (λ _. mark)
                    (after_feed codec sha256 max_bytes max_images
                      (frame piece first end)
                      (image_slot sp.writer)
                      (feed piece sp)
                      (opened o sp.writer sp.disk)))
          → settled (
              ingest_frames
                (batch_from session_id filename content_type index (some piece) first pieces)
                s)
            ≡ settled (image_end o (loop sha256 (piece ∷ pieces) sp))
      unfolding ingest_all batch_from feed_all
      frames_lem [] piece first o s sp h =
          rw
            (
              single_piece piece sp,
              h true,
              last_lem o piece first sp.writer sp.disk (feed piece sp),
            )
            (ap settled (unit_last (image_end o (continue (λ _. finish sha256) (feed piece sp)))))
      frames_lem (next ∷ pieces) piece first o s sp h =
          rw
            (
              loop_more (next ∷ pieces) piece sp,
              h false,
              inner_lem o piece first sp.writer sp.disk (feed piece sp),
            )
            (after_fed (next ∷ pieces) o
              (batch_from session_id filename content_type index (some next) false pieces)
              (feed piece sp)
              (λ sp'.
                frames_lem pieces next false (some sid) (filling (some sid) sp') sp'
                  (λ end. tail_frame next end sp')))
