-- ===== src/Rpc/Batch/Limit.antt =====
-- The limit on the images of one batch.
pub mod Slots
use pixeldive.Prelude.{
  string_eq, nat_eq, ℕ, ◌≤◌, String, ◌≡◌, refl, Option, none, some, List, [], ◌∷◌, arith, length,
}
use pixeldive.Prelude.Dict.{Dict, get, put, remove, get-put}
use pixeldive.Errors.{Result, ok, err, Error, invalid_argument}
use pixeldive.Exec.{Exec, ◌>>=◌, ◌>>◌, modify, Ends, Ends-continue}
use pixeldive.Blobs.Spool.{Bytes, Disk, Spool, Spooling, feed, finish, Writer, start, new_writer}
use pixeldive.Blobs.Spool.Outcome.{started}
use pixeldive.Blobs.Uploads.{ImageUpload, upload_from_spool}
use pixeldive.Rpc.Wire.{Codec, BatchImageChunk, chunk_headers}
use pixeldive.Rpc.Single.{require_session_id}
use pixeldive.Rpc.Batch.{
  Batch, Slot, batch_session_id, reject_full, slot_for, is_new, new_batch_slot, apply_headers,
  apply_batch_chunk, ingest_batch_chunk, ingest_all, after_feed, feed_slot, session_once, slot_with,
  complete, write_back, after_ingest, finish_batch, finish_with, abort_pending, assemble_batch,
}
use pixeldive.Rpc.Batch.Limit.Slots.{
  Within, Keeps, Ends-Within, session_once-state, Slotted, feed_slot-Within, Room, reject_full-Room,
  slot_for-Slotted,
}

module _ {Meta : Type 0} (codec : Codec Meta) (sha256 : Bytes → String)
    (max_bytes max_images : ℕ) where
  module _ (chunk : BatchImageChunk) (sid : ℕ) where
    abbrev fed_step : Slot Meta → Exec (Batch Meta) (Unit {0})
    fed_step slot =
        apply_batch_chunk codec sha256 max_bytes max_images chunk slot
        >> modify (λ s. record s { session_id = some sid })

    abbrev slot_step : Exec (Batch Meta) (Unit {0})
    slot_step =
        (λ s. slot_for codec sha256 max_bytes max_images chunk (get s.pending chunk.image_index) s)
        >>= fed_step

    abbrev room_step : Exec (Batch Meta) (Unit {0})
    room_step = reject_full codec sha256 max_bytes max_images chunk >> slot_step

    fed_step-Within :
        (slot : Slot Meta) (s : Batch Meta)
        → Slotted codec sha256 max_bytes max_images chunk.image_index s
        → Keeps codec sha256 max_bytes max_images (fed_step slot s)
    unfolding apply_batch_chunk
    fed_step-Within slot s at =
        Ends-continue (λ _. Within codec sha256 max_bytes max_images)
          (λ _. Within codec sha256 max_bytes max_images) (Within codec sha256 max_bytes max_images)
          (λ _. modify (λ s. record s { session_id = some sid }))
          (apply_batch_chunk codec sha256 max_bytes max_images chunk slot s)
          (feed_slot-Within codec sha256 max_bytes max_images chunk
            (apply_headers codec sha256 max_bytes max_images chunk slot) s at)
          (λ _ s' h. unfold Within in h)

    slot_step-Within :
        (s : Batch Meta)
        → Room codec sha256 max_bytes max_images chunk.image_index s
        → Keeps codec sha256 max_bytes max_images (slot_step s)
    slot_step-Within s room =
        let slot = get s.pending chunk.image_index in
        Ends-continue (λ _. Slotted codec sha256 max_bytes max_images chunk.image_index)
          (λ _. Within codec sha256 max_bytes max_images) (Within codec sha256 max_bytes max_images)
          fed_step (slot_for codec sha256 max_bytes max_images chunk slot s)
          (slot_for-Slotted codec sha256 max_bytes max_images chunk slot s refl room)
          fed_step-Within

    room_step-Within :
        (s : Batch Meta)
        → Within codec sha256 max_bytes max_images s
        → Keeps codec sha256 max_bytes max_images (room_step s)
    room_step-Within s h =
        Ends-continue (λ _. Room codec sha256 max_bytes max_images chunk.image_index)
          (λ _. Within codec sha256 max_bytes max_images) (Within codec sha256 max_bytes max_images)
          (λ _. slot_step) (reject_full codec sha256 max_bytes max_images chunk s)
          (reject_full-Room codec sha256 max_bytes max_images chunk s h)
          (λ _ s' room. slot_step-Within s' room)

  ingest_batch_chunk-Within :
      (chunk : BatchImageChunk) (s : Batch Meta)
      → Within codec sha256 max_bytes max_images s
      → Keeps codec sha256 max_bytes max_images
          (ingest_batch_chunk codec sha256 max_bytes max_images chunk s)
  unfolding ingest_batch_chunk batch_session_id
  ingest_batch_chunk-Within chunk s h =
      let named = batch_session_id codec sha256 max_bytes max_images chunk s in
      Ends-continue (λ _. Within codec sha256 max_bytes max_images)
        (λ _. Within codec sha256 max_bytes max_images) (Within codec sha256 max_bytes max_images)
        (room_step chunk) named
        (Ends-Within codec sha256 max_bytes max_images named
          (rw (session_once-state codec sha256 max_bytes max_images s.session_id chunk s) h))
        (λ sid s' h'. room_step-Within chunk sid s' h')

  ingest_all-Within :
      (chunks : List BatchImageChunk) (s : Batch Meta)
      → Within codec sha256 max_bytes max_images s
      → Keeps codec sha256 max_bytes max_images
          (ingest_all codec sha256 max_bytes max_images chunks s)
  unfolding ingest_all
  ingest_all-Within [] s h = h
  ingest_all-Within (chunk ∷ chunks) s h =
      Ends-continue (λ _. Within codec sha256 max_bytes max_images)
        (λ _. Within codec sha256 max_bytes max_images) (Within codec sha256 max_bytes max_images)
        (λ _. ingest_all codec sha256 max_bytes max_images chunks)
        (ingest_batch_chunk codec sha256 max_bytes max_images chunk s)
        (ingest_batch_chunk-Within chunk s h) (λ _ s' h'. ingest_all-Within chunks s' h')

  after_ingest-Within :
      (p : Result (Unit {0}) × Batch Meta)
      → Keeps codec sha256 max_bytes max_images p
      → Within codec sha256 max_bytes max_images
          (after_ingest codec sha256 max_bytes max_images p).1
        × ((sid : ℕ) (uploads : List (ImageUpload Meta))
            → (after_ingest codec sha256 max_bytes max_images p).0 ≡ ok (sid, uploads)
            → length uploads ≤ max_images)
  unfolding finish_batch abort_pending Within
  after_ingest-Within (err e, s) h = (h, λ sid uploads q. absurd (cc q))
  after_ingest-Within (ok u, s) h = finished s.session_id s.pending refl
    where
      finished :
          (o : Option ℕ) (pending : Dict ℕ (Slot Meta))
          → s.pending ≡ pending
          → Within codec sha256 max_bytes max_images
              (finish_with codec sha256 max_bytes max_images o pending s).1
            × ((sid : ℕ) (uploads : List (ImageUpload Meta))
                → (finish_with codec sha256 max_bytes max_images o pending s).0 ≡ ok (sid, uploads)
                → length uploads ≤ max_images)
      finished none pending e = (h, λ sid uploads q. absurd (cc q))
      finished (some sid) (slot ∷ pending) e = (h, λ sid' uploads q. absurd (cc q))
      finished (some sid) [] e =
          (h, λ sid' uploads q. let same : s.completed ≡ uploads = cc q in ground (arith, h, same))

  -- For every stream of frames, also one that fails: the images that are not complete yet and those
  -- that are complete are never more than `max_images` together, and so the answer has no more.
  pub assemble_batch-Within :
      (chunks : List BatchImageChunk) (disk : Disk) (next_path : ℕ)
      → Within codec sha256 max_bytes max_images
          (assemble_batch codec sha256 max_bytes max_images chunks disk next_path).1
        × ((sid : ℕ) (uploads : List (ImageUpload Meta))
            → (assemble_batch codec sha256 max_bytes max_images chunks disk next_path).0
              ≡ ok (sid, uploads)
            → length uploads ≤ max_images)
  unfolding assemble_batch
  assemble_batch-Within chunks disk next_path =
      let empty : Batch Meta = record {
        session_id = none;
        pending = [];
        completed = [];
        disk = disk;
        next_path = next_path;
      } in
      after_ingest-Within (ingest_all codec sha256 max_bytes max_images chunks empty)
        (ingest_all-Within chunks empty (unfold Within in omega arith))
