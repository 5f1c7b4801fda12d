-- ===== src/Rpc/Batch.antt =====
-- app/rpc/grpc_batch.py, grpc_batch_ingest.py and grpc_batch_slots.py: many images from one client
-- stream. The slots of the images that are not complete yet are the dictionary `pending`, and a
-- slot that is changed is written back there. The n-th writer of a call has the path `next_path`,
-- which stands for the name that `uuid4` makes.
pub mod Image
pub mod Arrived
pub mod RoundTrip
pub mod Limit
use pixeldive.Prelude.{
  string_eq, nat_eq, ℕ, suc, ◌+◌, String, Bool, true, false, ◌&&◌, Option, none, some, List, [],
  ◌∷◌, ◌++◌, leb, if◌then◌else◌, length, ◌=?◌,
}
use pixeldive.Prelude.Dict.{Dict, get, put, remove}
use pixeldive.Errors.{Result, ok, err, Error, invalid_argument}
use pixeldive.Exec.{Exec, pure, lift, modify, ◌>>=◌, ◌>>◌}
use pixeldive.Blobs.Spool.{
  Bytes, Disk, Spool, Spooling, Writer, abort, feed, finish, start, new_writer,
}
use pixeldive.Blobs.Uploads.{ImageUpload, upload_from_spool}
use pixeldive.Rpc.Wire.{Codec, BatchImageChunk, chunk_headers, as_uuid, rethrow}
use pixeldive.Rpc.Single.{require_session_id}

pub record Slot (Meta : Type 0) : Type 0 where
  pub filename : String
  pub content_type : String
  pub metadata : Meta
  pub writer : Writer

-- The variables of `assemble_batch`, and the disk.
pub record Batch (Meta : Type 0) : Type 0 where
  pub session_id : Option ℕ
  pub pending : Dict ℕ (Slot Meta)
  pub completed : List (ImageUpload Meta)
  pub disk : Disk
  pub next_path : ℕ

module _ {Meta : Type 0} where
  abbrev pub abort_slots : Dict ℕ (Slot Meta) → Disk → Disk
  abort_slots [] disk = disk
  abort_slots ((i, slot) ∷ pending) disk =
      abort_slots pending (abort (record { writer = slot.writer; disk = disk })).1.disk

  unfoldable pub abort_pending : Batch Meta → Batch Meta
  unfolding abort
  abort_pending s = record s { disk = abort_slots s.pending s.disk }

module _ {Meta : Type 0} (codec : Codec Meta) (sha256 : Bytes → String)
    (max_bytes max_images : ℕ) where
  abbrev pub session_once : Option ℕ → BatchImageChunk → Exec (Batch Meta) ℕ
  session_once (some sid) chunk = pure sid
  session_once none chunk = do
    require_session_id chunk.session_id (pure tt)
    lift (as_uuid codec chunk.session_id)

  unfoldable pub batch_session_id : BatchImageChunk → Exec (Batch Meta) ℕ
  unfolding require_session_id as_uuid
  batch_session_id chunk s = session_once s.session_id chunk s

  abbrev pub slot_with : Writer → Result (String × String × Meta) → Exec (Batch Meta) (Slot Meta)
  slot_with writer (ok (filename, content_type, metadata)) s = (
    ok (record {
      filename = filename;
      content_type = content_type;
      metadata = metadata;
      writer = writer;
    }),
    s,
  )
  slot_with writer (err e) s = (err e, s)

  -- The writer is started before the headers are read.
  unfoldable pub new_batch_slot : BatchImageChunk → Exec (Batch Meta) (Slot Meta)
  unfolding new_writer start chunk_headers
  new_batch_slot chunk s =
      let (r, opened) =
        start (record { writer = new_writer s.next_path max_bytes; disk = s.disk }) in
      slot_with opened.writer
        (chunk_headers codec chunk.filename chunk.content_type chunk.metadata_json)
        (record s { disk = opened.disk; next_path = suc s.next_path })

  -- `slot = pending.get(chunk.image_index)`, and a new slot for a new index.
  abbrev pub slot_for : BatchImageChunk → Option (Slot Meta) → Exec (Batch Meta) (Slot Meta)
  slot_for chunk (some slot) = pure slot
  slot_for chunk none = do
    slot ← new_batch_slot chunk
    modify (λ s. record s { pending = put s.pending chunk.image_index slot })
    pure slot

  abbrev pub is_new : Option (Slot Meta) → Bool
  is_new none = true
  is_new (some slot) = false

  unfoldable pub reject_full : BatchImageChunk → Exec (Batch Meta) (Unit {0})
  reject_full chunk s =
      if is_new (get s.pending chunk.image_index)
        && leb max_images (length s.pending + length s.completed)
      then (err (Error.rpc_aborted invalid_argument), s)
      else (ok tt, s)

  abbrev pub renamed :
      BatchImageChunk → Slot Meta → Result (String × String × Meta) → Result (Slot Meta)
  renamed chunk slot (err e) = err e
  renamed chunk slot (ok (filename, content_type, metadata)) = ok (record {
    filename = if chunk.filename =? "" then slot.filename else filename;
    content_type = if chunk.content_type =? "" then slot.content_type else content_type;
    metadata = if chunk.metadata_json =? "" then slot.metadata else metadata;
    writer = slot.writer;
  })

  -- The headers that a later chunk may carry.
  unfoldable pub apply_headers : BatchImageChunk → Slot Meta → Result (Slot Meta)
  unfolding chunk_headers
  apply_headers chunk slot =
      if (chunk.filename =? "") && (chunk.content_type =? "") && (chunk.metadata_json =? "")
      then ok slot
      else renamed chunk slot
          (chunk_headers codec chunk.filename chunk.content_type chunk.metadata_json)

  -- The slot goes back with its writer as the spool left it.
  abbrev pub write_back : {A : Type 0} → ℕ → Slot Meta → Result A × Spooling → Exec (Batch Meta) A
  write_back index slot (r, sp) s = (
    r,
    record s { pending = put s.pending index (record slot { writer = sp.writer }); disk = sp.disk },
  )

  abbrev pub spooling : Slot Meta → Batch Meta → Spooling
  spooling slot s = record { writer = slot.writer; disk = s.disk }

  -- `upload_from_slot`, `completed.append` and `del pending[…]`
  abbrev pub complete : ℕ → Slot Meta → Result Spool × Spooling → Exec (Batch Meta) (Unit {0})
  complete index slot (err e, sp) s = write_back index slot (err e, sp) s
  complete index slot (ok spool, sp) s = (
    ok tt,
    record s {
      completed =
          s.completed ++ upload_from_spool slot.filename slot.content_type spool slot.metadata ∷ [];
      pending = remove s.pending index;
      disk = sp.disk;
    },
  )

  -- What follows the feed: a chunk that ends its image completes the slot.
  abbrev pub after_feed :
      BatchImageChunk → Slot Meta → Result (Unit {0}) × Spooling → Exec (Batch Meta) (Unit {0})
  after_feed chunk slot (err e, sp) s = write_back chunk.image_index slot (err e, sp) s
  after_feed chunk slot (ok u, sp) s =
      if chunk.end_of_image
      then complete chunk.image_index slot (finish sha256 sp) s
      else write_back chunk.image_index slot (ok u, sp) s

  abbrev pub feed_slot : BatchImageChunk → Result (Slot Meta) → Exec (Batch Meta) (Unit {0})
  feed_slot chunk (err e) s = (err e, s)
  feed_slot chunk (ok slot) s = after_feed chunk slot (feed chunk.content (spooling slot s)) s

  -- `apply_batch_chunk` and the completion of an image.
  unfoldable pub apply_batch_chunk : BatchImageChunk → Slot Meta → Exec (Batch Meta) (Unit {0})
  unfolding apply_headers
  apply_batch_chunk chunk slot = feed_slot chunk (apply_headers chunk slot)

  unfoldable pub ingest_batch_chunk : BatchImageChunk → Exec (Batch Meta) (Unit {0})
  unfolding batch_session_id reject_full new_batch_slot apply_batch_chunk
  ingest_batch_chunk chunk = do
    resolved ← batch_session_id chunk
    reject_full chunk
    slot ← (λ s. slot_for chunk (get s.pending chunk.image_index) s)
    apply_batch_chunk chunk slot
    modify (λ s. record s { session_id = some resolved })

  -- The loop of `assemble_batch`.
  unfoldable pub ingest_all : List BatchImageChunk → Exec (Batch Meta) (Unit {0})
  ingest_all [] s = (ok tt, s)
  ingest_all (chunk ∷ chunks) s = (ingest_batch_chunk chunk >>= λ _. ingest_all chunks) s

  abbrev pub finish_with :
      Option ℕ → Dict ℕ (Slot Meta) → Exec (Batch Meta) (ℕ × List (ImageUpload Meta))
  finish_with none pending s = (err (Error.rpc_aborted invalid_argument), abort_pending s)
  finish_with (some sid) (slot ∷ pending) s =
      (err (Error.rpc_aborted invalid_argument), abort_pending s)
  finish_with (some sid) [] s = (ok (sid, s.completed), s)

  unfoldable pub finish_batch : Exec (Batch Meta) (ℕ × List (ImageUpload Meta))
  unfolding abort_pending
  finish_batch s = finish_with s.session_id s.pending s

  abbrev pub after_ingest :
      Result (Unit {0}) × Batch Meta → Result (ℕ × List (ImageUpload Meta)) × Batch Meta
  after_ingest (ok u, s) = finish_batch s
  after_ingest (err e, s) = (err (rethrow e), abort_pending s)

  unfoldable pub assemble_batch :
      List BatchImageChunk → Disk → ℕ → Result (ℕ × List (ImageUpload Meta)) × Batch Meta
  unfolding ingest_all finish_batch abort_pending rethrow ingest_batch_chunk
  assemble_batch chunks disk next_path = after_ingest (
      ingest_all chunks (record {
        session_id = none;
        pending = [];
        completed = [];
        disk = disk;
        next_path = next_path;
      }))
