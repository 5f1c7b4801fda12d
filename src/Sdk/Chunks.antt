-- ===== src/Sdk/Chunks.antt =====
-- sdk/pixeldive_sdk/chunking.py and grpc_iter.py: the frames of an upload. A stream of pieces, from
-- a sync or an async iterator, is the list of what it yields.
pub mod Laws
pub mod Batch
pub mod Reads
use pixeldive.Prelude.{
  string_eq, ℕ, zero, suc, ◌+◌, max, String, Bool, true, false, Option, none, some, List, [], ◌∷◌,
  ◌++◌, map, ltb, if◌then◌else◌, length, drop, take, is_empty, get_or_else,
}
use pixeldive.Blobs.Spool.{Bytes}
use pixeldive.Rpc.Wire.{ImageChunk, BatchImageChunk}

-- The `while` loop of `iter_bytes`, from an offset; each round moves the offset on by one at least.
unfoldable pub slices : ℕ → ℕ → Bytes → ℕ → List Bytes
slices zero size payload offset = []
slices (suc fuel) size payload offset =
    let rest = slices fuel size payload (offset + size) in
    if ltb offset (length payload) then take size (drop offset payload) ∷ rest else []

unfoldable pub iter_bytes : Bytes → ℕ → List Bytes
unfolding slices
iter_bytes payload chunk_size =
    if is_empty payload then payload ∷ [] else slices (length payload) (max chunk_size 1) payload 0

-- The reads of `iter_path`: `handle.read(size)` until it gives nothing.
unfoldable pub iter_path : ℕ → Bytes → ℕ → List Bytes
iter_path zero file chunk_size = []
iter_path (suc fuel) file chunk_size =
    let size = max chunk_size 1 in
    let rest = take size file ∷ iter_path fuel (drop size file) chunk_size in
    if is_empty (take size file) then [] else rest

-- A frame after the first carries no headers.
abbrev pub tail_chunk : Bytes → ImageChunk
tail_chunk piece = record {
  session_id = "";
  filename = "";
  content_type = "";
  content = piece;
  metadata_json = "";
}

module _ (session_id filename content_type : String) where
  abbrev pub head_chunk : Bytes → ImageChunk
  head_chunk piece = record {
    session_id = session_id;
    filename = filename;
    content_type = content_type;
    content = piece;
    metadata_json = "";
  }

  unfoldable pub single_image_chunks : List Bytes → List ImageChunk
  single_image_chunks [] = head_chunk [] ∷ []
  single_image_chunks (piece ∷ pieces) = head_chunk piece ∷ map tail_chunk pieces

  unfoldable pub batch_frame : ℕ → Bytes → Bool → Bool → BatchImageChunk
  batch_frame index piece first end = record {
    session_id = if first then session_id else "";
    image_index = index;
    filename = if first then filename else "";
    content_type = if first then content_type else "";
    content = piece;
    end_of_image = end;
    metadata_json = "";
  }

  -- The loop of `batch_image_chunks`, with its variables `last` and `first`.
  unfoldable pub batch_from : ℕ → Option Bytes → Bool → List Bytes → List BatchImageChunk
  unfolding batch_frame
  batch_from index last first [] = batch_frame index (get_or_else [] last) first true ∷ []
  batch_from index none first (piece ∷ pieces) = batch_from index (some piece) first pieces
  batch_from index (some last) first (piece ∷ pieces) =
      batch_frame index last first false ∷ batch_from index (some piece) false pieces

  unfoldable pub batch_image_chunks : ℕ → List Bytes → List BatchImageChunk
  unfolding batch_from
  batch_image_chunks index pieces = batch_from index none true pieces

-- The frames of `_upload_batch`: the items are numbered from `index` on.
unfoldable pub batch_chunks :
    String → ℕ → List (String × List Bytes × String) → List BatchImageChunk
unfolding batch_image_chunks
batch_chunks session_id index [] = []
batch_chunks session_id index ((filename, pieces, content_type) ∷ items) =
    batch_image_chunks session_id filename content_type index pieces
    ++ batch_chunks session_id (suc index) items

abbrev pub in_pieces : ℕ → String × Bytes × String → String × List Bytes × String
in_pieces chunk_size (filename, payload, content_type) =
    (filename, iter_bytes payload chunk_size, content_type)

-- The frames of `upload_images_batch`.
unfoldable pub upload_images_batch :
    String → List (String × Bytes × String) → ℕ → List BatchImageChunk
unfolding batch_chunks iter_bytes
upload_images_batch session_id items chunk_size =
    batch_chunks session_id 0 (map (in_pieces chunk_size) items)
