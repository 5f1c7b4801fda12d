-- ===== src/Sdk/Chunks/Reads.antt =====
-- The reads of a file on the server.
use pixeldive.Prelude.{string_eq, ℕ, zero, suc, ◌≤◌, max, ◌≡◌, refl, arith, length, drop}
use pixeldive.Prelude.All.{All}
use pixeldive.Blobs.Spool.{Bytes}
use pixeldive.Blobs.Spool.Laws.{flatten}
use pixeldive.Blobs.Store.{read_chunks}
use pixeldive.Sdk.Chunks.{iter_path}
use pixeldive.Sdk.Chunks.Laws.{iter_path_lem, Fits}

-- The reads of the server are those of the client over the same bytes.
pub read_chunks-iter_path :
    (fuel : ℕ) (rest : Bytes) (chunk_size : ℕ)
    → 1 ≤ chunk_size
    → read_chunks fuel rest chunk_size ≡ iter_path fuel rest chunk_size
unfolding read_chunks iter_path
read_chunks-iter_path zero rest chunk_size h = refl
read_chunks-iter_path (suc fuel) rest chunk_size h =
    let e : max chunk_size 1 ≡ chunk_size = omega (arith, h) in
    rw (e, read_chunks-iter_path fuel (drop chunk_size rest) chunk_size h) refl

pub read_chunks_lem :
    (content : Bytes) (chunk_size : ℕ)
    → 1 ≤ chunk_size
    → flatten (read_chunks (suc (length content)) content chunk_size) ≡ content
read_chunks_lem content chunk_size h =
    rw (read_chunks-iter_path (suc (length content)) content chunk_size h)
      (iter_path_lem (suc (length content)) content chunk_size (omega arith)).0

pub read_chunks-Fits :
    (content : Bytes) (chunk_size : ℕ)
    → 1 ≤ chunk_size
    → All (Fits chunk_size) (read_chunks (suc (length content)) content chunk_size)
read_chunks-Fits content chunk_size h =
    let e : max chunk_size 1 ≡ chunk_size = omega (arith, h) in
    let fits = (iter_path_lem (suc (length content)) content chunk_size (omega arith)).1 in
    rw (read_chunks-iter_path (suc (length content)) content chunk_size h) (rw e at fits)
