-- ===== src/Sdk/Tests.antt =====
-- The windows of a small payload.
use pixeldive.Prelude.{max, ◌≡◌, refl, ◌≢◌, List, [], ◌∷◌, map, arith}
use pixeldive.Blobs.Spool.{Bytes}
use pixeldive.Rpc.Wire.{BatchImageChunk}
use pixeldive.Sdk.Chunks.Batch.{batch_image_chunks_lem, EndsOnce, NamedFirst}
use pixeldive.Blobs.Spool.Laws.{flatten}
use pixeldive.Sdk.Chunks.{batch_image_chunks, iter_bytes, iter_path, slices}
use pixeldive.Sdk.Chunks.Laws.{iter_bytes_lem, iter_path_lem, Fits}
use pixeldive.Prelude.All.{All}

abbrev photo : Bytes
photo = 1 ∷ 2 ∷ 3 ∷ []

two_windows : iter_bytes photo 2 ≡ (1 ∷ 2 ∷ []) ∷ (3 ∷ []) ∷ []
unfolding iter_bytes slices
two_windows = refl

iter_bytes_lem_example :
    (flatten (iter_bytes photo 2) ≡ photo)
    × (photo ≢ [] → All (Fits (max 2 1)) (iter_bytes photo 2))
iter_bytes_lem_example = iter_bytes_lem photo 2

iter_path_lem_example :
    (flatten (iter_path 4 photo 0) ≡ photo) × All (Fits (max 0 1)) (iter_path 4 photo 0)
iter_path_lem_example = iter_path_lem 4 photo 0 (omega arith)

abbrev frames : List BatchImageChunk
frames = batch_image_chunks "s" "a.png" "image/png" 0 ((1 ∷ []) ∷ (2 ∷ []) ∷ [])

batch_image_chunks_lem_example :
    (flatten (map (λ f. f.content) frames) ≡ 1 ∷ 2 ∷ []) × EndsOnce frames × NamedFirst "s" frames
batch_image_chunks_lem_example =
    batch_image_chunks_lem "s" "a.png" "image/png" 0 ((1 ∷ []) ∷ (2 ∷ []) ∷ [])
