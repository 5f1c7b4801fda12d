-- ===== src/Sdk/Chunks/Batch.antt =====
-- The frames of one image in a batch.
use pixeldive.Prelude.{
  ℕ, String, ◌≡◌, refl, ap, Bool, true, false, Option, none, some, List, [], ◌∷◌, ◌++◌, map,
  get_or_else,
}
use pixeldive.Prelude.All.{All}
use pixeldive.Rpc.Wire.{BatchImageChunk}
use pixeldive.Blobs.Spool.{Bytes}
use pixeldive.Blobs.Spool.Laws.{flatten}
use pixeldive.Sdk.Chunks.{batch_from, batch_frame, batch_image_chunks}

-- Only the last frame ends the image.
abbrev pub EndsOnce : List BatchImageChunk → Type 0
EndsOnce [] = Unit
EndsOnce (f ∷ []) = f.end_of_image ≡ true
EndsOnce (f ∷ g ∷ frames) = (f.end_of_image ≡ false) × EndsOnce (g ∷ frames)

-- Only the first frame names the session.
abbrev pub NamedFirst : String → List BatchImageChunk → Type 0
NamedFirst session_id [] = Unit
NamedFirst session_id (f ∷ frames) =
    (f.session_id ≡ session_id) × All (λ g. g.session_id ≡ "") frames

module _ (session_id filename content_type : String) (index : ℕ) where
  abbrev frames_from : Option Bytes → Bool → List Bytes → List BatchImageChunk
  frames_from = batch_from session_id filename content_type index

  contents :
      (last : Option Bytes) (first : Bool) (pieces : List Bytes)
      → flatten (map (λ f. f.content) (frames_from last first pieces))
        ≡ get_or_else [] last ++ flatten pieces
  unfolding batch_from batch_frame
  contents none first [] = refl
  contents (some piece) first [] = refl
  contents none first (piece ∷ pieces) = contents (some piece) first pieces
  contents (some piece) first (next ∷ pieces) =
      ap (λ rest. piece ++ rest) (contents (some next) false pieces)

  ends_once :
      (piece : Bytes) (first : Bool) (pieces : List Bytes)
      → EndsOnce (frames_from (some piece) first pieces)
  unfolding batch_from batch_frame
  ends_once piece first [] = refl
  ends_once piece first (next ∷ []) = (refl, refl)
  ends_once piece first (next ∷ third ∷ pieces) = (refl, ends_once next false (third ∷ pieces))

  unnamed :
      (piece : Bytes) (pieces : List Bytes)
      → All (λ g. g.session_id ≡ "") (frames_from (some piece) false pieces)
  unfolding batch_from batch_frame
  unnamed piece [] = (refl, tt)
  unnamed piece (next ∷ pieces) = (refl, unnamed next pieces)

  named_first :
      (piece : Bytes) (pieces : List Bytes)
      → NamedFirst session_id (frames_from (some piece) true pieces)
  unfolding batch_from batch_frame
  named_first piece [] = (refl, tt)
  named_first piece (next ∷ pieces) = (refl, unnamed next pieces)

  -- For every stream of pieces, the frames of an image hold its bytes in order, exactly the last one
  -- ends the image, and the first one carries the session's id and the others none.
  pub batch_image_chunks_lem :
      (pieces : List Bytes)
      → (flatten (
            map (λ f. f.content) (batch_image_chunks session_id filename content_type index pieces))
          ≡ flatten pieces)
        × EndsOnce (batch_image_chunks session_id filename content_type index pieces)
        × NamedFirst session_id (batch_image_chunks session_id filename content_type index pieces)
  unfolding batch_image_chunks batch_from batch_frame
  batch_image_chunks_lem [] = (refl, refl, (refl, tt))
  batch_image_chunks_lem (piece ∷ pieces) =
      (contents (some piece) true pieces, ends_once piece true pieces, named_first piece pieces)
