-- ===== src/Rpc/Batch/Arrived/Steps.antt =====
-- The frames of two images, one after the other, and those of an image that there is no room for.
use pixeldive.Prelude.{
  string_eq, nat_eq, ℕ, ◌+◌, String, ◌≡◌, refl, Bool, true, false, Option, some, List, [], ◌∷◌,
  ◌++◌, arith, leb, length,
}
use pixeldive.Prelude.Dict.{get}
use pixeldive.Errors.{Result, ok, err, Error, invalid_argument}
use pixeldive.Exec.{Exec, continue}
use pixeldive.Blobs.Spool.{Bytes, Disk}
use pixeldive.Blobs.Uploads.{ImageUpload}
use pixeldive.Rpc.Wire.{Codec, BatchImageChunk, rethrow}
use pixeldive.Rpc.Batch.{Batch, reject_full, ingest_batch_chunk, ingest_all}
use pixeldive.Rpc.Batch.Image.{before, Known}
use pixeldive.Sdk.Chunks.{batch_frame, batch_from, batch_image_chunks}
use pixeldive.Rpc.Batch.Image.Frames.{settled}

module _ {Meta : Type 0} (codec : Codec Meta) (sha256 : Bytes → String)
    (max_bytes max_images : ℕ) where
  abbrev pub ingest : List BatchImageChunk → Exec (Batch Meta) (Unit {0})
  ingest = ingest_all codec sha256 max_bytes max_images

  abbrev pub then_settled :
      (Batch Meta → Result (Batch Meta) × Disk)
      → Result (Batch Meta) × Disk
      → Result (Batch Meta) × Disk
  then_settled f (ok s, d) = f s
  then_settled f (err e, d) = (err e, d)

  pub settled-continue :
      (ys : List BatchImageChunk) (p : Result (Unit {0}) × Batch Meta)
      → settled (continue (λ _. ingest ys) p)
        ≡ then_settled (λ s. settled (ingest ys s)) (settled p)
  settled-continue ys (ok u, s) = refl
  settled-continue ys (err e, s) = refl

  append_after :
      (ys : List BatchImageChunk) (g h : Exec (Batch Meta) (Unit {0}))
      (p : Result (Unit {0}) × Batch Meta)
      → ((s : Batch Meta) → g s ≡ continue (λ _. ingest ys) (h s))
      → continue (λ _. g) p ≡ continue (λ _. ingest ys) (continue (λ _. h) p)
  append_after ys g h (ok u, s) e = e s
  append_after ys g h (err x, s) e = refl

  pub ingest_all-append :
      (xs ys : List BatchImageChunk) (s : Batch Meta)
      → ingest (xs ++ ys) s ≡ continue (λ _. ingest ys) (ingest xs s)
  unfolding ingest_all
  ingest_all-append [] ys s = refl
  ingest_all-append (x ∷ xs) ys s =
      append_after ys (ingest (xs ++ ys)) (ingest xs)
        (ingest_batch_chunk codec sha256 max_bytes max_images x s)
        (λ s'. ingest_all-append xs ys s')

  -- The first frame of an image that there is no room for.
  module _ (session_id : String) (sid : ℕ) (o : Option ℕ) (index path : ℕ)
      (completed : List (ImageUpload Meta)) (disk : Disk) (f t : String)
      (known : Known codec sha256 max_bytes max_images session_id f t index sid o)
      (full : leb max_images (length completed) ≡ true) where
    abbrev start : Batch Meta
    start = before codec sha256 max_bytes max_images session_id f t index sid o completed disk path

    full_frame :
        (piece : Bytes) (end : Bool)
        → ingest_batch_chunk codec sha256 max_bytes max_images
            (batch_frame session_id f t index piece true end)
            start
          ≡ (err (Error.rpc_aborted invalid_argument), start)
    unfolding ingest_batch_chunk reject_full batch_frame get
    full_frame piece end =
        let no_room : leb max_images (0 + length completed) ≡ true = ground (arith, full) in
        rw (known piece end start refl, no_room) refl

    full_from :
        (piece : Bytes) (pieces : List Bytes)
        → settled (ingest (batch_from session_id f t index (some piece) true pieces) start)
          ≡ (err (Error.rpc_aborted invalid_argument), disk)
    unfolding batch_from ingest_all rethrow
    full_from piece [] = rw (full_frame piece true) refl
    full_from piece (next ∷ pieces) = rw (full_frame piece false) refl

    pub full_image :
        (pieces : List Bytes)
        → settled (ingest (batch_image_chunks session_id f t index pieces) start)
          ≡ (err (Error.rpc_aborted invalid_argument), disk)
    unfolding batch_image_chunks batch_from
    full_image [] = full_from [] []
    full_image (piece ∷ pieces) = full_from piece pieces
