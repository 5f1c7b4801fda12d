-- ===== src/Rpc/Batch/RoundTrip.antt =====
-- The payloads that the Python client uploads in one batch arrive in the server's spools.
use pixeldive.Prelude.{
  string_eq, nat_eq, ℕ, suc, String, ◌≡◌, refl, ap, ◌∙◌, false, none, some, List, [], ◌∷◌, map,
  ◌=?◌,
}
use pixeldive.Prelude.Dict.{get}
use pixeldive.Errors.{Result, ok, err, Error, invalid_argument}
use pixeldive.Blobs.Spool.{Bytes, Disk}
use pixeldive.Blobs.Uploads.{ImageUpload}
use pixeldive.Rpc.Wire.{Codec}
use pixeldive.Rpc.Batch.{
  Batch, ingest_all, after_ingest, assemble_batch, finish_batch, abort_pending,
}
use pixeldive.Rpc.Batch.Image.{before}
use pixeldive.Sdk.Chunks.{batch_chunks, in_pieces, upload_images_batch}
use pixeldive.Rpc.Batch.Arrived.{Ended, image_Arrived, later_Arrived, Known-first}
use pixeldive.Rpc.Batch.Image.Frames.{settled}
use pixeldive.Rpc.Batch.Arrived.Items.{Item, batch_uploads, file_after}

-- The answer of the call.
abbrev pub batch_answer : {A : Type 0} → ℕ → List Item → Result (List A) → Result (ℕ × List A)
batch_answer sid [] r = err (Error.rpc_aborted invalid_argument)
batch_answer sid (item ∷ items) (ok uploads) = ok (sid, uploads)
batch_answer sid (item ∷ items) (err e) = err e

module _ {Meta : Type 0} (codec : Codec Meta) (sha256 : Bytes → String) (max_bytes max_images : ℕ)
    (session_id : String) (sid : ℕ) (named : (session_id =? "") ≡ false)
    (parsed : codec.parse_uuid session_id ≡ some sid) where
  abbrev pub received : List Item → ℕ → Disk → ℕ → Result (ℕ × List (ImageUpload Meta)) × Batch Meta
  received items chunk_size disk path =
      assemble_batch codec sha256 max_bytes max_images
        (upload_images_batch session_id items chunk_size) disk path

  concluded :
      (item : Item) (items : List Item) (chunk_size : ℕ) (r : Result (List (ImageUpload Meta)))
      (p : Result (Unit {0}) × Batch Meta)
      → Ended codec sha256 max_bytes max_images session_id sid chunk_size [] r (settled p)
      → ((after_ingest codec sha256 max_bytes max_images p).0 ≡ batch_answer sid (item ∷ items) r)
        × ((after_ingest codec sha256 max_bytes max_images p).1.disk ≡ (settled p).1)
  unfolding finish_batch abort_pending
  concluded item items chunk_size (err x) (err e, s) h = (cc h, refl)
  concluded item items chunk_size (err x) (ok u, s) h = absurd (cc h)
  concluded item items chunk_size (ok l) (err e, s) (s', a, b, c, d, f) = absurd (cc a)
  concluded item items chunk_size (ok l) (ok u, s) (s', a, b, c, d, f) =
      let same : s ≡ s' = cc a in
      rw (ap (λ x. x.session_id) same, b, ap (λ x. x.pending) same, c)
        (cc (ap (λ x. x.completed) same, d), refl)

  -- For every list of payloads, chunk size and limits, with a session id that the server parses: the
  -- call takes the payloads in order and answers with their uploads, each a spool with the payload's
  -- digest, length and first bytes; it ends at the first image past `max_images` or empty with
  -- INVALID_ARGUMENT, at the first one above `max_bytes` with RESOURCE_EXHAUSTED, and without any
  -- image with INVALID_ARGUMENT. The file of every payload that was taken holds exactly that payload,
  -- also where the call fails on a later one; the image that fails has no file; and no other file
  -- changes.
  pub upload_images_batch-assemble_batch :
      (items : List Item) (chunk_size path : ℕ) (disk : Disk)
      → ((received items chunk_size disk path).0
          ≡ batch_answer sid items (batch_uploads codec sha256 max_bytes max_images 0 path items))
        × ((j : ℕ)
            → get (received items chunk_size disk path).1.disk j
              ≡ file_after max_bytes max_images 0 path items j (get disk j))
  unfolding assemble_batch upload_images_batch batch_chunks file_after ingest_all finish_batch
      abort_pending
  upload_images_batch-assemble_batch [] chunk_size path disk = (refl, λ j. refl)
  upload_images_batch-assemble_batch ((f, p, t) ∷ items) chunk_size path disk =
      let arrived =
        image_Arrived codec sha256 max_bytes max_images session_id sid chunk_size none 0 path []
          disk f t p items
          (Known-first codec sha256 max_bytes max_images session_id sid chunk_size f t 0 named
            parsed)
          (λ done d.
            later_Arrived codec sha256 max_bytes max_images session_id sid chunk_size items f t 1
              (suc path) done d) in
      let run =
        ingest_all codec sha256 max_bytes max_images
          (batch_chunks session_id 0 (map (in_pieces chunk_size) ((f, p, t) ∷ items)))
          (before codec sha256 max_bytes max_images session_id f t 0 sid none [] disk path) in
      let (answered, stored) =
        concluded (f, p, t) items chunk_size
          (batch_uploads codec sha256 max_bytes max_images 0 path ((f, p, t) ∷ items)) run
          arrived.ended in
      (answered, λ j. ap (λ d. get d j) stored ∙ arrived.files j)
