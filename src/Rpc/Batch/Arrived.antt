-- ===== src/Rpc/Batch/Arrived.antt =====
-- The images of a batch, one after the other: what the loop of `assemble_batch` leaves after the frames
-- that the Python client sends.
pub mod Items
mod Steps
use pixeldive.Prelude.{
  string_eq, nat_eq, ℕ, suc, String, ◌≡◌, refl, sym, ◌∙◌, inl, inr, false, Option, none, some, List,
  [], ◌∷◌, ◌++◌, map, arith, leb, ◌==◌, if◌then◌else◌, ==_iff, Bool-cases, length, length-append,
  ◌=?◌,
}
use mathlib.Core.List.{append_assoc, append-nil}
use pixeldive.Prelude.Dict.{get}
use pixeldive.Errors.{Result, ok, err, Error, invalid_argument, resource_exhausted}
use pixeldive.Exec.{Exec, continue}
use pixeldive.Blobs.Spool.{Bytes, Disk, Spool, Spooling, start}
use pixeldive.Blobs.Spool.Outcome.{spooled, spool_for, spool_chunks_lem, answer}
use pixeldive.Blobs.Uploads.{ImageUpload}
use pixeldive.Errors.Status.{abort_code}
use pixeldive.Rpc.Wire.{as_uuid, Codec, BatchImageChunk, rethrow}
use pixeldive.Rpc.Single.{require_session_id}
use pixeldive.Rpc.Single.Laws.{frames, upload_for}
use pixeldive.Rpc.Single.RoundTrip.{whole, answer-iter_bytes, iter_frames}
use pixeldive.Rpc.Batch.{Batch, batch_session_id, reject_full, ingest_batch_chunk, ingest_all}
use pixeldive.Rpc.Batch.Image.{before, Known, image_done, image_lem}
use pixeldive.Sdk.Chunks.{
  batch_frame, batch_from, batch_image_chunks, batch_chunks, iter_bytes, in_pieces,
}
use pixeldive.Rpc.Batch.Arrived.Items.{
  Item, is_bad, prepend, batch_uploads, file_after, bad_image, good_image,
}
use pixeldive.Rpc.Batch.Arrived.Steps.{
  ingest, then_settled, settled-continue, ingest_all-append, full_image,
}
use pixeldive.Rpc.Batch.Image.Frames.{settled}

module _ {Meta : Type 0} (codec : Codec Meta) (sha256 : Bytes → String) (max_bytes max_images : ℕ)
    (session_id : String) (sid chunk_size : ℕ) where
  -- The loop ended as expected.
  abbrev pub Ended :
      List (ImageUpload Meta)
      → Result (List (ImageUpload Meta))
      → Result (Batch Meta) × Disk
      → Type 0
  Ended completed (err e) out = out.0 ≡ err e
  Ended completed (ok uploads) out =
      (s : Batch Meta) × (out.0 ≡ ok s)
      × (s.session_id ≡ some sid)
      × (s.pending ≡ [])
      × (s.completed ≡ completed ++ uploads)
      × (s.disk ≡ out.1)

  pub record Arrived (o : Option ℕ) (completed : List (ImageUpload Meta)) (index path : ℕ)
      (disk : Disk) (items : List Item) (out : Result (Batch Meta) × Disk) : Type 0 where
    pub ended :
        Ended completed
          (batch_uploads codec sha256 max_bytes max_images (length completed) path items)
          out
    pub files :
        (j : ℕ)
        → get out.1 j ≡ file_after max_bytes max_images (length completed) path items j (get disk j)

  Ended-prepend :
      (completed : List (ImageUpload Meta)) (u : ImageUpload Meta)
      (r : Result (List (ImageUpload Meta))) (out : Result (Batch Meta) × Disk)
      → Ended (completed ++ u ∷ []) r out
      → Ended completed (prepend u r) out
  Ended-prepend completed u (ok l) out (s, a, b, c, d, e) =
      (s, a, b, c, rw (← append_assoc completed (u ∷ []) l) d, e)
  Ended-prepend completed u (err e) out h = h

  abbrev pub sent : ℕ → List Item → List BatchImageChunk
  sent = λ index items. batch_chunks session_id index (map (in_pieces chunk_size) items)

  -- One image, and what follows it.
  module _ (o : Option ℕ) (index path : ℕ) (completed : List (ImageUpload Meta)) (disk : Disk)
      (f t : String) (p : Bytes) (items : List Item)
      (known : Known codec sha256 max_bytes max_images session_id f t index sid o)
      (rest : (done : List (ImageUpload Meta)) (d : Disk)
        → Arrived (some sid) done (suc index) (suc path) d items (
            settled (
              ingest codec sha256 max_bytes max_images (sent (suc index) items) (
                before codec sha256 max_bytes max_images session_id f t index sid
                  (some sid)
                  done
                  d
                  (suc path))))) where
    abbrev then_rest : Result (Batch Meta) × Disk → Result (Batch Meta) × Disk
    then_rest =
        then_settled codec sha256 max_bytes max_images
          (λ s. settled (ingest codec sha256 max_bytes max_images (sent (suc index) items) s))

    abbrev image_run : Result Spool × Spooling
    image_run = spooled sha256 (frames (iter_bytes p chunk_size)) path max_bytes disk

    after_image :
        (run : Result Spool × Spooling)
        → leb max_images (length completed) ≡ false
        → run.0 ≡ whole sha256 path max_bytes p
        → get run.1.disk path ≡ (if is_bad max_bytes p then none else some p)
        → ((j : ℕ) → (path == j) ≡ false → get run.1.disk j ≡ get disk j)
        → Arrived o completed index path disk ((f, p, t) ∷ items) (
            then_rest (
              image_done codec sha256 max_bytes max_images session_id f t index sid completed path
                run))
    unfolding batch_uploads file_after whole is_bad rethrow
    after_image (ok spool, sp) room answered at others =
        let u = upload_for codec f t spool in
        let r = rest (completed ++ u ∷ []) sp.disk in
        let grown : length (completed ++ u ∷ []) ≡ suc (length completed) =
          ground (arith, length-append completed (u ∷ [])) in
        let (sound, answer) =
          good_image codec sha256 max_bytes max_images (length completed) path f p t items room
            spool answered in
        record {
          ended =
              rw (answer, ← grown)
                (Ended-prepend completed u
                  (batch_uploads codec sha256 max_bytes max_images (length (completed ++ u ∷ []))
                    (suc path) items)
                  (settled (
                    ingest codec sha256 max_bytes max_images (sent (suc index) items) (
                      before codec sha256 max_bytes max_images session_id f t index sid (some sid)
                        (completed ++ u ∷ []) sp.disk (suc path))))
                  r.ended);
          files = λ j.
              let here : get sp.disk j ≡ (if path == j then some p else get disk j) =
                ground (arith, at, sound, others j, ==_iff path j) in
              rw (room, sound, ← here, ← grown) (r.files j);
        }
    after_image (err e, sp) room answered at others =
        let (faulty, answer) =
          bad_image codec sha256 max_bytes max_images (length completed) path f p t items room e
            answered in
        record {
          ended = rw answer refl;
          files = λ j. rw (room, faulty) (ground (arith, at, faulty, others j, ==_iff path j));
        }

    stored_whole : get image_run.1.disk path ≡ (if is_bad max_bytes p then none else some p)
    unfolding is_bad whole
    stored_whole =
        let cs = frames (iter_bytes p chunk_size) in
        let (answered, stored, gone, others) = spool_chunks_lem sha256 cs path max_bytes disk in
        let a = answer-iter_bytes sha256 p chunk_size path max_bytes in
        ground (
          arith,
          answered,
          a,
          stored (spool_for sha256 path p),
          gone Error.image_too_large,
          gone Error.empty_image,
          iter_frames p chunk_size,
        )

    pub image_Arrived : Arrived o completed index path disk ((f, p, t) ∷ items) (
        settled (
          ingest codec sha256 max_bytes max_images (sent index ((f, p, t) ∷ items)) (
            before codec sha256 max_bytes max_images session_id f t index sid o completed disk
              path)))
    unfolding batch_chunks is_bad batch_uploads file_after
    image_Arrived =
        let start =
          before codec sha256 max_bytes max_images session_id f t index sid o completed disk path in
        let image = batch_image_chunks session_id f t index (iter_bytes p chunk_size) in
        rw
          (
            ingest_all-append codec sha256 max_bytes max_images image (sent (suc index) items)
                start,
            settled-continue codec sha256 max_bytes max_images (sent (suc index) items)
                (ingest codec sha256 max_bytes max_images image start),
          )
          (elim (Bool-cases (leb max_images (length completed))) [
            | inl full ↦
                rw
                  (full_image codec sha256 max_bytes max_images session_id sid o index path
                    completed disk f t known full (iter_bytes p chunk_size))
                  (record { ended = rw full refl; files = λ j. rw full refl })
            | inr room ↦
                let (answered, stored, gone, others) =
                  spool_chunks_lem sha256 (frames (iter_bytes p chunk_size)) path max_bytes disk in
                let a = answer-iter_bytes sha256 p chunk_size path max_bytes in
                rw
                  (image_lem codec sha256 max_bytes max_images session_id f t index sid o completed
                    disk path known room (iter_bytes p chunk_size))
                  (after_image image_run room (answered ∙ a) stored_whole others)
          ])

  Known-later :
      (f t : String) (index : ℕ)
      → Known codec sha256 max_bytes max_images session_id f t index sid (some sid)
  unfolding batch_session_id
  Known-later f t index piece end s h = rw h refl

  pub Known-first :
      (f t : String) (index : ℕ)
      → (session_id =? "") ≡ false
      → codec.parse_uuid session_id ≡ some sid
      → Known codec sha256 max_bytes max_images session_id f t index sid none
  unfolding batch_session_id require_session_id as_uuid batch_frame
  Known-first f t index named parsed piece end s h = rw (h, named, parsed) refl

  pub later_Arrived :
      (items : List Item) (f t : String) (index path : ℕ) (completed : List (ImageUpload Meta))
      (disk : Disk)
      → Arrived (some sid) completed index path disk items (
          settled (
            ingest codec sha256 max_bytes max_images (sent index items) (
              before codec sha256 max_bytes max_images session_id f t index sid
                (some sid)
                completed
                disk
                path)))
  unfolding batch_chunks ingest_all batch_uploads file_after
  later_Arrived [] f t index path completed disk = record {
    ended = (
      before codec sha256 max_bytes max_images session_id f t index sid (some sid) completed disk
          path,
      refl,
      refl,
      refl,
      sym (append-nil completed),
      refl,
    );
    files = λ j. refl;
  }
  later_Arrived ((f, p, t) ∷ items) f' t' index path completed disk =
      image_Arrived (some sid) index path completed disk f t p items (Known-later f t index)
        (λ done d. later_Arrived items f t (suc index) (suc path) done d)
