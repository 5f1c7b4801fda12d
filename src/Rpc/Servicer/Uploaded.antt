-- ===== src/Rpc/Servicer/Uploaded.antt =====
-- An image from the client that uploads it to the client that downloads it: `UploadImage` and
-- `DownloadImage` over the session service and the blob store.
use pixeldive.Prelude.{
  string_eq, nat_eq, ℕ, ◌≤◌, String, ◌≡◌, refl, sym, ap, ◌∙◌, false, Option, some, List, [], ◌∷◌,
  ◌++◌, map, arith, ==_iff, length, ◌=?◌,
}
use mathlib.Core.Path.{subst}
use pixeldive.Blobs.Spool.Outcome.{spool_for}
use pixeldive.Blobs.Filenames.{or_default}
use pixeldive.Rpc.Single.Laws.{upload_for}
use pixeldive.Errors.{Result, ok, err}
use pixeldive.Exec.{pure, continue, continue_ok}
use pixeldive.Blobs.Spool.{Bytes, Disk}
use pixeldive.Blobs.Spool.Laws.{flatten}
use pixeldive.Quota.Tenant.{Principal}
use pixeldive.Sessions.Ingest.{add_image}
use pixeldive.Sessions.Uploads.{Upload}
use pixeldive.Sessions.Model.{SessionImage, World, Session}
use pixeldive.Rpc.Codec.{PbImage, image_to_pb}
use pixeldive.Rpc.Servicer.{
  Server, DownloadChunk, or_abort, Metadata, rpc_principal, run_unary, upload_image_rpc,
  download_image_rpc,
}
use pixeldive.Rpc.Servicer.Download.{messages, Downloaded, download_image_rpc_lem}
use pixeldive.Rpc.Single.RoundTrip.{
  upload_image-assemble_single, whole, upload_answer-eq_ok, received,
}
use pixeldive.Prelude.Dict.{get}
use pixeldive.Sdk.Chunks.{iter_bytes, single_image_chunks}
use pixeldive.Blobs.Store.{object_key}
use pixeldive.Blobs.Validate.{normalize_content_type}
use pixeldive.Sessions.Service.{get_image}
use pixeldive.Sessions.Kept.{Keyed, Kept}
use pixeldive.Blobs.Uploads.{upload_from_spool}
use pixeldive.Sessions.Kept.Batch.{add_image-Kept}

-- The bytes that messages carry.
abbrev pub carried : List DownloadChunk → Bytes
carried l = flatten (map (λ m. m.chunk_bytes) l)

-- A call that is answered did not abort.
or_abort-eq_ok :
    {A S : Type 0} (out : Result A × S) {a : A} {s : S} → or_abort out ≡ (ok a, s) → out ≡ (ok a, s)
or_abort-eq_ok (ok a, s) h = h
or_abort-eq_ok (err e, s) h = cc

-- An answered step behind a chain.
pure_ok :
    {A B S : Type 0} (g : A → B) (out : Result A × S) {b : B} {s : S}
    → continue (λ a. pure (g a)) out ≡ (ok b, s)
    → (a : A) × (out ≡ (ok a, s)) × (b ≡ g a)
pure_ok g (ok a, s) h = (a, cc h, cc h)
pure_ok g (err e, s) h = cc

module _ {Struct Json Q : Type 0} (server : Server Struct Json Q) where
  open server use {service, codec, structs, show_uuid}

  carried-messages :
      (sid image_id : ℕ) (row : SessionImage Json) (chunks : List Bytes)
      → carried (messages server sid image_id row chunks) ≡ flatten chunks
  carried-messages sid image_id row [] = refl
  carried-messages sid image_id row (c ∷ chunks) =
      ap (λ l. c ++ l) (carried-messages sid image_id row chunks)

  -- The upload that the whole payload becomes.
  abbrev arrived : String → String → ℕ → Bytes → Upload Json
  arrived filename content_type path p =
      upload_for codec filename content_type (spool_for service.sha256 path p)

  -- An answered upload has passed the stream's checks and was added.
  added :
      (session_id filename content_type : String) (sid chunk_size : ℕ) (p : Bytes) (ids : ℕ → ℕ)
      (now path : ℕ) (metadata : Metadata) (principal : Option Principal) (image : PbImage Struct)
      (w w' : World Json Q)
      → (session_id =? "") ≡ false
      → codec.parse_uuid session_id ≡ some sid
      → rpc_principal server metadata ≡ ok principal
      → upload_image_rpc server ids now path
          (single_image_chunks session_id filename content_type (iter_bytes p chunk_size))
          metadata
          w
        ≡ (ok image, w')
      → (disk : Disk) × (row : SessionImage Json) × (get disk path ≡ some p)
        × (add_image service ids now sid
              (arrived filename content_type path p)
              principal
              (record w { disk = disk })
            ≡ (ok row, w'))
        × (image ≡ image_to_pb structs show_uuid row)
  unfolding upload_image_rpc run_unary
  added session_id filename content_type sid chunk_size p ids now path metadata principal image w w'
        present parsed known h =
      let (answered, file, others) =
        upload_image-assemble_single codec service.sha256 session_id filename content_type sid
          present parsed p chunk_size path service.settings.max_image_bytes w.disk in
      let out =
        received codec service.sha256 session_id filename content_type sid present parsed p
          chunk_size path service.settings.max_image_bytes w.disk in
      let w1 = record w { disk = out.1.disk } in
      let (x, came, h2) = continue_ok _ out.0 w1 (or_abort-eq_ok _ (rw known at h)) in
      let (row, there, shown) =
        pure_ok (image_to_pb structs show_uuid) (add_image service ids now x.0 x.1 principal w1)
          h2 in
      let (fits, whole) =
        upload_answer-eq_ok service.sha256 codec filename content_type sid path
          service.settings.max_image_bytes p x (sym answered ∙ came) in
      (
        out.1.disk,
        row,
        rw fits at file,
        subst (λ y. add_image service ids now y.0 y.1 principal w1 ≡ (ok row, w')) whole there,
        shown,
      )

  -- The look-up of a row that an upload left.
  found_again :
      (sid image_id : ℕ) (principal : Option Principal) (p : Bytes) (row : SessionImage Json)
      (w : World Json Q)
      → Kept w sid image_id principal p row
      → (service.tenant.hit principal w.quota).0 ≡ ok tt
      → get_image service sid image_id principal w
        ≡ (ok row, record w { quota = (service.tenant.hit principal w.quota).1 })
  unfolding get_image
  found_again sid image_id principal p row w k let_in =
      rw (let_in, k.seen.1, k.there) (ground (arith, k.of_session, ==_iff row.session_id sid))

  -- The download of an uploaded image by the id of its row.
  pub upload_image_rpc-download_image_rpc :
      (session_id filename content_type image_id : String) (sid chunk_size : ℕ) (p : Bytes)
      (ids : ℕ → ℕ) (now path : ℕ) (metadata : Metadata) (principal : Option Principal)
      (image : PbImage Struct) (w w' : World Json Q)
      → 1 ≤ service.settings.download_chunk_bytes
      → (session_id =? "") ≡ false
      → codec.parse_uuid session_id ≡ some sid
      → codec.parse_uuid image_id ≡ some (ids 0)
      → rpc_principal server metadata ≡ ok principal
      → ((row : Session Json) → get w.sessions sid ≡ some row → row.id ≡ sid)
      → Keyed w.blobs
          (object_key (service.sha256 p) (
            normalize_content_type service.texts
              (or_default content_type "application/octet-stream")))
          p
      → upload_image_rpc server ids now path
          (single_image_chunks session_id filename content_type (iter_bytes p chunk_size))
          metadata
          w
        ≡ (ok image, w')
      → (service.tenant.hit principal w'.quota).0 ≡ ok tt
      → (l : List DownloadChunk) × ((download_image_rpc server session_id image_id metadata w').0
          ≡ ok l)
        × (carried l ≡ p)
        × (image.size_bytes ≡ length p)
        × (image.id ≡ show_uuid (ids 0))
  unfolding upload_from_spool image_to_pb
  upload_image_rpc-download_image_rpc session_id filename content_type image_id sid chunk_size p ids
        now path metadata principal image w w' sized present parsed imaged known named keyed h
        let_in =
      let (disk, row, file, there, shown) =
        added session_id filename content_type sid chunk_size p ids now path metadata principal
          image w w' present parsed known h in
      let k =
        add_image-Kept service ids now sid path principal (arrived filename content_type path p)
          (service.sha256 p) p row (record w { disk = disk }) w' named refl refl file keyed there in
      let w2 = record w' { quota = (service.tenant.hit principal w'.quota).1 } in
      let (b, stored, same) = k.stored in
      let sent : Downloaded server sid (ids 0) row (some b)
          (download_image_rpc server session_id image_id metadata w').0 =
        rw stored at (
          download_image_rpc_lem server session_id image_id metadata principal sid (ids 0) row w' w2
            sized known parsed imaged (found_again sid (ids 0) principal p row w' k let_in)
            k.of_session k.keyed) in
      (
        messages server sid (ids 0) row sent.0,
        sent.1,
        carried-messages sid (ids 0) row sent.0 ∙ sent.2 ∙ same,
        ap (λ i. i.size_bytes) shown ∙ k.sized,
        ap (λ i. i.id) shown ∙ ap show_uuid k.keyed,
      )
