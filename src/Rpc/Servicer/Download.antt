-- ===== src/Rpc/Servicer/Download.antt =====
-- What `DownloadImage` sends.
use pixeldive.Prelude.{
  string_eq, nat_eq, ℕ, suc, ◌≤◌, String, ◌≡◌, refl, Option, none, some, List, map, arith, ==_iff,
  length,
}
use pixeldive.Prelude.Dict.{get}
use pixeldive.Errors.{Result, ok, err, Error, not_found}
use pixeldive.Errors.Status.{error_status, abort_code}
use pixeldive.Exec.{continue, pure}
use pixeldive.Blobs.Spool.{Bytes}
use pixeldive.Blobs.Spool.Laws.{flatten}
use pixeldive.Blobs.Store.{Blob, read_chunks, stream, stream_of}
use pixeldive.Quota.Tenant.{Principal}
use pixeldive.Sessions.Model.{World, SessionImage}
use pixeldive.Sessions.Service.{get_image, stream_image, or_missing}
use pixeldive.Sdk.Chunks.Reads.{read_chunks_lem}
use pixeldive.Rpc.Wire.{as_uuid}
use pixeldive.Rpc.Servicer.{
  Server, Metadata, DownloadChunk, run_unary, rpc_principal, is_mapped, aborted_with, or_abort,
  download_image_rpc,
}

module _ {Struct Json Q : Type 0} (server : Server Struct Json Q) where
  open server use {service, codec}

  -- The messages that hold these chunks of an image.
  abbrev pub messages : ℕ → ℕ → SessionImage Json → List Bytes → List DownloadChunk
  messages sid image_id row = map (λ chunk. record {
    session_id = server.show_uuid sid;
    image_id = server.show_uuid image_id;
    filename = row.filename;
    content_type = row.content_type;
    chunk_bytes = chunk;
  })

  -- The answer by the blob of the image's row.
  abbrev pub Downloaded :
      ℕ → ℕ → SessionImage Json → Option Blob → Result (List DownloadChunk) → Type 0
  Downloaded sid image_id row none r = r ≡ err (Error.rpc_aborted not_found)
  Downloaded sid image_id row (some blob) r =
      (chunks : List Bytes) × (r ≡ ok (messages sid image_id row chunks))
      × (flatten chunks ≡ blob.content)

  streamed :
      (sid image_id : ℕ) (principal : Option Principal) (row : SessionImage Json) (w : World Json Q)
      → row.session_id ≡ sid
      → row.id ≡ image_id
      → stream_image service sid image_id principal (some row) w
        ≡ (or_missing (stream w.blobs row.storage_path service.settings.download_chunk_bytes), w)
  unfolding stream_image
  streamed sid image_id principal row w of_session keyed =
      ground (arith, of_session, keyed, ==_iff row.session_id sid, ==_iff row.id image_id)

  by_blob :
      (sid image_id : ℕ) (row : SessionImage Json) (blob : Option Blob) (w : World Json Q)
      → 1 ≤ service.settings.download_chunk_bytes
      → Downloaded sid image_id row blob
          (or_abort (
            continue
              (λ chunks. pure (messages sid image_id row chunks))
              (or_missing (stream_of service.settings.download_chunk_bytes blob), w))).0
  unfolding aborted_with is_mapped error_status abort_code
  by_blob sid image_id row none w h = refl
  by_blob sid image_id row (some blob) w h = (
    read_chunks (suc (length blob.content)) blob.content service.settings.download_chunk_bytes,
    refl,
    read_chunks_lem blob.content service.settings.download_chunk_bytes h,
  )

  -- For a caller that is let in, ids that parse, a chunk size of at least one byte, and a row that
  -- `get_image` finds for them: the messages put together hold exactly the bytes of the row's blob,
  -- and each has the ids, name and type of the image; where the blob is missing, the call ends with
  -- NOT_FOUND.
  pub download_image_rpc_lem :
      (session_id image : String) (metadata : Metadata) (principal : Option Principal)
      (sid image_id : ℕ) (row : SessionImage Json) (w w' : World Json Q)
      → 1 ≤ service.settings.download_chunk_bytes
      → rpc_principal server metadata ≡ ok principal
      → codec.parse_uuid session_id ≡ some sid
      → codec.parse_uuid image ≡ some image_id
      → get_image service sid image_id principal w ≡ (ok row, w')
      → row.session_id ≡ sid
      → row.id ≡ image_id
      → Downloaded sid image_id row
          (get w'.blobs row.storage_path)
          (download_image_rpc server session_id image metadata w).0
  unfolding download_image_rpc run_unary as_uuid stream
  download_image_rpc_lem session_id image metadata principal sid image_id row w w' sized known named
        imaged found of_session keyed =
      rw (known, named, imaged, found, streamed sid image_id principal row w' of_session keyed)
        (by_blob sid image_id row (get w'.blobs row.storage_path) w' sized)
