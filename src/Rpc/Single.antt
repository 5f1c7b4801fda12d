-- ===== src/Rpc/Single.antt =====
-- app/rpc/grpc_single.py and grpc_single_fill.py: one image from a client stream. `context.abort`
-- raises, so what stands behind it is not reached.
pub mod Laws
pub mod RoundTrip
use pixeldive.Prelude.{
  string_eq, nat_eq, ℕ, String, Option, none, some, List, [], ◌∷◌, if◌then◌else◌, ◌=?◌,
}
use pixeldive.Prelude.Dict.{remove}
use pixeldive.Errors.{Result, ok, err, Error, invalid_argument}
use pixeldive.Exec.{Exec, pure, raise, lift, modify, on_error, ◌>>=◌, ◌>>◌}
use pixeldive.Blobs.Spool.{Bytes, Disk, Spool, Spooling, abort, feed, finish, start, new_writer}
use pixeldive.Blobs.Filenames.{or_default, name}
use pixeldive.Blobs.Uploads.{ImageUpload, upload_from_spool}
use pixeldive.Rpc.Wire.{Codec, ImageChunk, chunk_headers, as_uuid, rethrow}

pub record Headers (Meta : Type 0) : Type 0 where
  pub session_id : Option ℕ
  pub filename : String
  pub content_type : String
  pub metadata : Meta

unfoldable pub require_session_id : {S : Type 0} → String → Exec S (Unit {0}) → Exec S (Unit {0})
require_session_id raw cleanup =
    if raw =? "" then (do cleanup; raise (Error.rpc_aborted invalid_argument)) else pure tt

module _ {Meta : Type 0} (codec : Codec Meta) where
  abbrev pub no_headers : Headers Meta
  no_headers = record {
    session_id = none;
    filename = "upload.bin";
    content_type = "application/octet-stream";
    metadata = codec.no_meta;
  }

  unfoldable pub single_header : ImageChunk → Headers Meta → Exec Spooling (Headers Meta)
  unfolding require_session_id chunk_headers as_uuid
  single_header chunk h = do
    require_session_id chunk.session_id abort
    (name, media_type, metadata) ←
        lift (chunk_headers codec chunk.filename chunk.content_type chunk.metadata_json)
    session_id ← lift (as_uuid codec chunk.session_id)
    pure (record {
      session_id = some session_id;
      filename = or_default name h.filename;
      content_type = or_default media_type h.content_type;
      metadata = metadata;
    })

  -- `if session_id is None`
  abbrev pub headers_once : Option ℕ → ImageChunk → Headers Meta → Exec Spooling (Headers Meta)
  headers_once none chunk h = single_header chunk h
  headers_once (some sid) chunk h = pure h

  -- The loop of `fill_spool`.
  unfoldable pub fill_spool : List ImageChunk → Headers Meta → Exec Spooling (Headers Meta)
  fill_spool [] h s = (ok h, s)
  fill_spool (chunk ∷ chunks) h s =
      (do h' ← headers_once h.session_id chunk h; feed chunk.content; fill_spool chunks h') s

  module _ (sha256 : Bytes → String) where
    abbrev pub finished : Headers Meta → Option ℕ → Spool → Exec Spooling (ℕ × ImageUpload Meta)
    finished h none spool = do
      modify (λ s. record s { disk = remove s.disk spool.path })
      raise (Error.rpc_aborted invalid_argument)
    finished h (some sid) spool =
        pure (sid, upload_from_spool h.filename h.content_type spool h.metadata)

    unfoldable pub collect_single : List ImageChunk → Exec Spooling (ℕ × ImageUpload Meta)
    unfolding fill_spool finish
    collect_single chunks = do
      h ← fill_spool chunks no_headers
      spool ← finish sha256
      finished h h.session_id spool

    abbrev pub rethrown : {A S : Type 0} → Result A × S → Result A × S
    rethrown (ok a, s) = (ok a, s)
    rethrown (err e, s) = (err (rethrow e), s)

    unfoldable pub assemble_single :
        List ImageChunk → ℕ → ℕ → Disk → Result (ℕ × ImageUpload Meta) × Spooling
    unfolding start collect_single new_writer rethrow
    assemble_single chunks path max_bytes disk = rethrown (
        (start >>= λ _. on_error (collect_single chunks) (λ _. abort))
          (record { writer = new_writer path max_bytes; disk = disk }))
