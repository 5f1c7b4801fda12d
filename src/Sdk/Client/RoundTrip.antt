-- ===== src/Sdk/Client/RoundTrip.antt =====
-- What a client uploads it downloads again, with nothing but the answers that it sees.
use pixeldive.Prelude.{
  string_eq, nat_eq, ℕ, ◌≤◌, String, ◌≡◌, sym, ap, ◌∙◌, inl, inr, true, false, Option, none, some,
  List, map, Bool-cases, length, ◌=?◌,
}
use text.Mathlib.TextEquality.{eq_iff}
use mathlib.Core.Path.{subst}
use pixeldive.Exec.{◌>>◌, Exec, continue, pure}
use pixeldive.Blobs.Spool.{Bytes}
use pixeldive.Blobs.Spool.Laws.{flatten}
use pixeldive.Blobs.Filenames.{or_default}
use pixeldive.Errors.{Result, ok, err}
use pixeldive.Sdk.Client.{
  GrpcClient, metadata_of, Remote, connect, require_stub, remote_after, open_channel, remote,
  resource_id, upload_chunks, upload_image, download_image,
}
use pixeldive.Sdk.Chunks.{iter_bytes, single_image_chunks}
use pixeldive.Sessions.Model.{World, Session}
use pixeldive.Rpc.Codec.{PbImage}
use pixeldive.Rpc.Servicer.{
  Server, DownloadChunk, Metadata, upload_image_rpc, download_image_rpc, rpc_principal,
}
use pixeldive.Prelude.Dict.{get}
use pixeldive.Sessions.Kept.{Keyed}
use pixeldive.Quota.Tenant.{Principal}
use pixeldive.Blobs.Validate.{normalize_content_type}
use pixeldive.Blobs.Store.{object_key}
use pixeldive.Rpc.Wire.{Codec}
use pixeldive.Rpc.Servicer.Uploaded.{upload_image_rpc-download_image_rpc}

-- The client once its channel is open.
abbrev pub up : GrpcClient → GrpcClient
up c = record c { connected = true }

module _ {W : Type 0} where
  opened_by :
      {A : Type 0} (m : Exec (Remote W) A) (c : GrpcClient) (w : W) (r : Result (Unit {0})) {a : A}
      {s : Remote W}
      → continue {A = Unit {0}}
          (λ _. require_stub >> m)
          (continue (λ _ t. (ok tt, t)) (r, (up c, w)))
        ≡ (ok a, s)
      → m (up c, w) ≡ (ok a, s)
  unfolding require_stub
  opened_by m c w (ok u) h = h
  opened_by m c w (err e) h = cc

  -- An answered call went over an open channel.
  over_channel :
      {A : Type 0} (m : Exec (Remote W) A) (c : GrpcClient) (w : W) {a : A} {s : Remote W}
      → (connect >> (require_stub >> m)) (c, w) ≡ (ok a, s)
      → m (up c, w) ≡ (ok a, s)
  unfolding connect require_stub
  over_channel m c w h = elim (Bool-cases c.connected) [
    | inl there ↦ rw there at h
    | inr shut ↦ opened_by m c w (open_channel c) (rw shut at h)
  ]

  -- The answer of the server, and the client that asked for it.
  answered_by :
      {A : Type 0} (c : GrpcClient) (out : Result A × W) {a : A} {s : Remote W}
      → remote_after c out ≡ (ok a, s)
      → (out ≡ (ok a, s.1)) × (s.0 ≡ c)
  answered_by c (ok b, w) h = (cc h, cc h)
  answered_by c (err e, w) h = cc

-- A text that parses is not empty.
unblank :
    {Meta : Type 0} (codec : Codec Meta) (s : String) (n : ℕ)
    → codec.parse_uuid s ≡ some n
    → codec.parse_uuid "" ≡ none
    → (s =? "") ≡ false
unblank codec s n parsed blank = elim (Bool-cases (s =? "")) [
  | inl empty ↦ absurd (cc (ap codec.parse_uuid ((eq_iff s "").0 empty), parsed, blank))
  | inr full ↦ full
]

-- The bytes of the messages of an answer.
collected :
    {W : Type 0} (c : GrpcClient) (out : Result (List DownloadChunk) × W) (l : List DownloadChunk)
    → out.0 ≡ ok l
    → (continue (λ messages. pure (map (λ m. m.chunk_bytes) messages)) (remote_after c out)).0
      ≡ ok (map (λ m. m.chunk_bytes) l)
collected c (ok got, w) l h = cc h
collected c (err e, w) l h = cc

module _ {Struct Json Q : Type 0} (server : Server Struct Json Q) where
  open server use {service, codec, show_uuid}

  -- The call behind an answered upload.
  uploaded_by :
      (ids : ℕ → ℕ) (now path sid chunk_size : ℕ) (session_id filename content_type : String)
      (p : Bytes) (c : GrpcClient) (w : World Json Q) {image : PbImage Struct}
      {after : Remote (World Json Q)}
      → codec.parse_uuid session_id ≡ some sid
      → upload_image server ids now path session_id filename p content_type chunk_size (c, w)
        ≡ (ok image, after)
      → (upload_image_rpc server ids now path
            (single_image_chunks (show_uuid sid) filename content_type (iter_bytes p chunk_size))
            (metadata_of c)
            w
          ≡ (ok image, after.1))
        × (after.0 ≡ up c)
  unfolding upload_image resource_id upload_chunks metadata_of
  uploaded_by ids now path sid chunk_size session_id filename content_type p c w parsed h =
      let rpc = λ (m : Metadata).
        upload_image_rpc server ids now path
          (single_image_chunks (show_uuid sid) filename content_type (iter_bytes p chunk_size)) m in
      answered_by (up c) (rpc (metadata_of c) w) (over_channel (remote rpc) c w (rw parsed at h))

  -- A download over an open channel is the call of the server.
  downloaded_by :
      (session_id image_id : String) (sid image : ℕ) (c : GrpcClient) (w : World Json Q)
      (l : List DownloadChunk)
      → codec.parse_uuid session_id ≡ some sid
      → codec.parse_uuid image_id ≡ some image
      → (download_image_rpc server (show_uuid sid) (show_uuid image) (metadata_of c) w).0 ≡ ok l
      → (download_image server session_id image_id (up c, w)).0 ≡ ok (map (λ m. m.chunk_bytes) l)
  unfolding download_image connect require_stub resource_id metadata_of
  downloaded_by session_id image_id sid image c w l parsed imaged h =
      rw (parsed, imaged)
        (collected (up c)
          (download_image_rpc server (show_uuid sid) (show_uuid image) (metadata_of c) w) l h)

  -- For a client that is let in, a session id that the server parses and whose row is under its own
  -- id, UUIDs that parse to what they show, and a download chunk size of at least one byte: if
  -- `upload_image` of a payload is answered, if the key of the payload's digest held no other bytes
  -- before, and if the quota admits one more call, then `download_image` of the id in that answer
  -- yields pieces that hold exactly the payload when they are put together; and the answer gave the
  -- payload's length.
  pub upload_image-download_image :
      (ids : ℕ → ℕ) (now path sid chunk_size : ℕ) (session_id filename content_type : String)
      (p : Bytes) (c : GrpcClient) (principal : Option Principal) (w : World Json Q)
      (image : PbImage Struct) (after : Remote (World Json Q))
      → 1 ≤ service.settings.download_chunk_bytes
      → ((n : ℕ) → codec.parse_uuid (show_uuid n) ≡ some n)
      → codec.parse_uuid "" ≡ none
      → codec.parse_uuid session_id ≡ some sid
      → rpc_principal server (metadata_of c) ≡ ok principal
      → ((row : Session Json) → get w.sessions sid ≡ some row → row.id ≡ sid)
      → Keyed w.blobs
          (object_key (service.sha256 p) (
            normalize_content_type service.texts
              (or_default content_type "application/octet-stream")))
          p
      → upload_image server ids now path session_id filename p content_type chunk_size (c, w)
        ≡ (ok image, after)
      → (service.tenant.hit principal after.1.quota).0 ≡ ok tt
      → (pieces : List Bytes) × ((download_image server session_id image.id after).0 ≡ ok pieces)
        × (flatten pieces ≡ p)
        × (image.size_bytes ≡ length p)
  upload_image-download_image ids now path sid chunk_size session_id filename content_type p c
        principal w image after sized shown blank parsed known named keyed h let_in =
      let (sent, opened) =
        uploaded_by ids now path sid chunk_size session_id filename content_type p c w parsed h in
      let w' = after.1 in
      let (l, got, whole, long, id) =
        upload_image_rpc-download_image_rpc server (show_uuid sid) filename content_type
          (show_uuid (ids 0)) sid chunk_size p ids now path (metadata_of c) principal image w w'
          sized (unblank codec (show_uuid sid) sid (shown sid) blank) (shown sid) (shown (ids 0))
          known named keyed sent let_in in
      let imaged : codec.parse_uuid image.id ≡ some (ids 0) =
        ap codec.parse_uuid id ∙ shown (ids 0) in
      (
        map (λ m. m.chunk_bytes) l,
        subst
            (λ x.
              (download_image server session_id image.id (x, w')).0
              ≡ ok (map (λ m. m.chunk_bytes) l))
            (sym opened) (downloaded_by session_id image.id sid (ids 0) c w' l parsed imaged got),
        whole,
        long,
      )
