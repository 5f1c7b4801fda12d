-- ===== src/Rest/Tests.antt =====
-- A batch over REST whose second file is empty, and a caller without a token.
use pixeldive.Prelude.{
  string_eq, nat_eq, ℕ, ◌≤◌, ◌<◌, String, ◌≡◌, refl, true, none, List, [], ◌∷◌, ◌=?◌,
}
use pixeldive.Prelude.Dict.{Dict, get}
use pixeldive.Errors.{err, Error}
use pixeldive.Blobs.Spool.{Bytes}
use pixeldive.Quota.Memory.{MemoryQuotaStore}
use pixeldive.Pagination.Tests.{codec as cursor_codec}
use pixeldive.Sessions.Tests.{service, start}
use pixeldive.Rpc.Wire.{Codec, undecodable}
use pixeldive.Rest.Images.{UploadFile, collect_uploads}
use pixeldive.Rest.Images.Cleanup.{AllOrFirst, results_of, collect_uploads_lem}
use pixeldive.Rest.Routes.Refused.{Guarded, respond-Guarded}
use pixeldive.Rest.Messages.{getting}
use pixeldive.Rest.Routes.{App, respond}

abbrev codec : Codec (Dict String ℕ)
codec = record {
  parse_uuid = λ s. none;
  is_blank = λ s. s =? "";
  parse_object = λ s. undecodable;
  no_meta = [];
}

abbrev no_digest : Bytes → String
no_digest d = "digest"

abbrev files : List UploadFile
files =
    record { filename = "a.png"; content_type = "image/png"; content = 1 ∷ 2 ∷ [] }
    ∷ record { filename = "b.png"; content_type = ""; content = [] }
    ∷ []

collect_uploads_lem_example :
    (5 < 2 → (collect_uploads codec no_digest 9 5 files [] 3 []).0 ≡ err Error.batch_limit)
    × (2 ≤ 5
        → AllOrFirst codec no_digest 9 []
            (results_of codec no_digest 9 [] 3 files)
            (collect_uploads codec no_digest 9 5 files [] 3 []).0)
    × ((e : Error)
        → (collect_uploads codec no_digest 9 5 files [] 3 []).0 ≡ err e
        → (j : ℕ) → get (collect_uploads codec no_digest 9 5 files [] 3 []).1 j ≡ get [] j)
collect_uploads_lem_example =
    collect_uploads_lem codec no_digest 9 [] 5 files 3 [] (λ j h. unfold get in refl)

abbrev app : App ℕ MemoryQuotaStore
app = record {
  service = service;
  codec = codec;
  encode = λ s. [];
  auth_required = true;
  keys = [];
  cursors = cursor_codec;
  order_by = λ A key down rows. rows;
  quote = λ s. s;
}

respond-Guarded_example : Guarded app none start (respond app (getting 1) none start)
respond-Guarded_example = respond-Guarded app (getting 1) none start
