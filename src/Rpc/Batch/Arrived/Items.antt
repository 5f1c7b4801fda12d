-- ===== src/Rpc/Batch/Arrived/Items.antt =====
-- What the server has to make of the images of a batch.
use pixeldive.Prelude.{
  string_eq, nat_eq, ℕ, suc, String, ◌≡◌, inl, inr, Bool, true, false, ◌||◌, Option, none, some,
  List, [], ◌∷◌, arith, ltb, leb, ◌==◌, if◌then◌else◌, Bool-cases, length,
}
use pixeldive.Errors.{Result, ok, err, Error, invalid_argument, resource_exhausted}
use pixeldive.Blobs.Spool.{Bytes, Spool}
use pixeldive.Blobs.Spool.Outcome.{spool_for}
use pixeldive.Blobs.Uploads.{ImageUpload}
use pixeldive.Errors.Status.{abort_code}
use pixeldive.Rpc.Wire.{Codec, rethrow}
use pixeldive.Rpc.Single.Laws.{upload_for}
use pixeldive.Rpc.Single.RoundTrip.{whole}

-- A file name, a payload and a media type.
abbrev pub Item : Type 0
Item = String × Bytes × String

-- A payload that is too large, or empty.
unfoldable pub is_bad : ℕ → Bytes → Bool
is_bad max_bytes p = ltb max_bytes (length p) || length p == 0

abbrev pub prepend : {A : Type 0} → A → Result (List A) → Result (List A)
prepend a (ok l) = ok (a ∷ l)
prepend a (err e) = err e

-- What the server has to make of the items, `n` images being there already.
unfoldable pub batch_uploads :
    {Meta : Type 0}
    → Codec Meta
    → (Bytes → String)
    → ℕ
    → ℕ
    → ℕ
    → ℕ
    → List Item
    → Result (List (ImageUpload Meta))
batch_uploads codec sha256 max_bytes max_images n path [] = ok []
batch_uploads codec sha256 max_bytes max_images n path ((f, p, t) ∷ items) =
    let rest = batch_uploads codec sha256 max_bytes max_images (suc n) (suc path) items in
    if leb max_images n
    then err (Error.rpc_aborted invalid_argument)
    else (if ltb max_bytes (length p)
        then err (Error.rpc_aborted resource_exhausted)
        else (if length p == 0
            then err (Error.rpc_aborted invalid_argument)
            else prepend (upload_for codec f t (spool_for sha256 path p)) rest))

-- What is at the path `j` in the end, where `d` was there before.
unfoldable pub file_after : ℕ → ℕ → ℕ → ℕ → List Item → ℕ → Option Bytes → Option Bytes
unfolding is_bad
file_after max_bytes max_images n path [] j d = d
file_after max_bytes max_images n path ((f, p, t) ∷ items) j d =
    let rest =
      file_after max_bytes max_images (suc n) (suc path) items j
        (if path == j then some p else d) in
    if leb max_images n
    then d
    else (if is_bad max_bytes p then (if path == j then none else d) else rest)

-- The two outcomes of an image that there is room for.
module _ {Meta : Type 0} (codec : Codec Meta) (sha256 : Bytes → String)
    (max_bytes max_images n path : ℕ) (f : String) (p : Bytes) (t : String) (items : List Item)
    (room : leb max_images n ≡ false) where
  abbrev expected : Result (List (ImageUpload Meta))
  expected = batch_uploads codec sha256 max_bytes max_images n path ((f, p, t) ∷ items)

  pub bad_image :
      (e : Error)
      → err e ≡ whole sha256 path max_bytes p
      → (is_bad max_bytes p ≡ true) × (expected ≡ err (rethrow e))
  unfolding batch_uploads is_bad whole rethrow abort_code
  bad_image e h = elim (Bool-cases (ltb max_bytes (length p))) [
    | inl large ↦ ground (arith, room, h)
    | inr fits ↦ ground (arith, room, h)
  ]

  pub good_image :
      (spool : Spool)
      → ok spool ≡ whole sha256 path max_bytes p
      → (is_bad max_bytes p ≡ false)
        × (expected
            ≡ prepend
                (upload_for codec f t spool)
                (batch_uploads codec sha256 max_bytes max_images (suc n) (suc path) items))
  unfolding batch_uploads is_bad whole
  good_image spool h = ground (arith, room, h)
