-- ===== src/Rest/Images/Spooled.antt =====
-- The files of a request, one after the other: what is left of them on the disk.
use pixeldive.Prelude.{
  string_eq, nat_eq, ℕ, suc, ◌+◌, String, ◌≡◌, refl, ap, ◌∙◌, inl, inr, Bool, false, ◌&&◌, ◌||◌,
  Option, none, some, List, [], ◌∷◌, arith, ltb, leb, ◌==◌, if◌then◌else◌, ==_iff, Bool-cases,
  length,
}
use mathlib.Core.Path.{subst}
use pixeldive.Prelude.Dict.{get, remove, get-remove}
use pixeldive.Errors.{Result, ok, err, Error}
use pixeldive.Blobs.Spool.{Bytes, Disk, Spool, Spooling, spool_chunks}
use pixeldive.Blobs.Spool.Outcome.{spool_chunks_lem}
use pixeldive.Blobs.Store.{read_chunks}
use pixeldive.Blobs.Uploads.{ImageUpload, upload_from_spool}
use pixeldive.Rpc.Wire.{Codec}
use pixeldive.Rpc.Single.RoundTrip.{whole, answer-whole}
use pixeldive.Sdk.Chunks.Reads.{read_chunks_lem, read_chunks-Fits}
use pixeldive.Rest.Images.{
  UploadFile, file_chunks, io_chunk_bytes, spooled_upload, to_upload, spool_all, discard_finished,
}

pub file_answer :
    (sha256 : Bytes → String) (file : UploadFile) (path max_bytes : ℕ) (disk : Disk)
    → (spool_chunks sha256 (file_chunks file) path max_bytes disk).0
      ≡ whole sha256 path max_bytes file.content
unfolding file_chunks
file_answer sha256 file path max_bytes disk =
    let chunks = read_chunks (suc (length file.content)) file.content io_chunk_bytes in
    (spool_chunks_lem sha256 chunks path max_bytes disk).0
    ∙ answer-whole sha256 chunks path max_bytes io_chunk_bytes 0 []
        (read_chunks-Fits file.content io_chunk_bytes (omega arith)) (omega arith)
    ∙ ap (whole sha256 path max_bytes) (read_chunks_lem file.content io_chunk_bytes (omega arith))

whole-path :
    (sha256 : Bytes → String) (path max_bytes : ℕ) (p : Bytes) (spool : Spool)
    → ok spool ≡ whole sha256 path max_bytes p
    → spool.path ≡ path
unfolding whole
whole-path sha256 path max_bytes p spool h = ground (arith, h)

-- The paths from `path` on, `n` of them.
abbrev in_range : ℕ → ℕ → ℕ → Bool
in_range path n j = leb path j && ltb j (path + n)

module _ {Meta : Type 0} where
  abbrev pub names : Result (ImageUpload Meta) → ℕ → Bool
  names (err e) j = false
  names (ok u) j = elim u.spool_path [ none ↦ false | some path ↦ path == j ]

  pub named : List (Result (ImageUpload Meta)) → ℕ → Bool
  named [] j = false
  named (r ∷ results) j = names r j || named results j

module _ {Meta : Type 0} (codec : Codec Meta) (sha256 : Bytes → String) (max_bytes : ℕ)
    (extra : Meta) where
  drop_one :
      (o : Option ℕ) (disk : Disk) (j : ℕ)
      → get (elim o as (λ x. Disk) [ none ↦ disk | some path ↦ remove disk path ]) j ≡ (
          if (elim o as (λ x. Bool) [ none ↦ false | some path ↦ path == j ])
          then none
          else get disk j)
  drop_one none disk j = refl
  drop_one (some path) disk j = get-remove disk path j

  pub get-discard_finished :
      (results : List (Result (ImageUpload Meta))) (disk : Disk) (j : ℕ)
      → get (discard_finished codec sha256 max_bytes results disk) j
        ≡ (if named results j then none else get disk j)
  unfolding discard_finished named
  get-discard_finished [] disk j = refl
  get-discard_finished (err e ∷ results) disk j = get-discard_finished results disk j
  get-discard_finished (ok u ∷ results) disk j =
      let rest =
        get-discard_finished results
          (elim u.spool_path as (λ x. Disk) [ none ↦ disk | some path ↦ remove disk path ]) j in
      rw (rest, drop_one u.spool_path disk j) (ground arith)

  -- One file: where its upload does not name the path, there is no file at the path.
  record One (path : ℕ) (disk : Disk) (out : Result (ImageUpload Meta) × Disk) : Type 0 where
    mine : names out.0 path ≡ false → get out.1 path ≡ none
    only : (j : ℕ) → (path == j) ≡ false → names out.0 j ≡ false
    rest : (j : ℕ) → (path == j) ≡ false → get out.1 j ≡ get disk j

  one_of :
      (file : UploadFile) (path : ℕ) (disk : Disk) (p : Result Spool × Spooling)
      → p.0 ≡ whole sha256 path max_bytes file.content
      → ((e : Error) → p.0 ≡ err e → get p.1.disk path ≡ none)
      → ((j : ℕ) → (path == j) ≡ false → get p.1.disk j ≡ get disk j)
      → One path disk (spooled_upload codec sha256 max_bytes file (ok extra) p)
  unfolding upload_from_spool
  one_of file path disk (ok spool, sp) a gone others =
      let here = whole-path sha256 path max_bytes file.content spool a in
      record {
        mine = λ h. ground (arith, here, h, ==_iff spool.path path);
        only = λ j h. ground (arith, here, h);
        rest = others;
      }
  one_of file path disk (err e, sp) a gone others = record {
    mine = λ h. gone e refl;
    only = λ j h. refl;
    rest = others;
  }

  to_upload-One :
      (file : UploadFile) (path : ℕ) (disk : Disk)
      → One path disk (to_upload codec sha256 max_bytes file none (some extra) path disk)
  unfolding to_upload
  to_upload-One file path disk =
      let (answered, stored, gone, others) =
        spool_chunks_lem sha256 (file_chunks file) path max_bytes disk in
      one_of file path disk (spool_chunks sha256 (file_chunks file) path max_bytes disk)
        (file_answer sha256 file path max_bytes disk) gone others

  pub record Spooled (path n : ℕ) (disk : Disk) (out : List (Result (ImageUpload Meta)) × Disk)
      : Type 0 where
    pub only : (j : ℕ) → in_range path n j ≡ false → named out.0 j ≡ false
    pub clean :
        (j : ℕ)
        → named out.0 j ≡ false
        → get out.1 j ≡ (if in_range path n j then none else get disk j)

  Spooled-more :
      (path n : ℕ) (disk : Disk) (one : Result (ImageUpload Meta) × Disk)
      (out : List (Result (ImageUpload Meta)) × Disk)
      → One path disk one
      → Spooled (suc path) n one.1 out
      → Spooled path (suc n) disk (one.0 ∷ out.0, out.1)
  unfolding named
  Spooled-more path n disk one out a b = record {
    only = λ j h. ground (arith, a.only j, b.only j, h, ==_iff path j);
    clean = λ j h.
        let tail : named out.0 j ≡ false = ground (arith, h) in
        elim (Bool-cases (path == j)) [
          | inl here ↦
              let e : path ≡ j = (==_iff path j).0 here in
              let gone : get one.1 j ≡ none =
                subst (λ k. names one.0 k ≡ false → get one.1 k ≡ none) e a.mine
                  (ground (arith, h)) in
              ground (arith, e, b.clean j tail, gone)
          | inr other ↦ ground (arith, other, b.clean j tail, a.rest j other, ==_iff path j)
        ];
  }

  pub spool_all-Spooled :
      (files : List UploadFile) (path : ℕ) (disk : Disk)
      → Spooled path (length files) disk (spool_all codec sha256 max_bytes files extra path disk)
  unfolding spool_all named
  spool_all-Spooled [] path disk = record { only = λ j h. refl; clean = λ j h. ground arith }
  spool_all-Spooled (file ∷ files) path disk =
      let one = to_upload codec sha256 max_bytes file none (some extra) path disk in
      Spooled-more path (length files) disk one
        (spool_all codec sha256 max_bytes files extra (suc path) one.1)
        (to_upload-One file path disk) (spool_all-Spooled files (suc path) one.1)
