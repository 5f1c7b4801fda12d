-- ===== src/Blobs/Spool/Laws.antt =====
-- What a spooled stream leaves: the answer, the spool and the files.
use pixeldive.Prelude.{
  nat_eq, ℕ, ◌+◌, ◌-◌, ◌≤◌, ◌<◌, ◌≡◌, refl, sym, ap, inl, inr, true, false, some, List, [], ◌∷◌,
  ◌++◌, arith, ltb, ◌==◌, if◌then◌else◌, ==_iff, tests, Bool-cases, length, take, get_or_else,
  length-append, length-take, take_of_length-le, take-append,
}
use mathlib.Core.List.{append-nil}
use pixeldive.Prelude.Dict.{get, put, remove, get-put, get-remove}
use pixeldive.Errors.{ok, err, Error}
use pixeldive.Blobs.Spool.{
  feed, Bytes, Disk, header_size, max_empty_chunks, Spooling, extend_header,
}

abbrev pub flatten : List Bytes → Bytes
flatten [] = []
flatten (c ∷ cs) = c ++ flatten cs

-- The writer holds the bytes `d`, after `r` empty chunks in a row; it opened `path` on `disk₀`.
pub record Holds (path max_bytes r : ℕ) (d : Bytes) (disk₀ : Disk) (s : Spooling) : Type 0 where
  pub at_path : s.writer.path ≡ path
  pub at_max : s.writer.max_bytes ≡ max_bytes
  pub run : s.writer.empty_run ≡ r
  pub opened : s.writer.is_open ≡ true
  pub fed : s.writer.hashed ≡ d
  pub sized : s.writer.size ≡ length d
  pub headed : s.writer.header ≡ take header_size d
  pub fits : length d ≤ max_bytes
  pub written : get s.disk path ≡ some d
  pub others : (j : ℕ) → (path == j) ≡ false → get s.disk j ≡ get disk₀ j

-- No other file has changed.
pub record Kept (path : ℕ) (disk₀ : Disk) (s : Spooling) : Type 0 where
  pub at_path : s.writer.path ≡ path
  pub others : (j : ℕ) → (path == j) ≡ false → get s.disk j ≡ get disk₀ j

-- The states that `feed` leaves.
abbrev pub bumped : Spooling → Spooling
bumped s = record s { writer = record s.writer { empty_run = s.writer.empty_run + 1 } }

abbrev pub aborted : Spooling → Spooling
aborted s = record {
  writer = record s.writer { is_open = false };
  disk = remove s.disk s.writer.path;
}

abbrev pub sized_up : Bytes → Spooling → Spooling
sized_up c s = record s {
  writer = record s.writer { empty_run = 0; size = s.writer.size + length c };
}

abbrev pub grown : Bytes → Spooling → Spooling
grown c s = record {
  writer = record s.writer {
    empty_run = 0;
    size = s.writer.size + length c;
    hashed = s.writer.hashed ++ c;
    header = extend_header s.writer.header c;
  };
  disk = put s.disk s.writer.path (get_or_else [] (get s.disk s.writer.path) ++ c);
}

module _ (s : Spooling) where
  pub feed_empty_lem : feed [] s ≡ (
      if ltb max_empty_chunks (s.writer.empty_run + 1)
      then (err Error.empty_image, aborted (bumped s))
      else (ok tt, bumped s))
  unfolding feed
  feed_empty_lem = ground arith

  pub feed_bytes_lem :
      (b : ℕ) (c : Bytes)
      → s.writer.is_open ≡ true
      → feed (b ∷ c) s ≡ (
          if ltb s.writer.max_bytes (s.writer.size + length (b ∷ c))
          then (err Error.image_too_large, aborted (sized_up (b ∷ c) s))
          else (ok tt, grown (b ∷ c) s))
  unfolding feed
  feed_bytes_lem b c h = ground arith

-- A header of the first bytes stays one.
header_of_append : (d c : Bytes) → extend_header (take header_size d) c ≡ take header_size (d ++ c)
header_of_append d c = elim (Bool-cases (ltb (length (take header_size d)) header_size)) [
  | inl short ↦
      let l : length d < header_size = omega (tests, length-take {0} header_size d, short) in
      rw
        (
          short,
          take-append header_size (header_size - length d) d c refl,
          take_of_length-le header_size d (omega arith),
        )
        refl
  | inr long ↦
      let l : header_size ≤ length d = ground (arith, length-take header_size d) in
      rw (long, take-append header_size 0 d c (omega arith)) (sym (append-nil _))
]

module _ {path max_bytes r : ℕ} {d : Bytes} {disk₀ : Disk} (s : Spooling)
    (h : Holds path max_bytes r d disk₀ s) where
  pub bumped-Holds : Holds path max_bytes (r + 1) d disk₀ (bumped s)
  bumped-Holds = record {
    at_path = h.at_path;
    at_max = h.at_max;
    run = ground arith;
    opened = h.opened;
    fed = h.fed;
    sized = h.sized;
    headed = h.headed;
    fits = h.fits;
    written = h.written;
    others = h.others;
  }

  pub aborted-others :
      (j : ℕ) → (path == j) ≡ false → get (remove s.disk s.writer.path) j ≡ get disk₀ j
  aborted-others j e = ground (arith, get-remove s.disk s.writer.path j, h.others j e, h.at_path)

  pub grown-Holds :
      (c : Bytes) → length (d ++ c) ≤ max_bytes → Holds path max_bytes 0 (d ++ c) disk₀ (grown c s)
  grown-Holds c le = record {
    at_path = h.at_path;
    at_max = h.at_max;
    run = refl;
    opened = h.opened;
    fed = ap (λ (x : Bytes). x ++ c) h.fed;
    sized = omega (arith, h.sized, length-append d c);
    headed = rw h.headed (header_of_append d c);
    fits = le;
    written =
        ground (arith, h.written, h.at_path, get-put s.disk path path (d ++ c), ==_iff path path);
    others = λ j e. ground (
      arith,
      get-put s.disk s.writer.path j (get_or_else [] (get s.disk s.writer.path) ++ c),
      h.others j e,
      h.at_path,
    );
  }

  pub feed_empty_goes_on : r < max_empty_chunks → feed [] s ≡ (ok tt, bumped s)
  feed_empty_goes_on lt = ground (arith, feed_empty_lem s, h.run)

  pub feed_empty_stalls :
      max_empty_chunks ≤ r → feed [] s ≡ (err Error.empty_image, aborted (bumped s))
  feed_empty_stalls le = ground (arith, feed_empty_lem s, h.run)

  pub feed_bytes_fits :
      (b : ℕ) (c : Bytes)
      → length (d ++ b ∷ c) ≤ max_bytes
      → feed (b ∷ c) s ≡ (ok tt, grown (b ∷ c) s)
  feed_bytes_fits b c le =
      ground (arith, feed_bytes_lem s b c h.opened, length-append d (b ∷ c), h.sized, h.at_max)

  pub feed_bytes_too_large :
      (b : ℕ) (c : Bytes)
      → max_bytes < length (d ++ b ∷ c)
      → feed (b ∷ c) s ≡ (err Error.image_too_large, aborted (sized_up (b ∷ c) s))
  feed_bytes_too_large b c lt =
      ground (arith, feed_bytes_lem s b c h.opened, length-append d (b ∷ c), h.sized, h.at_max)
