-- ===== src/Blobs/Spool/Outcome.antt =====
-- `spool_chunks` in full: what it answers for every stream, and what it leaves on the disk.
use pixeldive.Prelude.{
  nat_eq, ℕ, ◌+◌, String, ◌≡◌, refl, inl, inr, true, false, none, some, List, [], ◌∷◌, ◌++◌, arith,
  ltb, ◌==◌, if◌then◌else◌, ==_iff, Bool-cases, length, take,
}
use mathlib.Core.List.{append-nil, append_assoc}
use pixeldive.Prelude.Dict.{get, get-remove, put, get-put}
use pixeldive.Errors.{Result, ok, err, Error}
use pixeldive.Exec.{Exec, ◌>>=◌}
use pixeldive.Blobs.Spool.{
  feed_all, finish, Bytes, Disk, header_size, max_empty_chunks, Spool, Spooling, new_writer, feed,
  spool_chunks,
}
use pixeldive.Blobs.Spool.Laws.{
  Holds, Kept, flatten, bumped, aborted, sized_up, grown, bumped-Holds, aborted-others, grown-Holds,
  feed_empty_goes_on, feed_empty_stalls, feed_bytes_fits, feed_bytes_too_large,
}

module _ (sha256 : Bytes → String) where
  -- The spool of the bytes `d`.
  abbrev pub spool_for : ℕ → Bytes → Spool
  spool_for path d = record {
    path = path;
    digest_hex = sha256 d;
    size_bytes = length d;
    header = take header_size d;
  }

  -- The answer for the rest of a stream, after the bytes `d` and then `r` empty chunks in a row.
  unfoldable pub answer : ℕ → ℕ → ℕ → Bytes → List Bytes → Result Spool
  answer path max_bytes r d [] =
      if length d == 0 then err Error.empty_image else ok (spool_for path d)
  answer path max_bytes r d ([] ∷ chunks) =
      if ltb max_empty_chunks (r + 1)
      then err Error.empty_image
      else answer path max_bytes (r + 1) d chunks
  answer path max_bytes r d ((b ∷ c) ∷ chunks) =
      if ltb max_bytes (length (d ++ b ∷ c))
      then err Error.image_too_large
      else answer path max_bytes 0 (d ++ b ∷ c) chunks

  abbrev pub loop : List Bytes → Exec Spooling Spool
  loop chunks = feed_all chunks >>= λ _. finish sha256

  record Outcome (path max_bytes r : ℕ) (d : Bytes) (disk₀ : Disk) (chunks : List Bytes)
      (s : Spooling) : Type 0 where
    answered : (loop chunks s).0 ≡ answer path max_bytes r d chunks
    kept : Kept path disk₀ (loop chunks s).1
    stored :
        (sp : Spool)
        → (loop chunks s).0 ≡ ok sp
        → get (loop chunks s).1.disk path ≡ some (d ++ flatten chunks)

  loop_nil :
      {path max_bytes r : ℕ} {d : Bytes} {disk₀ : Disk} (s : Spooling)
      → Holds path max_bytes r d disk₀ s
      → Outcome path max_bytes r d disk₀ [] s
  unfolding feed_all finish answer
  loop_nil {path} {d = d} s h = record {
    answered = ground (arith, h.sized, h.fed, h.headed, h.at_path);
    kept = record {
      at_path = ground (arith, h.at_path);
      others = λ j e. ground (arith, h.others j e, get-remove s.disk s.writer.path j, h.at_path);
    };
    stored = λ sp e. ground (arith, h.written, h.sized, append-nil d);
  }

  loop_step :
      (c : Bytes) (chunks : List Bytes) (s s' : Spooling)
      → feed c s ≡ (ok tt, s')
      → loop (c ∷ chunks) s ≡ loop chunks s'
  unfolding feed_all
  loop_step c chunks s s' e = rw e

  loop_stop :
      (c : Bytes) (chunks : List Bytes) (s s' : Spooling) (x : Error)
      → feed c s ≡ (err x, s')
      → loop (c ∷ chunks) s ≡ (err x, s')
  unfolding feed_all
  loop_stop c chunks s s' x e = rw e

  module _ {path max_bytes r : ℕ} {d : Bytes} {disk₀ : Disk} (s : Spooling) where
    stopped :
        (c : Bytes) (chunks : List Bytes) (x : Error) (s' : Spooling)
        → feed c s ≡ (err x, s')
        → answer path max_bytes r d (c ∷ chunks) ≡ err x
        → Kept path disk₀ s'
        → Outcome path max_bytes r d disk₀ (c ∷ chunks) s
    stopped c chunks x s' e a k =
        let l = loop_stop c chunks s s' x e in
        record { answered = rw (l, a); kept = rw l k; stored = λ sp o. cc (o, l) }

    went_on :
        (c : Bytes) (chunks : List Bytes) (r' : ℕ) (d' : Bytes) (s' : Spooling)
        → feed c s ≡ (ok tt, s')
        → answer path max_bytes r d (c ∷ chunks) ≡ answer path max_bytes r' d' chunks
        → d' ++ flatten chunks ≡ d ++ flatten (c ∷ chunks)
        → Outcome path max_bytes r' d' disk₀ chunks s'
        → Outcome path max_bytes r d disk₀ (c ∷ chunks) s
    went_on c chunks r' d' s' e a f o =
        let l = loop_step c chunks s s' e in
        record {
          answered = rw (l, a) o.answered;
          kept = rw l o.kept;
          stored = λ sp q. rw (l, ← f) (o.stored sp (rw l at q));
        }

  outcome :
      (chunks : List Bytes) {path max_bytes r : ℕ} {d : Bytes} {disk₀ : Disk} (s : Spooling)
      → Holds path max_bytes r d disk₀ s
      → Outcome path max_bytes r d disk₀ chunks s
  unfolding answer
  outcome [] s h = loop_nil s h
  outcome ([] ∷ chunks) {path} {max_bytes} {r} {d} s h =
      elim (Bool-cases (ltb max_empty_chunks (r + 1))) [
        | inl stall ↦
            stopped s [] chunks Error.empty_image (aborted (bumped s))
              (feed_empty_stalls s h (ground arith)) (rw stall)
              (record { at_path = h.at_path; others = aborted-others s h })
        | inr on ↦
            went_on s [] chunks (r + 1) d (bumped s) (feed_empty_goes_on s h (ground arith)) (rw on)
              refl (outcome chunks (bumped s) (bumped-Holds s h))
      ]
  outcome ((b ∷ c) ∷ chunks) {path} {max_bytes} {r} {d} s h =
      elim (Bool-cases (ltb max_bytes (length (d ++ b ∷ c)))) [
        | inl large ↦
            stopped s (b ∷ c) chunks Error.image_too_large (aborted (sized_up (b ∷ c) s))
              (feed_bytes_too_large s h b c (ground arith)) (rw large)
              (record { at_path = h.at_path; others = aborted-others s h })
        | inr fits ↦
            went_on s (b ∷ c) chunks 0 (d ++ b ∷ c) (grown (b ∷ c) s)
              (feed_bytes_fits s h b c (ground arith)) (rw fits)
              (append_assoc d (b ∷ c) (flatten chunks))
              (outcome chunks (grown (b ∷ c) s) (grown-Holds s h (b ∷ c) (ground arith)))
      ]

  abbrev pub started : ℕ → ℕ → Disk → Spooling
  started path max_bytes disk = record {
    writer = record (new_writer path max_bytes) { is_open = true };
    disk = put disk path [];
  }

  started-Holds :
      (path max_bytes : ℕ) (disk : Disk)
      → Holds path max_bytes 0 [] disk (started path max_bytes disk)
  unfolding new_writer
  started-Holds path max_bytes disk = record {
    at_path = refl;
    at_max = refl;
    run = refl;
    opened = refl;
    fed = refl;
    sized = refl;
    headed = refl;
    fits = omega arith;
    written = ground (arith, get-put disk path path [], ==_iff path path);
    others = λ j e. ground (arith, get-put disk path j []);
  }

  abbrev pub spooled : List Bytes → ℕ → ℕ → Disk → Result Spool × Spooling
  spooled = spool_chunks sha256

  -- For every stream of chunks: the answer is that of `answer`; a spool comes with a file that
  -- holds the bytes of the stream, in order; after an error there is no file at its path; and no
  -- other file changes.
  pub spool_chunks_lem :
      (chunks : List Bytes) (path max_bytes : ℕ) (disk : Disk)
      → ((spooled chunks path max_bytes disk).0 ≡ answer path max_bytes 0 [] chunks)
        × ((sp : Spool)
            → (spooled chunks path max_bytes disk).0 ≡ ok sp
            → get (spooled chunks path max_bytes disk).1.disk path ≡ some (flatten chunks))
        × ((e : Error)
            → (spooled chunks path max_bytes disk).0 ≡ err e
            → get (spooled chunks path max_bytes disk).1.disk path ≡ none)
        × ((j : ℕ)
            → (path == j) ≡ false
            → get (spooled chunks path max_bytes disk).1.disk j ≡ get disk j)
  unfolding spool_chunks
  spool_chunks_lem chunks path max_bytes disk =
      let s = started path max_bytes disk in
      let o = outcome chunks s (started-Holds path max_bytes disk) in
      let end = (loop chunks s).1 in
      (
        ground (arith, o.answered),
        λ sp e. ground (arith, o.stored sp),
        λ x e. ground (arith, o.kept.at_path, get-remove end.disk path path, ==_iff path path),
        λ j e. ground (arith, o.kept.at_path, o.kept.others j e, get-remove end.disk path j),
      )
