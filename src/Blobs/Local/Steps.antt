-- ===== src/Blobs/Local/Steps.antt =====
-- What the saves of one key keep, in whatever order they and the deletions run.
use pixeldive.Prelude.{
  string_eq, nat_eq, ℕ, ◌≤◌, ◌<◌, ◌≡◌, refl, sym, ap, ◌∙◌, ◌≢◌, ◌⊎◌, inl, inr, true, Option, none,
  some, [], ◌∷◌, ◌++◌, arith, ==_iff, Bool-cases, Option-cases, drop, take, take-append-drop,
}
use mathlib.Core.List.{append_assoc, append-nil}
use pixeldive.Blobs.Spool.{Bytes}
use pixeldive.Prelude.Dict.{get, get-put, get-remove, put}
use pixeldive.Blobs.Local.{
  Dir, writing, committing, cleaning, saved, there, Save, idle, spooled, linking, looking,
  rechecking, failed, Chance, turn, append, replace_turn, remove_turn, try_link_turn,
  save_atomic_turn,
}

-- The temporary file of a save.
abbrev pub held : Save → Option ℕ
held (writing t rest) = some t
held (committing t) = some t
held (cleaning t) = some t
held _ = none

-- A temporary file holds what its save has written so far.
abbrev pub Fine : Bytes → Dir → Save → Type 0
Fine content d (writing t rest) =
    (t < d.next_name) × ((old : Bytes) → get d.tmps t ≡ some old → old ++ rest ≡ content)
Fine content d (committing t) =
    (t < d.next_name) × ((old : Bytes) → get d.tmps t ≡ some old → old ≡ content)
Fine content d (cleaning t) = t < d.next_name
Fine content d _ = Unit {0}

abbrev pub Whole : Bytes → Dir → Type 0
Whole content d = (file : Bytes) → d.destination ≡ some file → file ≡ content

-- What one await of a save does to its directory.
pub record Turned (content : Bytes) (d : Dir) (w : Save) (d' : Dir) (w' : Save) : Type 0 where
  pub whole : Whole content d'
  pub fine : Fine content d' w'
  pub grows : d.next_name ≤ d'.next_name
  pub frame : (t : ℕ) → t < d.next_name → held w ≢ some t → get d'.tmps t ≡ get d.tmps t
  pub holds : (t : ℕ) → held w' ≡ some t → (held w ≡ some t) ⊎ (t ≡ d.next_name)
  pub ends : w ≢ saved → w' ≡ saved → d'.destination ≡ some content

module _ (content : Bytes) (d : Dir) (whole : Whole content d) where
  -- Nothing is written, and no temporary file comes.
  untouched :
      (w w' : Save)
      → Fine content d w'
      → ((t : ℕ) → held w' ≡ some t → held w ≡ some t)
      → (w ≢ saved → w' ≡ saved → d.destination ≡ some content)
      → Turned content d w d w'
  untouched w w' fine kept ends = record {
    whole = whole;
    fine = fine;
    grows = omega arith;
    frame = λ t below other. refl;
    holds = λ t h. inl (kept t h);
    ends = ends;
  }

  present : there d ≡ true → d.destination ≡ some content
  present h = elim (Option-cases d.destination) [
    | inl gone ↦ ground (arith, gone, h)
    | inr (file, is) ↦ is ∙ ap some (whole file is)
  ]

  try_link-Turned :
      (c : Chance)
      → Turned content d linking (try_link_turn content c d).1 (try_link_turn content c d).0
  unfolding try_link_turn
  try_link-Turned c = elim (Bool-cases c.refuses) [
    | inl refused ↦ rw refused (untouched linking looking tt (λ t k. cc) (λ n k. cc))
    | inr allowed ↦ rw allowed (elim (Bool-cases (there d)) [
      | inl h ↦ rw h (untouched linking saved tt (λ t k. cc) (λ n k. present h))
      | inr h ↦ rw h (record {
        whole = λ file e. cc e;
        fine = tt;
        grows = omega arith;
        frame = λ t below other. refl;
        holds = λ t k. cc;
        ends = λ n k. refl;
      })
    ])
  ]

  save_atomic-Turned :
      Turned content d looking (save_atomic_turn content d).1 (save_atomic_turn content d).0
  unfolding save_atomic_turn
  save_atomic-Turned = elim (Bool-cases (there d)) [
    | inl h ↦ rw h (untouched looking saved tt (λ t k. cc) (λ n k. present h))
    | inr h ↦ rw h (record {
      whole = whole;
      fine = (
        omega arith,
        λ old e.
            ground
              (arith, e, get-put d.tmps d.next_name d.next_name [], ==_iff d.next_name d.next_name),
      );
      grows = omega arith;
      frame = λ t below other.
          ground (arith, below, get-put d.tmps d.next_name t [], ==_iff d.next_name t);
      holds = λ t k. inr (ground (arith, k));
      ends = λ n k. cc;
    })
  ]

  written :
      (t b n : ℕ) (rest old new : Bytes)
      → Fine content d (writing t (b ∷ rest))
      → get d.tmps t ≡ some old
      → get (put d.tmps t (old ++ b ∷ take n rest)) t ≡ some new
      → new ++ drop n rest ≡ content
  written t b n rest old new fine at e =
      let same : new ≡ old ++ b ∷ take n rest =
        ground (arith, e, get-put d.tmps t t (old ++ b ∷ take n rest), ==_iff t t) in
      ap (λ l. l ++ drop n rest) same
      ∙ append_assoc old (b ∷ take n rest) (drop n rest)
      ∙ ap (λ l. old ++ b ∷ l) (take-append-drop n rest)
      ∙ fine.1 old at

  write-Turned :
      (t b n : ℕ) (rest : Bytes)
      → Fine content d (writing t (b ∷ rest))
      → Turned content d
          (writing t (b ∷ rest))
          (append t (b ∷ take n rest) d)
          (writing t (drop n rest))
  write-Turned t b n rest fine = elim (Option-cases (get d.tmps t)) [
    | inl lost ↦
        rw (lost, append)
          (untouched (writing t (b ∷ rest)) (writing t (drop n rest))
            (fine.0, λ old e. ground (arith, lost, e)) (λ u k. k) (λ m k. cc))
    | inr (old, at) ↦
        rw (at, append)
          (record {
            whole = whole;
            fine = (fine.0, λ new e. written t b n rest old new fine at e);
            grows = omega arith;
            frame = λ u below other.
                ground (arith, other, get-put d.tmps t u (old ++ b ∷ take n rest), ==_iff t u);
            holds = λ u k. inl k;
            ends = λ m k. cc;
          })
  ]

  replace-Turned :
      (c : Chance) (t : ℕ)
      → Fine content d (committing t)
      → Turned content d (committing t) (replace_turn c t d).1 (replace_turn c t d).0
  unfolding replace_turn
  replace-Turned c t fine = elim (Bool-cases c.refuses) [
    | inl refused ↦ rw refused (untouched (committing t) (cleaning t) fine.0 (λ u k. k) (λ n k. cc))
    | inr moved ↦ rw moved (elim (Option-cases (get d.tmps t)) [
      | inl lost ↦ rw lost (untouched (committing t) rechecking tt (λ u k. cc) (λ n k. cc))
      | inr (old, at) ↦ rw at (record {
        whole = λ file e. ground (arith, e, fine.1 old at);
        fine = tt;
        grows = omega arith;
        frame = λ u below other. ground (arith, other, get-remove d.tmps t u, ==_iff t u);
        holds = λ u k. cc;
        ends = λ n k. ap some (fine.1 old at);
      })
    ])
  ]

  remove-Turned : (t : ℕ) → Turned content d (cleaning t) (remove_turn t d).1 (remove_turn t d).0
  unfolding remove_turn
  remove-Turned t = elim (Option-cases (get d.tmps t)) [
    | inl lost ↦ rw (lost, remove_turn) (untouched (cleaning t) failed tt (λ u k. cc) (λ n k. cc))
    | inr (old, at) ↦
        rw (at, remove_turn)
          (record {
            whole = whole;
            fine = tt;
            grows = omega arith;
            frame = λ u below other. ground (arith, other, get-remove d.tmps t u, ==_iff t u);
            holds = λ u k. cc;
            ends = λ n k. cc;
          })
  ]

  -- A save of this directory takes its turn.
  pub turn-Turned :
      (c : Chance) (w : Save)
      → Fine content d w
      → Turned content d w (turn content c w d).1 (turn content c w d).0
  unfolding turn
  turn-Turned c idle fine = untouched idle idle tt (λ t h. h) (λ n h. cc)
  turn-Turned c spooled fine = elim (Bool-cases (there d)) [
    | inl h ↦ rw h (untouched spooled saved tt (λ t k. cc) (λ n k. present h))
    | inr h ↦ rw h (untouched spooled linking tt (λ t k. cc) (λ n k. cc))
  ]
  turn-Turned c linking fine = try_link-Turned c
  turn-Turned c looking fine = save_atomic-Turned
  turn-Turned c (writing t []) fine =
      untouched (writing t []) (committing t) (fine.0, λ old h. sym (append-nil old) ∙ fine.1 old h)
        (λ u h. h) (λ n k. cc)
  turn-Turned c (writing t (b ∷ rest)) fine = write-Turned t b c.window rest fine
  turn-Turned c (committing t) fine = replace-Turned c t fine
  turn-Turned c (cleaning t) fine = remove-Turned t
  turn-Turned c rechecking fine = elim (Bool-cases (there d)) [
    | inl h ↦ rw h (untouched rechecking saved tt (λ t k. cc) (λ n k. present h))
    | inr h ↦ rw h (untouched rechecking failed tt (λ t k. cc) (λ n k. cc))
  ]
  turn-Turned c saved fine = untouched saved saved tt (λ t h. h) (λ n h. absurd (n refl))
  turn-Turned c failed fine = untouched failed failed tt (λ t h. h) (λ n h. cc)
