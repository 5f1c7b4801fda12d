-- ===== src/Blobs/Local/Interleaved.antt =====
-- Interleaved saves of one key: what holds of the directory after any events.
use pixeldive.Prelude.{
  string_eq, nat_eq, ℕ, ◌+◌, ◌≤◌, ◌<◌, ◌≡◌, refl, sym, ◌∙◌, ◌≢◌, inl, inr, false, none, some, List,
  [], ◌∷◌, arith, ◌==◌, ==_iff, Bool-cases, length, length-drop,
}
use pixeldive.Blobs.Spool.{Bytes}
use pixeldive.Prelude.Dict.{get, remove, get-remove}
use pixeldive.Blobs.Local.{
  Dir, Save, idle, spooled, linking, looking, writing, committing, cleaning, rechecking, saved,
  failed, Chance, spool_turn, write_turn, replace_turn, remove_turn, try_link_turn,
  save_atomic_turn, turn, Saves, Event, save_called, save_file_called, runs, deletes, loses, update,
  step, steps,
}
use pixeldive.Blobs.Local.Steps.{held, Fine, Whole, Turned, turn-Turned}

-- How many turns a save takes at most, if its temporary file is written to the end.
abbrev pub turns_left : Bytes → Save → ℕ
turns_left content idle = 0
turns_left content spooled = length content + 8
turns_left content linking = length content + 7
turns_left content looking = length content + 6
turns_left content (writing t rest) = length rest + 4
turns_left content (committing t) = 3
turns_left content (cleaning t) = 2
turns_left content rechecking = 1
turns_left content saved = 0
turns_left content failed = 0

module _ (content : Bytes) where
  turns-decrease :
      (c : Chance) (w : Save) (d : Dir)
      → 0 < turns_left content w
      → turns_left content (turn content c w d).0 < turns_left content w
  unfolding turn try_link_turn save_atomic_turn spool_turn write_turn replace_turn remove_turn
  turns-decrease c idle d h = h
  turns-decrease c spooled d h = ground arith
  turns-decrease c linking d h = ground arith
  turns-decrease c looking d h = ground arith
  turns-decrease c (writing t []) d h = ground arith
  turns-decrease c (writing t (b ∷ rest)) d h = ground (arith, length-drop c.window rest)
  turns-decrease c (committing t) d h = ground arith
  turns-decrease c (cleaning t) d h = ground arith
  turns-decrease c rechecking d h = ground arith
  turns-decrease c saved d h = h
  turns-decrease c failed d h = h

  Fine-below : (d : Dir) (v : Save) (t : ℕ) → Fine content d v → held v ≡ some t → t < d.next_name
  Fine-below d (writing u rest) t fine h = ground (arith, fine.0, h)
  Fine-below d (committing u) t fine h = ground (arith, fine.0, h)
  Fine-below d (cleaning u) t fine h = ground (arith, fine, h)
  Fine-below d idle t fine h = cc
  Fine-below d spooled t fine h = cc
  Fine-below d linking t fine h = cc
  Fine-below d looking t fine h = cc
  Fine-below d rechecking t fine h = cc
  Fine-below d saved t fine h = cc
  Fine-below d failed t fine h = cc

  -- A directory that has no other bytes under the name of a save.
  Fine-frame :
      (d d' : Dir) (v : Save)
      → Fine content d v
      → d.next_name ≤ d'.next_name
      → ((t : ℕ) (old : Bytes)
          → held v ≡ some t
          → get d'.tmps t ≡ some old
          → get d.tmps t ≡ some old)
      → Fine content d' v
  Fine-frame d d' (writing u rest) fine grows same =
      (omega (arith, fine.0), λ old e. fine.1 old (same u old refl e))
  Fine-frame d d' (committing u) fine grows same =
      (omega (arith, fine.0), λ old e. fine.1 old (same u old refl e))
  Fine-frame d d' (cleaning u) fine grows same = omega (arith, fine)
  Fine-frame d d' idle fine grows same = tt
  Fine-frame d d' spooled fine grows same = tt
  Fine-frame d d' linking fine grows same = tt
  Fine-frame d d' looking fine grows same = tt
  Fine-frame d d' rechecking fine grows same = tt
  Fine-frame d d' saved fine grows same = tt
  Fine-frame d d' failed fine grows same = tt

  record Proper (s : Saves) : Type 0 where
    whole : Whole content s.dir
    fine : (i : ℕ) → Fine content s.dir (s.writers i)
    apart : (i j t : ℕ) → held (s.writers i) ≡ some t → held (s.writers j) ≡ some t → i ≡ j

  -- A save that begins holds no file yet.
  begun :
      (i : ℕ) (w : Save) (s : Saves)
      → held w ≡ none
      → Fine content s.dir w
      → Proper s
      → Proper (record s { writers = update s.writers i w })
  begun i w s free fine p = record {
    whole = p.whole;
    fine = λ j. elim (Bool-cases (i == j)) [
      | inl here ↦ rw here fine
      | inr other ↦ rw other (p.fine j)
    ];
    apart = λ a b t h k. elim (Bool-cases (i == a)) [
      | inl here ↦ cc (rw here at h, free)
      | inr other ↦ elim (Bool-cases (i == b)) [
        | inl here ↦ cc (rw here at k, free)
        | inr others ↦ p.apart a b t (rw other at h) (rw others at k)
      ]
    ];
  }

  elsewhere : (i j : ℕ) → (i == j) ≡ false → i ≡ j → ⊥
  elsewhere i j other same = ground (arith, other, same)

  ran : (i : ℕ) (c : Chance) (s : Saves) → Proper s → Proper (step content (runs i c) s)
  unfolding step
  ran i c s p = record {
    whole = turned.whole;
    fine = λ j. elim (Bool-cases (i == j)) [
      | inl here ↦ rw here turned.fine
      | inr other ↦ rw other (
          Fine-frame s.dir (turn content c (s.writers i) s.dir).1 (s.writers j) (p.fine j)
            turned.grows
            (λ t old h e.
              sym (
                turned.frame t (Fine-below s.dir (s.writers j) t (p.fine j) h)
                  (λ k. elsewhere i j other (p.apart i j t k h)))
              ∙ e))
    ];
    apart = λ a b t h k. elim (Bool-cases (i == a)) [
      | inl here ↦ elim (Bool-cases (i == b)) [
        | inl too ↦ sym ((==_iff i a).0 here) ∙ (==_iff i b).0 too
        | inr other ↦
            sym ((==_iff i a).0 here) ∙ one_holder b t other (rw here at h) (rw other at k)
      ]
      | inr other ↦ elim (Bool-cases (i == b)) [
        | inl here ↦ sym (one_holder a t other (rw here at k) (rw other at h)) ∙ (==_iff i b).0 here
        | inr others ↦ p.apart a b t (rw other at h) (rw others at k)
      ]
    ];
  }
    where
      turned :
          Turned content s.dir
            (s.writers i)
            (turn content c (s.writers i) s.dir).1
            (turn content c (s.writers i) s.dir).0
      turned = turn-Turned content s.dir p.whole c (s.writers i) (p.fine i)

      one_holder :
          (j t : ℕ)
          → (i == j) ≡ false
          → held (turn content c (s.writers i) s.dir).0 ≡ some t
          → held (s.writers j) ≡ some t
          → i ≡ j
      one_holder j t other h k = elim (turned.holds t h) [
        | inl was ↦ p.apart i j t was k
        | inr fresh ↦ absurd (omega (arith, fresh, Fine-below s.dir (s.writers j) t (p.fine j) k))
      ]

  step-Proper : (e : Event) (s : Saves) → Proper s → Proper (step content e s)
  unfolding step
  step-Proper (save_called i) s p = begun i looking s refl tt p
  step-Proper (save_file_called i) s p = begun i spooled s refl tt p
  step-Proper (runs i c) s p = ran i c s p
  step-Proper deletes s p = record {
    whole = λ file e. cc;
    fine = λ i.
        Fine-frame s.dir (record s.dir { destination = none }) (s.writers i) (p.fine i)
          (omega arith) (λ t old h e. e);
    apart = p.apart;
  }
  step-Proper (loses u) s p = record {
    whole = p.whole;
    fine = λ i.
        Fine-frame s.dir (record s.dir { tmps = remove s.dir.tmps u }) (s.writers i) (p.fine i)
          (omega arith) (λ t old h e. ground (arith, e, get-remove s.dir.tmps u t));
    apart = p.apart;
  }

  steps-Proper : (events : List Event) (s : Saves) → Proper s → Proper (steps content events s)
  unfolding steps
  steps-Proper [] s p = p
  steps-Proper (e ∷ events) s p = steps-Proper events (step content e s) (step-Proper e s p)

  -- No save runs yet.
  abbrev pub at_rest : Dir → Saves
  at_rest d = record { dir = d; writers = λ i. idle }

  -- For saves of the same content under one key, in every interleaving of their awaits with each
  -- other, with deletions of the blob and with the loss of temporary files, from a directory where
  -- the key is absent or holds that content: the key never holds anything but the whole content; a
  -- save that ends well does so at a moment when the content is stored; and each turn that an
  -- unfinished save gets brings it nearer to its end.
  pub steps_lem :
      (d : Dir) (events : List Event)
      → Whole content d
      → Whole content (steps content events (at_rest d)).dir
        × ((i : ℕ) (c : Chance)
            → (steps content events (at_rest d)).writers i ≢ saved
            → (step content (runs i c) (steps content events (at_rest d))).writers i ≡ saved
            → (step content (runs i c) (steps content events (at_rest d))).dir.destination
              ≡ some content)
        × ((i : ℕ) (c : Chance)
            → 0 < turns_left content ((steps content events (at_rest d)).writers i)
            → turns_left content
                ((step content (runs i c) (steps content events (at_rest d))).writers i)
              < turns_left content ((steps content events (at_rest d)).writers i))
  unfolding step
  steps_lem d events whole =
      let s = steps content events (at_rest d) in
      let p =
        steps-Proper events (at_rest d)
          (record { whole = whole; fine = λ i. tt; apart = λ i j t h k. cc }) in
      (
        p.whole,
        λ i c unfinished ended.
            (turn-Turned content s.dir p.whole c (s.writers i) (p.fine i)).ends unfinished
              (rw ((==_iff i i).1 refl) at ended),
        λ i c unfinished.
            rw ((==_iff i i).1 refl) (turns-decrease c (s.writers i) s.dir unfinished),
      )
