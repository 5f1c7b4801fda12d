-- ===== src/Blobs/Local/Tests.antt =====
-- Two saves of one key that interleave, and a deletion between them.
use pixeldive.Prelude.{
  string_eq, nat_eq, ℕ, ◌<◌, ◌≡◌, refl, ◌≢◌, true, false, none, some, List, [], ◌∷◌,
}
use pixeldive.Blobs.Spool.{Bytes}
use pixeldive.Blobs.Local.{
  Dir, committing, saved, Chance, Saves, Event, save_called, save_file_called, runs, deletes, step,
  steps,
}
use pixeldive.Blobs.Local.Steps.{Whole}
use pixeldive.Blobs.Local.Interleaved.{turns_left, at_rest, steps_lem}
use pixeldive.Prelude.Dict.{get, put, remove}

abbrev photo : Bytes
photo = 1 ∷ 2 ∷ 3 ∷ []

abbrev empty_dir : Dir
empty_dir = record { destination = none; tmps = []; next_name = 0 }

abbrev smooth : Chance
smooth = record { window = 1; refuses = false }

abbrev stubborn : Chance
stubborn = record { window = 0; refuses = true }

-- Both find nothing there and write; the first replaces the file, which is deleted again.
abbrev mixed : List Event
mixed =
    save_called 1
    ∷ save_file_called 2
    ∷ runs 2 smooth
    ∷ runs 2 stubborn
    ∷ runs 1 smooth
    ∷ runs 2 smooth
    ∷ runs 1 smooth
    ∷ runs 2 smooth
    ∷ runs 1 smooth
    ∷ runs 1 smooth
    ∷ runs 1 smooth
    ∷ deletes
    ∷ runs 2 smooth
    ∷ runs 2 smooth
    ∷ []

abbrev last : Saves
last = steps photo mixed (at_rest photo empty_dir)

second_commits : last.writers 2 ≡ committing 1
unfolding steps
second_commits = refl

second_stores : (step photo (runs 2 smooth) last).dir.destination ≡ some photo
unfolding steps get put remove
second_stores = refl

steps_lem_example :
    Whole photo last.dir
    × ((i : ℕ) (c : Chance)
        → last.writers i ≢ saved
        → (step photo (runs i c) last).writers i ≡ saved
        → (step photo (runs i c) last).dir.destination ≡ some photo)
    × ((i : ℕ) (c : Chance)
        → 0 < turns_left photo (last.writers i)
        → turns_left photo ((step photo (runs i c) last).writers i)
          < turns_left photo (last.writers i))
steps_lem_example = steps_lem photo empty_dir mixed (λ file e. cc e)
