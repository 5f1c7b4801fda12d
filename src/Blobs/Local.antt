-- ===== src/Blobs/Local.antt =====
-- app/blobs/local_write.py as the event loop runs it: a save gives up control at each await, so the
-- saves of one key interleave, and other tasks remove the file meanwhile. Every save of a key writes
-- the same bytes, since the key is their digest. The temporary names come from `uuid4`, which never
-- gives a name twice: they are numbers in the order in which they are drawn.
pub mod Steps
pub mod Interleaved
mod Tests
use pixeldive.Prelude.{
  string_eq, nat_eq, ℕ, suc, Bool, Option, none, some, List, [], ◌∷◌, ◌++◌, ◌==◌, if◌then◌else◌,
  drop, take,
}
use pixeldive.Blobs.Spool.{Bytes}
use pixeldive.Blobs.Store.{is_some}
use pixeldive.Prelude.Dict.{Dict, get, put, remove}

-- The destination and the temporary files of its directory.
pub record Dir : Type 0 where
  pub destination : Option Bytes
  pub tmps : Dict ℕ Bytes
  pub next_name : ℕ

-- Where a save stands: what it awaits next. A writer has what it still has to write.
pub data Save : Type 0 where
  idle : Save
  spooled : Save
  linking : Save
  looking : Save
  writing : ℕ → Bytes → Save
  committing : ℕ → Save
  cleaning : ℕ → Save
  rechecking : Save
  saved : Save
  failed : Save

-- What the operating system chooses: how much one write takes, at least a byte, and whether it
-- refuses a link (OSError) or a replacement of a file (FileExistsError).
pub record Chance : Type 0 where
  pub window : ℕ
  pub refuses : Bool

-- `await aiofiles.os.path.isfile(destination)`
abbrev pub there : Dir → Bool
there d = is_some d.destination

-- An open handle to a file that was removed writes to no name.
abbrev pub append : ℕ → Bytes → Dir → Dir
append t part d = elim (get d.tmps t) [
  | none ↦ d
  | some old ↦ record d { tmps = put d.tmps t (old ++ part) }
]

-- The first check of `save_spool_file`.
unfoldable pub spool_turn : Dir → Save × Dir
spool_turn d = (if there d then saved else linking, d)

-- A round of `copy_spool`, or of the write of a payload.
unfoldable pub write_turn : Chance → ℕ → Bytes → Dir → Save × Dir
write_turn c t [] d = (committing t, d)
write_turn c t (b ∷ rest) d = (writing t (drop c.window rest), append t (b ∷ take c.window rest) d)

-- `os.replace` of `commit_tmp`.
unfoldable pub replace_turn : Chance → ℕ → Dir → Save × Dir
replace_turn c t d = if c.refuses then (cleaning t, d) else elim (get d.tmps t) [
  | none ↦ (rechecking, d)
  | some file ↦ (saved, record d { destination = some file; tmps = remove d.tmps t })
]

-- `os.remove` after FileExistsError: where it finds no file, its own error goes out.
unfoldable pub remove_turn : ℕ → Dir → Save × Dir
remove_turn t d = elim (get d.tmps t) [
  | none ↦ (failed, d)
  | some file ↦ (rechecking, record d { tmps = remove d.tmps t })
]

module _ (content : Bytes) where
  unfoldable pub try_link_turn : Chance → Dir → Save × Dir
  try_link_turn c d =
      if c.refuses
      then (looking, d)
      else (if there d then (saved, d) else (saved, record d { destination = some content }))

  -- The check of `save_atomic`, and the temporary file that `write_tmp` opens.
  unfoldable pub save_atomic_turn : Dir → Save × Dir
  save_atomic_turn d = if there d then (saved, d) else (
    writing d.next_name content,
    record d { tmps = put d.tmps d.next_name []; next_name = suc d.next_name },
  )

  -- One await of a save.
  unfoldable pub turn : Chance → Save → Dir → Save × Dir
  unfolding spool_turn try_link_turn save_atomic_turn write_turn replace_turn remove_turn
  turn c idle d = (idle, d)
  turn c spooled d = spool_turn d
  turn c linking d = try_link_turn c d
  turn c looking d = save_atomic_turn d
  turn c (writing t rest) d = write_turn c t rest d
  turn c (committing t) d = replace_turn c t d
  turn c (cleaning t) d = remove_turn t d
  turn c rechecking d = (if there d then saved else failed, d)
  turn c saved d = (saved, d)
  turn c failed d = (failed, d)

-- `delete`: a file that is not there is no error.
abbrev pub delete : Dir → Dir
delete d = record d { destination = none }

-- The saves of one key, by task, and their directory.
pub record Saves : Type 0 where
  pub dir : Dir
  pub writers : ℕ → Save

-- A task starts `save` or `save_file`, runs to its next await, or is heard of no more; another
-- request deletes the blob, or something else removes a temporary file.
pub data Event : Type 0 where
  save_called : ℕ → Event
  save_file_called : ℕ → Event
  runs : ℕ → Chance → Event
  deletes : Event
  loses : ℕ → Event

abbrev pub update : (ℕ → Save) → ℕ → Save → ℕ → Save
update f i w j = if i == j then w else f j

module _ (content : Bytes) where
  unfoldable pub step : Event → Saves → Saves
  unfolding turn
  step (save_called i) s = record s { writers = update s.writers i looking }
  step (save_file_called i) s = record s { writers = update s.writers i spooled }
  step (runs i c) s =
      let (w, d) = turn content c (s.writers i) s.dir in
      record { dir = d; writers = update s.writers i w }
  step deletes s = record s { dir = delete s.dir }
  step (loses t) s = record s { dir = record s.dir { tmps = remove s.dir.tmps t } }

  unfoldable pub steps : List Event → Saves → Saves
  unfolding step
  steps [] s = s
  steps (e ∷ events) s = steps events (step e s)
