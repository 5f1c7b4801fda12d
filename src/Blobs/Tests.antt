-- ===== src/Blobs/Tests.antt =====
-- A run of the spool, and its theorem there.
use pixeldive.Prelude.{
  nat_eq, string_eq, ℕ, String, ◌≡◌, refl, inl, false, none, some, List, [], ◌∷◌, ◌==◌,
  if◌then◌else◌, contains,
}
use pixeldive.Prelude.Dict.{get}
use pixeldive.Blobs.Store.{Blobs}
use pixeldive.Blobs.Gc.Sweep.{sweep_orphans_keeps}
use pixeldive.Blobs.Gc.{sweep_orphans, gc_unreferenced}
use pixeldive.Blobs.Gc.Laws.{gc_unreferenced_lem, gc_unreferenced_keeps, collected}
use pixeldive.Errors.{ok, Error, Result, err}
use pixeldive.Blobs.Spool.{Bytes, Spool, spool_chunks, Disk, Spooling}
use pixeldive.Blobs.Spool.Laws.{flatten}
use pixeldive.Blobs.Spool.Outcome.{spool_chunks_lem, answer}

abbrev pieces : List Bytes
pieces = (1 ∷ 2 ∷ []) ∷ [] ∷ (3 ∷ []) ∷ []

abbrev no_digest : Bytes → String
no_digest d = "digest"

abbrev old_disk : Disk
old_disk = (9, 5 ∷ []) ∷ []

abbrev run : Result Spool × Spooling
run = spool_chunks no_digest pieces 4 10 old_disk

spool_chunks_lem_example :
    (run.0 ≡ answer no_digest 4 10 0 [] pieces)
    × ((sp : Spool) → run.0 ≡ ok sp → get run.1.disk 4 ≡ some (flatten pieces))
    × ((e : Error) → run.0 ≡ err e → get run.1.disk 4 ≡ none)
    × ((j : ℕ) → (4 == j) ≡ false → get run.1.disk j ≡ get old_disk j)
spool_chunks_lem_example = spool_chunks_lem no_digest pieces 4 10 old_disk

abbrev two_blobs : Blobs
two_blobs =
    ("a", record { content = []; mtime = 1 }) ∷ ("b", record { content = []; mtime = 1 }) ∷ []

gc_unreferenced_lem_example :
    get (gc_unreferenced (λ n. "b" ∷ []) 5 9 ("a" ∷ "b" ∷ []) two_blobs) "a"
    ≡ (if collected 5 9 ("b" ∷ []) ("a" ∷ "b" ∷ []) two_blobs "a" then none else get two_blobs "a")
gc_unreferenced_lem_example = gc_unreferenced_lem 5 9 ("b" ∷ []) ("a" ∷ "b" ∷ []) two_blobs "a"

gc_unreferenced_keeps_example :
    get (gc_unreferenced (λ n. "b" ∷ []) 5 9 ("a" ∷ "b" ∷ []) two_blobs) "b" ≡ get two_blobs "b"
gc_unreferenced_keeps_example =
    gc_unreferenced_keeps 5 9 (λ n. "b" ∷ []) ("a" ∷ "b" ∷ []) two_blobs "b"
      (λ n. unfold contains in refl)

sweep_orphans_keeps_example :
    get (sweep_orphans (λ n. "b" ∷ []) 5 9 two_blobs).1 "b" ≡ get two_blobs "b"
sweep_orphans_keeps_example =
    sweep_orphans_keeps 5 9 (λ n. "b" ∷ []) two_blobs "b" (inl (λ n. unfold contains in refl))
