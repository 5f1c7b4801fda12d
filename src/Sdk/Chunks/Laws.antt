-- ===== src/Sdk/Chunks/Laws.antt =====
-- The windows of a payload: what they hold together, and how long each is.
use pixeldive.Prelude.{
  ℕ, zero, suc, ◌+◌, ◌-◌, ◌≤◌, ◌<◌, max, ◌≡◌, refl, sym, ap, ◌≢◌, inl, inr, List, [], ◌∷◌, arith,
  ltb, ltb→lt, Bool-cases, length, drop, take-append-drop, length-take, length-drop,
  drop_of_length-le,
}
use pixeldive.Prelude.All.{All}
use pixeldive.Blobs.Spool.{Bytes}
use pixeldive.Blobs.Spool.Laws.{flatten}
use pixeldive.Sdk.Chunks.{slices, iter_bytes, iter_path}
use Prim.Native.Nat.add

-- A frame holds at least one byte and at most `size`.
abbrev pub Fits : ℕ → Bytes → Type 0
Fits size c = (0 < length c) × (length c ≤ size)

drop-add {ℓ} : {A : Type ℓ} (m n : ℕ) (xs : List A) → drop n (drop m xs) ≡ drop (m + n) xs
drop-add zero n xs = rw (add.zero n)
drop-add (suc m) zero [] = rw (add.suc m 0)
drop-add (suc m) (suc n) [] = rw (add.suc m (suc n))
drop-add (suc m) n (x ∷ xs) = rw (add.suc m n) (drop-add m n xs)

flatten-slices :
    (fuel size : ℕ) (p : Bytes) (offset : ℕ)
    → 0 < size
    → length p ≤ fuel + offset
    → flatten (slices fuel size p offset) ≡ drop offset p
unfolding slices
flatten-slices zero size p offset pos le = sym (drop_of_length-le offset p (omega arith))
flatten-slices (suc fuel) size p offset pos le = elim (Bool-cases (ltb offset (length p))) [
  | inl more ↦
      rw
        (
          more,
          flatten-slices fuel size p (offset + size) pos (omega arith),
          ← drop-add offset size p,
        )
        (take-append-drop size (drop offset p))
  | inr done ↦ rw done (sym (drop_of_length-le offset p (ground arith)))
]

slices-Fits :
    (fuel size : ℕ) (p : Bytes) (offset : ℕ)
    → 0 < size
    → All (Fits size) (slices fuel size p offset)
unfolding slices
slices-Fits zero size p offset pos = tt
slices-Fits (suc fuel) size p offset pos = elim (Bool-cases (ltb offset (length p))) [
  | inl more ↦
      let n = length-take size (drop offset p) in
      let m = length-drop offset p in
      let l : offset < length p = ltb→lt _ _ more in
      rw more ((omega arith, omega arith), slices-Fits fuel size p (offset + size) pos)
  | inr done ↦ rw done tt
]

-- For every payload and chunk size: the frames hold the payload, in order, and each frame of a
-- payload that is not empty has at least one byte and at most `max(chunk_size, 1)`.
pub iter_bytes_lem :
    (p : Bytes) (chunk_size : ℕ)
    → (flatten (iter_bytes p chunk_size) ≡ p)
      × (p ≢ [] → All (Fits (max chunk_size 1)) (iter_bytes p chunk_size))
unfolding iter_bytes
iter_bytes_lem [] chunk_size = (refl, λ h. absurd (h refl))
iter_bytes_lem (b ∷ p) chunk_size = (
  flatten-slices (length (b ∷ p)) (max chunk_size 1) (b ∷ p) 0 (omega arith) (omega arith),
  λ h. slices-Fits (length (b ∷ p)) (max chunk_size 1) (b ∷ p) 0 (omega arith),
)

abbrev Reads : ℕ → Bytes → ℕ → Type 0
Reads fuel file chunk_size =
    (flatten (iter_path fuel file chunk_size) ≡ file)
    × All (Fits (max chunk_size 1)) (iter_path fuel file chunk_size)

-- One read, of at most `k + 1` bytes.
read_step :
    (fuel : ℕ) (file : Bytes) (chunk_size k : ℕ)
    → max chunk_size 1 ≡ suc k
    → length file < suc fuel
    → (length (drop (suc k) file) < fuel → Reads fuel (drop (suc k) file) chunk_size)
    → Reads (suc fuel) file chunk_size
unfolding iter_path
read_step fuel [] chunk_size k e h next = rw e (refl, tt)
read_step fuel (b ∷ file) chunk_size k e h next =
    let rest = next (omega (arith, length-drop k file)) in
    let fits = rest.1 in
    rw e (
      ap (λ (l : Bytes). b ∷ l) (rw rest.0 (take-append-drop k file)),
      ((omega arith, omega (arith, length-take k file)), rw e at fits),
    )

-- The reads of a file give the frames of its bytes: with fuel beyond its length they hold the whole
-- file, and each has at least one byte and at most `max(chunk_size, 1)`.
pub iter_path_lem :
    (fuel : ℕ) (file : Bytes) (chunk_size : ℕ)
    → length file < fuel
    → (flatten (iter_path fuel file chunk_size) ≡ file)
      × All (Fits (max chunk_size 1)) (iter_path fuel file chunk_size)
unfolding iter_path
iter_path_lem zero file chunk_size h = elim h [ ]
iter_path_lem (suc fuel) file chunk_size h =
    let size = max chunk_size 1 in
    let e : size ≡ suc (size - 1) = omega arith in
    read_step fuel file chunk_size (size - 1) e h
      (iter_path_lem fuel (drop (suc (size - 1)) file) chunk_size)
