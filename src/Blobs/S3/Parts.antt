-- ===== src/Blobs/S3/Parts.antt =====
-- The parts of a multipart upload.
use pixeldive.Prelude.{
  string_eq, ℕ, zero, suc, ◌+◌, ◌≤◌, max, String, ◌≡◌, refl, inl, inr, false, List, [], ◌∷◌, ◌++◌,
  arith, Bool-cases, length, drop, take, is_empty,
}
use pixeldive.Prelude.All.{All}
use pixeldive.Blobs.Spool.{Bytes}
use pixeldive.Blobs.Spool.Laws.{flatten}
use pixeldive.Sdk.Chunks.{iter_path}
use pixeldive.Sdk.Chunks.Laws.{iter_path_lem, Fits}
use pixeldive.Blobs.S3.{Call, Reply, done, raised, give, next, ◌>>=◌, ObjectClient}
use pixeldive.Blobs.S3.Multipart.{parts_loop, upload_parts}

-- The bodies of the parts: the windows of the file, and one empty body for an empty file.
abbrev pub part_bodies : ℕ → Bytes → List Bytes
part_bodies part_size [] = [] ∷ []
part_bodies part_size (b ∷ file) = iter_path (length (b ∷ file) + 2) (b ∷ file) part_size

-- Two continuations that agree.
pub next_both :
    {S A B : Type 0} (f g : A → Call S B) (p : Reply A × S)
    → ((a : A) (s : S) → f a s ≡ g a s)
    → next f p ≡ next g p
next_both f g (done a, s) h = h a s
next_both f g (raised e, s) h = refl

one_more : {A : Type 0} (xs : List A) (x : A) → is_empty (xs ++ x ∷ []) ≡ false
one_more [] x = refl
one_more (y ∷ xs) x = refl

take_nil : (k : ℕ) → take {A = ℕ} k [] ≡ []
take_nil zero = refl
take_nil (suc k) = refl

take_some : (k : ℕ) (b : ℕ) (file : Bytes) → 1 ≤ k → is_empty (take k (b ∷ file)) ≡ false
take_some zero b file h = absurd (omega (arith, h))
take_some (suc k) b file h = refl

module _ {S Token : Type 0} (client : ObjectClient S Token) (key upload_id : String) where
  -- The parts, numbered from `n` on, one after the other.
  unfoldable pub send_parts : ℕ → List (String × ℕ) → List Bytes → Call S (List (String × ℕ))
  send_parts n parts [] = give parts
  send_parts n parts (body ∷ bodies) = client.upload_part key upload_id n body >>= λ etag.
      send_parts (suc n) (parts ++ (etag, n) ∷ []) bodies

  module _ (part_size : ℕ) (positive : 1 ≤ part_size) where
    -- Once a part is there, an empty window ends the loop.
    loop_on :
        (fuel n : ℕ) (parts : List (String × ℕ)) (rest : Bytes) (s : S)
        → is_empty parts ≡ false
        → parts_loop client key upload_id part_size fuel n parts rest s
          ≡ send_parts n parts (iter_path fuel rest part_size) s
    unfolding parts_loop iter_path send_parts
    loop_on zero n parts rest s h = refl
    loop_on (suc fuel) n parts rest s h =
        let e : max part_size 1 ≡ part_size = omega (arith, positive) in
        elim (Bool-cases (is_empty (take part_size rest))) [
          | inl empty ↦ rw (e, h, empty) refl
          | inr full ↦
              rw (e, full)
                (next_both
                  (λ etag.
                    parts_loop client key upload_id part_size fuel (suc n) (parts ++ (etag, n) ∷ [])
                      (drop part_size rest))
                  (λ etag.
                    send_parts (suc n) (parts ++ (etag, n) ∷ [])
                      (iter_path fuel (drop part_size rest) part_size))
                  (client.upload_part key upload_id n (take part_size rest) s)
                  (λ etag s'.
                    loop_on fuel (suc n) (parts ++ (etag, n) ∷ []) (drop part_size rest) s'
                      (one_more parts (etag, n))))
        ]

    loop_from :
        (fuel b : ℕ) (file : Bytes) (s : S)
        → parts_loop client key upload_id part_size (suc fuel) 1 [] (b ∷ file) s
          ≡ send_parts 1 [] (iter_path (suc fuel) (b ∷ file) part_size) s
    unfolding parts_loop iter_path send_parts
    loop_from fuel b file s =
        let e : max part_size 1 ≡ part_size = omega (arith, positive) in
        rw (e, take_some part_size b file positive)
          (next_both
            (λ etag.
              parts_loop client key upload_id part_size fuel 2 ((etag, 1) ∷ [])
                (drop part_size (b ∷ file)))
            (λ etag.
              send_parts 2 ((etag, 1) ∷ []) (iter_path fuel (drop part_size (b ∷ file)) part_size))
            (client.upload_part key upload_id 1 (take part_size (b ∷ file)) s)
            (λ etag s'. loop_on fuel 2 ((etag, 1) ∷ []) (drop part_size (b ∷ file)) s' refl))

    -- For every client, file and part size of at least one byte: the calls of `upload_part` are one for
    -- each body, in order, numbered from 1; the bodies put together are the file; an empty file has one
    -- empty part, and the parts of any other have at least one byte and at most `part_size`.
    pub upload_parts_lem :
        (file : Bytes) (s : S)
        → (upload_parts client key upload_id part_size file s
            ≡ send_parts 1 [] (part_bodies part_size file) s)
          × (flatten (part_bodies part_size file) ≡ file)
          × (file ≡ [] → part_bodies part_size file ≡ [] ∷ [])
          × (¬ (file ≡ []) → All (Fits part_size) (part_bodies part_size file))
    unfolding upload_parts parts_loop send_parts
    upload_parts_lem [] s = (rw (take_nil part_size) refl, refl, λ e. refl, λ h. absurd (h refl))
    upload_parts_lem (b ∷ file) s =
        let fuel : length (b ∷ file) + 2 ≡ suc (length (b ∷ file) + 1) = omega arith in
        let size : max part_size 1 ≡ part_size = omega (arith, positive) in
        let (whole, fits) =
          iter_path_lem (length (b ∷ file) + 2) (b ∷ file) part_size (omega arith) in
        (
          rw fuel (loop_from (length (b ∷ file) + 1) b file s),
          whole,
          λ e. absurd (cc e),
          λ h. rw size at fits,
        )
