-- ===== src/Rpc/Batch/Limit/Slots.antt =====
-- The slots of a batch: how many there are after each step.
use pixeldive.Prelude.{
  string_eq, nat_eq, ℕ, suc, ◌+◌, ◌≤◌, ◌<◌, String, ◌≡◌, refl, ap, inl, inr, Bool, true, false,
  ◌&&◌, Option, none, some, [], ◌∷◌, arith, leb, if◌then◌else◌, ==_iff, Bool-cases, length,
  length-append, ◌=?◌,
}
use pixeldive.Prelude.Dict.{Dict, get, put, remove, get-put}
use pixeldive.Errors.{Result, ok, err, Error, invalid_argument}
use pixeldive.Exec.{Ends, Ends-continue}
use pixeldive.Blobs.Spool.{Bytes, Spool, Spooling, feed, finish, Writer, start, new_writer}
use pixeldive.Blobs.Spool.Outcome.{started}
use pixeldive.Blobs.Uploads.{upload_from_spool}
use pixeldive.Rpc.Wire.{Codec, BatchImageChunk, chunk_headers}
use pixeldive.Rpc.Single.{require_session_id}
use pixeldive.Rpc.Batch.{
  Batch, Slot, reject_full, slot_for, is_new, new_batch_slot, after_feed, feed_slot, session_once,
  slot_with, complete, write_back,
}

abbrev is_there : {A : Type 0} → Option A → Bool
is_there none = false
is_there (some a) = true

-- A key that is in the dictionary.
abbrev Has : {V : Type 0} → Dict ℕ V → ℕ → Type 0
Has d k = is_there (get d k) ≡ true

module _ {V : Type 0} where
  length-put :
      (d : Dict ℕ V) (k : ℕ) (v : V)
      → length (put d k v) ≡ (if is_there (get d k) then length d else suc (length d))
  unfolding put get
  length-put [] k v = ground arith
  length-put ((j, w) ∷ d) k v = ground (arith, length-put d k v)

  Has-put : (d : Dict ℕ V) (k : ℕ) (v : V) → Has (put d k v) k
  Has-put d k v = ground (arith, get-put d k k v, ==_iff k k)

  length-remove :
      (d : Dict ℕ V) (k : ℕ)
      → length (remove d k) + (if is_there (get d k) then 1 else 0) ≤ length d
  unfolding remove get
  length-remove [] k = ground arith
  length-remove ((j, w) ∷ d) k = ground (arith, length-remove d k)

module _ {Meta : Type 0} (codec : Codec Meta) (sha256 : Bytes → String)
    (max_bytes max_images : ℕ) where
  -- The images of a call, complete or not, keep the limit.
  unfoldable pub Within : Batch Meta → Type 0
  Within s = length s.pending + length s.completed ≤ max_images

  abbrev pub Keeps : {A : Type 0} → Result A × Batch Meta → Type 0
  Keeps = Ends (λ _. Within) Within

  pub Ends-Within : {A : Type 0} (out : Result A × Batch Meta) → Within out.1 → Keeps out
  Ends-Within (ok a, s) h = h
  Ends-Within (err e, s) h = h

  pub session_once-state :
      (o : Option ℕ) (chunk : BatchImageChunk) (s : Batch Meta)
      → (session_once codec sha256 max_bytes max_images o chunk s).1 ≡ s
  unfolding require_session_id
  session_once-state (some sid) chunk s = refl
  session_once-state none chunk s = elim (Bool-cases (chunk.session_id =? "")) [
    | inl empty ↦ rw empty refl
    | inr named ↦ rw named refl
  ]

  -- There is a slot for the index, and the limit is kept.
  abbrev pub Slotted : ℕ → Batch Meta → Type 0
  Slotted index s = Within s × Has s.pending index

  write_back-Within :
      {A : Type 0} (index : ℕ) (slot : Slot Meta) (p : Result A × Spooling) (s : Batch Meta)
      → Slotted index s
      → Keeps (write_back codec sha256 max_bytes max_images index slot p s)
  unfolding Within
  write_back-Within index slot (ok a, sp) s (h, at) =
      ground (arith, h, at, length-put s.pending index (record slot { writer = sp.writer }))
  write_back-Within index slot (err e, sp) s (h, at) =
      ground (arith, h, at, length-put s.pending index (record slot { writer = sp.writer }))

  complete-Within :
      (index : ℕ) (slot : Slot Meta) (p : Result Spool × Spooling) (s : Batch Meta)
      → Slotted index s
      → Keeps (complete codec sha256 max_bytes max_images index slot p s)
  unfolding Within
  complete-Within index slot (ok spool, sp) s (h, at) =
      let u = upload_from_spool slot.filename slot.content_type spool slot.metadata in
      ground (arith, h, at, length-remove s.pending index, length-append s.completed (u ∷ []))
  complete-Within index slot (err e, sp) s h =
      write_back-Within {A = Unit {0}} index slot (err e, sp) s h

  after_feed-Within :
      (chunk : BatchImageChunk) (slot : Slot Meta) (p : Result (Unit {0}) × Spooling)
      (s : Batch Meta)
      → Slotted chunk.image_index s
      → Keeps (after_feed codec sha256 max_bytes max_images chunk slot p s)
  after_feed-Within chunk slot (err e, sp) s h =
      write_back-Within {A = Unit {0}} chunk.image_index slot (err e, sp) s h
  after_feed-Within chunk slot (ok u, sp) s h = elim (Bool-cases chunk.end_of_image) [
    | inl end ↦ rw end (complete-Within chunk.image_index slot (finish sha256 sp) s h)
    | inr more ↦ rw more (write_back-Within chunk.image_index slot (ok u, sp) s h)
  ]

  pub feed_slot-Within :
      (chunk : BatchImageChunk) (r : Result (Slot Meta)) (s : Batch Meta)
      → Slotted chunk.image_index s
      → Keeps (feed_slot codec sha256 max_bytes max_images chunk r s)
  feed_slot-Within chunk (err e) s h = h.0
  feed_slot-Within chunk (ok slot) s h =
      after_feed-Within chunk slot
        (feed chunk.content (record { writer = slot.writer; disk = s.disk })) s h

  -- A chunk for an index that is there, or for which there is room.
  abbrev pub Room : ℕ → Batch Meta → Type 0
  Room index s =
      Within s
      × ((is_there (get s.pending index) ≡ false)
          → length s.pending + length s.completed < max_images)

  abbrev rejected : Option (Slot Meta) → Batch Meta → Result (Unit {0}) × Batch Meta
  rejected o s =
      if is_new codec sha256 max_bytes max_images o
        && leb max_images (length s.pending + length s.completed)
      then (err (Error.rpc_aborted invalid_argument), s)
      else (ok tt, s)

  rejected-Room :
      (index : ℕ) (o : Option (Slot Meta)) (s : Batch Meta)
      → get s.pending index ≡ o
      → Within s
      → Ends (λ _. Room index) Within (rejected o s)
  unfolding Within
  rejected-Room index (some slot) s e h = (h, λ absent. absurd (cc (e, absent)))
  rejected-Room index none s e h =
      elim (Bool-cases (leb max_images (length s.pending + length s.completed))) [
        | inl full ↦ rw full h
        | inr room ↦ rw room (h, λ absent. ground (arith, room))
      ]

  pub reject_full-Room :
      (chunk : BatchImageChunk) (s : Batch Meta)
      → Within s
      → Ends
          (λ _. Room chunk.image_index)
          Within
          (reject_full codec sha256 max_bytes max_images chunk s)
  unfolding reject_full
  reject_full-Room chunk s h =
      rejected-Room chunk.image_index (get s.pending chunk.image_index) s refl h

  -- A new slot leaves the images as they are.
  abbrev Same : Batch Meta → Batch Meta → Type 0
  Same s s' = (s'.pending ≡ s.pending) × (s'.completed ≡ s.completed)

  slot_with-Same :
      (writer : Writer) (r : Result (String × String × Meta)) (s s' : Batch Meta)
      → Same s s'
      → Within s
      → Ends (λ _. Same s) Within (slot_with codec sha256 max_bytes max_images writer r s')
  unfolding Within
  slot_with-Same writer (ok (f, t, m)) s s' same h = same
  slot_with-Same writer (err e) s s' same h = ground (arith, same.0, same.1, h)

  slotted :
      (index : ℕ) (slot : Slot Meta) (s s' : Batch Meta)
      → get s.pending index ≡ none
      → Room index s
      → Same s s'
      → Slotted index (record s' { pending = put s'.pending index slot })
  unfolding Within
  slotted index slot s s' e h same = (
    ground (arith, same.0, same.1, e, h.1 (ap is_there e), length-put s.pending index slot),
    Has-put s'.pending index slot,
  )

  pub slot_for-Slotted :
      (chunk : BatchImageChunk) (o : Option (Slot Meta)) (s : Batch Meta)
      → get s.pending chunk.image_index ≡ o
      → Room chunk.image_index s
      → Ends
          (λ _. Slotted chunk.image_index)
          Within
          (slot_for codec sha256 max_bytes max_images chunk o s)
  unfolding new_batch_slot Within start new_writer
  slot_for-Slotted chunk (some slot) s e h = (h.0, ap is_there e)
  slot_for-Slotted chunk none s e h =
      Ends-continue (λ _. Same s) (λ _. Slotted chunk.image_index) Within
        (λ slot s'. (ok slot, record s' { pending = put s'.pending chunk.image_index slot }))
        (new_batch_slot codec sha256 max_bytes max_images chunk s)
        (slot_with-Same (started sha256 s.next_path max_bytes s.disk).writer
          (chunk_headers codec chunk.filename chunk.content_type chunk.metadata_json) s
          (record s { disk = put s.disk s.next_path []; next_path = suc s.next_path }) (refl, refl)
          h.0)
        (λ slot s' same. slotted chunk.image_index slot s s' e h same)
