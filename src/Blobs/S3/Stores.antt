-- ===== src/Blobs/S3/Stores.antt =====
-- Files that are stored in the bucket, over what S3 documents of its multipart uploads.
use pixeldive.Prelude.{
  string_eq, nat_eq, ℕ, suc, ◌≤◌, ◌<◌, String, ◌≡◌, refl, sym, ap, ◌∙◌, false, some, List, [], ◌∷◌,
  ◌++◌, arith, ◌==◌, if◌then◌else◌, ==_iff, ◌=?◌,
}
use mathlib.Core.List.{append_assoc, append-nil}
use mathlib.Core.Path.{subst}
use pixeldive.Blobs.Spool.{Bytes}
use pixeldive.Blobs.Spool.Laws.{flatten}
use pixeldive.Blobs.S3.{Call, Reply, done, raised, next, ObjectClient}
use pixeldive.Blobs.S3.Multipart.{
  upload_parts, put_parts, put_file_multipart, or_abort, abort_upload, swallowed,
}
use pixeldive.Blobs.S3.Parts.{part_bodies, send_parts, upload_parts_lem}
use pixeldive.Blobs.S3.Bucket.{Bucket, Holds, IsMultipart}

module _ {S Token : Type 0} (client : ObjectClient S Token) (bucket : Bucket S)
    (multipart : IsMultipart client bucket) where
  -- All numbers are below `n`.
  unfoldable Numbered : ℕ → List (String × ℕ) → Type 0
  Numbered n [] = Unit
  Numbered n ((etag, m) ∷ parts) = (m < n) × Numbered n parts

  -- The store after a part is sent.
  abbrev Adds : String → ℕ → Bytes → S → S → Type 0
  Adds upload_id n body s s' =
      (m : ℕ)
      → bucket.part s' upload_id m ≡ (if n == m then some body else bucket.part s upload_id m)

  Holds-sent :
      (upload_id etag : String) (n : ℕ) (body : Bytes) (s s' : S) (parts : List (String × ℕ))
      (bodies : List Bytes)
      → Holds bucket s upload_id parts bodies
      → Numbered n parts
      → Adds upload_id n body s s'
      → Holds bucket s' upload_id (parts ++ (etag, n) ∷ []) (bodies ++ body ∷ [])
  unfolding Numbered
  Holds-sent upload_id etag n body s s' [] [] h b new = (ground (arith, new n, ==_iff n n), tt)
  Holds-sent upload_id etag n body s s' ((tag, m) ∷ parts) (old ∷ bodies) h b new = (
    ground (arith, new m, h.0, b.0),
    Holds-sent upload_id etag n body s s' parts bodies h.1 b.1 new,
  )
  Holds-sent upload_id etag n body s s' [] (old ∷ bodies) h b new = absurd h
  Holds-sent upload_id etag n body s s' (part ∷ parts) [] h b new = absurd h

  Numbered-sent :
      (etag : String) (n : ℕ) (parts : List (String × ℕ))
      → Numbered n parts
      → Numbered (suc n) (parts ++ (etag, n) ∷ [])
  unfolding Numbered
  Numbered-sent etag n [] h = (omega arith, tt)
  Numbered-sent etag n ((tag, m) ∷ parts) h = (omega (arith, h.0), Numbered-sent etag n parts h.1)

  module _ (key upload_id : String) where
    abbrev send : ℕ → List (String × ℕ) → List Bytes → Call S (List (String × ℕ))
    send = send_parts client key upload_id

    -- What a run that sends `bodies` in the end leaves of the state `s`.
    abbrev Leaves : S → List Bytes → Reply (List (String × ℕ)) × S → Type 0
    Leaves s bodies out =
        ((parts : List (String × ℕ))
          → out.0 ≡ done parts
          → Holds bucket out.1 upload_id parts bodies)
        × ((k : String) → bucket.object out.1 k ≡ bucket.object s k)

    after_part :
        (more : List Bytes) (n : ℕ) (parts : List (String × ℕ)) (bodies : List Bytes) (body : Bytes)
        (s : S) (p : Reply String × S)
        → client.upload_part key upload_id n body s ≡ p
        → Holds bucket s upload_id parts bodies
        → Numbered n parts
        → ((parts' : List (String × ℕ)) (s' : S)
            → Holds bucket s' upload_id parts' (bodies ++ body ∷ [])
            → Numbered (suc n) parts'
            → Leaves s' ((bodies ++ body ∷ []) ++ more) (send (suc n) parts' more s'))
        → Leaves s
            (bodies ++ body ∷ more)
            (next (λ etag. send (suc n) (parts ++ (etag, n) ∷ []) more) p)
    after_part more n parts bodies body s (raised e, s') q h b rest = (
      λ parts' x. absurd (cc x),
      λ k. ap (λ p. bucket.object p.1 k) (sym q) ∙ multipart.sent key upload_id k n body s,
    )
    after_part more n parts bodies body s (done etag, s') q h b rest =
        let new : Adds upload_id n body s s' = λ m.
          ap (λ p. bucket.part p.1 upload_id m) (sym q)
          ∙ multipart.part_sent key upload_id etag n m body s (ap (λ p. p.0) q) in
        let (held, same) =
          rest (parts ++ (etag, n) ∷ []) s'
            (Holds-sent upload_id etag n body s s' parts bodies h b new)
            (Numbered-sent etag n parts b) in
        (
          rw (append_assoc bodies (body ∷ []) more) at held,
          λ k.
              same k
              ∙ ap (λ p. bucket.object p.1 k) (sym q)
              ∙ multipart.sent key upload_id k n body s,
        )

    send_parts-Leaves :
        (more : List Bytes) (n : ℕ) (parts : List (String × ℕ)) (bodies : List Bytes) (s : S)
        → Holds bucket s upload_id parts bodies
        → Numbered n parts
        → Leaves s (bodies ++ more) (send n parts more s)
    unfolding send_parts
    send_parts-Leaves [] n parts bodies s h b =
        (λ parts' x. let e : parts ≡ parts' = cc x in rw (← e, append-nil bodies) h, λ k. refl)
    send_parts-Leaves (body ∷ more) n parts bodies s h b =
        after_part more n parts bodies body s (client.upload_part key upload_id n body s) refl h b
          (λ parts' s' h' b'. send_parts-Leaves more (suc n) parts' (bodies ++ body ∷ []) s' h' b')

  -- A run that stores the file under the key.
  abbrev Stores : S → String → Bytes → Reply (Unit {0}) × S → Type 0
  Stores s key file out =
      (out.0 ≡ done tt → bucket.object out.1 key ≡ some file)
      × ((k : String) → (key =? k) ≡ false → bucket.object out.1 k ≡ bucket.object s k)

  module _ (key upload_id : String) where
    after_parts :
        (bodies : List Bytes) (s : S) (p : Reply (List (String × ℕ)) × S)
        → Leaves key upload_id s bodies p
        → Stores s key
            (flatten bodies)
            (next (λ parts. client.complete_multipart_upload key upload_id parts) p)
    after_parts bodies s (raised e, s') h = (λ x. absurd (cc x), λ k other. h.1 k)
    after_parts bodies s (done parts, s') h = (
      λ x. multipart.completed key upload_id parts bodies s' (h.0 parts refl) x,
      λ k other. multipart.others_stay key upload_id k parts s' other ∙ h.1 k,
    )

    swallowed-state :
        (part_size : ℕ) (p : Reply (Unit {0}) × S)
        → (swallowed client key upload_id part_size p).1 ≡ p.1
    swallowed-state part_size (done u, s) = refl
    swallowed-state part_size (raised e, s) = refl

    after_abort :
        (part_size : ℕ) (file : Bytes) (s : S) (p : Reply (Unit {0}) × S)
        → Stores s key file p
        → Stores s key file (or_abort client key upload_id part_size p)
    unfolding abort_upload
    after_abort part_size file s (done u, s') h = h
    after_abort part_size file s (raised e, s') h = (
      λ x. absurd (cc x),
      λ k other.
          ap (λ x. bucket.object x k)
            (swallowed-state part_size (client.abort_multipart_upload key upload_id s'))
          ∙ multipart.aborted key upload_id k s'
          ∙ h.1 k other,
    )

    put_parts-Stores :
        (part_size : ℕ) (file : Bytes) (s : S)
        → 1 ≤ part_size
        → Stores s key file (put_parts client key upload_id part_size file s)
    unfolding put_parts Numbered
    put_parts-Stores part_size file s positive =
        let (same, whole, one, fits) =
          upload_parts_lem client key upload_id part_size positive file s in
        after_abort part_size file s
          (next (λ parts. client.complete_multipart_upload key upload_id parts)
            (upload_parts client key upload_id part_size file s))
          (rw same (
            subst
              (λ f. Stores s key f (
                next (λ parts. client.complete_multipart_upload key upload_id parts)
                  (send_parts client key upload_id 1 [] (part_bodies part_size file) s)))
              whole
              (after_parts (part_bodies part_size file) s
                (send_parts client key upload_id 1 [] (part_bodies part_size file) s)
                (send_parts-Leaves key upload_id (part_bodies part_size file) 1 [] [] s tt tt))))

  after_create :
      (key : String) (part_size : ℕ) (file : Bytes) (s : S) (p : Reply String × S)
      → 1 ≤ part_size
      → ((k : String) → bucket.object p.1 k ≡ bucket.object s k)
      → Stores s key file (next (λ upload_id. put_parts client key upload_id part_size file) p)
  after_create key part_size file s (raised e, s') positive h = (λ x. absurd (cc x), λ k other. h k)
  after_create key part_size file s (done upload_id, s') positive h =
      let stored = put_parts-Stores key upload_id part_size file s' positive in
      (stored.0, λ k other. stored.1 k other ∙ h k)

  -- For every client whose service behaves as S3 documents, which may raise at any call, and a part
  -- size of at least one byte: where the upload of a file returns, the object of its key holds exactly
  -- the file; and whether it returns or raises, no other object changes.
  pub put_file_multipart-Stores :
      (key content_type : String) (part_size : ℕ) (file : Bytes) (s : S)
      → 1 ≤ part_size
      → ((put_file_multipart client key file content_type part_size s).0 ≡ done tt
          → bucket.object (put_file_multipart client key file content_type part_size s).1 key
            ≡ some file)
        × ((k : String)
            → (key =? k) ≡ false
            → bucket.object (put_file_multipart client key file content_type part_size s).1 k
              ≡ bucket.object s k)
  unfolding put_file_multipart
  put_file_multipart-Stores key content_type part_size file s positive =
      let sized : (part_size == 0) ≡ false = ground (arith, positive) in
      rw sized (
        after_create key part_size file s (client.create_multipart_upload key content_type s)
          positive (λ k. multipart.created key content_type k s))
