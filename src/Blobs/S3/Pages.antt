-- ===== src/Blobs/S3/Pages.antt =====
-- Listing the bucket, and the keys that a process remembers.
use pixeldive.Prelude.{
  string_eq, nat_eq, ℕ, zero, suc, ◌≤◌, max, String, ◌≡◌, refl, inl, inr, Bool, true, false, not,
  ◌&&◌, Option, none, some, List, [], ◌∷◌, ◌++◌, map, arith, leb, Bool-cases, length, get_or_else,
  keep, length-append, ◌=?◌, contains,
}
use pixeldive.Blobs.Store.{is_some}
use pixeldive.Blobs.S3.{
  Call, Reply, done, raised, next, ObjectClient, ListPage, Stamp, at_datetime, unix_time,
  unreadable, mtime,
}
use pixeldive.Blobs.S3.Storage.{
  unless_stored, iter_list_pages, stamped, all_listed, list_blobs, S3Storage, store_once,
  still_stored, remember, with_key, delete, on_client,
}

module _ {S Token : Type 0} (client : ObjectClient S Token) where
  abbrev pub goes_on : ListPage Token → Bool
  goes_on page = page.is_truncated && is_some page.next_token

  -- The service serves these pages from a token on: all but the last are truncated and name the next.
  unfoldable pub Serves : S → Option Token → List (ListPage Token) → Type 0
  Serves s token [] = ⊥
  Serves s token (page ∷ []) =
      (client.list_objects token s ≡ (done page, s)) × (goes_on page ≡ false)
  Serves s token (page ∷ second ∷ pages) =
      (client.list_objects token s ≡ (done page, s))
      × (goes_on page ≡ true)
      × Serves s page.next_token (second ∷ pages)

  pages_served :
      (fuel : ℕ) (pages : List (ListPage Token)) (token : Option Token) (s : S)
      → Serves s token pages
      → length pages ≤ fuel
      → iter_list_pages client fuel token s ≡ (done pages, s)
  unfolding iter_list_pages Serves
  pages_served fuel [] token s h enough = absurd h
  pages_served zero (page ∷ pages) token s h enough = absurd (omega (arith, enough))
  pages_served (suc fuel) (page ∷ []) token s h enough = rw (h.0, h.1) refl
  pages_served (suc fuel) (page ∷ second ∷ pages) token s h enough =
      rw
        (h.0, h.1, pages_served fuel (second ∷ pages) page.next_token s h.2 (omega (arith, enough)))
        refl

  -- The entries of the pages, one after the other.
  unfoldable pub entries : List (ListPage Token) → List (String × Option Stamp)
  entries [] = []
  entries (page ∷ pages) = elim page.contents [
    | none ↦ entries pages
    | some items ↦ items ++ entries pages
  ]

  -- A time that cannot be read, or is missing, counts as 0.
  abbrev pub timed : String × Option Stamp → String × ℕ
  timed (key, none) = (key, 0)
  timed (key, some unreadable) = (key, 0)
  timed (key, some (at_datetime t)) = (key, t)
  timed (key, some (unix_time t)) = (key, t)

  timed_lem : (key : String) (stamp : Option Stamp) → (key, mtime stamp) ≡ timed (key, stamp)
  unfolding mtime
  timed_lem key none = refl
  timed_lem key (some unreadable) = refl
  timed_lem key (some (at_datetime t)) = refl
  timed_lem key (some (unix_time t)) = refl

  stamped-append :
      (items rest : List (String × Option Stamp))
      → stamped client items ++ map timed rest ≡ map timed (items ++ rest)
  stamped-append [] rest = refl
  stamped-append ((key, stamp) ∷ items) rest =
      rw (timed_lem key stamp, stamped-append items rest) refl

  page_entries :
      (o : Option (List (String × Option Stamp))) (rest : List (String × Option Stamp))
      → stamped client (get_or_else [] o) ++ map timed rest
        ≡ map timed (elim o as (λ x. List (String × Option Stamp)) [
          | none ↦ rest
          | some items ↦ items ++ rest
        ])
  page_entries none rest = refl
  page_entries (some items) rest = stamped-append items rest

  all_listed_lem :
      (pages : List (ListPage Token)) → all_listed client pages ≡ map timed (entries pages)
  unfolding entries
  all_listed_lem [] = refl
  all_listed_lem (page ∷ pages) =
      rw (all_listed_lem pages) (page_entries page.contents (entries pages))

  -- Where the service lists the bucket in a number of pages, as many rounds of the loop are enough:
  -- the listing holds the entries of all pages, in their order, each with its time; a time that is
  -- missing or cannot be read counts as 0.
  pub list_blobs_lem :
      (fuel : ℕ) (pages : List (ListPage Token)) (s : S)
      → Serves s none pages
      → length pages ≤ fuel
      → list_blobs client fuel s ≡ (done (map timed (entries pages)), s)
  unfolding list_blobs
  list_blobs_lem fuel pages s h enough =
      rw (pages_served fuel pages none s h enough, all_listed_lem pages) refl

  module _ (known_limit : ℕ) where
    abbrev pub Bounded : S3Storage S → Type 0
    Bounded st = length st.known ≤ max known_limit 1

    with_key-length :
        (key : String) (known : List String)
        → length (with_key client key known) ≤ suc (length known)
    with_key-length key known = elim (Bool-cases (contains key known)) [
      | inl there ↦ rw there (omega arith)
      | inr new ↦ rw new (ground (arith, length-append known (key ∷ [])))
    ]

    remember-Bounded :
        (key : String) (st : S3Storage S)
        → Bounded st
        → Bounded (remember client known_limit key st)
    unfolding remember
    remember-Bounded key st h = elim (Bool-cases (leb known_limit (length st.known))) [
      | inl full ↦ rw full (omega (arith, with_key-length key []))
      | inr room ↦ rw room (ground (arith, room, with_key-length key st.known))
    ]

    on_client-known :
        {A : Type 0} (call : Call S A) (st : S3Storage S)
        → (on_client client call st).1.known ≡ st.known
    on_client-known call st = refl

    write_Bounded :
        (key : String) (p : Reply (Unit {0}) × S3Storage S)
        → Bounded p.1
        → Bounded (next (λ u. λ st'. (done key, remember client known_limit key st')) p).1
    write_Bounded key (done u, st) h = remember-Bounded key st h
    write_Bounded key (raised e, st) h = h

    unless_stored-Bounded :
        (key : String) (write : Call S (Unit {0})) (p : Reply Bool × S3Storage S)
        → Bounded p.1
        → Bounded (next (unless_stored client known_limit key write) p).1
    unless_stored-Bounded key write (done true, st) h = h
    unless_stored-Bounded key write (done false, st) h =
        write_Bounded key (on_client client write st) h
    unless_stored-Bounded key write (raised e, st) h = h

    length-keep : {A : Type 0} (f : A → Bool) (xs : List A) → length (keep f xs) ≤ length xs
    unfolding keep
    length-keep f [] = ground arith
    length-keep f (x ∷ xs) = ground (arith, length-keep f xs)

    delete_known :
        (path : String) (p : Reply (Unit {0}) × S3Storage S)
        → Bounded p.1
        → Bounded
            (next {B = Unit {0}}
              (λ u. λ st. (done tt, record st { known = keep (λ key. not (key =? path)) st.known }))
              p).1
    delete_known path (done u, st) h =
        omega (arith, h, length-keep (λ key. not (key =? path)) st.known)
    delete_known path (raised e, st) h = h

    still_Bounded :
        (key : String) (st : S3Storage S) → Bounded st → Bounded (still_stored client key st).1
    unfolding still_stored
    still_Bounded key st h = elim (Bool-cases (contains key st.known)) [
      | inl there ↦ rw there h
      | inr new ↦ rw new h
    ]

    -- For every client and write, whatever they answer: a save and a delete keep the keys that the
    -- process remembers at most `known_limit`, or one where the limit is zero.
    pub store_once-delete-Bounded :
        (key path : String) (write : Call S (Unit {0})) (st : S3Storage S)
        → Bounded st
        → Bounded (store_once client known_limit key write st).1 × Bounded (delete client path st).1
    unfolding store_once still_stored delete
    store_once-delete-Bounded key path write st h = (
      unless_stored-Bounded key write (still_stored client key st) (still_Bounded key st h),
      delete_known path (on_client client (client.delete_object path) st) h,
    )
