-- ===== src/Blobs/S3/Storage.antt =====
-- app/blobs/s3_storage.py and s3_pages.py: the operations of the S3 store.
use pixeldive.Prelude.{
  string_eq, nat_eq, ℕ, zero, suc, String, Bool, true, false, not, ◌&&◌, Option, none, some, List,
  [], ◌∷◌, ◌++◌, leb, if◌then◌else◌, length, get_or_else, keep, ◌=?◌, contains,
}
use pixeldive.Blobs.Spool.{Bytes, write}
use pixeldive.Blobs.Store.{object_key, is_some}
use pixeldive.Blobs.S3.{
  Reply, done, raised, file_not_found, Call, give, ◌>>=◌, Stamp, ListPage, ObjectClient, is_missing,
  mtime, age_from_head, iter_body,
}
use pixeldive.Blobs.S3.Multipart.{put_file_multipart}

-- S3CompatibleStorage; `known` is a set.
pub record S3Storage (S : Type 0) : Type 0 where
  pub client : S
  pub known : List String

module _ {S Token : Type 0} (client : ObjectClient S Token) where
  -- `_head`: no answer for a missing key.
  abbrev pub head_answer : Reply (Option Stamp) × S → Reply (Option (Option Stamp)) × S
  head_answer (done stamp, s) = (done (some stamp), s)
  head_answer (raised e, s) = if is_missing e then (done none, s) else (raised e, s)

  unfoldable pub head : String → Call S (Option (Option Stamp))
  unfolding is_missing
  head path s = head_answer (client.head_object path s)

  abbrev pub present : Option (Option Stamp) → Bool
  present none = false
  present (some stamp) = true

  unfoldable pub exists : String → Call S Bool
  unfolding head
  exists path = head path >>= λ found. give (present found)

  abbrev pub aged : ℕ → Option (Option Stamp) → ℕ
  aged now none = 0
  aged now (some stamp) = age_from_head now stamp

  unfoldable pub age_seconds : ℕ → String → Call S ℕ
  unfolding head age_from_head
  age_seconds now path = head path >>= λ found. give (aged now found)

  abbrev pub got : String → ℕ → Reply Bytes × S → Reply (List Bytes) × S
  got path chunk_size (done body, s) = (done (iter_body (suc (length body)) body chunk_size), s)
  got path chunk_size (raised e, s) = (raised (if is_missing e then file_not_found path else e), s)

  unfoldable pub stream : String → ℕ → Call S (List Bytes)
  unfolding iter_body is_missing
  stream path chunk_size s = got path chunk_size (client.get_object path s)

  abbrev pub stamped : List (String × Option Stamp) → List (String × ℕ)
  stamped [] = []
  stamped ((key, stamp) ∷ items) = (key, mtime stamp) ∷ stamped items

  abbrev pub listed : ListPage Token → List (String × ℕ)
  listed page = stamped (get_or_else [] page.contents)

  -- `iter_list_pages`, from a token on.
  unfoldable pub iter_list_pages : ℕ → Option Token → Call S (List (ListPage Token))
  iter_list_pages zero token = give []
  iter_list_pages (suc fuel) token = do
    page ← client.list_objects token
    let more = iter_list_pages fuel page.next_token in
        let rest = if page.is_truncated && is_some page.next_token then more else give [] in
        rest >>= λ pages. give (page ∷ pages)

  -- The loop of `list_blobs`.
  abbrev pub all_listed : List (ListPage Token) → List (String × ℕ)
  all_listed [] = []
  all_listed (page ∷ pages) = listed page ++ all_listed pages

  unfoldable pub list_blobs : ℕ → Call S (List (String × ℕ))
  unfolding iter_list_pages mtime
  list_blobs fuel = iter_list_pages fuel none >>= λ pages. give (all_listed pages)

  -- A call on the client's state within the storage.
  abbrev pub kept_known : {A : Type 0} → List String → Reply A × S → Reply A × S3Storage S
  kept_known known (r, s) = (r, record { client = s; known = known })

  abbrev pub on_client : {A : Type 0} → Call S A → Call (S3Storage S) A
  on_client call st = kept_known st.known (call st.client)

  unfoldable pub still_stored : String → Call (S3Storage S) Bool
  unfolding exists contains
  still_stored key st =
      if contains key st.known then on_client (exists key) st else (done false, st)

  -- `set.add`
  abbrev pub with_key : String → List String → List String
  with_key key known = if contains key known then known else known ++ key ∷ []

  unfoldable pub remember : ℕ → String → S3Storage S → S3Storage S
  unfolding contains
  remember known_limit key st = record st {
    known = with_key key (if leb known_limit (length st.known) then [] else st.known);
  }

  abbrev pub unless_stored : ℕ → String → Call S (Unit {0}) → Bool → Call (S3Storage S) String
  unless_stored known_limit key write true = give key
  unless_stored known_limit key write false =
      on_client write >>= λ u. λ st. (done key, remember known_limit key st)

  unfoldable pub store_once : ℕ → String → Call S (Unit {0}) → Call (S3Storage S) String
  unfolding still_stored remember
  store_once known_limit key write = still_stored key >>= unless_stored known_limit key write

  unfoldable pub save : (Bytes → String) → ℕ → Bytes → String → Call (S3Storage S) String
  unfolding store_once object_key
  save sha256 known_limit payload content_type =
      let key = object_key (sha256 payload) content_type in
      store_once known_limit key (client.put_object key payload content_type)

  unfoldable pub save_file : ℕ → ℕ → Bytes → String → String → Call (S3Storage S) String
  unfolding store_once object_key put_file_multipart
  save_file known_limit part_size source digest_hex content_type =
      let key = object_key digest_hex content_type in
      store_once known_limit key (put_file_multipart client key source content_type part_size)

  -- `set.discard`
  unfoldable pub delete : String → Call (S3Storage S) (Unit {0})
  unfolding keep
  delete path = on_client (client.delete_object path) >>= λ u.
      λ st. (done tt, record st { known = keep (λ key. not (key =? path)) st.known })
