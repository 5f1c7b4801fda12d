-- ===== src/Pagination.antt =====
-- app/sessions/cursors.py and pagination.py, and the queries of session_list.py. A row is ordered by
-- its key, a timestamp and an id. base64, isoformat and the UUID's text are a parameter: a cursor is
-- the text of a key. `rows` are those of the query, in the order that ORDER BY gives.
pub mod Tests
pub mod Laws
use pixeldive.Prelude.{
  string_eq, nat_eq, ℕ, zero, suc, ◌+◌, min, String, ◌≡◌, Bool, true, false, ◌&&◌, ◌||◌, Option,
  none, some, List, [], ◌∷◌, ◌++◌, ltb, leb, ◌==◌, if◌then◌else◌, length, take, keep, ◌=?◌,
}
use pixeldive.Errors.{Result, ok, err, Error, ◌>>=◌, ◌>>◌}

abbrev pub Key : Type 0
Key = ℕ × ℕ

-- `decode` has no answer where the text is no cursor.
pub record CursorCodec : Type 0 where
  pub encode_cursor : Key → String
  pub decode : String → Option Key
  pub decode-encode_cursor : (k : Key) → decode (encode_cursor k) ≡ some k
  pub encode_cursor_ne : (k : Key) → (encode_cursor k =? "") ≡ false

-- The WHERE clause that continues after a key.
unfoldable pub is_after : Bool → Key → Key → Bool
is_after true (stamp, id) (row_stamp, row_id) =
    ltb row_stamp stamp || (row_stamp == stamp && ltb row_id id)
is_after false (stamp, id) (row_stamp, row_id) =
    ltb stamp row_stamp || (row_stamp == stamp && ltb id row_id)

abbrev pub key_or_error : Option Key → Result (Option Key)
key_or_error none = err Error.invalid_id
key_or_error (some k) = ok (some k)

module _ (codec : CursorCodec) where
  -- The key that a cursor continues after, if there is a cursor.
  unfoldable pub cursor_key : Option String → Result (Option Key)
  cursor_key none = ok none
  cursor_key (some cursor) = if cursor =? "" then ok none else key_or_error (codec.decode cursor)

-- A negative limit counts as 0 here.
unfoldable pub clamp_limit : Option ℕ → ℕ → ℕ → ℕ
clamp_limit none default maximum = default
clamp_limit (some limit) default maximum = if limit == 0 then default else min limit maximum

pub record Page (A : Type 0) : Type 0 where
  pub items : List A
  pub next_cursor : Option String

abbrev pub last {ℓ} : {A : Type ℓ} → List A → Option A
last [] = none
last (x ∷ []) = some x
last (x ∷ y ∷ xs) = last (y ∷ xs)

module _ {A : Type 0} (key_of : A → Key) where
  -- `cursor_predicate`, applied to the rows.
  unfoldable pub continuing : Bool → Option Key → List A → List A
  unfolding is_after keep
  continuing descending none rows = rows
  continuing descending (some k) rows = keep (λ row. is_after descending k (key_of row)) rows

  module _ (codec : CursorCodec) where
    -- `kept[-1]` of no rows raises IndexError.
    abbrev pub cut : List A → Option A → Result (Page A)
    cut kept none = err Error.runtime_error
    cut kept (some row) =
        ok (record { items = kept; next_cursor = some (codec.encode_cursor (key_of row)) })

    unfoldable pub next_cursor : List A → ℕ → Result (Page A)
    next_cursor rows limit =
        if leb (length rows) limit
        then ok (record { items = rows; next_cursor = none })
        else cut (take limit rows) (last (take limit rows))

    -- One page: the query with its WHERE and LIMIT, and what is made of its rows.
    unfoldable pub list_page : Bool → List A → ℕ → Option String → Result (Page A)
    unfolding cursor_key continuing next_cursor
    list_page descending rows page_size cursor = do
      k ← cursor_key codec cursor
      next_cursor (take (page_size + 1) (continuing descending k rows)) page_size

    -- The pages that follow, for a client that asks for one after the other; `fuel` bounds the number
    -- of requests.
    unfoldable pub following : ℕ → Bool → List A → ℕ → Option String → Result (List A)
    unfolding list_page
    following fuel descending rows page_size none = ok []
    following zero descending rows page_size (some cursor) = err Error.runtime_error
    following (suc fuel) descending rows page_size (some cursor) = do
      page ← list_page descending rows page_size (some cursor)
      rest ← following fuel descending rows page_size page.next_cursor
      ok (page.items ++ rest)

    unfoldable pub list_all : ℕ → Bool → List A → ℕ → Result (List A)
    unfolding list_page following
    list_all fuel descending rows page_size = do
      page ← list_page descending rows page_size none
      rest ← following fuel descending rows page_size page.next_cursor
      ok (page.items ++ rest)
