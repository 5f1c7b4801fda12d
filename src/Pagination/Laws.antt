-- ===== src/Pagination/Laws.antt =====
-- Page after page gives every row once, in order.
use pixeldive.Prelude.{
  ℕ, zero, suc, ◌+◌, ◌≤◌, ◌<◌, ◌≡◌, refl, sym, ap, ◌∙◌, inl, inr, Bool, true, false, none, some,
  List, [], ◌∷◌, ◌++◌, arith, leb, Bool-cases, length, drop, take, keep, take-append-drop,
  length-take, length-drop, take_of_length-le,
}
use mathlib.Core.List.{append_assoc, append-nil}
use mathlib.Core.Path.{subst}
use pixeldive.Prelude.All.{All}
use pixeldive.Errors.{Result, ok, ◌>>=◌}
use pixeldive.Pagination.{
  Key, CursorCodec, is_after, cursor_key, Page, last, continuing, next_cursor, list_page, following,
  list_all,
}

module _ {A : Type 0} (key_of : A → Key) (descending : Bool) where
  -- Strictly in the order of the query: every row comes after those before it.
  abbrev pub IsOrdered : List A → Type 0
  IsOrdered [] = Unit
  IsOrdered (x ∷ xs) = All (λ y. is_after descending (key_of x) (key_of y) ≡ true) xs × IsOrdered xs

  not_after_self : (d : Bool) (k : Key) → is_after d k k ≡ false
  unfolding is_after
  not_after_self true (s, i) = ground arith
  not_after_self false (s, i) = ground arith

  not_after_back : (d : Bool) (k j : Key) → is_after d k j ≡ true → is_after d j k ≡ false
  unfolding is_after
  not_after_back true (s, i) (t, j) h = ground arith
  not_after_back false (s, i) (t, j) h = ground arith

  middle : (P : A → Type 0) (xs : List A) (l : A) (ys : List A) → All P (xs ++ l ∷ ys) → P l
  middle P [] l ys h = h.0
  middle P (x ∷ xs) l ys h = middle P xs l ys h.1

  keep-All : (p : A → Bool) (ys : List A) → All (λ y. p y ≡ true) ys → keep p ys ≡ ys
  unfolding keep
  keep-All p [] h = refl
  keep-All p (y ∷ ys) h = rw (keep, h.0) (ap (◌∷◌ y) (keep-All p ys h.1))

  -- A cursor on a row continues right behind it.
  continuing_after :
      (xs : List A) (l : A) (ys : List A)
      → IsOrdered (xs ++ l ∷ ys)
      → continuing key_of descending (some (key_of l)) (xs ++ l ∷ ys) ≡ ys
  unfolding continuing
  continuing_after [] l ys h = rw (keep, not_after_self descending (key_of l)) (keep-All _ ys h.0)
  continuing_after (x ∷ xs) l ys h =
      rw
        (
          keep,
          not_after_back descending (key_of x) (key_of l)
              (middle (λ y. is_after descending (key_of x) (key_of y) ≡ true) xs l ys h.0),
        )
        (continuing_after xs l ys h.1)

  last_cons :
      (x : A) (n : ℕ) (rows : List A)
      → 0 < length rows
      → last (x ∷ take (suc n) rows) ≡ last (take (suc n) rows)
  last_cons x n [] h = absurd (omega arith)
  last_cons x n (y ∷ rows) h = refl

  -- The last of the first rows.
  cut_take :
      (n : ℕ) (rows : List A)
      → n < length rows
      → (init : List A) × (l : A) × ((take (suc n) rows ≡ init ++ l ∷ [])
          × (last (take (suc n) rows) ≡ some l))
  cut_take n [] h = absurd (omega arith)
  cut_take zero (x ∷ rows) h = ([], x, (refl, refl))
  cut_take (suc n) (x ∷ rows) h =
      let (init, l, e) = cut_take n rows (omega arith) in
      (x ∷ init, l, (ap (◌∷◌ x) e.0, last_cons x n rows (omega arith) ∙ e.1))

  take-take : (n k : ℕ) (rows : List A) → n ≤ k → take n (take k rows) ≡ take n rows
  take-take zero k rows h = refl
  take-take (suc n) zero rows h = absurd (omega arith)
  take-take (suc n) (suc k) [] h = refl
  take-take (suc n) (suc k) (x ∷ rows) h = ap (◌∷◌ x) (take-take n k rows (omega arith))

  module _ (codec : CursorCodec) (rows : List A) (ordered : IsOrdered rows) (m : ℕ) where
    open codec use {encode_cursor}

    abbrev next : List A → Result (Page A)
    next ys = next_cursor key_of codec (take (suc m + 1) ys) (suc m)

    next_short :
        (ys : List A) → length ys ≤ suc m → next ys ≡ ok (record { items = ys; next_cursor = none })
    unfolding next_cursor
    next_short ys h = rw (take_of_length-le (suc m + 1) ys (omega arith)) (ground (arith, h))

    next_long :
        (ys : List A) (l : A)
        → suc m < length ys
        → last (take (suc m) ys) ≡ some l
        → next ys
          ≡ ok (record { items = take (suc m) ys; next_cursor = some (encode_cursor (key_of l)) })
    unfolding next_cursor
    next_long ys l h e =
        let size = length-take (suc m + 1) ys in
        let long : leb (length (take (suc m + 1) ys)) (suc m) ≡ false = ground (arith, size, h) in
        let same : take (suc m) (take (suc m + 1) ys) ≡ take (suc m) ys =
          take-take (suc m) (suc m + 1) ys (omega arith) in
        rw (long, same, e) refl

    -- What a client gets from the page on.
    abbrev onward : ℕ → Result (Page A) → Result (List A)
    onward fuel page = do
      p ← page
      rest ← following key_of codec fuel descending rows (suc m) p.next_cursor
      ok (p.items ++ rest)

    following-none : (fuel : ℕ) → following key_of codec fuel descending rows (suc m) none ≡ ok []
    unfolding following
    following-none zero = refl
    following-none (suc fuel) = refl

    lt_of_leb : (ys : List A) → leb (length ys) (suc m) ≡ false → suc m < length ys
    lt_of_leb ys h = ground (arith, h)

    from_page :
        (fuel : ℕ) (pre ys : List A)
        → rows ≡ pre ++ ys
        → ((init : List A) (l : A) (zs : List A)
            → rows ≡ init ++ l ∷ zs
            → length zs < length ys
            → following key_of codec fuel descending rows (suc m) (some (encode_cursor (key_of l)))
              ≡ ok zs)
        → onward fuel (next ys) ≡ ok ys
    from_page fuel pre ys e next_pages = elim (Bool-cases (leb (length ys) (suc m))) [
      | inl short ↦
          let none_left = following-none fuel in
          rw (next_short ys (ground (arith, short)), none_left) (ap ok (append-nil ys))
      | inr long ↦
          let (init, l, cutted) = cut_take m ys (ground (arith, long)) in
          let left = drop (suc m) ys in
          let split =
            sym (take-append-drop (suc m) ys)
            ∙ ap (λ z. z ++ left) cutted.0
            ∙ append_assoc init (l ∷ []) left in
          let where_it_stands =
            e ∙ ap (λ z. pre ++ z) split ∙ sym (append_assoc pre init (l ∷ left)) in
          let shorter : length left < length ys =
            omega (arith, length-drop (suc m) ys, lt_of_leb ys long) in
          rw
            (
              next_long ys l (lt_of_leb ys long) cutted.1,
              next_pages (pre ++ init) l left where_it_stands shorter,
            )
            (ap ok (take-append-drop (suc m) ys))
    ]

    list_page_at :
        (init : List A) (l : A) (zs : List A)
        → rows ≡ init ++ l ∷ zs
        → list_page key_of codec descending rows (suc m) (some (encode_cursor (key_of l))) ≡ next zs
    unfolding list_page cursor_key
    list_page_at init l zs e =
        let k = key_of l in
        let tail =
          ap (continuing key_of descending (some k)) e
          ∙ continuing_after init l zs (subst IsOrdered e ordered) in
        rw (codec.encode_cursor_ne k, codec.decode-encode_cursor k, tail) refl

    following_lem :
        (fuel : ℕ) (init : List A) (l : A) (zs : List A)
        → rows ≡ init ++ l ∷ zs
        → length zs < fuel
        → following key_of codec fuel descending rows (suc m) (some (encode_cursor (key_of l)))
          ≡ ok zs
    unfolding following
    following_lem zero init l zs e h = absurd (omega arith)
    following_lem (suc fuel) init l zs e h =
        ap (onward fuel) (list_page_at init l zs e)
        ∙ from_page fuel (init ++ l ∷ []) zs (e ∙ sym (append_assoc init (l ∷ []) zs))
            (λ init' l' zs' e' shorter.
              following_lem fuel init' l' zs' e' (omega (arith, shorter, h)))

    -- For rows in the order of the query with distinct keys, and a positive page size: a client that
    -- follows the cursors, with as many further requests as there are rows, gets every row once, in
    -- order.
    pub list_all_lem : list_all key_of codec (length rows) descending rows (suc m) ≡ ok rows
    unfolding list_all list_page cursor_key continuing
    list_all_lem =
        from_page (length rows) [] rows refl
          (λ init l zs e shorter. following_lem (length rows) init l zs e shorter)
