-- ===== src/Blobs/Filenames.antt =====
-- app/blobs/filenames.py. A text is taken apart into its characters and put together again. `name`
-- is `Path(…).name`: the last component that is neither empty nor a single dot.
use pixeldive.Prelude.{
  string_eq, ℕ, String, Bool, false, not, ◌&&◌, ◌||◌, List, [], ◌∷◌, leb, ◌==◌, if◌then◌else◌, take,
  is_empty, keep, ◌=?◌,
}
use Prim.Native.Char.{Char, code}
use mathlib.Core.List.{reverse}

abbrev pub max_len : ℕ
max_len = 255

unfoldable pub chars : String → List Char
chars String.[] = []
chars (String.◌∷◌ c s) = c ∷ chars s

unfoldable pub of_chars : List Char → String
of_chars [] = ""
of_chars (c ∷ l) = String.◌∷◌ c (of_chars l)

-- The components between the slashes; `acc` is the one being read, its last character first.
unfoldable pub components : List Char → List Char → List (List Char)
components acc [] = acc ∷ []
components acc (c ∷ l) =
    let more = components (c ∷ acc) l in
    let next = acc ∷ components [] l in if code c == b'/' then next else more

unfoldable pub is_dot : List Char → Bool
is_dot [] = false
is_dot (c ∷ []) = code c == b'.'
is_dot (c ∷ d ∷ l) = false

-- The last component that counts, its last character first.
unfoldable pub last_component : List (List Char) → List Char
last_component [] = []
last_component (p ∷ ps) =
    let rest = last_component ps in if is_empty rest then (if is_dot p then [] else p) else rest

unfoldable pub name : List Char → List Char
unfolding last_component components is_dot
name l = reverse (last_component (components [] l))

unfoldable pub is_clean : Char → Bool
is_clean c =
    not (code c == b'"' || (code c == 0x5c || (code c == 0x0d || code c == 0x0a)))
    && leb 32 (code c)

abbrev pub is_edge : Char → Bool
is_edge c = code c == b' ' || code c == b'.'

unfoldable pub strip_left : List Char → List Char
strip_left [] = []
strip_left (c ∷ l) = if is_edge c then strip_left l else c ∷ l

-- `.strip(" .")`
unfoldable pub strip : List Char → List Char
unfolding strip_left
strip l = reverse (strip_left (reverse (strip_left l)))

abbrev pub or_default : String → String → String
or_default s d = if s =? "" then d else s

unfoldable pub sanitize_filename : String → String
unfolding name strip chars of_chars is_clean keep
sanitize_filename raw =
    or_default
      (of_chars (take max_len (strip (keep is_clean (name (chars (or_default raw "upload.bin")))))))
      "upload.bin"
