-- ===== src/Blobs/Spool.antt =====
-- app/blobs/spool_writer.py, spool_file.py, spool.py and empty_chunks.py: an upload is written to a
-- `.part` file and hashed as it arrives. `hashlib.sha256` is a parameter: the digest of all bytes
-- that were passed to `update`. The disk maps a path to the bytes of the file there.
pub mod Laws
pub mod Outcome
use pixeldive.Prelude.{
  nat_eq, ℕ, ◌+◌, ◌-◌, String, Bool, true, false, List, [], ◌∷◌, ◌++◌, ltb, ◌==◌, if◌then◌else◌,
  length, take, get_or_else,
}
use pixeldive.Exec.{modify, Exec, pure, raise, gets, ◌>>=◌, ◌>>◌, on_error}
use pixeldive.Prelude.Dict.{Dict, get, put, remove}
use pixeldive.Errors.{Result, ok, Error}

abbrev pub Bytes : Type 0
Bytes = List ℕ

abbrev pub Disk : Type 0
Disk = Dict ℕ Bytes

abbrev pub header_size : ℕ
header_size = 16

abbrev pub max_empty_chunks : ℕ
max_empty_chunks = 64

unfoldable pub empty_run_exceeded : ℕ → Bool
empty_run_exceeded run = ltb max_empty_chunks run

-- A `SpoolWriter`; `hashed` is what the hasher was fed with.
pub record Writer : Type 0 where
  pub path : ℕ
  pub max_bytes : ℕ
  pub size : ℕ
  pub hashed : Bytes
  pub header : Bytes
  pub is_open : Bool
  pub empty_run : ℕ

pub record Spool : Type 0 where
  pub path : ℕ
  pub digest_hex : String
  pub size_bytes : ℕ
  pub header : Bytes

-- A writer and the disk that it writes to.
pub record Spooling : Type 0 where
  pub writer : Writer
  pub disk : Disk

unfoldable pub new_writer : ℕ → ℕ → Writer
new_writer path max_bytes = record {
  path = path;
  max_bytes = max_bytes;
  size = 0;
  hashed = [];
  header = [];
  is_open = false;
  empty_run = 0;
}

-- `open(path, "wb")` empties the file.
unfoldable pub start : Exec Spooling (Unit {0})
start = modify (λ s. record {
  writer = record s.writer { is_open = true };
  disk = put s.disk s.writer.path [];
})

unfoldable pub close : Exec Spooling (Unit {0})
close = modify (λ s. record s { writer = record s.writer { is_open = false } })

unfoldable pub abort : Exec Spooling (Unit {0})
unfolding close
abort = do close; modify (λ s. record s { disk = remove s.disk s.writer.path })

-- `if self._handle is None: await self.start()`
unfoldable pub reopen : Exec Spooling (Unit {0})
unfolding start
reopen s = elim s.writer.is_open [ true ↦ (ok tt, s) | false ↦ start s ]

unfoldable pub write : Bytes → Exec Spooling (Unit {0})
write chunk = modify (λ s. record s {
  disk = put s.disk s.writer.path (get_or_else [] (get s.disk s.writer.path) ++ chunk);
})

abbrev pub extend_header : Bytes → Bytes → Bytes
extend_header header chunk =
    if ltb (length header) header_size
    then header ++ take (header_size - length header) chunk
    else header

-- `feed` of an empty chunk.
unfoldable pub feed_empty : Exec Spooling (Unit {0})
unfolding abort empty_run_exceeded
feed_empty = do
  modify (λ s. record s { writer = record s.writer { empty_run = s.writer.empty_run + 1 } })
  run ← gets (λ s. s.writer.empty_run)
  if empty_run_exceeded run then (do abort; raise Error.empty_image) else pure tt

-- `feed` of a chunk with bytes.
unfoldable pub feed_bytes : Bytes → Exec Spooling (Unit {0})
unfolding abort reopen write
feed_bytes chunk = do
  modify (λ s. record s {
    writer = record s.writer { empty_run = 0; size = s.writer.size + length chunk };
  })
  w ← gets (λ s. s.writer)
  if ltb w.max_bytes w.size then (do abort; raise Error.image_too_large) else do
    modify (λ s. record s {
      writer = record s.writer {
        hashed = s.writer.hashed ++ chunk;
        header = extend_header s.writer.header chunk;
      };
    })
    reopen
    write chunk

unfoldable pub feed : Bytes → Exec Spooling (Unit {0})
unfolding feed_empty feed_bytes
feed [] = feed_empty
feed (b ∷ chunk) = feed_bytes (b ∷ chunk)

-- `async for chunk in chunks: await writer.feed(chunk)`
unfoldable pub feed_all : List Bytes → Exec Spooling (Unit {0})
feed_all [] s = (ok tt, s)
feed_all (c ∷ chunks) s = (feed c >>= λ _. feed_all chunks) s

module _ (sha256 : Bytes → String) where
  unfoldable pub spool_of : Writer → Spool
  spool_of w = record {
    path = w.path;
    digest_hex = sha256 w.hashed;
    size_bytes = w.size;
    header = w.header;
  }

  unfoldable pub finish : Exec Spooling Spool
  unfolding close abort spool_of
  finish = do
    close
    w ← gets (λ s. s.writer)
    if w.size == 0 then (do abort; raise Error.empty_image) else pure (spool_of w)

  unfoldable pub spool_chunks : List Bytes → ℕ → ℕ → Disk → Result Spool × Spooling
  unfolding start feed_all finish abort new_writer
  spool_chunks chunks path max_bytes disk =
      (start >>= λ _. on_error (feed_all chunks >>= λ _. finish) (λ _. abort))
        (record { writer = new_writer path max_bytes; disk = disk })
