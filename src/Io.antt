-- ===== src/Io.antt =====
-- The byte streams of Go's io package, as internal/chunker and pkg/wire use them.
use cerclbackup.Prelude.{
  ℕ, ◌-◌, ◌<◌, ◌≡◌, Bool, Option, none, some, [], ◌∷◌, ◌++◌, arith, leb, if◌then◌else◌, Bytes,
  length, take, drop, length-append, length-take, take-append-drop, take-append_length,
  drop-append_length, Result, ok, err,
}

-- `eof` is io.EOF, `unexpected_eof` io.ErrUnexpectedEOF, `broken` any other error.
pub data IoError : Type 0 where
  eof unexpected_eof broken : IoError

-- A stream delivers `content`, and then io.EOF, or another error if it `fails`.
pub record Reader : Type 0 where
  pub content : Bytes
  pub fails : Bool

-- What io.ReadFull reports beside the bytes when it got fewer than it wanted.
unfoldable pub short_read : Reader → IoError
short_read r = if r.fails then broken else elim r.content [ [] ↦ eof | x ∷ xs ↦ unexpected_eof ]

-- io.ReadFull(r, buf) with len(buf) = n: the bytes read, the error, the stream behind them.
unfoldable pub read_full : ℕ → Reader → Bytes × Option IoError × Reader
unfolding short_read
read_full n r =
    if leb n (length r.content)
    then (take n r.content, none, record r { content = drop n r.content })
    else (r.content, some (short_read r), record r { content = [] })

-- A sink holds what was `written`, and refuses a write that passes its `room`, if it has a limit.
pub record Writer : Type 0 where
  pub written : Bytes
  pub room : Option ℕ

unfoldable pub write : Writer → Bytes → Result IoError Writer
write w bytes = elim w.room [
  | none ↦ ok (record w { written = w.written ++ bytes })
  | some k ↦
      if leb (length bytes) k
      then ok (record { written = w.written ++ bytes; room = some (k - length bytes) })
      else err broken
]

-- Reading what stands in front of a stream.
pub read_full-append :
    (front rest : Bytes) (fails : Bool)
    → read_full (length front) (record { content = front ++ rest; fails = fails })
      ≡ (front, none, record { content = rest; fails = fails })
unfolding read_full
read_full-append front rest fails =
    ground (
      arith,
      take-append_length front rest,
      drop-append_length front rest,
      length-append front rest,
    )

-- A sink with no limit takes every write.
pub write-unlimited :
    (w : Writer) (bytes : Bytes)
    → w.room ≡ none
    → write w bytes ≡ ok (record w { written = w.written ++ bytes })
unfolding write
write-unlimited w bytes h = ground arith

-- A full read takes what it wants off the front of the stream.
pub read_full_sound :
    (n : ℕ) (r r' : Reader) (got : Bytes)
    → read_full n r ≡ (got, none, r')
    → (r.content ≡ got ++ r'.content) × (length got ≡ n) × (r'.fails ≡ r.fails)
unfolding read_full
read_full_sound n r r' got h = ground (arith, take-append-drop n r.content, length-take n r.content)

-- A stream that is too short gives an error.
pub read_full_short :
    (n : ℕ) (r : Reader)
    → length r.content < n
    → read_full n r ≡ (r.content, some (short_read r), record r { content = [] })
unfolding read_full
read_full_short n r h = ground arith

-- A write that succeeds appends its bytes.
pub write_sound :
    (w w' : Writer) (bytes : Bytes) → write w bytes ≡ ok w' → w'.written ≡ w.written ++ bytes
unfolding write
write_sound w w' bytes h = ground arith
