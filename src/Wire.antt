-- ===== src/Wire.antt =====
-- pkg/wire/framing.go: messages on a stream, each behind its length in four bytes.
pub mod Framing
pub mod Bounds
pub mod Examples
use cerclbackup.Prelude.{
  ℕ, ◌+◌, ◌*◌, ◌/◌, ◌%◌, ◌^◌, Option, none, some, [], ◌∷◌, ltb, if◌then◌else◌, ◌==◌, nat_eq,
  list_eq, Bytes, length, Result, ok, err,
}
use cerclbackup.Io.{IoError, Reader, read_full, Writer, write}

-- 64 MB
abbrev pub max_msg_size : ℕ
max_msg_size = 64 * 1024 * 1024

pub data WireError : Type 0 where
  marshal_failed header_unwritten payload_unwritten : WireError
  header_unread payload_unread empty_message unmarshal_failed : WireError
  too_large : ℕ → WireError

-- binary.BigEndian.PutUint32 of uint32(n), and Uint32.
unfoldable pub put_uint32 : ℕ → Bytes
put_uint32 n =
    let v : ℕ = n % 2 ^ 32 in v / 2 ^ 24 ∷ v / 2 ^ 16 % 256 ∷ v / 2 ^ 8 % 256 ∷ v % 256 ∷ []

unfoldable pub uint32 : Bytes → ℕ
uint32 (a ∷ b ∷ c ∷ d ∷ rest) = a * 2 ^ 24 + b * 2 ^ 16 + c * 2 ^ 8 + d
uint32 _ = 0

-- The two writes of WriteMsg, the header first.
unfoldable pub write_frame : Writer → Bytes → Result WireError Writer
write_frame w payload = elim (write w (put_uint32 (length payload))) [
  | err e ↦ err header_unwritten
  | ok w' ↦ elim (write w' payload) [ err e ↦ err payload_unwritten | ok w'' ↦ ok w'' ]
]

-- What the read of the payload gave.
unfoldable pub payload_read : Bytes × Option IoError × Reader → Result WireError Bytes × Reader
payload_read (buf, none, r) = (ok buf, r)
payload_read (buf, some e, r) = (err payload_unread, r)

-- The size checks and the second read.
unfoldable pub read_sized : ℕ → Reader → Result WireError Bytes × Reader
unfolding payload_read
read_sized size r =
    if size == 0
    then (err empty_message, r)
    else if ltb max_msg_size size
    then (err (too_large size), r)
    else payload_read (read_full size r)

-- Behind the read of the header.
unfoldable pub header_read : Bytes × Option IoError × Reader → Result WireError Bytes × Reader
header_read (header, none, r) = read_sized (uint32 header) r
header_read (header, some e, r) = (err header_unread, r)

-- ReadRawMsg: the message or the error, and the stream behind what was read.
unfoldable pub read_raw_msg : Reader → Result WireError Bytes × Reader
unfolding header_read
read_raw_msg r = header_read (read_full 4 r)

-- `marshal` and `unmarshal` are encoding/json at the type of the message; `none` is an error.
module _ {V : Type 0} (marshal : V → Option Bytes) (unmarshal : Bytes → Option V) where
  -- WriteMsg(w, v)
  unfoldable pub write_msg : Writer → V → Result WireError Writer
  write_msg w v = elim (marshal v) [
    | none ↦ err marshal_failed
    | some payload ↦
        if ltb max_msg_size (length payload)
        then err (too_large (length payload))
        else write_frame w payload
  ]

  unfoldable pub parse : Result WireError Bytes → Result WireError V
  parse (err e) = err e
  parse (ok buf) = elim (unmarshal buf) [ none ↦ err unmarshal_failed | some v ↦ ok v ]

  -- ReadMsg(r, v): the framing of ReadRawMsg, and then json.Unmarshal.
  unfoldable pub read_msg : Reader → Result WireError V × Reader
  read_msg r = let (raw, r') = read_raw_msg r in (parse raw, r')
