-- ===== src/Wire/Examples.antt =====
-- Frames of short messages. A message is its own JSON form.
use cerclbackup.Prelude.{
  ◌+◌, ◌*◌, ◌≡◌, refl, false, Option, none, some, [], ◌∷◌, ◌++◌, arith, Bytes, text, length, ok,
  err,
}
use cerclbackup.Io.{read_full, Writer}
use cerclbackup.Wire.{too_large, put_uint32, uint32, read_sized, read_raw_msg, write_msg, read_msg}
use cerclbackup.Wire.Framing.{frame, IsPayload, read_msg-write_msg}
use cerclbackup.Wire.Bounds.{read_raw_msg_sound}

abbrev marshal : Bytes → Option Bytes
marshal b = some b

abbrev unmarshal : Bytes → Option Bytes
unmarshal b = some b

abbrev sink : Writer
sink = record { written = []; room = none }

abbrev hello : Bytes
hello = text "hello"

header_of_five : frame hello ≡ 0 ∷ 0 ∷ 0 ∷ 5 ∷ hello
unfolding frame put_uint32
header_of_five = refl

-- A header that claims 64 MB and one byte is refused before any buffer is made.
oversize_refused :
    read_raw_msg (record { content = 4 ∷ 0 ∷ 0 ∷ 1 ∷ 9 ∷ []; fails = false })
    ≡ (err (too_large (64 * 1024 * 1024 + 1)), record { content = 9 ∷ []; fails = false })
unfolding read_raw_msg read_full read_sized uint32
oversize_refused = refl

read_msg-write_msg_example :
    (sent : Bytes) × (write_msg marshal unmarshal sink hello
      ≡ ok (record sink { written = [] ++ sent }))
    × (read_msg marshal unmarshal (record { content = sent ++ (7 ∷ []); fails = false })
        ≡ (ok hello, record { content = 7 ∷ []; fails = false }))
read_msg-write_msg_example =
    read_msg-write_msg marshal unmarshal hello sink (7 ∷ []) false
      (hello, refl, refl, (omega arith, omega arith)) refl

read_raw_msg_sound_example :
    IsPayload (8 ∷ 9 ∷ [])
    × ((header : Bytes) × (length header ≡ 4)
        × (uint32 header ≡ 2)
        × (0 ∷ 0 ∷ 0 ∷ 2 ∷ 8 ∷ 9 ∷ [] ≡ header ++ ((8 ∷ 9 ∷ []) ++ [])))
unfolding read_raw_msg read_full read_sized uint32
read_raw_msg_sound_example =
    read_raw_msg_sound (record { content = 0 ∷ 0 ∷ 0 ∷ 2 ∷ 8 ∷ 9 ∷ []; fails = false })
      (record { content = []; fails = false }) (8 ∷ 9 ∷ []) refl
