-- ===== src/Wire/Framing.antt =====
-- A written message is read back, and so is a stream of them; a cut one is not.
use cerclbackup.Prelude.{
  ℕ, zero, suc, ◌^◌, ◌≤◌, ◌<◌, ◌≡◌, refl, ap, Bool, Option, none, some, List, [], ◌∷◌, ◌++◌,
  append-nil, append_assoc, arith, Bytes, length, All, Result, ok, err, ◌>>=◌,
}
use cerclbackup.Io.{Reader, read_full, Writer, read_full-append, write-unlimited}
use cerclbackup.Wire.{
  max_msg_size, WireError, put_uint32, uint32, write_frame, read_sized, read_raw_msg, write_msg,
  parse, read_msg,
}

pub uint32-put_uint32 : (n : ℕ) → n < 2 ^ 32 → uint32 (put_uint32 n) ≡ n
unfolding uint32 put_uint32
uint32-put_uint32 n h = omega arith

length-put_uint32 : (n : ℕ) → length (put_uint32 n) ≡ 4
unfolding put_uint32
length-put_uint32 n = refl

-- The bytes of one message on the stream.
unfoldable pub frame : Bytes → Bytes
frame payload = put_uint32 (length payload) ++ payload

abbrev pub IsPayload : Bytes → Type 0
IsPayload payload = (0 < length payload) × (length payload ≤ max_msg_size)

pub write_frame-frame :
    (w : Writer) (payload : Bytes)
    → w.room ≡ none
    → write_frame w payload ≡ ok (record w { written = w.written ++ frame payload })
unfolding write_frame frame
write_frame-frame w payload h =
    let header : Bytes = put_uint32 (length payload) in
    ground (
      arith,
      write-unlimited w header h,
      write-unlimited (record w { written = w.written ++ header }) payload h,
      append_assoc w.written header payload,
    )

read_sized_lem :
    (payload rest : Bytes) (fails : Bool)
    → IsPayload payload
    → read_sized (length payload) (record { content = payload ++ rest; fails = fails })
      ≡ (ok payload, record { content = rest; fails = fails })
unfolding read_sized
read_sized_lem payload rest fails (lo, hi) = rw (read_full-append payload rest fails) (ground arith)

pub read_raw_msg-frame :
    (payload rest : Bytes) (fails : Bool)
    → IsPayload payload
    → read_raw_msg (record { content = frame payload ++ rest; fails = fails })
      ≡ (ok payload, record { content = rest; fails = fails })
unfolding frame read_raw_msg
read_raw_msg-frame payload rest fails (lo, hi) =
    let header : Bytes = put_uint32 (length payload) in
    let first : read_full 4 (record { content = header ++ (payload ++ rest); fails = fails })
        ≡ (header, none, record { content = payload ++ rest; fails = fails }) =
      unfold put_uint32 in read_full-append header (payload ++ rest) fails in
    rw (append_assoc header payload rest, first, uint32-put_uint32 (length payload) (omega arith))
      (read_sized_lem payload rest fails (lo, hi))

module _ {V : Type 0} (marshal : V → Option Bytes) (unmarshal : Bytes → Option V) where
  -- The documented behaviour of encoding/json at one value: its bytes are between one and 64 MB,
  -- and they parse to it.
  abbrev pub IsPortable : V → Type 0
  IsPortable v =
      (payload : Bytes) × (marshal v ≡ some payload)
      × (unmarshal payload ≡ some v)
      × IsPayload payload

  write_msg_lem :
      (v : V) (payload : Bytes) (w : Writer)
      → marshal v ≡ some payload
      → length payload ≤ max_msg_size
      → w.room ≡ none
      → write_msg marshal unmarshal w v ≡ ok (record w { written = w.written ++ frame payload })
  unfolding write_msg
  write_msg_lem v payload w m hi h = ground (arith, write_frame-frame w payload h)

  read_msg_lem :
      (v : V) (payload rest : Bytes) (fails : Bool)
      → unmarshal payload ≡ some v
      → IsPayload payload
      → read_msg marshal unmarshal (record { content = frame payload ++ rest; fails = fails })
        ≡ (ok v, record { content = rest; fails = fails })
  unfolding read_msg parse
  read_msg_lem v payload rest fails u h =
      rw (read_raw_msg-frame payload rest fails h) (ground (arith, u))

  -- For a value with a JSON form of at most 64 MB: WriteMsg succeeds on a sink with no limit, and
  -- from what it wrote, whatever follows it on the stream, ReadMsg returns the value and leaves
  -- what follows.
  pub read_msg-write_msg :
      (v : V) (w : Writer) (rest : Bytes) (fails : Bool)
      → IsPortable v
      → w.room ≡ none
      → (sent : Bytes) × (write_msg marshal unmarshal w v
          ≡ ok (record w { written = w.written ++ sent }))
        × (read_msg marshal unmarshal (record { content = sent ++ rest; fails = fails })
            ≡ (ok v, record { content = rest; fails = fails }))
  read_msg-write_msg v w rest fails (payload, m, u, is_payload) h = (
    frame payload,
    write_msg_lem v payload w m is_payload.1 h,
    read_msg_lem v payload rest fails u is_payload,
  )

  -- WriteMsg for each value in turn, and ReadMsg as many times; both stop at the first error.
  unfoldable pub write_all : Writer → List V → Result WireError Writer
  write_all w [] = ok w
  write_all w (v ∷ vs) = elim (write_msg marshal unmarshal w v) [
    | ok w' ↦ write_all w' vs
    | err e ↦ err e
  ]

  unfoldable pub with_rest :
      Result WireError V → Result WireError (List V) → Result WireError (List V)
  with_rest one rest = do v ← one; vs ← rest; ok (v ∷ vs)

  unfoldable pub read_all : ℕ → Reader → Result WireError (List V)
  unfolding with_rest
  read_all zero r = ok []
  read_all (suc n) r = let (one, r') = read_msg marshal unmarshal r in with_rest one (read_all n r')

  -- Any number of portable values written one behind the other on a sink with no limit are read
  -- back in the same order by as many calls of ReadMsg.
  pub read_all-write_all :
      (vs : List V) (w : Writer) (fails : Bool)
      → All IsPortable vs
      → w.room ≡ none
      → (sent : Bytes) × (write_all w vs ≡ ok (record w { written = w.written ++ sent }))
        × (read_all (length vs) (record { content = sent; fails = fails }) ≡ ok vs)
  unfolding write_all read_all
  read_all-write_all [] w fails h open_sink = ([], rw append-nil, refl)
  read_all-write_all (v ∷ vs) w fails ((payload, m, u, is_payload), hvs) open_sink =
      let first : Bytes = frame payload in
      let w' : Writer = record w { written = w.written ++ first } in
      let (rest, more, back) = read_all-write_all vs w' fails hvs open_sink in
      (
        first ++ rest,
        rw (write_msg_lem v payload w m is_payload.1 open_sink, write_all, more)
            (ap (λ (b : Bytes). ok (record w { written = b })) (append_assoc w.written first rest)),
        rw (read_msg_lem v payload rest fails u is_payload, back),
      )
