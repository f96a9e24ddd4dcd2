-- ===== src/Wire/Bounds.antt =====
-- What the reader of a stream, hostile or cut, can make ReadRawMsg do.
use cerclbackup.Prelude.{
  ℕ, zero, suc, ◌≤◌, ◌<◌, ◌≡◌, refl, sym, inl, inr, Bool, Option, none, some, [], ◌++◌,
  append_assoc, arith, Option-cases, Bytes, length, take, length-take, ok, err, Result-cases,
}
use cerclbackup.Io.{
  IoError, Reader, read_full, Writer, write, read_full-append, read_full_sound, read_full_short,
  write_sound,
}
use cerclbackup.Wire.{
  max_msg_size, WireError, header_unread, payload_unread, put_uint32, uint32, write_frame,
  payload_read, read_sized, header_read, read_raw_msg, write_msg,
}
use cerclbackup.Wire.Framing.{uint32-put_uint32, frame, IsPayload}

payload_read_sound :
    (size : ℕ) (r r' : Reader) (payload : Bytes) (t : Bytes × Option IoError × Reader)
    → read_full size r ≡ t
    → payload_read t ≡ (ok payload, r')
    → (length payload ≡ size) × (r.content ≡ payload ++ r'.content)
unfolding payload_read
payload_read_sound size r r' payload (buf, none, r'') e h =
    let (a, b, c) = read_full_sound size r r'' buf e in ground (arith, a, b)
payload_read_sound size r r' payload (buf, some x, r'') e h = ground arith

read_sized_sound :
    (size : ℕ) (r r' : Reader) (payload : Bytes)
    → read_sized size r ≡ (ok payload, r')
    → IsPayload payload × (length payload ≡ size) × (r.content ≡ payload ++ r'.content)
unfolding read_sized
read_sized_sound size r r' payload h =
    ground (arith, payload_read_sound size r r' payload (read_full size r) refl)

header_read_sound :
    (r r' : Reader) (payload : Bytes) (t : Bytes × Option IoError × Reader)
    → read_full 4 r ≡ t
    → header_read t ≡ (ok payload, r')
    → IsPayload payload
      × ((header : Bytes) × (length header ≡ 4)
          × (uint32 header ≡ length payload)
          × (r.content ≡ header ++ (payload ++ r'.content)))
unfolding header_read
header_read_sound r r' payload (header, none, r'') e h =
    let (a, b, c) = read_full_sound 4 r r'' header e in
    let (x, y, z) = read_sized_sound (uint32 header) r'' r' payload h in
    (x, (header, b, sym y, rw z at a))
header_read_sound r r' payload (header, some x, r'') e h = absurd (ground arith)

-- Whatever the stream: when ReadRawMsg returns a message, it has between one byte and 64 MB, and
-- the stream was a header with that size, the message, and what is left of the stream.
pub read_raw_msg_sound :
    (r r' : Reader) (payload : Bytes)
    → read_raw_msg r ≡ (ok payload, r')
    → IsPayload payload
      × ((header : Bytes) × (length header ≡ 4)
          × (uint32 header ≡ length payload)
          × (r.content ≡ header ++ (payload ++ r'.content)))
unfolding read_raw_msg
read_raw_msg_sound r r' payload h = header_read_sound r r' payload (read_full 4 r) refl h

cut_payload :
    (payload : Bytes) (c : ℕ) (fails : Bool)
    → IsPayload payload
    → c < length payload
    → (e : WireError) × (r' : Reader) × (read_raw_msg
          (record { content = put_uint32 (length payload) ++ take c payload; fails = fails })
        ≡ (err e, r'))
unfolding read_raw_msg read_sized
cut_payload payload c fails (lo, hi) l =
    let header : Bytes = put_uint32 (length payload) in
    let part : Reader = record { content = take c payload; fails = fails } in
    let first : read_full 4 (record { content = header ++ take c payload; fails = fails })
        ≡ (header, none, part) =
      unfold put_uint32 in read_full-append header (take c payload) fails in
    let short = read_full_short (length payload) part (omega (arith, length-take c payload)) in
    (
      payload_unread,
      record { content = []; fails = fails },
      rw (first, uint32-put_uint32 (length payload) (omega arith), short) (ground arith),
    )

cut_header :
    (r : Reader)
    → length r.content < 4
    → (e : WireError) × (r' : Reader) × (read_raw_msg r ≡ (err e, r'))
unfolding read_raw_msg
cut_header r h = (header_unread, record r { content = [] }, rw (read_full_short 4 r h))

-- Every proper front part of one written message makes ReadRawMsg fail.
pub read_raw_msg_truncated :
    (payload : Bytes) (cut : ℕ) (fails : Bool)
    → IsPayload payload
    → cut < length (frame payload)
    → (e : WireError) × (r' : Reader) × (read_raw_msg
          (record { content = take cut (frame payload); fails = fails })
        ≡ (err e, r'))
unfolding frame put_uint32
read_raw_msg_truncated payload zero fails h l = cut_header _ (omega arith)
read_raw_msg_truncated payload (suc zero) fails h l = cut_header _ (omega arith)
read_raw_msg_truncated payload (suc (suc zero)) fails h l = cut_header _ (omega arith)
read_raw_msg_truncated payload (suc (suc (suc zero))) fails h l = cut_header _ (omega arith)
read_raw_msg_truncated payload (suc (suc (suc (suc c)))) fails h l =
    cut_payload payload c fails h (omega arith)

write_frame_sound :
    (w w' : Writer) (payload : Bytes)
    → write_frame w payload ≡ ok w'
    → w'.written ≡ w.written ++ frame payload
unfolding write_frame frame
write_frame_sound w w' payload h =
    let header : Bytes = put_uint32 (length payload) in
    elim (Result-cases (write w header)) [
      | inr (x, e) ↦ absurd (ground arith)
      | inl (w1, e) ↦ elim (Result-cases (write w1 payload)) [
        | inr (x, e') ↦ absurd (ground arith)
        | inl (w2, e') ↦ ground (
          arith,
          write_sound w w1 header e,
          write_sound w1 w2 payload e',
          append_assoc w.written header payload,
        )
      ]
    ]

module _ {V : Type 0} (marshal : V → Option Bytes) (unmarshal : Bytes → Option V) where
  -- On a sink with a limit or without one: when WriteMsg succeeds it has appended one frame whose
  -- message has at most 64 MB, so every message that is longer is refused.
  pub write_msg_sound :
      (v : V) (w w' : Writer)
      → write_msg marshal unmarshal w v ≡ ok w'
      → (payload : Bytes) × (marshal v ≡ some payload)
        × (length payload ≤ max_msg_size)
        × (w'.written ≡ w.written ++ frame payload)
  unfolding write_msg
  write_msg_sound v w w' h = elim (Option-cases (marshal v)) [
    | inl e ↦ absurd (ground (arith, e))
    | inr (payload, e) ↦
        (payload, e, ground (arith, e), write_frame_sound w w' payload (ground (arith, e)))
  ]
