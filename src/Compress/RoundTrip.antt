-- ===== src/Compress/RoundTrip.antt =====
-- Decompress takes back what Compress made, with padding behind it.
use cerclbackup.Prelude.{
  ℕ, ◌^◌, ◌≤◌, ◌<◌, ◌≡◌, sym, ap, ◌∙◌, true, some, ◌++◌, append_assoc, arith, Bytes, length, take,
  drop, length-append, take-append-drop, take-append_length, ok,
}
use cerclbackup.Compress.{Zstd, put_uint32_le, uint32_le, compress, decode_frame, decompress}

uint32_le-put :
    (n : ℕ) (rest : Bytes) → n < 2 ^ 32 → uint32_le (take 4 (put_uint32_le n ++ rest)) ≡ n
unfolding uint32_le put_uint32_le
uint32_le-put n rest h = omega arith

-- zstd takes back what it encoded, and both coders start.
pub record IsZstd (z : Zstd) : Type 0 where
  pub starts : (z.encoder_starts ≡ true) × (z.decoder_starts ≡ true)
  pub decodes : (b : Bytes) → z.decode_all (z.encode_all b) ≡ some b

compress_lem :
    (z : Zstd) (src : Bytes)
    → IsZstd z
    → compress z src ≡ ok (put_uint32_le (length (z.encode_all src)) ++ z.encode_all src)
unfolding compress
compress_lem z src laws = let (starts, _) = laws.starts in rw starts

-- Of bytes that begin with a header of a length below 2^32 and a frame of that length, Decompress
-- decodes the frame.
decompress_frame :
    (z : Zstd) (frame rest : Bytes)
    → length frame < 2 ^ 32
    → decompress z (put_uint32_le (length frame) ++ (frame ++ rest)) ≡ decode_frame z frame
unfolding decompress put_uint32_le
decompress_frame z frame rest h =
    let back : uint32_le (take 4 (put_uint32_le (length frame) ++ (frame ++ rest))) ≡ length frame =
      uint32_le-put (length frame) (frame ++ rest) h in
    ground (arith, back, length-append frame rest, take-append_length frame rest)

-- What Compress gives is more than four bytes, and whatever begins with it decompresses.
pub compress_prefix :
    (z : Zstd) (src : Bytes)
    → IsZstd z
    → length (z.encode_all src) < 2 ^ 32
    → (packed : Bytes) × (compress z src ≡ ok packed)
      × (4 ≤ length packed)
      × ((padded : Bytes) → take (length packed) padded ≡ packed → decompress z padded ≡ ok src)
compress_prefix z src laws h =
    let frame : Bytes = z.encode_all src in
    let packed : Bytes = put_uint32_le (length frame) ++ frame in
    let (_, starts) = laws.starts in
    let four : 4 ≤ length packed = unfold put_uint32_le in omega arith in
    let decoded : decode_frame z frame ≡ ok src =
      unfold decode_frame in rw (starts, laws.decodes src) in
    (
      packed,
      compress_lem z src laws,
      four,
      λ padded front.
          let rest : Bytes = drop (length packed) padded in
          let whole : padded ≡ put_uint32_le (length frame) ++ (frame ++ rest) =
            sym (take-append-drop (length packed) padded)
            ∙ ap (λ (f : Bytes). f ++ rest) front
            ∙ append_assoc (put_uint32_le (length frame)) frame rest in
          ap (decompress z) whole ∙ decompress_frame z frame rest h ∙ decoded,
    )

-- Over a zstd that takes back what it encoded, for a content whose frame is shorter than 2^32
-- bytes: Compress gives at least four bytes, and from these bytes with any padding behind them
-- Decompress gives the content.
pub decompress-compress :
    (z : Zstd) (src pad : Bytes)
    → IsZstd z
    → length (z.encode_all src) < 2 ^ 32
    → (packed : Bytes) × (compress z src ≡ ok packed)
      × (4 ≤ length packed)
      × (decompress z (packed ++ pad) ≡ ok src)
decompress-compress z src pad laws h =
    let (packed, e, four, back) = compress_prefix z src laws h in
    (packed, e, four, back (packed ++ pad) (take-append_length packed pad))
