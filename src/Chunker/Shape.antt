-- ===== src/Chunker/Shape.antt =====
-- The chunks that ChunkReader makes: how many, their indices, lengths and hashes; how it fails.
use cerclbackup.Prelude.{
  ℕ, zero, suc, ◌+◌, ◌-◌, ◌*◌, ◌≤◌, ◌<◌, ◌≡◌, refl, ap, true, false, none, some, List, [], ◌∷◌,
  arith, beq_refl, nat_eq, list_eq, Bytes, length, take, drop, replicate, length-append,
  length-take, length-drop, length-replicate, take-append_length, drop_of_length_le, ok, err,
}
use cerclbackup.Io.{Reader}
use cerclbackup.Chunker.{Chunk, read_failed, make_chunk, chunk_loop, chunk_reader, verify_chunk}
use cerclbackup.Chunker.Pieces.{pieces, outcome, pieces-nil, chunk_loop-pieces}
use native.Mathlib.Decide.{dec_le}

module _ (sha256 : Bytes → Bytes) where
  -- The chunks of one stream: index after index, each of the padded length, with meaningful bytes
  -- that VerifyChunk accepts.
  abbrev pub IsRun : ℕ → ℕ → List Chunk → Type 0
  IsRun chunk_size index [] = Unit
  IsRun chunk_size index (c ∷ cs) =
      (c.index ≡ index)
      × (length c.bytes ≡ chunk_size)
      × (0 < c.size)
      × (c.size ≤ chunk_size)
      × (verify_chunk sha256 c ≡ true)
      × IsRun chunk_size (index + 1) cs

  module _ (chunk_size index : ℕ) (got : Bytes) (some_read : 0 < length got)
      (fits : length got ≤ chunk_size) where
    length-make_chunk : length (make_chunk sha256 chunk_size index got).bytes ≡ chunk_size
    unfolding make_chunk
    length-make_chunk = omega (
      arith,
      length-append got (replicate (chunk_size - length got) 0),
      length-replicate {A = ℕ} (chunk_size - length got) 0,
    )

    verify_chunk-make_chunk : verify_chunk sha256 (make_chunk sha256 chunk_size index got) ≡ true
    unfolding verify_chunk make_chunk
    verify_chunk-make_chunk = ground (
      arith,
      length-append got (replicate (chunk_size - length got) 0),
      length-replicate {A = ℕ} (chunk_size - length got) 0,
      take-append_length got (replicate (chunk_size - length got) 0),
      beq_refl (sha256 got),
    )

  pieces-IsRun :
      (fuel chunk_size index : ℕ) (content : Bytes)
      → 0 < chunk_size
      → IsRun chunk_size index (pieces sha256 fuel chunk_size index content)
  unfolding pieces
  pieces-IsRun zero chunk_size index content h = tt
  pieces-IsRun (suc fuel) chunk_size index [] h = tt
  pieces-IsRun (suc fuel) chunk_size index (x ∷ xs) h =
      let got : Bytes = take chunk_size (x ∷ xs) in
      let l = length-take chunk_size (x ∷ xs) in
      let some_read : 0 < length got = omega arith in
      let fits : length got ≤ chunk_size = omega arith in
      (
        unfold make_chunk in refl,
        length-make_chunk chunk_size index got some_read fits,
        unfold make_chunk in some_read,
        unfold make_chunk in fits,
        verify_chunk-make_chunk chunk_size index got some_read fits,
        pieces-IsRun fuel chunk_size (index + 1) (drop chunk_size (x ∷ xs)) h,
      )

  -- n chunks of the size cover the content, and n - 1 do not.
  length-pieces :
      (fuel chunk_size index : ℕ) (content : Bytes)
      → 0 < chunk_size
      → length content < fuel
      → (length content ≤ length (pieces sha256 fuel chunk_size index content) * chunk_size)
        × (length (pieces sha256 fuel chunk_size index content) * chunk_size
            < length content + chunk_size)
  unfolding pieces
  length-pieces zero chunk_size index content h l = absurd (omega arith)
  length-pieces (suc fuel) chunk_size index [] h l = (omega arith, omega arith)
  length-pieces (suc fuel) chunk_size index (x ∷ xs) h l =
      let d = length-drop chunk_size (x ∷ xs) in
      let (lo, hi) =
        length-pieces fuel chunk_size (index + 1) (drop chunk_size (x ∷ xs)) h (omega arith) in
      elim (dec_le chunk_size (length (x ∷ xs))) [
        | yes p ↦ (omega arith, omega arith)
        | no p ↦
            rw
              (
                drop_of_length_le chunk_size (x ∷ xs) (omega arith),
                pieces-nil sha256 fuel chunk_size (index + 1),
              )
              (omega arith, omega arith)
      ]

  -- For every chunk size above zero, ChunkReader over a stream that ends well returns chunks with
  -- the indices 0, 1, ..., all of the chunk size, each accepted by VerifyChunk, and as many as the
  -- length of the content divided by the chunk size, rounded up.
  pub chunk_reader-IsRun :
      (chunk_size : ℕ) (content : Bytes)
      → 0 < chunk_size
      → (chunks : List Chunk) × (chunk_reader sha256
            (record { content = content; fails = false })
            chunk_size
          ≡ some (ok chunks))
        × IsRun chunk_size 0 chunks
        × (length content ≤ length chunks * chunk_size)
        × (length chunks * chunk_size < length content + chunk_size)
  unfolding chunk_reader outcome
  chunk_reader-IsRun chunk_size content h =
      let fuel : ℕ = length content + 1 in
      let (lo, hi) = length-pieces fuel chunk_size 0 content h (omega arith) in
      (
        pieces sha256 fuel chunk_size 0 content,
        chunk_loop-pieces sha256 fuel chunk_size 0 content false [] h (omega arith),
        pieces-IsRun fuel chunk_size 0 content h,
        lo,
        hi,
      )

  -- A stream that breaks makes ChunkReader return no chunks but an error, and the error names the
  -- index behind the last chunk that held any byte.
  pub chunk_reader_fails :
      (chunk_size : ℕ) (content : Bytes)
      → 0 < chunk_size
      → (index : ℕ) × (chunk_reader sha256 (record { content = content; fails = true }) chunk_size
          ≡ some (err (read_failed index)))
        × (length content ≤ index * chunk_size)
        × (index * chunk_size < length content + chunk_size)
  unfolding chunk_reader outcome
  chunk_reader_fails chunk_size content h =
      let fuel : ℕ = length content + 1 in
      let (lo, hi) = length-pieces fuel chunk_size 0 content h (omega arith) in
      let index : ℕ = length (pieces sha256 fuel chunk_size 0 content) in
      (
        index,
        rw (chunk_loop-pieces sha256 fuel chunk_size 0 content true [] h (omega arith))
            (ap (λ (n : ℕ). some (err (read_failed n))) (omega arith)),
        lo,
        hi,
      )

  -- With chunk size zero a round of ChunkReader's loop reads nothing and does not end it: no
  -- number of rounds is enough, on any stream.
  pub chunk_loop_zero :
      (fuel : ℕ) (r : Reader) (index : ℕ) (chunks : List Chunk)
      → chunk_loop sha256 fuel 0 r index chunks ≡ none
  unfolding chunk_loop
  chunk_loop_zero zero r index chunks = refl
  chunk_loop_zero (suc fuel) r index chunks = ground (arith, chunk_loop_zero fuel r index chunks)
