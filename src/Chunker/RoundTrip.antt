-- ===== src/Chunker/RoundTrip.antt =====
-- What ChunkReader promises to VerifyChunk and Reassemble.
use cerclbackup.Prelude.{
  ℕ, zero, suc, ◌+◌, ◌-◌, ◌<◌, ◌≡◌, refl, false, none, some, List, [], ◌∷◌, ◌++◌, append-nil,
  append_assoc, arith, Bytes, length, take, drop, replicate, length-append, length-take,
  length-drop, length-replicate, take-append-drop, take-append_length, take_of_length_le,
  drop_of_length_le, ok,
}
use cerclbackup.Io.{Writer, write-unlimited}
use cerclbackup.Chunker.{Chunk, make_chunk, chunk_reader, trimmed, reassemble_loop, reassemble}
use cerclbackup.Chunker.Pieces.{pieces, outcome, pieces-nil, chunk_loop-pieces}
use native.Mathlib.Decide.{dec_le}

-- Reassemble over a sink with no limit: the trimmed bytes of the chunks, in order.
unfoldable pub joined : ℕ → ℕ → List Chunk → Bytes
joined i n [] = []
joined i n (c ∷ cs) = trimmed i n c ++ joined (i + 1) n cs

reassemble_loop-joined :
    (w : Writer) (i n : ℕ) (cs : List Chunk)
    → w.room ≡ none
    → reassemble_loop w i n cs ≡ ok (record w { written = w.written ++ joined i n cs })
unfolding reassemble_loop joined
reassemble_loop-joined w i n [] h = rw append-nil
reassemble_loop-joined w i n (c ∷ cs) h = grind (
  arith,
  write-unlimited w (trimmed i n c) h,
  reassemble_loop-joined (record w { written = w.written ++ trimmed i n c }) (i + 1) n cs h,
  append_assoc w.written (trimmed i n c) (joined (i + 1) n cs),
)

module _ (sha256 : Bytes → Bytes) where
  -- A chunk of a full read, and the chunk of a short one, which is the last.
  trimmed_full :
      (i n chunk_size index : ℕ) (got : Bytes)
      → length got ≡ chunk_size
      → trimmed i n (make_chunk sha256 chunk_size index got) ≡ got
  unfolding trimmed make_chunk
  trimmed_full i n chunk_size index got h =
      let none_left : chunk_size - length got ≡ 0 = omega arith in
      rw (none_left, append-nil) (ground arith)

  trimmed_last :
      (i chunk_size index : ℕ) (got : Bytes)
      → 0 < length got
      → length got < chunk_size
      → trimmed i (i + 1) (make_chunk sha256 chunk_size index got) ≡ got
  unfolding trimmed make_chunk
  trimmed_last i chunk_size index got p l = ground (
    arith,
    length-append got (replicate (chunk_size - length got) 0),
    length-replicate {A = ℕ} (chunk_size - length got) 0,
    take-append_length got (replicate (chunk_size - length got) 0),
  )

  joined-pieces :
      (fuel chunk_size i index : ℕ) (content : Bytes)
      → 0 < chunk_size
      → length content < fuel
      → joined i
          (i + length (pieces sha256 fuel chunk_size index content))
          (pieces sha256 fuel chunk_size index content)
        ≡ content
  unfolding joined pieces
  joined-pieces zero chunk_size i index content h l = absurd (omega arith)
  joined-pieces (suc fuel) chunk_size i index [] h l = refl
  joined-pieces (suc fuel) chunk_size i index (x ∷ xs) h l =
      elim (dec_le chunk_size (length (x ∷ xs))) [
        | yes p ↦
            let rest : Bytes = drop chunk_size (x ∷ xs) in
            let more : List Chunk = pieces sha256 fuel chunk_size (index + 1) rest in
            let n : ℕ = i + suc (length more) in
            ground (
              arith,
              trimmed_full i n chunk_size index (take chunk_size (x ∷ xs))
                  (omega (arith, length-take chunk_size (x ∷ xs))),
              joined-pieces fuel chunk_size (i + 1) (index + 1) rest h
                  (omega (arith, length-drop chunk_size (x ∷ xs))),
              take-append-drop chunk_size (x ∷ xs),
            )
        | no p ↦
            rw
              (
                take_of_length_le chunk_size (x ∷ xs) (omega arith),
                drop_of_length_le chunk_size (x ∷ xs) (omega arith),
                pieces-nil sha256 fuel chunk_size (index + 1),
              )
              (ground (
                arith,
                trimmed_last i chunk_size index (x ∷ xs) (omega arith) (omega arith),
                append-nil (x ∷ xs),
              ))
      ]

  -- For every chunk size above zero and every content, ChunkReader ends with chunks that
  -- Reassemble writes back as that content, behind whatever a sink with no limit held.
  pub reassemble-chunk_reader :
      (chunk_size : ℕ) (content : Bytes) (w : Writer)
      → 0 < chunk_size
      → w.room ≡ none
      → (chunks : List Chunk) × (chunk_reader sha256
            (record { content = content; fails = false })
            chunk_size
          ≡ some (ok chunks))
        × (reassemble w chunks ≡ ok (record w { written = w.written ++ content }))
  unfolding chunk_reader reassemble outcome
  reassemble-chunk_reader chunk_size content w h open_sink =
      let fuel : ℕ = length content + 1 in
      let chunks : List Chunk = pieces sha256 fuel chunk_size 0 content in
      (
        chunks,
        chunk_loop-pieces sha256 fuel chunk_size 0 content false [] h (omega arith),
        ground (
          arith,
          reassemble_loop-joined w 0 (length chunks) chunks open_sink,
          joined-pieces fuel chunk_size 0 0 content h (omega arith),
        ),
      )
