-- ===== src/Chunker/Pieces.antt =====
-- What the loop of ChunkReader computes, without its loop: the pieces of a content.
use cerclbackup.Prelude.{
  ℕ, zero, suc, ◌+◌, ◌≤◌, ◌<◌, ◌≡◌, refl, Bool, true, false, some, List, [], ◌∷◌, ◌++◌, append-nil,
  append_assoc, arith, Bytes, length, take, drop, length-take, length-drop, take_of_length_le,
  drop_of_length_le, Result, ok, err,
}
use cerclbackup.Chunker.{Chunk, ChunkError, read_failed, make_chunk, chunk_loop}
use native.Mathlib.Decide.{dec_le}
use native.Mathlib.Nat.{add-zero}

module _ (sha256 : Bytes → Bytes) where
  unfoldable pub pieces : ℕ → ℕ → ℕ → Bytes → List Chunk
  pieces zero chunk_size index content = []
  pieces (suc fuel) chunk_size index [] = []
  pieces (suc fuel) chunk_size index (x ∷ xs) =
      make_chunk sha256 chunk_size index (take chunk_size (x ∷ xs))
      ∷ pieces fuel chunk_size (index + 1) (drop chunk_size (x ∷ xs))

  -- How the loop ends: with the chunks, or with the error that the stream ends in.
  unfoldable pub outcome : Bool → ℕ → List Chunk → Result ChunkError (List Chunk)
  outcome false index chunks = ok chunks
  outcome true index chunks = err (read_failed index)

  module _ (fuel chunk_size index : ℕ) (content : Bytes) (fails : Bool) (acc : List Chunk) where
    full_round :
        0 < chunk_size
        → chunk_size ≤ length content
        → chunk_loop sha256
            (suc fuel)
            chunk_size
            (record { content = content; fails = fails })
            index
            acc
          ≡ chunk_loop sha256 fuel chunk_size
              (record { content = drop chunk_size content; fails = fails })
              (index + 1)
              (acc ++ (make_chunk sha256 chunk_size index (take chunk_size content) ∷ []))
    unfolding chunk_loop
    full_round h l = ground (arith, length-take chunk_size content)

    -- The last round, on a rest that is not empty and on an empty one.
    short_round :
        0 < length content
        → length content < chunk_size
        → chunk_loop sha256
            (suc fuel)
            chunk_size
            (record { content = content; fails = fails })
            index
            acc
          ≡ some
              (outcome fails (index + 1) (acc ++ (make_chunk sha256 chunk_size index content ∷ [])))
    unfolding chunk_loop outcome
    short_round h l = ground arith

  empty_round :
      (fuel chunk_size index : ℕ) (fails : Bool) (acc : List Chunk)
      → 0 < chunk_size
      → chunk_loop sha256 (suc fuel) chunk_size (record { content = []; fails = fails }) index acc
        ≡ some (outcome fails index acc)
  unfolding chunk_loop outcome
  empty_round fuel chunk_size index fails acc h = ground arith

  pub pieces-nil : (fuel chunk_size index : ℕ) → pieces fuel chunk_size index [] ≡ []
  unfolding pieces
  pieces-nil zero chunk_size index = refl
  pieces-nil (suc fuel) chunk_size index = refl

  pub chunk_loop-pieces :
      (fuel chunk_size index : ℕ) (content : Bytes) (fails : Bool) (acc : List Chunk)
      → 0 < chunk_size
      → length content < fuel
      → chunk_loop sha256 fuel chunk_size (record { content = content; fails = fails }) index acc
        ≡ some (
            outcome fails
              (index + length (pieces fuel chunk_size index content))
              (acc ++ pieces fuel chunk_size index content))
  unfolding pieces
  chunk_loop-pieces zero chunk_size index content fails acc h l = absurd (omega arith)
  chunk_loop-pieces (suc fuel) chunk_size index [] fails acc h l =
      cc (empty_round fuel chunk_size index fails acc h, append-nil acc, add-zero index)
  chunk_loop-pieces (suc fuel) chunk_size index (x ∷ xs) fails acc h l =
      elim (dec_le chunk_size (length (x ∷ xs))) [
        | yes p ↦
            let piece : Chunk = make_chunk sha256 chunk_size index (take chunk_size (x ∷ xs)) in
            let rest : Bytes = drop chunk_size (x ∷ xs) in
            let more : List Chunk = pieces fuel chunk_size (index + 1) rest in
            grind (
              arith,
              full_round fuel chunk_size index (x ∷ xs) fails acc h p,
              chunk_loop-pieces fuel chunk_size (index + 1) rest fails (acc ++ (piece ∷ [])) h
                  (omega (arith, length-drop chunk_size (x ∷ xs))),
              append_assoc acc (piece ∷ []) more,
            )
        | no p ↦
            rw
              (
                take_of_length_le chunk_size (x ∷ xs) (omega arith),
                drop_of_length_le chunk_size (x ∷ xs) (omega arith),
                pieces-nil,
              )
              (short_round fuel chunk_size index (x ∷ xs) fails acc (omega arith) (omega arith))
      ]
