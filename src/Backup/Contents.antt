-- ===== src/Backup/Contents.antt =====
-- The bytes of the chunks that a backup makes of a file.
use cerclbackup.Prelude.{
  ℕ, zero, suc, ◌+◌, ◌-◌, ◌≤◌, ◌<◌, ◌≡◌, refl, sym, ap, false, some, List, [], ◌∷◌, ◌++◌, arith,
  Bytes, length, take, drop, replicate, All, length-take, length-drop, take-append-drop,
  take-append_length, ok,
}
use cerclbackup.Chunker.{Chunk, default_chunk_size, make_chunk, chunk_reader, chunk_file}
use cerclbackup.Chunker.Pieces.{pieces, outcome, chunk_loop-pieces}

-- What a chunk holds of the file.
abbrev pub content_of : Chunk → Bytes
content_of c = take c.size c.bytes

abbrev pub contents_of : List Chunk → Bytes
contents_of [] = []
contents_of (c ∷ cs) = content_of c ++ contents_of cs

module _ (sha256 : Bytes → Bytes) where
  -- A chunk with the hash of its content, of at most `size` bytes.
  abbrev pub IsHashed : ℕ → Chunk → Type 0
  IsHashed size c = (c.hash ≡ sha256 (content_of c)) × (length (content_of c) ≤ size)

  abbrev pub hashed_contents_of : List Chunk → Bytes
  hashed_contents_of [] = []
  hashed_contents_of (c ∷ cs) = sha256 (content_of c) ++ hashed_contents_of cs

  content_of-make_chunk :
      (chunk_size index : ℕ) (got : Bytes)
      → content_of (make_chunk sha256 chunk_size index got) ≡ got
  unfolding make_chunk
  content_of-make_chunk chunk_size index got =
      take-append_length got (replicate (chunk_size - length got) 0)

  pieces-IsHashed :
      (fuel chunk_size index : ℕ) (content : Bytes)
      → All (IsHashed chunk_size) (pieces sha256 fuel chunk_size index content)
  unfolding pieces
  pieces-IsHashed zero chunk_size index content = tt
  pieces-IsHashed (suc fuel) chunk_size index [] = tt
  pieces-IsHashed (suc fuel) chunk_size index (x ∷ xs) =
      let got : Bytes = take chunk_size (x ∷ xs) in
      let same = content_of-make_chunk chunk_size index got in
      (
        (
          unfold make_chunk in ap sha256 (sym same),
          omega (arith, ap length same, length-take chunk_size (x ∷ xs)),
        ),
        pieces-IsHashed fuel chunk_size (index + 1) (drop chunk_size (x ∷ xs)),
      )

  contents_of-pieces :
      (fuel chunk_size index : ℕ) (content : Bytes)
      → 0 < chunk_size
      → length content < fuel
      → contents_of (pieces sha256 fuel chunk_size index content) ≡ content
  unfolding pieces
  contents_of-pieces zero chunk_size index content p h = absurd (omega arith)
  contents_of-pieces (suc fuel) chunk_size index [] p h = refl
  contents_of-pieces (suc fuel) chunk_size index (x ∷ xs) p h =
      let got : Bytes = take chunk_size (x ∷ xs) in
      let rest : Bytes = drop chunk_size (x ∷ xs) in
      rw
        (
          content_of-make_chunk chunk_size index got,
          contents_of-pieces fuel chunk_size (index + 1) rest p
              (omega (arith, length-drop chunk_size (x ∷ xs))),
        )
        (take-append-drop chunk_size (x ∷ xs))

  -- ChunkFile of a file that can be read ends with chunks that together hold the file, each with
  -- the hash of what it holds.
  pub chunk_file-contents :
      (content : Bytes)
      → (cs : List Chunk) × (chunk_file sha256
            (some (record { content = content; fails = false }))
            default_chunk_size
          ≡ some (ok cs))
        × All (IsHashed default_chunk_size) cs
        × (contents_of cs ≡ content)
  unfolding chunk_file chunk_reader outcome
  chunk_file-contents content =
      let fuel : ℕ = length content + 1 in
      let p : 0 < default_chunk_size = omega arith in
      (
        pieces sha256 fuel default_chunk_size 0 content,
        chunk_loop-pieces sha256 fuel default_chunk_size 0 content false [] p (omega arith),
        pieces-IsHashed fuel default_chunk_size 0 content,
        contents_of-pieces fuel default_chunk_size 0 content p (omega arith),
      )
