-- ===== src/Chunker.antt =====
-- internal/chunker/chunker.go: a stream cut into chunks of one size, and put together again.
pub mod Pieces
pub mod RoundTrip
pub mod Shape
pub mod Examples
use cerclbackup.Prelude.{
  ℕ, zero, suc, ◌+◌, ◌-◌, ◌*◌, Bool, ◌&&◌, ◌||◌, Option, none, some, List, [], ◌∷◌, ◌++◌, ltb, leb,
  if◌then◌else◌, ◌==◌, nat_eq, list_eq, Bytes, length, take, replicate, Result, ok, err,
}
use cerclbackup.Io.{eof, unexpected_eof, broken, Reader, read_full, Writer, write}

-- protocol.Chunk
pub record Chunk : Type 0 where
  pub index : ℕ
  pub bytes : Bytes
  pub hash : Bytes
  pub size : ℕ

-- 4 MB
abbrev pub default_chunk_size : ℕ
default_chunk_size = 4 * 1024 * 1024

-- The errors with the chunk they name.
pub data ChunkError : Type 0 where
  open_failed : ChunkError
  read_failed : ℕ → ChunkError
  write_failed : ℕ → ChunkError

-- `sha256` is crypto/sha256.Sum256.
module _ (sha256 : Bytes → Bytes) where
  -- The chunk of the `n` bytes that were read, padded with zeros.
  unfoldable pub make_chunk : ℕ → ℕ → Bytes → Chunk
  make_chunk chunk_size index got = record {
    index = index;
    bytes = got ++ replicate (chunk_size - length got) 0;
    hash = sha256 got;
    size = length got;
  }

  -- The loop of ChunkReader, one round for each unit of fuel; `none` means that the fuel ran out.
  unfoldable pub chunk_loop :
      ℕ → ℕ → Reader → ℕ → List Chunk → Option (Result ChunkError (List Chunk))
  unfolding make_chunk read_full
  chunk_loop zero chunk_size r index chunks = none
  chunk_loop (suc fuel) chunk_size r index chunks =
      let (got, e, r') = read_full chunk_size r in
      let some_read : Bool = ltb 0 (length got) in
      let chunks' : List Chunk =
        if some_read then chunks ++ (make_chunk chunk_size index got ∷ []) else chunks in
      let index' : ℕ = if some_read then index + 1 else index in
      elim e [
        | none ↦ chunk_loop fuel chunk_size r' index' chunks'
        | some eof ↦ some (ok chunks')
        | some unexpected_eof ↦ some (ok chunks')
        | some broken ↦ some (err (read_failed index'))
      ]

  -- ChunkReader(r, chunkSize). A round with chunkSize > 0 takes a byte at least or is the last.
  unfoldable pub chunk_reader : Reader → ℕ → Option (Result ChunkError (List Chunk))
  unfolding chunk_loop
  chunk_reader r chunk_size = chunk_loop (length r.content + 1) chunk_size r 0 []

  -- ChunkFile(path, chunkSize): `none` for a file that os.Open refuses; a chunk size of zero (or
  -- below, which is zero here) stands for the default.
  unfoldable pub chunk_file : Option Reader → ℕ → Option (Result ChunkError (List Chunk))
  unfolding chunk_reader
  chunk_file none chunk_size = some (err open_failed)
  chunk_file (some r) chunk_size =
      chunk_reader r (if leb chunk_size 0 then default_chunk_size else chunk_size)

  -- VerifyChunk
  unfoldable pub verify_chunk : Chunk → Bool
  verify_chunk c =
      let size : ℕ =
        if leb c.size 0 || ltb (length c.bytes) c.size then length c.bytes else c.size in
      sha256 (take size c.bytes) == c.hash

-- What Reassemble writes for chunk `i` of `n`.
unfoldable pub trimmed : ℕ → ℕ → Chunk → Bytes
trimmed i n c =
    if (i == n - 1) && (ltb 0 c.size && ltb c.size (length c.bytes))
    then take c.size c.bytes
    else c.bytes

unfoldable pub reassemble_loop : Writer → ℕ → ℕ → List Chunk → Result ChunkError Writer
unfolding trimmed write
reassemble_loop w i n [] = ok w
reassemble_loop w i n (c ∷ cs) = elim (write w (trimmed i n c)) [
  | ok w' ↦ reassemble_loop w' (i + 1) n cs
  | err e ↦ err (write_failed i)
]

-- Reassemble(w, chunks)
unfoldable pub reassemble : Writer → List Chunk → Result ChunkError Writer
unfolding reassemble_loop
reassemble w chunks = reassemble_loop w 0 (length chunks) chunks
