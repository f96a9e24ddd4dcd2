-- ===== src/Chunker/Examples.antt =====
-- Runs of internal/chunker on small streams. A list stands for its own digest.
use cerclbackup.Prelude.{
  ◌+◌, ◌*◌, ◌≤◌, ◌<◌, ◌≡◌, refl, false, none, some, List, [], ◌∷◌, ◌++◌, arith, Bytes, length, ok,
}
use cerclbackup.Io.{Writer}
use cerclbackup.Chunker.{Chunk, chunk_reader, reassemble}
use cerclbackup.Chunker.RoundTrip.{reassemble-chunk_reader}
use cerclbackup.Chunker.Shape.{IsRun, chunk_reader-IsRun}

abbrev digest : Bytes → Bytes
digest b = b

abbrev five : Bytes
five = 1 ∷ 2 ∷ 3 ∷ 4 ∷ 5 ∷ []

abbrev sink : Writer
sink = record { written = 9 ∷ []; room = none }

-- The last chunk of a short stream is padded, and its hash is that of the bytes that were read.
padded_last :
    chunk_reader digest (record { content = 7 ∷ []; fails = false }) 3
    ≡ some (ok (record { index = 0; bytes = 7 ∷ 0 ∷ 0 ∷ []; hash = 7 ∷ []; size = 1 } ∷ []))
unfolding chunk_reader
padded_last = refl

reassemble-chunk_reader_example :
    (chunks : List Chunk) × (chunk_reader digest (record { content = five; fails = false }) 2
      ≡ some (ok chunks))
    × (reassemble sink chunks ≡ ok (record sink { written = (9 ∷ []) ++ five }))
reassemble-chunk_reader_example = reassemble-chunk_reader digest 2 five sink (omega arith) refl

chunk_reader-IsRun_example :
    (chunks : List Chunk) × (chunk_reader digest (record { content = five; fails = false }) 2
      ≡ some (ok chunks))
    × IsRun digest 2 0 chunks
    × (5 ≤ length chunks * 2)
    × (length chunks * 2 < 5 + 2)
chunk_reader-IsRun_example = chunk_reader-IsRun digest 2 five (omega arith)
