-- ===== src/Restore/Groups.antt =====
-- From what a backup left in the store to what a restore finds of it, group by group.
use cerclbackup.Prelude.{
  ℕ, zero, suc, ◌+◌, ◌*◌, ◌^◌, ◌≤◌, ◌<◌, ◌≡◌, refl, sym, ap, ◌∙◌, subst, Option, none, List, [],
  ◌∷◌, ◌++◌, arith, Bytes, Text, length, take, drop, All, length-append, take-append_length,
  drop-append_length, Result, ok,
}
use cerclbackup.Chunker.{Chunk, default_chunk_size}
use cerclbackup.Protocol.{RsScheme, total_shards, ShardLocation}
use cerclbackup.Codec.{Encoder}
use cerclbackup.Codec.Coder.{Damaged, survivors, IsReedSolomon}
use cerclbackup.Codec.RoundTrip.{split_chunk_to_shards_total}
use cerclbackup.Compress.RoundTrip.{IsZstd, compress_prefix}
use cerclbackup.Crypto.{decrypt_shard}
use cerclbackup.Files.{Tree}
use cerclbackup.Files.Decimal.{pos}
use cerclbackup.Files.Paths.{IsPlain}
use cerclbackup.Backup.{Tools, BackupError, coded_chunk}
use cerclbackup.Backup.Contents.{content_of, IsHashed}
use cerclbackup.Backup.Stored.{kept, Holds, Indexed, Backed}
use cerclbackup.Restore.{Network, raw_shard, raw_shards}
use cerclbackup.Restore.Chunks.{raws, Recoverable}
use mathlib.Core.Path.{ap₂}

-- Without any buddy to ask.
abbrev pub alone : Network
alone = record { buddies = none; ask = λ peer index. none }

-- Of every group of as many raw shards as the scheme has, at least as many as it has data shards are
-- there.
abbrev pub EnoughLeft : RsScheme → ℕ → List Bytes → Type 0
EnoughLeft s zero raws = Unit
EnoughLeft s (suc n) raws =
    (s.data_shards ≤ survivors (take (total_shards s) raws))
    × EnoughLeft s n (drop (total_shards s) raws)

Damaged-append :
    (a b c d : List Bytes)
    → length c ≡ length a
    → Damaged (a ++ b) (c ++ d)
    → Damaged a c × Damaged b d
Damaged-append [] b [] d l h = (tt, h)
Damaged-append [] b (y ∷ c) d l h = absurd (omega arith)
Damaged-append (x ∷ a) b [] d l h = absurd (omega arith)
Damaged-append (x ∷ a) b (y ∷ c) d l (e, h) =
    let (front, back) = Damaged-append a b c d (omega arith) h in ((e, front), back)

module _ (tools : Tools) (file_key : Bytes) (id : Text) where
  module _ (net : Network) (t : Tree) where
    abbrev found : List ShardLocation → List Bytes
    found = raw_shards tools net file_key id t

    length-raw_shards : (ls : List ShardLocation) → length (found ls) ≡ length ls
    unfolding raw_shards
    length-raw_shards [] = refl
    length-raw_shards (l ∷ ls) = ap suc (length-raw_shards ls)

    raw_shards-append :
        (front rest : List ShardLocation) → found (front ++ rest) ≡ found front ++ found rest
    unfolding raw_shards
    raw_shards-append [] rest = refl
    raw_shards-append (l ∷ front) rest = rw (raw_shards-append front rest)

  module _ (nonces : ℕ → Option Bytes) (plain : IsPlain id) (t : Tree) where
    -- A shard that the store holds is found.
    raw_shard-kept :
        (index : ℕ) (blob s : Bytes)
        → kept tools nonces file_key id plain t index ≡ ok blob
        → decrypt_shard tools.crypto file_key (pos index) blob ≡ ok s
        → raw_shard tools alone file_key id t index ≡ s
    unfolding raw_shard
    raw_shard-kept index blob s k d = ground (arith, k, d)

    raw_shards-Holds :
        (counter : ℕ) (shards : List Bytes) (front : List ShardLocation)
        → length front ≡ length shards
        → Indexed tools nonces file_key id plain counter front
        → Holds tools nonces file_key id plain t counter shards
        → raw_shards tools alone file_key id t front ≡ shards
    unfolding raw_shards
    raw_shards-Holds counter [] [] l i h = refl
    raw_shards-Holds counter [] (f ∷ front) l i h = absurd (omega arith)
    raw_shards-Holds counter (s ∷ shards) [] l i h = absurd (omega arith)
    raw_shards-Holds counter (s ∷ shards) (f ∷ front) l (here, i) ((blob, k, d), h) =
        ap₂ (λ (x : Bytes) (xs : List Bytes). x ∷ xs)
          (ap (raw_shard tools alone file_key id t) here ∙ raw_shard-kept counter blob s k d)
          (raw_shards-Holds (counter + 1) shards front (omega arith) i h)

    module _ (enc : Encoder) (laws : IsReedSolomon enc.rs enc.scheme)
        (some_data : 0 < enc.scheme.data_shards) (zstd : IsZstd tools.zstd)
        (fits : (b : Bytes)
          → length b ≤ default_chunk_size
          → length (tools.zstd.encode_all b) < 2 ^ 32) where
      abbrev spread : Chunk → Result BackupError (List Bytes)
      spread = coded_chunk tools nonces file_key id enc

      -- A chunk is split into as many shards as the scheme has.
      length-coded_chunk :
          (c : Chunk) (shards : List Bytes)
          → length (content_of c) ≤ default_chunk_size
          → spread c ≡ ok shards
          → length shards ≡ total_shards enc.scheme
      unfolding coded_chunk
      length-coded_chunk c shards small h =
          let (packed, e, four, _) =
            compress_prefix tools.zstd (content_of c) zstd (fits _ small) in
          let (all, size, s, count, _, _, _) =
            split_chunk_to_shards_total enc laws packed (omega arith) some_data in
          let same : all ≡ shards = ground (arith, h, e, s) in ap length (sym same) ∙ count

      -- There are as many groups of locations as chunks.
      pub length-Backed :
          (counter : ℕ) (cs : List Chunk) (locations : List ShardLocation)
          → All (IsHashed tools.sha256 default_chunk_size) cs
          → Backed tools nonces file_key id plain enc t counter cs locations
          → length locations ≡ length cs * total_shards enc.scheme
      length-Backed counter [] locations a b = omega (arith, ap length b)
      length-Backed counter (c ∷ cs) locations ((_, small), a)
            (shards, front, rest, coded, all, count, holds, indexed, b) =
          let whole = length-coded_chunk c shards small coded in
          let total = length-Backed (counter + length shards) cs rest a b in
          ap length all ∙ length-append front rest ∙ omega (arith, count, whole, total)

      module _ (net : Network) (t2 : Tree) where
        -- Of a backup whose shards are the same or gone, and enough of every group are left, every
        -- chunk can be recovered.
        pub Backed-Recoverable :
            (counter : ℕ) (cs : List Chunk) (locations : List ShardLocation)
            → All (IsHashed tools.sha256 default_chunk_size) cs
            → Backed tools nonces file_key id plain enc t counter cs locations
            → Damaged
                (raw_shards tools alone file_key id t locations)
                (raw_shards tools net file_key id t2 locations)
            → EnoughLeft enc.scheme (length cs) (raw_shards tools net file_key id t2 locations)
            → Recoverable tools enc laws some_data zstd file_key id net t2 nonces cs locations
        Backed-Recoverable counter [] locations a b d k = b
        Backed-Recoverable counter (c ∷ cs) locations ((_, small), a)
              (shards, front, rest, coded, all, count, holds, indexed, b) d (k, ks) =
            let n : ℕ = total_shards enc.scheme in
            let whole = length-coded_chunk c shards small coded in
            let before =
              ap (raw_shards tools alone file_key id t) all
              ∙ raw_shards-append alone t front rest in
            let after =
              ap (raw_shards tools net file_key id t2) all ∙ raw_shards-append net t2 front rest in
            let first : List Bytes = raw_shards tools net file_key id t2 front in
            let later : List Bytes = raw_shards tools net file_key id t2 rest in
            let size : n ≡ length first =
              sym whole ∙ sym count ∙ sym (length-raw_shards net t2 front) in
            let both =
              Damaged-append (raw_shards tools alone file_key id t front)
                (raw_shards tools alone file_key id t rest) first later
                (length-raw_shards net t2 front ∙ sym (length-raw_shards alone t front))
                (subst (λ (x : List Bytes). Damaged x (first ++ later)) before
                  (subst
                    (λ (y : List Bytes). Damaged (raw_shards tools alone file_key id t locations) y)
                    after d)) in
            let taken : take n (raw_shards tools net file_key id t2 locations) ≡ first =
              ap (take n) after
              ∙ ap (λ (i : ℕ). take i (first ++ later)) size
              ∙ take-append_length first later in
            let dropped : drop n (raw_shards tools net file_key id t2 locations) ≡ later =
              ap (drop n) after
              ∙ ap (λ (i : ℕ). drop i (first ++ later)) size
              ∙ drop-append_length first later in
            let more =
              Backed-Recoverable (counter + length shards) cs rest a b both.1
                (subst (EnoughLeft enc.scheme (length cs)) dropped ks) in
            (
              shards,
              front,
              rest,
              coded,
              fits _ small,
              all,
              count ∙ whole,
              subst (λ (x : List Bytes). Damaged x first)
                  (raw_shards-Holds counter shards front count indexed holds) both.0,
              subst (λ (x : List Bytes). enc.scheme.data_shards ≤ survivors x) taken k,
              more,
            )
