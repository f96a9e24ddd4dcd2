-- ===== src/Manifest/Persist.antt =====
-- Load and Save of the manifest file. encoding/json and internal/crypto are parameters.
use cerclbackup.Prelude.{
  ◌≡◌, ◌⊎◌, inl, inr, Bool, Option, none, some, arith, Bool-cases, Option-cases, Bytes, Result, ok,
  err,
}
use cerclbackup.Disk.{
  File, absent, unreadable, holds, DiskError, not_read, not_opened, not_parsed, not_marshalled,
  not_sealed, not_written, write_file,
}
use cerclbackup.Manifest.{Entries}

module _ (marshal : Entries → Option Bytes) (unmarshal : Bytes → Option Entries)
    (encrypt decrypt : Bytes → Option Bytes) where
  unfoldable pub decoded : Option Bytes → Result DiskError Entries
  decoded none = err not_opened
  decoded (some plaintext) = elim (unmarshal plaintext) [ none ↦ err not_parsed | some d ↦ ok d ]

  -- Load: the entries in memory from then on.
  unfoldable pub load : File → Entries → Result DiskError Entries × Entries
  unfolding decoded
  load absent m = (ok m, m)
  load unreadable m = (err not_read, m)
  load (holds blob) m = elim (decoded (decrypt blob)) [ ok d ↦ (ok d, d) | err x ↦ (err x, m) ]

  -- EncryptedBytes: what Save would write.
  unfoldable pub encrypted_bytes : Entries → Result DiskError Bytes
  encrypted_bytes m = elim (marshal m) [
    | none ↦ err not_marshalled
    | some plaintext ↦ elim (encrypt plaintext) [ none ↦ err not_sealed | some c ↦ ok c ]
  ]

  -- Save: the outcome, and the file from then on.
  unfoldable pub save : Bool → Entries → File → Result DiskError (Unit {0}) × File
  unfolding encrypted_bytes write_file
  save writable m f = elim (encrypted_bytes m) [
    | err x ↦ (err x, f)
    | ok c ↦ write_file writable c f
  ]

  -- The JSON form of the entries parses to them, and what is encrypted decrypts.
  pub record IsFaithful (m : Entries) : Type 0 where
    pub parses : (p : Bytes) → marshal m ≡ some p → unmarshal p ≡ some m
    pub opens : (p c : Bytes) → encrypt p ≡ some c → decrypt c ≡ some p

  -- Where the JSON form of the entries parses to them and what is encrypted decrypts: after a Save
  -- that succeeds, Load reads the entries that were saved, whatever was in memory, and
  -- reports no error; a Save that fails leaves the file as it was.
  pub load-save :
      (m old : Entries) (writable : Bool) (f : File)
      → IsFaithful m
      → (((save writable m f).0 ≡ ok tt) × (load (save writable m f).1 old ≡ (ok m, m)))
        ⊎ ((x : DiskError) × ((save writable m f).0 ≡ err x) × ((save writable m f).1 ≡ f))
  unfolding save load
  load-save m old writable f faithful = elim (Option-cases (marshal m)) [
    | inl q ↦ inr (not_marshalled, ground (arith, q), ground (arith, q))
    | inr (p, q) ↦ elim (Option-cases (encrypt p)) [
      | inl r ↦ inr (not_sealed, ground (arith, q, r), ground (arith, q, r))
      | inr (c, r) ↦ elim (Bool-cases writable) [
        | inr w ↦ inr (not_written, ground (arith, q, r, w), ground (arith, q, r, w))
        | inl w ↦ inl (
          ground (arith, q, r, w),
          ground (arith, q, r, w, faithful.opens p c r, faithful.parses p q),
        )
      ]
    ]
  ]
