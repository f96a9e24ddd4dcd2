-- ===== src/Restore/Integrity.antt =====
-- What a restore that succeeds promises, whatever the store and the buddies hold.
use cerclbackup.Prelude.{
  ℕ, zero, suc, ◌/◌, ◌%◌, ◌≡◌, refl, sym, ap, ◌∙◌, subst, ◌≢◌, inl, inr, Bool, Option, none, some,
  List, [], ◌∷◌, ◌++◌, append-nil, append_assoc, arith, Bool-cases, Option-cases, ◌==◌, beq_iff,
  nat_eq, list_eq, Bytes, Text, length, take, drop, Result, ok, err, Result-cases,
}
use cerclbackup.Io.{Writer, write, write_sound}
use cerclbackup.Protocol.{total_shards, ShardLocation, ManifestEntry}
use cerclbackup.Codec.{Encoder}
use cerclbackup.Crypto.{derive_file_key}
use cerclbackup.Files.{Tree}
use cerclbackup.Hex.{to_hex}
use cerclbackup.Manifest.{Entries}
use cerclbackup.Backup.{Tools, file_id_from_hash, new_encoder}
use cerclbackup.Restore.{
  Request, RestoreError, chosen_entry, hex_to_hash, Network, chunk_data, restore_loop, checked,
  restore_entry, restore,
}

-- The pieces that were written, and their hashes, one behind the other.
abbrev pub all_of : List Bytes → Bytes
all_of [] = []
all_of (b ∷ bs) = b ++ all_of bs

abbrev pub all_hashes : (Bytes → Bytes) → List Bytes → Bytes
all_hashes sha256 [] = []
all_hashes sha256 (b ∷ bs) = sha256 b ++ all_hashes sha256 bs

restore_loop_sound :
    (tools : Tools) (net : Network) (file_key : Bytes) (id : Text) (t : Tree) (enc : Encoder)
    (entry : ManifestEntry) (chunks : ℕ) (locations : List ShardLocation) (hashes h : Bytes)
    (out out' : Writer)
    → restore_loop tools net file_key id t enc entry chunks locations hashes out ≡ (ok h, out')
    → (pieces : List Bytes) × (length pieces ≡ chunks)
      × (h ≡ hashes ++ all_hashes tools.sha256 pieces)
      × (out'.written ≡ out.written ++ all_of pieces)
unfolding restore_loop
restore_loop_sound tools net file_key id t enc entry zero locations hashes h out out' e = (
  [],
  refl,
  ground (arith, e, append-nil hashes),
  ap (λ (o : Result RestoreError Bytes × Writer). o.1.written) (sym e)
      ∙ sym (append-nil out.written),
)
restore_loop_sound tools net file_key id t enc entry (suc chunks) locations hashes h out out' e =
    let n : ℕ = total_shards enc.scheme in
    elim (Result-cases
      (chunk_data tools net file_key id t enc entry (chunks == 0) (take n locations))) [
        | inr (x, c) ↦ absurd (ground (arith, e, c))
        | inl (b, c) ↦ elim (Result-cases (write out b)) [
          | inr (x, w) ↦ absurd (ground (arith, e, c, w))
          | inl (out1, w) ↦
              let (pieces, count, hashed, written) =
                restore_loop_sound tools net file_key id t enc entry chunks (drop n locations)
                  (hashes ++ tools.sha256 b) h out1 out' (ground (arith, e, c, w)) in
              (
                b ∷ pieces,
                ap suc count,
                hashed ∙ append_assoc hashes (tools.sha256 b) (all_hashes tools.sha256 pieces),
                written
                    ∙ ap (λ (x : Bytes). x ++ all_of pieces) (write_sound out out1 b w)
                    ∙ append_assoc out.written b (all_of pieces),
              )
        ]
      ]

-- A check that succeeds gives the entry.
checked-entry :
    (tools : Tools) (entry e : ManifestEntry) (outcome : Result RestoreError Bytes × Writer)
    (content : Option Bytes)
    → checked tools entry outcome ≡ (ok e, content)
    → e ≡ entry
unfolding checked
checked-entry tools entry e (err x, out) content h = absurd (ground (arith, h))
checked-entry tools entry e (ok hashes, out) content h = ground (arith, h)

-- The check of the hash: what it lets through has the hash of the entry.
checked_sound :
    (tools : Tools) (entry e : ManifestEntry) (outcome : Result RestoreError Bytes × Writer)
    (content : Option Bytes)
    → entry.hash ≢ []
    → checked tools entry outcome ≡ (ok e, content)
    → (hashes : Bytes) × (outcome ≡ (ok hashes, outcome.1))
      × (e ≡ entry)
      × (content ≡ some outcome.1.written)
      × (to_hex (tools.sha256 hashes) ≡ entry.hash)
unfolding checked
checked_sound tools entry e (err x, out) content some_hash h = absurd (ground (arith, h))
checked_sound tools entry e (ok hashes, out) content some_hash h =
    let agree : Bool = to_hex (tools.sha256 hashes) == entry.hash in
    elim (Bool-cases (entry.hash == [])) [
      | inl empty ↦ absurd (some_hash ((beq_iff entry.hash []).0 empty))
      | inr given ↦ elim (Bool-cases agree) [
        | inr differ ↦ absurd (ground (arith, h, given, differ))
        | inl same ↦ (
          hashes,
          refl,
          ground (arith, h, given, same),
          ground (arith, h, given, same),
          (beq_iff (to_hex (tools.sha256 hashes)) entry.hash).0 same,
        )
      ]
    ]

-- A restore of an entry that succeeds went through its loop and its check.
restore_entry_inv :
    (tools : Tools) (net : Network) (master_key : Bytes) (opened_out : Writer) (t : Tree)
    (asked entry : ManifestEntry) (content : Option Bytes)
    → restore_entry tools net master_key (some opened_out) t asked ≡ (ok entry, content)
    → (length asked.shards % total_shards asked.scheme ≡ 0)
      × ((hash key : Bytes) × (enc : Encoder) × (checked tools asked (
              restore_loop tools net key
                (file_id_from_hash hash)
                t
                enc
                asked
                (length asked.shards / total_shards asked.scheme)
                asked.shards
                []
                opened_out)
            ≡ (ok entry, content)))
unfolding restore_entry
restore_entry_inv tools net master_key opened_out t asked entry content h =
    elim (Option-cases (hex_to_hash asked.hash)) [
      | inl a ↦ absurd (ground (arith, h, a))
      | inr (hash, a) ↦ elim (Result-cases (derive_file_key tools.crypto master_key hash)) [
        | inr (x, b) ↦ absurd (ground (arith, h, a, b))
        | inl (key, b) ↦ elim (Option-cases (new_encoder tools asked.scheme)) [
          | inl c ↦ absurd (ground (arith, h, a, b, c))
          | inr (enc, c) ↦
              elim (Bool-cases (length asked.shards % total_shards asked.scheme == 0)) [
                | inr d ↦ absurd (ground (arith, h, a, b, c, d))
                | inl d ↦ (
                  (beq_iff (length asked.shards % total_shards asked.scheme) 0).0 d,
                  (hash, key, enc, ground (arith, h, a, b, c, d)),
                )
              ]
        ]
      ]
    ]

-- Whatever the store, the buddies and the libraries give back: if Restore succeeds with an entry
-- that has a hash, the entry is the one that was asked for, it has a whole number of groups of
-- shards, and the output is the concatenation of that many pieces whose hashes, one behind the
-- other, have the hash of the entry.
pub restore_sound :
    (tools : Tools) (net : Network) (master_key : Bytes) (t : Tree) (m : Entries)
    (request : Request) (entry : ManifestEntry) (content : Option Bytes)
    → entry.hash ≢ []
    → restore tools net master_key (some (record { written = []; room = none })) t m request
      ≡ (ok entry, content)
    → (chosen_entry request m ≡ some entry)
      × ((pieces : List Bytes) × (length pieces ≡ length entry.shards / total_shards entry.scheme)
          × (length entry.shards % total_shards entry.scheme ≡ 0)
          × (content ≡ some (all_of pieces))
          × (to_hex (tools.sha256 (all_hashes tools.sha256 pieces)) ≡ entry.hash))
unfolding restore
restore_sound tools net master_key t m request entry content some_hash h =
    elim (Option-cases (chosen_entry request m)) [
      | inl a ↦ absurd (ground (arith, h, a))
      | inr (asked, a) ↦
          let opened_out : Writer = record { written = []; room = none } in
          let (even, (hash, key, enc, c)) =
            restore_entry_inv tools net master_key opened_out t asked entry content
              (ground (arith, h, a)) in
          let loop : Result RestoreError Bytes × Writer =
            restore_loop tools net key (file_id_from_hash hash) t enc asked
              (length asked.shards / total_shards asked.scheme) asked.shards [] opened_out in
          let same : entry ≡ asked = checked-entry tools asked entry loop content c in
          let (hashes, ran, _, out, agree) =
            checked_sound tools asked entry loop content
              (λ e. some_hash (ap (λ (x : ManifestEntry). x.hash) same ∙ e)) c in
          let (pieces, count, hashed, written) =
            restore_loop_sound tools net key (file_id_from_hash hash) t enc asked
              (length asked.shards / total_shards asked.scheme) asked.shards [] hashes opened_out
              loop.1 ran in
          let parts =
            subst
              (λ (e : ManifestEntry).
                (some asked ≡ some e)
                × ((pieces : List Bytes) × (length pieces ≡ length e.shards / total_shards e.scheme)
                    × (length e.shards % total_shards e.scheme ≡ 0)
                    × (content ≡ some (all_of pieces))
                    × (to_hex (tools.sha256 (all_hashes tools.sha256 pieces)) ≡ e.hash)))
              (sym same)
              (
                refl,
                (
                  pieces,
                  count,
                  even,
                  out ∙ ap some written,
                  ap (λ (b : Bytes). to_hex (tools.sha256 b)) (sym hashed) ∙ agree,
                ),
              ) in
          (a ∙ parts.0, parts.1)
    ]
