-- ===== src/Keystore/Unlocking.antt =====
-- What was saved is unlocked.
use cerclbackup.Prelude.{
  ℕ, ◌≡◌, refl, sym, ap, ◌∙◌, subst, inl, inr, Bool, true, Option, some, ◌++◌, arith, if◌then◌else◌,
  Bool-cases, Option-cases, ◌==◌, nat_eq, list_eq, Bytes, Text, length, take, drop, length-append,
  take-append_length, drop-append_length, insert, lookup-insert, Result, ok, Result-cases,
}
use cerclbackup.Disk.{File, holds, read_file, write_file}
use cerclbackup.Crypto.{Primitives, Argon2, derive_key, encrypt, decrypt}
use cerclbackup.Crypto.RoundTrip.{IsAead, decrypt-encrypt}
use cerclbackup.Keystore.{
  Keystore, KeystoreForm, KeystoreError, salt_size, sealed_form, save, opened, unlock, store_extra,
  load_extra,
}
use mathlib.Core.Path.{ap₂}

module _ (c : Primitives) (argon2 : Argon2) (marshal : KeystoreForm → Option Bytes)
    (unmarshal : Bytes → Option KeystoreForm) where
  abbrev form_of : Keystore → KeystoreForm
  form_of k = record { master_key = k.master_key; salt = k.salt; extras = k.extras }

  -- The JSON form of the keystore parses to what it was made of, and Argon2's keys have 32 bytes.
  pub record IsFaithful (k : Keystore) : Type 0 where
    pub aead_laws : IsAead c
    pub parses : (p : Bytes) → marshal (form_of k) ≡ some p → unmarshal p ≡ some (form_of k)
    pub keys : (password salt : Bytes) → length (derive_key argon2 password salt) ≡ 32

  -- The bytes of a save that goes well.
  save_inv :
      (nonce : Option Bytes) (password : Bytes) (writable : Bool) (k : Keystore) (f f' : File)
      → save c argon2 marshal unmarshal nonce password writable k f ≡ (ok tt, f')
      → (plaintext encrypted : Bytes) × (marshal (form_of k) ≡ some plaintext)
        × (encrypt c nonce (derive_key argon2 password k.salt) plaintext ≡ ok encrypted)
        × (f' ≡ holds (k.salt ++ encrypted))
  unfolding save sealed_form write_file
  save_inv nonce password writable k f f' h = elim (Option-cases (marshal (form_of k))) [
    | inl m ↦ absurd (ground (arith, h, m))
    | inr (plaintext, m) ↦
        elim (Result-cases (encrypt c nonce (derive_key argon2 password k.salt) plaintext)) [
          | inr (x, e) ↦ absurd (ground (arith, h, m, e))
          | inl (encrypted, e) ↦ elim (Bool-cases writable) [
            | inr w ↦ absurd (ground (arith, h, m, e, w))
            | inl w ↦ (plaintext, encrypted, m, e, ground (arith, h, m, e, w))
          ]
        ]
  ]

  opened_lem :
      (nonce password plaintext encrypted : Bytes) (k : Keystore)
      → IsFaithful k
      → length nonce ≡ 12
      → length k.salt ≡ salt_size
      → marshal (form_of k) ≡ some plaintext
      → encrypt c (some nonce) (derive_key argon2 password k.salt) plaintext ≡ ok encrypted
      → opened c argon2 marshal unmarshal password (k.salt ++ encrypted)
        ≡ ok (record k { unlocked = true })
  unfolding opened
  opened_lem nonce password plaintext encrypted k laws n s m e =
      let key : Bytes = derive_key argon2 password k.salt in
      let (blob, sealed, back) =
        decrypt-encrypt c key nonce plaintext laws.aead_laws (laws.keys password k.salt) n in
      let same : blob ≡ encrypted = ground (arith, sealed, e) in
      let opens : decrypt c key encrypted ≡ ok plaintext =
        subst (λ (b : Bytes). decrypt c key b ≡ ok plaintext) same back in
      let front : take 16 (k.salt ++ encrypted) ≡ k.salt =
        ap (λ (i : ℕ). take i (k.salt ++ encrypted)) (sym s)
        ∙ take-append_length k.salt encrypted in
      let rest : drop 16 (k.salt ++ encrypted) ≡ encrypted =
        ap (λ (i : ℕ). drop i (k.salt ++ encrypted)) (sym s)
        ∙ drop-append_length k.salt encrypted in
      ground (arith, s, length-append k.salt encrypted, front, rest, opens, laws.parses plaintext m)

  -- Over a cipher, Argon2 and JSON as documented, for a salt of 16 bytes and a nonce of 12: after a
  -- save that succeeds, Unlock with the same password succeeds on every keystore over that file,
  -- with the keys, the salt and the extras that were saved.
  pub unlock-save :
      (nonce password : Bytes) (writable : Bool) (k other : Keystore) (f f' : File)
      → IsFaithful k
      → length nonce ≡ 12
      → length k.salt ≡ salt_size
      → save c argon2 marshal unmarshal (some nonce) password writable k f ≡ (ok tt, f')
      → unlock c argon2 marshal unmarshal password other f' ≡ (ok tt, record k { unlocked = true })
  unfolding unlock read_file
  unlock-save nonce password writable k other f f' laws n s h =
      let (plaintext, encrypted, m, e, written) =
        save_inv (some nonce) password writable k f f' h in
      let back = opened_lem nonce password plaintext encrypted k laws n s m e in
      ground (arith, written, back)

  -- In the same circumstances: after a StoreExtra that succeeds, every keystore that is unlocked with
  -- the same password has under that name what was stored, and under every other name what the
  -- keystore had.
  pub load_extra-store_extra :
      (nonce password content : Bytes) (name asked : Text) (writable : Bool) (k k' other : Keystore)
      (f f' : File)
      → IsFaithful (record k { extras = insert name content k.extras })
      → length nonce ≡ 12
      → length k.salt ≡ salt_size
      → store_extra c argon2 marshal unmarshal (some nonce) name content password writable k f
        ≡ (ok tt, k', f')
      → ((unlock c argon2 marshal unmarshal password other f').0 ≡ ok tt)
        × (load_extra asked (unlock c argon2 marshal unmarshal password other f').1
            ≡ (if name == asked then content else load_extra asked k))
  unfolding store_extra load_extra
  load_extra-store_extra nonce password content name asked writable k k' other f f' laws n s h =
      let k1 : Keystore = record k { extras = insert name content k.extras } in
      elim (Bool-cases k.unlocked) [
        | inr closed ↦ absurd (ground (arith, h, closed))
        | inl unlocked ↦
            let saved : save c argon2 marshal unmarshal (some nonce) password writable k1 f
                ≡ (ok tt, f') =
              ap₂ (λ (a : Result KeystoreError (Unit {0})) (b : File). (a, b))
                (ground (arith, h, unlocked)) (ground (arith, h, unlocked)) in
            let back = unlock-save nonce password writable k1 other f f' laws n s saved in
            (
              rw back refl,
              rw (back, lookup-insert name asked content k.extras)
                  (elim (Bool-cases (name == asked)) [ inl q ↦ rw q refl | inr q ↦ rw q refl ]),
            )
      ]
