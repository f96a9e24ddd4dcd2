-- ===== src/Keystore/Examples.antt =====
-- An extra that is stored and read again, with a toy cipher.
use cerclbackup.Prelude.{
  ◌≡◌, refl, true, Option, some, [], ◌∷◌, ◌++◌, nat_eq, list_eq, Bytes, text, drop, replicate,
  insert, ok,
}
use cerclbackup.Disk.{File, absent, holds, write_file}
use cerclbackup.Crypto.{Primitives, Argon2, derive_key, new_cipher, encrypt}
use cerclbackup.Keystore.{
  Keystore, KeystoreForm, new_keystore, sealed_form, save, unlock, store_extra,
}
use cerclbackup.Keystore.Unlocking.{IsFaithful, unlock-save}

abbrev toy : Primitives
toy = record {
  expand = λ secret salt info. some (replicate 32 1);
  seal = λ key nonce plaintext. 9 ∷ plaintext;
  unseal = λ key nonce blob. some (drop 1 blob);
}

abbrev argon : Argon2
argon = λ password salt time memory threads size. replicate 32 3

abbrev before : Keystore
before = record { master_key = replicate 32 3; salt = replicate 16 5; extras = []; unlocked = true }

abbrev with_peer : Keystore
with_peer = record before { extras = (text "peer", 7 ∷ []) ∷ [] }

-- A JSON form that is read back as this one keystore.
abbrev printed : KeystoreForm → Option Bytes
printed form = some (2 ∷ [])

abbrev read_form : Bytes → Option KeystoreForm
read_form b = some (record {
  master_key = replicate 32 3;
  salt = replicate 16 5;
  extras = (text "peer", 7 ∷ []) ∷ [];
})

abbrev saved_file : File
saved_file = holds (replicate 16 5 ++ (replicate 12 0 ++ (9 ∷ 2 ∷ [])))

laws : IsFaithful toy argon printed read_form with_peer
unfolding derive_key
laws = record {
  aead_laws = record {
    opens = λ key nonce plaintext. refl;
    expands = λ secret salt info. (replicate 32 1, refl, refl);
  };
  parses = λ p h. refl;
  keys = λ password salt. refl;
}

saved_well :
    save toy argon printed read_form (some (replicate 12 0)) (text "pw") true with_peer absent
    ≡ (ok tt, saved_file)
unfolding save sealed_form encrypt new_cipher write_file derive_key
saved_well = refl

stored_well :
    store_extra toy argon printed read_form
      (some (replicate 12 0))
      (text "peer")
      (7 ∷ [])
      (text "pw")
      true
      before
      absent
    ≡ (ok tt, with_peer, saved_file)
unfolding store_extra save sealed_form encrypt new_cipher write_file derive_key insert
stored_well = refl

unlock-save_example :
    unlock toy argon printed read_form (text "pw") new_keystore saved_file
    ≡ (ok tt, record with_peer { unlocked = true })
unlock-save_example =
    unlock-save toy argon printed read_form (replicate 12 0) (text "pw") true with_peer new_keystore
      absent saved_file laws refl refl saved_well

laws_after :
    IsFaithful toy argon printed read_form
      (record before { extras = insert (text "peer") (7 ∷ []) before.extras })
unfolding insert
laws_after = laws
