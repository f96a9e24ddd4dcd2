-- ===== src/Keystore.antt =====
-- internal/crypto/keystore.go: the master key and the extras, in one file under a password.
pub mod Unlocking
pub mod Examples
use mathlib.Core.Option
use cerclbackup.Prelude.{
  ℕ, Bool, true, false, not, Option, none, some, List, [], ◌++◌, ltb, if◌then◌else◌, nat_eq,
  list_eq, Bytes, Text, length, take, drop, lookup, insert, Result, ok, err,
}
use cerclbackup.Disk.{File, DiskError, read_file, write_file}
use cerclbackup.Crypto.{Primitives, CryptoError, Argon2, derive_key, encrypt, decrypt}

-- Keystore, without its path. A nil map of extras is the empty one.
pub record Keystore : Type 0 where
  pub master_key : Bytes
  pub salt : Bytes
  pub extras : List (Text × Bytes)
  pub unlocked : Bool

-- keystoreJSON
pub record KeystoreForm : Type 0 where
  pub master_key : Bytes
  pub salt : Bytes
  pub extras : List (Text × Bytes)

pub data KeystoreError : Type 0 where
  no_salt not_there too_short wrong_password parse_failed marshal_failed locked : KeystoreError
  not_encrypted : CryptoError → KeystoreError
  disk_failed : DiskError → KeystoreError

abbrev pub new_keystore : Keystore
new_keystore = record { master_key = []; salt = []; extras = []; unlocked = false }

abbrev pub salt_size : ℕ
salt_size = 16

-- The cipher, Argon2 under a password and a salt, and encoding/json.
module _ (c : Primitives) (argon2 : Argon2) (marshal : KeystoreForm → Option Bytes)
    (unmarshal : Bytes → Option KeystoreForm) where
  -- What save encrypts.
  unfoldable pub sealed_form : Option Bytes → Bytes → Keystore → Result KeystoreError Bytes
  sealed_form nonce password k =
      elim (marshal (record { master_key = k.master_key; salt = k.salt; extras = k.extras })) [
        | none ↦ err marshal_failed
        | some plaintext ↦ elim (encrypt c nonce (derive_key argon2 password k.salt) plaintext) [
          | err x ↦ err (not_encrypted x)
          | ok encrypted ↦ ok (k.salt ++ encrypted)
        ]
      ]

  -- save(password), with the nonce that Encrypt draws: the outcome, and the file.
  unfoldable pub save :
      Option Bytes → Bytes → Bool → Keystore → File → Result KeystoreError (Unit {0}) × File
  unfolding sealed_form
  save nonce password writable k f = elim (sealed_form nonce password k) [
    | err x ↦ (err x, f)
    | ok payload ↦
        let (written, f') = write_file writable payload f in
        elim written [ err x ↦ (err (disk_failed x), f') | ok u ↦ (ok tt, f') ]
  ]

  -- Create(password): `random` is the salt that NewSalt reads, if it can. The keystore is unlocked
  -- before it is saved.
  unfoldable pub create :
      Option Bytes
      → Option Bytes
      → Bytes
      → Bool
      → Keystore
      → File
      → Result KeystoreError (Unit {0}) × Keystore × File
  unfolding save
  create random nonce password writable k f = elim random [
    | none ↦ (err no_salt, k, f)
    | some salt ↦
        let k' : Keystore = record k {
          salt = salt;
          master_key = derive_key argon2 password salt;
          unlocked = true;
        } in
        let (saved, f') = save nonce password writable k' f in (saved, k', f')
  ]

  -- What Unlock makes of the file's bytes.
  unfoldable pub opened : Bytes → Bytes → Result KeystoreError Keystore
  opened password blob =
      if ltb (length blob) salt_size
      then err too_short
      else elim (decrypt c (derive_key argon2 password (take salt_size blob))
          (drop salt_size blob)) [
            | err x ↦ err wrong_password
            | ok plaintext ↦ elim (unmarshal plaintext) [
              | none ↦ err parse_failed
              | some form ↦ ok (record {
                master_key = form.master_key;
                salt = form.salt;
                extras = form.extras;
                unlocked = true;
              })
            ]
          ]

  -- Unlock(password): the outcome, and the keystore from then on.
  unfoldable pub unlock : Bytes → Keystore → File → Result KeystoreError (Unit {0}) × Keystore
  unfolding opened
  unlock password k f = elim (read_file f) [
    | err x ↦ (err (disk_failed x), k)
    | ok found ↦ elim found [
      | none ↦ (err not_there, k)
      | some blob ↦ elim (opened password blob) [ err x ↦ (err x, k) | ok k' ↦ (ok tt, k') ]
    ]
  ]

  -- Save(password)
  unfoldable pub save_unlocked :
      Option Bytes → Bytes → Bool → Keystore → File → Result KeystoreError (Unit {0}) × File
  unfolding save
  save_unlocked nonce password writable k f =
      if not k.unlocked then (err locked, f) else save nonce password writable k f

  -- StoreExtra(name, data, password): the extra stays in memory when it cannot be saved.
  unfoldable pub store_extra :
      Option Bytes
      → Text
      → Bytes
      → Bytes
      → Bool
      → Keystore
      → File
      → Result KeystoreError (Unit {0}) × Keystore × File
  unfolding save
  store_extra nonce name content password writable k f =
      if not k.unlocked
      then (err locked, k, f)
      else let k' : Keystore = record k { extras = insert name content k.extras } in
        let (saved, f') = save nonce password writable k' f in (saved, k', f')

-- MasterKey: it panics where it gives nothing here.
unfoldable pub master_key : Keystore → Option Bytes
master_key k = if not k.unlocked then none else some k.master_key

-- LoadExtra(name): nil, which is the empty slice, where there is none.
unfoldable pub load_extra : Text → Keystore → Bytes
load_extra name k = Option.get_or (lookup name k.extras) []
