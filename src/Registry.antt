-- ===== src/Registry.antt =====
-- internal/buddy/registry.go: the known buddies, in memory and in one encrypted file that every
-- operation reads again first.
pub mod Lookups
pub mod Examples
use cerclbackup.Prelude.{
  ℕ, Bool, true, false, Option, none, some, List, [], ◌∷◌, if◌then◌else◌, ◌==◌, nat_eq, list_eq,
  Bytes, Text, lookup, insert, erase, Result, ok, err,
}

pub record Entry : Type 0 where
  pub peer_id : Text
  pub pub_key : Bytes
  pub friendly_name : Text
  pub addrs : List Text
  pub added_at : ℕ

-- The registry's file. `broken` is one that cannot be read, decrypted or parsed.
pub data RegistryFile : Type 0 where
  absent broken : RegistryFile
  saved : List Entry → RegistryFile

-- Where `writable` is false save fails and the file stays.
pub record Registry : Type 0 where
  pub file : RegistryFile
  pub writable : Bool
  pub by_peer_id : List (Text × Entry)

pub data RegistryError : Type 0 where
  load_failed save_failed : RegistryError

-- The map of the entries of a file; a later entry replaces an earlier one.
unfoldable pub index_entries : List (Text × Entry) → List Entry → List (Text × Entry)
index_entries fresh [] = fresh
index_entries fresh (e ∷ entries) = index_entries (insert e.peer_id e fresh) entries

unfoldable pub entries_of : List (Text × Entry) → List Entry
entries_of [] = []
entries_of ((k, e) ∷ m) = e ∷ entries_of m

-- load: whether it succeeded. Where there is no file the map in memory stays.
unfoldable pub load : Registry → Bool × Registry
unfolding index_entries
load r = elim r.file [
  | absent ↦ (true, r)
  | broken ↦ (false, r)
  | saved entries ↦ (true, record r { by_peer_id = index_entries [] entries })
]

-- save
unfoldable pub save : Registry → Result RegistryError (Unit {0}) × Registry
unfolding entries_of
save r =
    if r.writable
    then (ok tt, record r { file = saved (entries_of r.by_peer_id) })
    else (err save_failed, r)

-- An operation on the registry as it was loaded, or what it returns when that fails.
unfoldable pub loaded {ℓ} : {A : Type ℓ} → A → (Registry → A × Registry) → Registry → A × Registry
unfolding load
loaded failed f r = let (fine, r') = load r in if fine then f r' else (failed, r')

unfoldable pub stamped : ℕ → Entry → Entry
stamped now e = if e.added_at == 0 then record e { added_at = now } else e

-- Add(e) at the time `now`
unfoldable pub add : ℕ → Entry → Registry → Result RegistryError (Unit {0}) × Registry
unfolding loaded save stamped
add now e =
    loaded (err load_failed)
      λ r. save (record r { by_peer_id = insert e.peer_id (stamped now e) r.by_peer_id })

-- UpdateAddrs(peerID, addrs)
unfoldable pub update_addrs : Text → List Text → Registry → Unit {0} × Registry
unfolding loaded save
update_addrs peer addrs = loaded tt λ r. elim (lookup peer r.by_peer_id) [
  | none ↦ (tt, r)
  | some e ↦ (
    tt,
    (save (record r { by_peer_id = insert peer (record e { addrs = addrs }) r.by_peer_id })).1,
  )
]

-- Remove(peerID)
unfoldable pub remove : Text → Registry → Result RegistryError (Unit {0}) × Registry
unfolding loaded save
remove peer = loaded (err load_failed) λ r. save (record r { by_peer_id = erase peer r.by_peer_id })

-- Get(peerID)
unfoldable pub get : Text → Registry → Option Entry × Registry
unfolding loaded
get peer = loaded none λ r. (lookup peer r.by_peer_id, r)

-- IsKnown(peerID)
unfoldable pub is_known : Text → Registry → Bool × Registry
unfolding loaded
is_known peer =
    loaded false λ r. (elim (lookup peer r.by_peer_id) [ none ↦ false | some e ↦ true ], r)

-- List
unfoldable pub list : Registry → List Entry × Registry
unfolding loaded entries_of
list = loaded [] λ r. (entries_of r.by_peer_id, r)
