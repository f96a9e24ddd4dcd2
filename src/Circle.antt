-- ===== src/Circle.antt =====
-- internal/circle/circle.go: the named circles, in memory and in the extras of the keystore.
pub mod Names
pub mod Stored
pub mod Examples
use cerclbackup.Prelude.{
  ℕ, Bool, true, false, Option, none, some, List, [], ◌∷◌, ◌++◌, if◌then◌else◌, ◌==◌, nat_eq,
  list_eq, Bytes, Text, text, length, Result, ok, err,
}

pub record Circle : Type 0 where
  pub id : Text
  pub name : Text
  pub salt : Bytes
  pub scheme : Text
  pub created_at : ℕ

-- An extra "circles_v1": there is none, or one that does not parse, or a list.
pub data Extra : Type 0 where
  missing unparsable : Extra
  circles_v1 : List Circle → Extra

-- Manager with its keystore, which is unlocked: `extra` is what the keystore has in memory, which
-- LoadExtra reads, and `disk` what its file has; where `writable` is false the file cannot be written.
pub record Manager : Type 0 where
  pub extra : Extra
  pub disk : Extra
  pub writable : Bool
  pub circles : List Circle
  pub is_loaded : Bool

pub data CircleError : Type 0 where
  decode_failed store_failed salt_failed already_exists not_found : CircleError

-- What uuid.New, rand.Read and time.Now give to Add; `none` is a failure of rand.Read.
pub record Fresh : Type 0 where
  pub uuid : Text
  pub random : Option Bytes
  pub now : ℕ

-- load: whether it succeeded. Only the first one that succeeds reads the keystore.
unfoldable pub load : Manager → Bool × Manager
load m = if m.is_loaded then (true, m) else elim m.extra [
  | missing ↦ (true, record m { circles = []; is_loaded = true })
  | unparsable ↦ (false, m)
  | circles_v1 cs ↦ (true, record m { circles = cs; is_loaded = true })
]

-- save: StoreExtra replaces the extra in the keystore's memory, then writes the file. An extra that
-- cannot be written stays in memory.
unfoldable pub save : Manager → Result CircleError (Unit {0}) × Manager
save m =
    let stored : Manager = record m { extra = circles_v1 m.circles } in
    if m.writable
    then (ok tt, record stored { disk = circles_v1 m.circles })
    else (err store_failed, stored)

unfoldable pub find : Text → List Circle → Option Circle
find name [] = none
find name (c ∷ cs) = if c.name == name then some c else find name cs

-- List
unfoldable pub list : Manager → Result CircleError (List Circle) × Manager
unfolding load
list m = let (fine, m') = load m in if fine then (ok m'.circles, m') else (err decode_failed, m')

-- Get(name)
unfoldable pub get : Text → Manager → Result CircleError (Option Circle) × Manager
unfolding load find
get name m =
    let (fine, m') = load m in
    if fine then (ok (find name m'.circles), m') else (err decode_failed, m')

unfoldable pub new_circle : Text → Text → Fresh → Bytes → Circle
new_circle name scheme f salt = record {
  id = f.uuid;
  name = name;
  salt = salt;
  scheme = scheme;
  created_at = f.now;
}

-- Behind a save in Add: the new circle, or the error of the save.
unfoldable pub saved_circle :
    Circle → Result CircleError (Unit {0}) × Manager → Result CircleError Circle × Manager
saved_circle c (ok u, m) = (ok c, m)
saved_circle c (err x, m) = (err x, m)

-- Add behind load. A circle whose save fails stays in memory.
unfoldable pub add_loaded : Text → Text → Fresh → Manager → Result CircleError Circle × Manager
unfolding find save new_circle saved_circle
add_loaded name scheme f m = elim (find name m.circles) [
  | some c ↦ (err already_exists, m)
  | none ↦ elim f.random [
    | none ↦ (err salt_failed, m)
    | some salt ↦
        let c : Circle = new_circle name scheme f salt in
        saved_circle c (save (record m { circles = m.circles ++ (c ∷ []) }))
  ]
]

-- Add(name, scheme)
unfoldable pub add : Text → Text → Fresh → Manager → Result CircleError Circle × Manager
unfolding load add_loaded
add name scheme f m =
    let (fine, m') = load m in if fine then add_loaded name scheme f m' else (err decode_failed, m')

abbrev pub default_name : Text
default_name = text "Default"

-- GetOrDefault(name, password): the password is not used.
unfoldable pub get_or_default : Text → Fresh → Manager → Result CircleError Circle × Manager
unfolding get add
get_or_default name f m =
    let target : Text = if name == text "" then default_name else name in
    let (found, m') = get target m in
    elim found [
      | err x ↦ (err x, m')
      | ok (some c) ↦ (ok c, m')
      | ok none ↦
          if target == default_name then add default_name (text "3/2") f m' else (err not_found, m')
    ]

-- The loop of Remove.
unfoldable pub without : Text → List Circle → List Circle
without name [] = []
without name (c ∷ cs) = let rest = without name cs in if c.name == name then rest else c ∷ rest

unfoldable pub remove_loaded : Text → Manager → Result CircleError (Unit {0}) × Manager
unfolding without save
remove_loaded name m =
    if length (without name m.circles) == length m.circles
    then (err not_found, m)
    else save (record m { circles = without name m.circles })

-- Remove(name)
unfoldable pub remove : Text → Manager → Result CircleError (Unit {0}) × Manager
unfolding load remove_loaded
remove name m =
    let (fine, m') = load m in if fine then remove_loaded name m' else (err decode_failed, m')

-- Another save of the keystore writes the extras that it has in memory.
unfoldable pub keystore_saved : Manager → Manager
keystore_saved m = if m.writable then record m { disk = m.extra } else m

-- NewManager over the keystore after it is opened again from its file.
unfoldable pub restarted : Manager → Manager
restarted m = record m { extra = m.disk; circles = []; is_loaded = false }

-- NewManager over the keystore that a manager leaves.
unfoldable pub reopened : Manager → Manager
reopened m = record m { circles = []; is_loaded = false }
