-- ===== src/Circle/Names.antt =====
-- No two circles ever have one name, in memory or in the keystore.
use cerclbackup.Prelude.{
  ◌≡◌, refl, inl, inr, Bool, false, none, some, List, [], ◌∷◌, ◌++◌, if◌then◌else◌, Bool-cases,
  ◌==◌, nat_eq, list_eq, Text,
}
use cerclbackup.Circle.{
  Circle, Extra, missing, unparsable, circles_v1, Manager, Fresh, find, list, get, add,
  get_or_default, remove, keystore_saved, restarted, reopened,
}

-- No circle of the list has a name that a later one has.
abbrev pub UniqueNames : List Circle → Type 0
UniqueNames [] = Unit
UniqueNames (c ∷ cs) = (find c.name cs ≡ none) × UniqueNames cs

-- The names in an extra.
abbrev pub ExtraUnique : Extra → Type 0
ExtraUnique missing = Unit
ExtraUnique unparsable = Unit
ExtraUnique (circles_v1 cs) = UniqueNames cs

abbrev pub IsUnique : Manager → Type 0
IsUnique m = UniqueNames m.circles × ExtraUnique m.extra × ExtraUnique m.disk

pub find-append :
    (name : Text) (cs : List Circle) (c : Circle)
    → find name (cs ++ (c ∷ []))
      ≡ elim (find name cs) [ some d ↦ some d | none ↦ if c.name == name then some c else none ]
unfolding find
find-append name [] c = refl
find-append name (d ∷ cs) c = elim (Bool-cases (d.name == name)) [
  | inl t ↦ rw t
  | inr t ↦ rw t (find-append name cs c)
]

-- The managers that arise from an empty keystore by any sequence of operations, in which saves may
-- fail, the keystore may be saved for other reasons, and a new manager may start over the keystore in
-- memory or over its file.
pub data Reached : Manager → Type 0 where
  start :
      (w : Bool)
      → Reached (record {
        extra = missing;
        disk = missing;
        writable = w;
        circles = [];
        is_loaded = false;
      })
  reopen : (m : Manager) → Reached m → Reached (reopened m)
  restart : (m : Manager) → Reached m → Reached (restarted m)
  other_save : (m : Manager) → Reached m → Reached (keystore_saved m)
  disk_changes : (m : Manager) (w : Bool) → Reached m → Reached (record m { writable = w })
  lists : (m : Manager) → Reached m → Reached (list m).1
  gets : (name : Text) (m : Manager) → Reached m → Reached (get name m).1
  gets_default :
      (name : Text) (f : Fresh) (m : Manager) → Reached m → Reached (get_or_default name f m).1
  adds :
      (name scheme : Text) (f : Fresh) (m : Manager) → Reached m → Reached (add name scheme f m).1
  removes : (name : Text) (m : Manager) → Reached m → Reached (remove name m).1
