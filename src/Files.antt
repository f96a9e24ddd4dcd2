-- ===== src/Files.antt =====
-- The file tree under which shards are kept: path/filepath and os, as internal/buddy uses them.
-- A path is its list of components, the last one first.
pub mod Decimal
pub mod Paths
pub mod Access
use cerclbackup.Prelude.{
  Bool, true, false, not, ◌&&◌, ◌||◌, none, some, List, [], ◌∷◌, ◌++◌, if◌then◌else◌, ◌==◌, nat_eq,
  list_eq, Bytes, Text, text, lookup, insert, erase, Result, ok, err,
}

abbrev pub FilePath : Type 0
FilePath = List Text

-- strings.Split(s, "/")
unfoldable pub split_slash : Text → Text → List Text
split_slash part [] = part ∷ []
split_slash part (c ∷ s) =
    let next = split_slash [] s in
    let same = split_slash (part ++ (c ∷ [])) s in if c == b'/' then part ∷ next else same

-- filepath.Clean, component by component, of a path from the root of the file system.
unfoldable pub enter : FilePath → Text → FilePath
enter p c =
    if c == text ""
    then p
    else if c == text "."
    then p
    else if c == text ".."
    then (elim p [ [] ↦ [] | x ∷ up ↦ up ])
    else c ∷ p

unfoldable pub enter_all : FilePath → List Text → FilePath
unfolding enter
enter_all p [] = p
enter_all p (c ∷ cs) = enter_all (enter p c) cs

-- filepath.Join(p, elements...)
unfoldable pub join : FilePath → List Text → FilePath
unfolding enter_all split_slash
join p [] = p
join p (s ∷ elements) = join (enter_all p (split_slash [] s)) elements

-- `Below p q`: q is p, or lies in the directory p.
unfoldable pub is_below : FilePath → FilePath → Bool
is_below p [] = p == []
is_below p (c ∷ q) = (p == (c ∷ q)) || is_below p q

-- The files of a disk. The system refuses to touch a path for which `fault` holds.
pub record Tree : Type 0 where
  pub files : List (FilePath × Bytes)
  pub fault : FilePath → Bool

pub data TreeError : Type 0 where
  refused no_file : TreeError

-- os.ReadFile
unfoldable pub read_file : Tree → FilePath → Result TreeError Bytes
read_file t p =
    if t.fault p
    then err refused
    else elim (lookup p t.files) [ none ↦ err no_file | some b ↦ ok b ]

-- Whether a file stands at a proper ancestor of the path, or in it as a directory.
unfoldable pub above_is_file : Tree → FilePath → Bool
above_is_file t [] = false
above_is_file t (c ∷ up) = elim (lookup up t.files) [ some b ↦ true | none ↦ above_is_file t up ]

unfoldable pub has_below : FilePath → List (FilePath × Bytes) → Bool
unfolding is_below
has_below p [] = false
has_below p ((q, b) ∷ files) = (is_below p q && not (q == p)) || has_below p files

-- os.MkdirAll of the directory of the path, and os.WriteFile: refused at a fault, below a file, or
-- at a directory.
unfoldable pub write_file : Tree → FilePath → Bytes → Result TreeError Tree
unfolding above_is_file has_below
write_file t p b =
    if t.fault p || (above_is_file t p || has_below p t.files)
    then err refused
    else ok (record t { files = insert p b t.files })

unfoldable pub erase_below : FilePath → List (FilePath × Bytes) → List (FilePath × Bytes)
unfolding is_below
erase_below p [] = []
erase_below p ((q, b) ∷ files) =
    let rest = erase_below p files in if is_below p q then rest else (q, b) ∷ rest

unfoldable pub fault_below : (FilePath → Bool) → FilePath → List (FilePath × Bytes) → Bool
unfolding is_below
fault_below fault p [] = false
fault_below fault p ((q, b) ∷ files) = (is_below p q && fault q) || fault_below fault p files

-- os.RemoveAll: refused at a fault of the path or of a file below it, and a path that is not there is no error.
unfoldable pub remove_all : Tree → FilePath → Result TreeError Tree
unfolding erase_below fault_below
remove_all t p =
    if t.fault p || fault_below t.fault p t.files
    then err refused
    else ok (record t { files = erase_below p t.files })

-- os.Remove of a file
unfoldable pub remove_file : Tree → FilePath → Result TreeError Tree
remove_file t p = if t.fault p then err refused else elim (lookup p t.files) [
  | none ↦ err no_file
  | some b ↦ ok (record t { files = erase p t.files })
]
