-- ===== src/Files/Access.antt =====
-- Which files a write and a removal touch.
use cerclbackup.Prelude.{
  ◌≡◌, refl, Bool, false, none, some, List, [], ◌∷◌, arith, if◌then◌else◌, ◌==◌, beq_iff, nat_eq,
  list_eq, Bytes, lookup, insert, lookup-insert, ok,
}
use cerclbackup.Files.{FilePath, is_below, Tree, write_file, erase_below, fault_below, remove_all}

-- A write that succeeds sets its own file and leaves all others.
pub write_file_sound :
    (t t' : Tree) (p : FilePath) (b : Bytes)
    → write_file t p b ≡ ok t'
    → ((q : FilePath) → lookup q t'.files ≡ (if p == q then some b else lookup q t.files))
      × (t'.fault ≡ t.fault)
      × (t.fault p ≡ false)
unfolding write_file
write_file_sound t t' p b h =
    let same : t' ≡ record t { files = insert p b t.files } = ground arith in
    (λ q. rw same (lookup-insert p q b t.files), rw same, ground arith)

lookup-erase_below :
    (p q : FilePath) (files : List (FilePath × Bytes))
    → lookup q (erase_below p files) ≡ (if is_below p q then none else lookup q files)
unfolding erase_below lookup
lookup-erase_below p q [] = ground arith
lookup-erase_below p q ((r, b) ∷ files) = ground (arith, lookup-erase_below p q files, beq_iff r q)

pub fault_below-none :
    (fault : FilePath → Bool) (p : FilePath) (files : List (FilePath × Bytes))
    → ((q : FilePath) → fault q ≡ false)
    → fault_below fault p files ≡ false
unfolding fault_below
fault_below-none fault p [] sound = refl
fault_below-none fault p ((q, b) ∷ files) sound =
    ground (arith, sound q, fault_below-none fault p files sound)

-- RemoveAll removes what lies at and below its path, and nothing else.
pub remove_all_sound :
    (t t' : Tree) (p : FilePath)
    → remove_all t p ≡ ok t'
    → ((q : FilePath) → lookup q t'.files ≡ (if is_below p q then none else lookup q t.files))
      × (t'.fault ≡ t.fault)
unfolding remove_all
remove_all_sound t t' p h =
    let same : t' ≡ record t { files = erase_below p t.files } = ground arith in
    (λ q. rw same (lookup-erase_below p q t.files), rw same)
