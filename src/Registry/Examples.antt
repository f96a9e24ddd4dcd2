-- ===== src/Registry/Examples.antt =====
-- Two buddies, one of whom is removed.
use cerclbackup.Prelude.{
  ◌≡◌, refl, true, [], ◌∷◌, nat_eq, list_beq, list_eq, text, insert, erase, ok,
}
use cerclbackup.Registry.{
  Entry, saved, Registry, index_entries, entries_of, load, save, loaded, stamped, add, remove,
}

abbrev ann : Entry
ann = record {
  peer_id = text "ann";
  pub_key = 1 ∷ [];
  friendly_name = [];
  addrs = [];
  added_at = 5;
}

abbrev bob : Entry
bob = record {
  peer_id = text "bob";
  pub_key = 2 ∷ [];
  friendly_name = [];
  addrs = [];
  added_at = 0;
}

abbrev start : Registry
start = record { file = saved (ann ∷ []); writable = true; by_peer_id = [] }

abbrev both : Registry
both = record {
  file = saved (ann ∷ record bob { added_at = 9 } ∷ []);
  writable = true;
  by_peer_id = (text "ann", ann) ∷ (text "bob", record bob { added_at = 9 }) ∷ [];
}

added_bob : add 9 bob start ≡ (ok tt, both)
unfolding add stamped loaded load save index_entries entries_of insert list_beq
added_bob = refl

removed_ann : remove (text "ann") both ≡ (
  ok tt,
  record {
    file = saved (record bob { added_at = 9 } ∷ []);
    writable = true;
    by_peer_id = (text "bob", record bob { added_at = 9 }) ∷ [];
  },
)
unfolding remove loaded load save index_entries entries_of insert erase list_beq
removed_ann = refl
