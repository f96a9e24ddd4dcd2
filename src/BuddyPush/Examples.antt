-- ===== src/BuddyPush/Examples.antt =====
-- One stored shard, and a buddy without an address.
use cerclbackup.Prelude.{
  ◌≤◌, ◌≡◌, refl, ◌⊎◌, true, false, none, List, [], ◌∷◌, Bytes, Text, text, length, In, ok,
}
use cerclbackup.Files.Decimal.{pos}
use cerclbackup.Protocol.{ShardLocation}
use cerclbackup.Storage.{store_get}
use cerclbackup.Backup.{location}
use cerclbackup.Registry.{Entry}
use cerclbackup.Queue.{PendingItem, items}
use cerclbackup.Sender.{Link, push_shard}
use cerclbackup.Sender.Examples.{forms}
use cerclbackup.BuddyPush.{Reachability, is_connected, deliver}
use cerclbackup.BuddyPush.Outcomes.{pending, deliver_lem}
use cerclbackup.Maintenance.Examples.{some_tools, stored}

abbrev pub dead_link : Link
dead_link = record { opened = none; answer = λ b. record { content = []; fails = false } }

abbrev network : Reachability
network = record {
  decodes = λ p. true;
  parses = λ a. true;
  connects = λ p addrs. true;
  link = λ p m. dead_link;
}

abbrev pub far_buddy : Entry
far_buddy = record {
  peer_id = text "bob";
  pub_key = [];
  friendly_name = [];
  addrs = [];
  added_at = 0;
}

abbrev only_shard : List ShardLocation
only_shard = location 0 false 0 0 ∷ []

abbrev me : Text
me = text "me"

abbrev file_name : Text
file_name = text "0707070707070707"

abbrev IsInStore : ShardLocation → Bytes → Type 0
IsInStore loc blob =
    store_get some_tools.root some_tools.marshal some_tools.unmarshal stored file_name
      (pos loc.shard_index)
    ≡ ok blob

deliver_lem_example :
    let (q, pushed) =
      deliver some_tools forms network me file_name stored only_shard far_buddy
        (record { file = items []; writable = true }) in
    ((is_connected some_tools forms network me file_name stored far_buddy ≡ false)
      × ((new : List PendingItem) × (q ≡ record { file = items new; writable = true })
          × ((loc : ShardLocation) (blob : Bytes)
              → In loc only_shard
              → IsInStore loc blob
              → In (pending me file_name (text "bob") loc blob) new)
          × ((item : PendingItem)
              → In item new
              → (loc : ShardLocation) × (blob : Bytes) × In loc only_shard
                × IsInStore loc blob
                × (item ≡ pending me file_name (text "bob") loc blob))))
    ⊎ ((is_connected some_tools forms network me file_name stored far_buddy ≡ true)
        × (q ≡ record { file = items []; writable = true })
        × (pushed ≤ length only_shard)
        × (pushed ≡ length only_shard
            → (loc : ShardLocation) → In loc only_shard
            → (blob : Bytes) × IsInStore loc blob
              × (push_shard forms
                    (network.link (text "bob") (pending me file_name (text "bob") loc blob).push)
                    (pending me file_name (text "bob") loc blob).push
                  ≡ ok tt)))
deliver_lem_example =
    deliver_lem some_tools forms network me file_name stored only_shard far_buddy [] refl
