-- ===== src/Sender/Examples.antt =====
-- The push and the fetch of one shard, with JSON forms for just these messages.
use cerclbackup.Prelude.{◌≡◌, refl, ap, true, some, [], ◌∷◌, arith, ok}
use cerclbackup.Wire.Framing.{IsPortable}
use cerclbackup.Handlers.{handle_shard, ShardRequest, ShardResponse, Ack, accepted}
use cerclbackup.Handlers.Examples.{bob, host, node, push, bob_pushes}
use cerclbackup.Sender.{acknowledged, ShardForms, push_shard, fetch_shard}
use cerclbackup.Sender.Delivery.{exchange-served, push_link, pull_link, fetch_shard-push_shard}

abbrev pub asked : ShardRequest
asked = record { owner_id = bob; file_id = push.file_id; shard_index = push.shard_index }

abbrev pub answered : ShardResponse
answered = record {
  file_id = push.file_id;
  shard_index = push.shard_index;
  bytes = push.bytes;
  found = true;
}

abbrev pub forms : ShardForms
forms = record {
  print_push = λ m. some (1 ∷ []);
  read_push = λ b. some push;
  print_ack = λ m. some (2 ∷ []);
  read_ack = λ b. some accepted;
  print_request = λ m. some (3 ∷ []);
  read_request = λ b. some asked;
  print_response = λ m. some (4 ∷ []);
  read_response = λ b. some answered;
}

ack-IsPortable :
    (a : Ack)
    → (handle_shard host bob (ok push) node).0 ≡ some a
    → IsPortable forms.print_ack forms.read_ack a
ack-IsPortable a h =
    let same : a ≡ accepted = ground (arith, h, bob_pushes) in
    rw same (2 ∷ [], refl, refl, (omega arith, omega arith))

push_goes_well : push_shard forms (push_link forms host bob node) push ≡ ok tt
unfolding push_shard acknowledged
push_goes_well = ap acknowledged (
    exchange-served forms.print_push forms.read_push forms.print_ack forms.read_ack push
      (λ m. (handle_shard host bob m node).0) accepted
      (1 ∷ [], refl, refl, (omega arith, omega arith))
      (2 ∷ [], refl, refl, (omega arith, omega arith)) bob_pushes)

fetch_shard-push_shard_example :
    fetch_shard forms (pull_link forms host bob (handle_shard host bob (ok push) node).1) asked
    ≡ ok (7 ∷ 8 ∷ [])
fetch_shard-push_shard_example =
    fetch_shard-push_shard forms host bob node push (1 ∷ [], refl, refl, (omega arith, omega arith))
      ack-IsPortable (3 ∷ [], refl, refl, (omega arith, omega arith))
      (4 ∷ [], refl, refl, (omega arith, omega arith)) push_goes_well
