-- ===== src/Sender.antt =====
-- internal/p2p/sender.go and internal/manifdist/manifdist.go: what a node asks of its buddies. Each
-- call opens a stream, writes one message and reads one.
pub mod Delivery
pub mod Examples
use cerclbackup.Prelude.{
  ℕ, ◌+◌, Option, none, some, List, [], ◌∷◌, if◌then◌else◌, Bytes, Text, Result, ok, err,
}
use cerclbackup.Io.{Reader, Writer}
use cerclbackup.Wire.{WireError, write_msg, read_msg}
use cerclbackup.Handlers.{
  ShardPush, ShardRequest, ShardResponse, Ack, accepted, rejected, ManifestPush,
}

-- A stream to a peer: the side that takes the message, if NewStream succeeds, and what can be read
-- once the bytes of the message are written.
pub record Link : Type 0 where
  pub opened : Option Writer
  pub answer : Bytes → Reader

pub data SendError : Type 0 where
  no_stream refused not_held : SendError
  not_sent no_reply : WireError → SendError

-- encoding/json at a message and at its reply.
module _ {V W : Type 0} (marshal : V → Option Bytes) (unmarshal : Bytes → Option V)
    (marshal_reply : W → Option Bytes) (unmarshal_reply : Bytes → Option W) where
  -- NewStream, WriteMsg and ReadMsg, which all four calls begin with.
  unfoldable pub exchange : Link → V → Result SendError W
  exchange link message = elim link.opened [
    | none ↦ err no_stream
    | some out ↦ elim (write_msg marshal unmarshal out message) [
      | err x ↦ err (not_sent x)
      | ok sent ↦ elim (read_msg marshal_reply unmarshal_reply (link.answer sent.written)).0 [
        | err x ↦ err (no_reply x)
        | ok reply ↦ ok reply
      ]
    ]
  ]

-- What an acknowledgement means.
unfoldable pub acknowledged : Result SendError Ack → Result SendError (Unit {0})
acknowledged (err x) = err x
acknowledged (ok accepted) = ok tt
acknowledged (ok (rejected x)) = err refused

-- What a response to a request holds.
unfoldable pub held : Result SendError ShardResponse → Result SendError Bytes
held (err x) = err x
held (ok response) = if response.found then ok response.bytes else err not_held

-- The JSON forms of the messages for shards.
pub record ShardForms : Type 0 where
  pub print_push : ShardPush → Option Bytes
  pub read_push : Bytes → Option ShardPush
  pub print_ack : Ack → Option Bytes
  pub read_ack : Bytes → Option Ack
  pub print_request : ShardRequest → Option Bytes
  pub read_request : Bytes → Option ShardRequest
  pub print_response : ShardResponse → Option Bytes
  pub read_response : Bytes → Option ShardResponse

-- PushShard; the upload limit only takes time.
unfoldable pub push_shard : ShardForms → Link → ShardPush → Result SendError (Unit {0})
unfolding exchange acknowledged
push_shard j link push =
    acknowledged (exchange j.print_push j.read_push j.print_ack j.read_ack link push)

-- FetchShard
unfoldable pub fetch_shard : ShardForms → Link → ShardRequest → Result SendError Bytes
unfolding exchange held
fetch_shard j link request =
    held (exchange j.print_request j.read_request j.print_response j.read_response link request)

-- The JSON forms of the messages for manifests. A response has the blob, if there is one.
pub record ManifestForms : Type 0 where
  pub print_push : ManifestPush → Option Bytes
  pub read_push : Bytes → Option ManifestPush
  pub print_ack : Ack → Option Bytes
  pub read_ack : Bytes → Option Ack
  pub print_request : Text → Option Bytes
  pub read_request : Bytes → Option Text
  pub print_response : Option Bytes → Option Bytes
  pub read_response : Bytes → Option (Option Bytes)

-- PushToBuddy
unfoldable pub push_to_buddy : ManifestForms → Link → ManifestPush → Result SendError (Unit {0})
unfolding exchange acknowledged
push_to_buddy j link push =
    acknowledged (exchange j.print_push j.read_push j.print_ack j.read_ack link push)

-- PushToAll over the peers that are connected: how many took the manifest.
unfoldable pub push_to_all : ManifestForms → List Link → ManifestPush → ℕ
unfolding push_to_buddy
push_to_all j [] push = 0
push_to_all j (link ∷ links) push =
    let rest = push_to_all j links push in
    elim (push_to_buddy j link push) [ err x ↦ rest | ok u ↦ rest + 1 ]

-- PullFromBuddy
unfoldable pub pull_from_buddy : ManifestForms → Link → Text → Result SendError Bytes
unfolding exchange
pull_from_buddy j link owner =
    elim (exchange j.print_request j.read_request j.print_response j.read_response link owner) [
      | err x ↦ err x
      | ok found ↦ elim found [ none ↦ err not_held | some blob ↦ ok blob ]
    ]
