-- ===== src/Handlers/Messages.antt =====
-- pkg/wire/messages.go: the messages on the four protocols.
use cerclbackup.Prelude.{Bool, Option, List, Bytes, Text}
use cerclbackup.Files.Decimal.{ℤ}
use cerclbackup.BuddyStore.{StoreError}

-- The messages, without their type fields.
pub record ShardPush : Type 0 where
  pub owner_id : Text
  pub file_id : Text
  pub shard_index : ℤ
  pub is_parity : Bool
  pub bytes : Bytes

pub record ShardRequest : Type 0 where
  pub owner_id : Text
  pub file_id : Text
  pub shard_index : ℤ

pub record ShardResponse : Type 0 where
  pub file_id : Text
  pub shard_index : ℤ
  pub bytes : Bytes
  pub found : Bool

-- Why a push is refused.
pub data PushError : Type 0 where
  not_in_registry owner_mismatch decode_failed : PushError
  store_failed : StoreError → PushError

-- ShardAck and ManifestAck, with OK set, or not set and the reason.
pub data Ack : Type 0 where
  accepted : Ack
  rejected : PushError → Ack

pub record InviteRequest : Type 0 where
  pub token : Bytes
  pub peer_id : Text
  pub pub_key : Bytes
  pub addrs : List Text

-- InviteResponse: OK with the own id and public key, or not OK.
pub data InviteResponse : Type 0 where
  welcome : Text → Bytes → InviteResponse
  bad_token internal_error : InviteResponse

pub record ManifestPush : Type 0 where
  pub owner_id : Text
  pub bytes : Bytes

pub data ManifestReply : Type 0 where
  manifest_ack : Ack → ManifestReply
  manifest_response : Text → Option Bytes → ManifestReply
