-- ===== src/Sender/Delivery.antt =====
-- A shard that was pushed to a buddy is fetched from it, over framed messages on both ways.
use cerclbackup.Prelude.{
  ◌≡◌, refl, sym, ap, ◌∙◌, inl, inr, true, false, Option, none, some, [], append-nil, arith,
  Option-cases, Bytes, Text, Result, ok, err,
}
use cerclbackup.Io.{Reader, read_full, Writer}
use cerclbackup.Wire.{
  WireError, header_unread, header_read, read_raw_msg, write_msg, parse, read_msg,
}
use cerclbackup.Wire.Framing.{IsPortable, read_msg-write_msg}
use cerclbackup.Handlers.{Node, Host, handle_pull, handle_shard, ShardPush, Ack, accepted, rejected}
use cerclbackup.Handlers.Access.{handle_pull-handle_shard}
use cerclbackup.Sender.{
  Link, SendError, no_reply, exchange, acknowledged, held, ShardForms, push_shard, fetch_shard,
}

abbrev empty_out : Writer
empty_out = record { written = []; room = none }

abbrev pub replied_as : Result WireError Writer → Reader
replied_as (err x) = record { content = []; fails = false }
replied_as (ok out) = record { content = out.written; fails = false }

-- What a handler writes as its reply, if it gives one.
abbrev pub replied {ℓ} : {W : Type ℓ} → (Writer → W → Result WireError Writer) → Option W → Reader
replied write_reply none = record { content = []; fails = false }
replied write_reply (some reply) =
    replied_as (write_reply (record { written = []; room = none }) reply)

replied_lem :
    {W : Type 0} (marshal_reply : W → Option Bytes) (unmarshal_reply : Bytes → Option W) (reply : W)
    (back : Bytes)
    → write_msg marshal_reply unmarshal_reply empty_out reply
      ≡ ok (record { written = back; room = none })
    → replied (write_msg marshal_reply unmarshal_reply) (some reply)
      ≡ record { content = back; fails = false }
replied_lem marshal_reply unmarshal_reply reply back wrote = ap replied_as wrote

module _ {V W : Type 0} (marshal : V → Option Bytes) (unmarshal : Bytes → Option V)
    (marshal_reply : W → Option Bytes) (unmarshal_reply : Bytes → Option W) where
  -- A stream to a node that reads a message and gives what `serve` makes of it.
  abbrev pub served : (Result WireError V → Option W) → Link
  served serve = record {
    opened = some (record { written = []; room = none });
    answer = λ bytes.
        replied (write_msg marshal_reply unmarshal_reply)
          (serve (read_msg marshal unmarshal (record { content = bytes; fails = false })).0);
  }

  abbrev reply_of : Result WireError W → Result SendError W
  reply_of (err x) = err (no_reply x)
  reply_of (ok reply) = ok reply

  -- A message that is written is answered by what is read.
  exchange_lem :
      (link : Link) (message : V) (out sent : Writer)
      → link.opened ≡ some out
      → write_msg marshal unmarshal out message ≡ ok sent
      → exchange marshal unmarshal marshal_reply unmarshal_reply link message
        ≡ reply_of (read_msg marshal_reply unmarshal_reply (link.answer sent.written)).0
  unfolding exchange
  exchange_lem link message out sent o w = ground (arith, o, w)

  no_reply_read :
      (read_msg marshal_reply unmarshal_reply (record { content = []; fails = false })).0
      ≡ err header_unread
  unfolding read_msg parse read_raw_msg header_read read_full
  no_reply_read = refl

  -- Over portable messages the exchange gives what the node makes of the message.
  pub exchange-served :
      (message : V) (serve : Result WireError V → Option W) (reply : W)
      → IsPortable marshal unmarshal message
      → IsPortable marshal_reply unmarshal_reply reply
      → serve (ok message) ≡ some reply
      → exchange marshal unmarshal marshal_reply unmarshal_reply (served serve) message ≡ ok reply
  unfolding exchange
  exchange-served message serve reply portable portable_reply s =
      let (sent, wrote, got) =
        read_msg-write_msg marshal unmarshal message empty_out [] false portable refl in
      let (back, wrote_back, got_back) =
        read_msg-write_msg marshal_reply unmarshal_reply reply empty_out [] false portable_reply
          refl in
      let received : (read_msg marshal unmarshal (record { content = sent; fails = false })).0
          ≡ ok message =
        ap (λ (b : Bytes). (read_msg marshal unmarshal (record { content = b; fails = false })).0)
          (sym (append-nil sent))
        ∙ ap (λ (o : Result WireError V × Reader). o.0) got in
      let returned : (read_msg marshal_reply unmarshal_reply
            (record { content = back; fails = false })).0
          ≡ ok reply =
        ap
          (λ (b : Bytes).
            (read_msg marshal_reply unmarshal_reply (record { content = b; fails = false })).0)
          (sym (append-nil back))
        ∙ ap (λ (o : Result WireError W × Reader). o.0) got_back in
      let answers : (served serve).answer sent ≡ record { content = back; fails = false } =
        ap (λ (r : Result WireError V). replied (write_msg marshal_reply unmarshal_reply) (serve r))
          received
        ∙ ap (replied (write_msg marshal_reply unmarshal_reply)) s
        ∙ replied_lem marshal_reply unmarshal_reply reply back wrote_back in
      let final : (read_msg marshal_reply unmarshal_reply ((served serve).answer sent)).0
          ≡ ok reply =
        ap (λ (r : Reader). (read_msg marshal_reply unmarshal_reply r).0) answers ∙ returned in
      exchange_lem (served serve) message empty_out (record { written = sent; room = none }) refl
        wrote
      ∙ ap reply_of final

  -- Where the node gives no reply, the exchange fails.
  pub exchange-silent :
      (message : V) (serve : Result WireError V → Option W)
      → IsPortable marshal unmarshal message
      → serve (ok message) ≡ none
      → exchange marshal unmarshal marshal_reply unmarshal_reply (served serve) message
        ≡ err (no_reply header_unread)
  unfolding exchange
  exchange-silent message serve portable s =
      let (sent, wrote, got) =
        read_msg-write_msg marshal unmarshal message empty_out [] false portable refl in
      let received : (read_msg marshal unmarshal (record { content = sent; fails = false })).0
          ≡ ok message =
        ap (λ (b : Bytes). (read_msg marshal unmarshal (record { content = b; fails = false })).0)
          (sym (append-nil sent))
        ∙ ap (λ (o : Result WireError V × Reader). o.0) got in
      let answers : (served serve).answer sent ≡ record { content = []; fails = false } =
        ap (λ (r : Result WireError V). replied (write_msg marshal_reply unmarshal_reply) (serve r))
          received
        ∙ ap (replied (write_msg marshal_reply unmarshal_reply)) s in
      let final : (read_msg marshal_reply unmarshal_reply ((served serve).answer sent)).0
          ≡ err header_unread =
        ap (λ (r : Reader). (read_msg marshal_reply unmarshal_reply r).0) answers ∙ no_reply_read in
      exchange_lem (served serve) message empty_out (record { written = sent; room = none }) refl
        wrote
      ∙ ap reply_of final

-- The streams on which `me` reaches a node's handlers.
abbrev pub push_link : ShardForms → Host → Text → Node → Link
push_link j h me node =
    served j.print_push j.read_push j.print_ack j.read_ack (λ m. (handle_shard h me m node).0)

abbrev pub pull_link : ShardForms → Host → Text → Node → Link
pull_link j h me node =
    served j.print_request j.read_request j.print_response j.read_response
      (λ m. (handle_pull h me m node).0)

only_accepted : (a : Ack) → acknowledged (ok a) ≡ ok tt → a ≡ accepted
unfolding acknowledged
only_accepted accepted h = refl
only_accepted (rejected x) h = absurd (ground (arith, h))

-- A push that reports success was accepted by the handler.
push_accepted :
    (j : ShardForms) (h : Host) (me : Text) (node : Node) (push : ShardPush)
    → IsPortable j.print_push j.read_push push
    → ((a : Ack)
        → (handle_shard h me (ok push) node).0 ≡ some a
        → IsPortable j.print_ack j.read_ack a)
    → push_shard j (push_link j h me node) push ≡ ok tt
    → (handle_shard h me (ok push) node).0 ≡ some accepted
unfolding push_shard acknowledged
push_accepted j h me node push portable acks sent =
    let serve : Result WireError ShardPush → Option Ack = λ m. (handle_shard h me m node).0 in
    elim (Option-cases (handle_shard h me (ok push) node).0) [
      | inl silent ↦ absurd (
          ground (
            arith,
            sent,
            exchange-silent j.print_push j.read_push j.print_ack j.read_ack push serve portable
                silent,
          ))
      | inr (ack, said) ↦
          let got =
            exchange-served j.print_push j.read_push j.print_ack j.read_ack push serve ack portable
              (acks ack said) said in
          said ∙ ap some (only_accepted ack (sym (ap acknowledged got) ∙ sent))
    ]

-- Over JSON forms that are read back, for messages of at most 64 MB: when PushShard of a shard of
-- one's own to a node succeeds, FetchShard of that file and index from the node as the push left it
-- succeeds and returns the bytes that were pushed.
pub fetch_shard-push_shard :
    (j : ShardForms) (h : Host) (me : Text) (node : Node) (push : ShardPush)
    → IsPortable j.print_push j.read_push push
    → ((a : Ack)
        → (handle_shard h me (ok push) node).0 ≡ some a
        → IsPortable j.print_ack j.read_ack a)
    → IsPortable j.print_request j.read_request
        (record { owner_id = me; file_id = push.file_id; shard_index = push.shard_index })
    → IsPortable j.print_response j.read_response (record {
      file_id = push.file_id;
      shard_index = push.shard_index;
      bytes = push.bytes;
      found = true;
    })
    → push_shard j (push_link j h me node) push ≡ ok tt
    → fetch_shard j
        (pull_link j h me (handle_shard h me (ok push) node).1)
        (record { owner_id = me; file_id = push.file_id; shard_index = push.shard_index })
      ≡ ok push.bytes
unfolding push_shard fetch_shard held
fetch_shard-push_shard j h me node push portable acks request response sent =
    let accepted_here : (handle_shard h me (ok push) node).0 ≡ some accepted =
      push_accepted j h me node push portable acks (unfold push_shard in sent) in
    let pulled = handle_pull-handle_shard h me node push accepted_here in
    let got =
      exchange-served j.print_request j.read_request j.print_response j.read_response
        (record { owner_id = me; file_id = push.file_id; shard_index = push.shard_index })
        (λ m. (handle_pull h me m (handle_shard h me (ok push) node).1).0)
        (record {
          file_id = push.file_id;
          shard_index = push.shard_index;
          bytes = push.bytes;
          found = true;
        })
        request response pulled in
    ap held got
