-- ===== src/Messages/PendingAck.antt =====
-- The buffer of ACKs that arrive before their message: `mergePendingAck`, `setPendingAck` and
-- `applyPendingAck` of frontend/src/hooks/useConversationMessages.ts.
pub mod Laws
use remoteterm_meshcore.Prelude.{
  ℕ, suc, Bool, true, false, not, ◌&&◌, Option, none, some, List, [], ◌∷◌, length, max, ltb, leb,
  or_else, nat_eq, option_eq, if◌then◌else◌, ◌==◌, is_some,
}
use remoteterm_meshcore.Prelude.JsMap
use remoteterm_meshcore.Prelude.JsMap.{JsMap}
use remoteterm_meshcore.Data.{Message, MessagePath}

abbrev pub max_pending_acks : ℕ
max_pending_acks = 500

-- `none` is an absent field; a `packet_id` that is there may be null.
pub record PendingAckUpdate : Type 0 where
  pub ack_count : ℕ
  pub paths : Option (List MessagePath)
  pub packet_id : Option (Option ℕ)

-- `paths.length >= (existing.paths?.length ?? -1)`
abbrev pub covers : List MessagePath → Option (List MessagePath) → Bool
covers paths none = true
covers paths (some existing) = leb (length existing) (length paths)

-- `packetId !== undefined && packetId !== existing.packetId`
abbrev pub packet_id_changed : Option (Option ℕ) → Option (Option ℕ) → Bool
packet_id_changed none existing = false
packet_id_changed (some id) existing = not (some id == existing)

-- `packetIdChanged ? { ...existing, packetId } : existing`
abbrev pub with_packet_id : PendingAckUpdate → Option (Option ℕ) → PendingAckUpdate
with_packet_id existing packet_id =
    if packet_id_changed packet_id existing.packet_id
    then record existing { packet_id = packet_id }
    else existing

-- The part of `mergePendingAck` for equal counts.
unfoldable pub merge_same_count :
    PendingAckUpdate → ℕ → Option (List MessagePath) → Option (Option ℕ) → PendingAckUpdate
merge_same_count existing ack_count none packet_id = with_packet_id existing packet_id
merge_same_count existing ack_count (some paths) packet_id =
    if covers paths existing.paths
    then record { ack_count = ack_count; paths = some paths; packet_id = packet_id }
    else with_packet_id existing packet_id

unfoldable pub merge_pending_ack :
    Option PendingAckUpdate → ℕ → Option (List MessagePath) → Option (Option ℕ) → PendingAckUpdate
unfolding merge_same_count
merge_pending_ack none ack_count paths packet_id = record {
  ack_count = ack_count;
  paths = paths;
  packet_id = packet_id;
}
merge_pending_ack (some existing) ack_count paths packet_id =
    if ltb existing.ack_count ack_count
    then record {
      ack_count = ack_count;
      paths = or_else paths existing.paths;
      packet_id = or_else packet_id existing.packet_id;
    }
    else if ltb ack_count existing.ack_count
    then existing
    else merge_same_count existing ack_count paths packet_id

-- Writes the merged update last, so that recent updates stay longest, and drops the oldest one
-- over the limit.
unfoldable pub set_pending_ack :
    JsMap ℕ PendingAckUpdate
    → ℕ
    → ℕ
    → Option (List MessagePath)
    → Option (Option ℕ)
    → JsMap ℕ PendingAckUpdate
set_pending_ack pending message_id ack_count paths packet_id =
    JsMap.put_last max_pending_acks message_id
      (merge_pending_ack (JsMap.get message_id pending) ack_count paths packet_id) pending

-- The buffer without the update, and the message with it.
unfoldable pub apply_pending_ack :
    JsMap ℕ PendingAckUpdate → Message → JsMap ℕ PendingAckUpdate × Message
apply_pending_ack pending msg = elim (JsMap.get msg.id pending) [
  | none ↦ (pending, msg)
  | some update ↦ (
    JsMap.delete msg.id pending,
    record msg {
      acked = max msg.acked update.ack_count;
      paths = or_else update.paths msg.paths;
      packet_id = or_else update.packet_id msg.packet_id;
    },
  )
]
