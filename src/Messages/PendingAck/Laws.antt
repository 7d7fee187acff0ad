-- ===== src/Messages/PendingAck/Laws.antt =====
-- Lemmas on the buffer of early ACKs.
use remoteterm_meshcore.Prelude.{
  ℕ, ◌≤◌, ◌≡◌, refl, inl, inr, Bool, true, false, ◌&&◌, Option, none, some, List, [], arith, length,
  max, nat_eq, option_eq, if◌then◌else◌, Option-cases, ◌==◌, eq_iff, is_some, get_or, or_else, ltb,
}
use remoteterm_meshcore.Prelude.JsMap
use remoteterm_meshcore.Prelude.JsMap.{JsMap}
use remoteterm_meshcore.Data.{Message, MessagePath}
use remoteterm_meshcore.Messages.PendingAck.{
  max_pending_acks, PendingAckUpdate, covers, merge_pending_ack, set_pending_ack, apply_pending_ack,
}

-- The paths of an update that are given and cover those that are buffered.
abbrev pub replaces : Option (List MessagePath) → Option (List MessagePath) → Bool
replaces none existing = false
replaces (some ps) existing = covers ps existing

module _ (existing : PendingAckUpdate) (ack_count : ℕ) (paths : Option (List MessagePath))
    (packet_id : Option (Option ℕ)) where
  -- The merged count is the larger of the two.
  pub ack_count-merge_pending_ack :
      (merge_pending_ack (some existing) ack_count paths packet_id).ack_count
      ≡ max existing.ack_count ack_count
  unfolding merge_pending_ack
  ack_count-merge_pending_ack = elim (Option-cases paths) [
    | inl absent ↦ rw (absent) (ground arith)
    | inr (ps, given) ↦ rw given (ground arith)
  ]

  -- Paths that are buffered are never forgotten.
  pub paths-merge_pending_ack :
      (ps : List MessagePath)
      → existing.paths ≡ some ps
      → is_some (merge_pending_ack (some existing) ack_count paths packet_id).paths ≡ true
  unfolding merge_pending_ack
  paths-merge_pending_ack ps h = elim (Option-cases paths) [
    | inl absent ↦ rw absent (ground arith)
    | inr (qs, given) ↦ rw given (ground arith)
  ]

  -- Of paths that are buffered, an update whose count is not larger never leaves fewer.
  pub length_paths-merge_pending_ack :
      (ps : List MessagePath)
      → existing.paths ≡ some ps
      → ack_count ≤ existing.ack_count
      → length ps
        ≤ length (get_or (merge_pending_ack (some existing) ack_count paths packet_id).paths [])
  unfolding merge_pending_ack
  length_paths-merge_pending_ack ps h le = elim (Option-cases paths) [
    | inl absent ↦ rw absent (ground arith)
    | inr (qs, given) ↦ rw given (ground arith)
  ]

  -- A packet id that comes with a count that is not smaller is the one buffered afterwards.
  pub packet_id-merge_pending_ack_given :
      (id : Option ℕ)
      → existing.ack_count ≤ ack_count
      → (merge_pending_ack (some existing) ack_count paths (some id)).packet_id ≡ some id
  unfolding merge_pending_ack
  packet_id-merge_pending_ack_given id h = elim (Option-cases paths) [
    | inl absent ↦ rw absent (ground (arith, eq_iff (some id) existing.packet_id))
    | inr (qs, given) ↦ rw given (ground (arith, eq_iff (some id) existing.packet_id))
  ]

  -- An update without a packet id keeps the buffered one, except when the counts are equal and its
  -- paths replace the buffered paths: then the buffered packet id is dropped.
  pub packet_id-merge_pending_ack :
      (merge_pending_ack (some existing) ack_count paths none).packet_id ≡ (
        if ack_count == existing.ack_count && replaces paths existing.paths
        then none
        else existing.packet_id)
  unfolding merge_pending_ack
  packet_id-merge_pending_ack = elim (Option-cases paths) [
    | inl absent ↦ rw absent (ground arith)
    | inr (qs, given) ↦ rw given (ground arith)
  ]

-- A smaller count is buffered, or nothing.
abbrev pub is_below : Option PendingAckUpdate → ℕ → Bool
is_below none ack_count = true
is_below (some existing) ack_count = ltb existing.ack_count ack_count

abbrev pub held_paths : Option PendingAckUpdate → Option (List MessagePath)
held_paths none = none
held_paths (some existing) = existing.paths

abbrev pub held_packet_id : Option PendingAckUpdate → Option (Option ℕ)
held_packet_id none = none
held_packet_id (some existing) = existing.packet_id

or_else_assoc {ℓ} :
    {A : Type ℓ} (a b c : Option A) → or_else (or_else a b) c ≡ or_else a (or_else b c)
or_else_assoc none b c = refl
or_else_assoc (some a) b c = refl

or_else-none {ℓ} : {A : Type ℓ} (a : Option A) → or_else a none ≡ a
or_else-none none = refl
or_else-none (some a) = refl

merge_pending_ack_below :
    (held : Option PendingAckUpdate) (ack_count : ℕ) (paths : Option (List MessagePath))
    (packet_id : Option (Option ℕ))
    → is_below held ack_count ≡ true
    → merge_pending_ack held ack_count paths packet_id ≡ record {
      ack_count = ack_count;
      paths = or_else paths (held_paths held);
      packet_id = or_else packet_id (held_packet_id held);
    }
unfolding merge_pending_ack
merge_pending_ack_below none ack_count paths packet_id below =
    rw (or_else-none paths, or_else-none packet_id) refl
merge_pending_ack_below (some existing) ack_count paths packet_id below = rw below refl

-- Buffers that the code can reach: no message twice, and not over the limit.
pub record IsBounded (pending : JsMap ℕ PendingAckUpdate) : Type 0 where
  pub distinct : JsMap.HasDistinctKeys pending
  pub bounded : length pending ≤ max_pending_acks

module _ (pending : JsMap ℕ PendingAckUpdate) (valid : IsBounded pending) where
  -- Buffering an update keeps a buffer within its limit that was so before, and the update is in
  -- it, merged with what was there for its message.
  pub set_pending_ack_lem :
      (message_id ack_count : ℕ) (paths : Option (List MessagePath)) (packet_id : Option (Option ℕ))
      → IsBounded (set_pending_ack pending message_id ack_count paths packet_id)
        × (JsMap.get message_id (set_pending_ack pending message_id ack_count paths packet_id)
            ≡ some (merge_pending_ack (JsMap.get message_id pending) ack_count paths packet_id))
  unfolding set_pending_ack
  set_pending_ack_lem message_id ack_count paths packet_id =
      let merged : PendingAckUpdate =
        merge_pending_ack (JsMap.get message_id pending) ack_count paths packet_id in
      (
        record {
          distinct =
              JsMap.put_last-HasDistinctKeys max_pending_acks message_id merged pending
                valid.distinct;
          bounded = JsMap.length-put_last max_pending_acks message_id merged pending valid.bounded;
        },
        JsMap.get-put_last max_pending_acks message_id merged pending (omega arith) valid.distinct,
      )

  -- Applying a buffer within its limit to a message keeps it so and takes the message's update out
  -- of it; the ACK count of the message does not fall, and its id stays.
  pub apply_pending_ack_lem :
      (msg : Message)
      → IsBounded (apply_pending_ack pending msg).0
        × (JsMap.has msg.id (apply_pending_ack pending msg).0 ≡ false)
        × (msg.acked ≤ (apply_pending_ack pending msg).1.acked)
        × ((apply_pending_ack pending msg).1.id ≡ msg.id)
  unfolding apply_pending_ack
  apply_pending_ack_lem msg = elim (Option-cases (JsMap.get msg.id pending)) [
    | inl clear ↦ rw (clear, apply_pending_ack) (valid, rw clear, omega arith, refl)
    | inr (update, held) ↦
        rw (held, apply_pending_ack)
          (
            record {
              distinct = JsMap.delete-HasDistinctKeys msg.id pending valid.distinct;
              bounded = omega (arith, JsMap.length-delete msg.id pending, valid.bounded);
            },
            JsMap.has-delete_self msg.id pending,
            omega arith,
            refl,
          )
  ]

  -- An ACK comes before its message, for which a smaller count or nothing is buffered. When the
  -- message arrives, it gets the larger of its count and that of the ACK, and the paths and the packet
  -- id of the ACK; where the ACK has none, those that were buffered, and else it keeps its own. Nothing
  -- is buffered for the message then. The buffer is one within its limit.
  pub apply_pending_ack_early :
      (msg : Message) (ack_count : ℕ) (paths : Option (List MessagePath))
      (packet_id : Option (Option ℕ)) (held : Option PendingAckUpdate)
      → JsMap.get msg.id pending ≡ held
      → is_below held ack_count ≡ true
      → let result =
          apply_pending_ack (set_pending_ack pending msg.id ack_count paths packet_id) msg in
        (result.1 ≡ record msg {
          acked = max msg.acked ack_count;
          paths = or_else paths (or_else (held_paths held) msg.paths);
          packet_id = or_else packet_id (or_else (held_packet_id held) msg.packet_id);
        })
        × (JsMap.has msg.id result.0 ≡ false)
  unfolding apply_pending_ack
  apply_pending_ack_early msg ack_count paths packet_id held buffered below =
      let there = (set_pending_ack_lem msg.id ack_count paths packet_id).1 in
      rw (there, apply_pending_ack)
        (
          rw (buffered, merge_pending_ack_below held ack_count paths packet_id below)
              (rw
                (
                  or_else_assoc paths (held_paths held) msg.paths,
                  or_else_assoc packet_id (held_packet_id held) msg.packet_id,
                )
                refl),
          JsMap.has-delete_self msg.id (set_pending_ack pending msg.id ack_count paths packet_id),
        )
