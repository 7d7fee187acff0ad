-- ===== src/Messages/Cache/Ack.antt =====
-- Lemmas on `ConversationMessageCache.updateAck`.
use remoteterm_meshcore.Prelude.{
  ℕ, ◌≡◌, refl, ap, inl, inr, Option, List, [], ◌∷◌, arith, length, All, nat_eq, list_eq,
  Bool-cases, ◌==◌,
}
use remoteterm_meshcore.Prelude.JsMap
use remoteterm_meshcore.Prelude.JsMap.{JsMap}
use remoteterm_meshcore.Data.{Message, MessagePath}
use remoteterm_meshcore.Messages.Key.{get_message_content_key, content_keys}
use remoteterm_meshcore.Messages.Cache.{
  InternalCachedConversationEntry, ConversationMessageCache, acked_message, has_id, update_by_id,
  update_ack,
}
use remoteterm_meshcore.Messages.Cache.Validity.{IsValidEntry, IsValid}

-- Writing over a message an object with the same key changes no key.
module _ (message_id : ℕ) (f : Message → Message) where
  content_keys-update_by_id :
      (ms : List Message)
      → ((m : Message) → get_message_content_key (f m) ≡ get_message_content_key m)
      → content_keys (update_by_id message_id f ms) ≡ content_keys ms
  unfolding update_by_id
  content_keys-update_by_id [] same = refl
  content_keys-update_by_id (m ∷ ms) same = elim (Bool-cases (m.id == message_id)) [
    | inl here ↦ rw here (ap (λ k. k ∷ content_keys ms) (same m))
    | inr there ↦
        rw there (ap (◌∷◌ (get_message_content_key m)) (content_keys-update_by_id ms same))
  ]

  pub length-update_by_id : (ms : List Message) → length (update_by_id message_id f ms) ≡ length ms
  unfolding update_by_id
  length-update_by_id [] = refl
  length-update_by_id (m ∷ ms) = ground (arith, length-update_by_id ms)

module _ (message_id ack_count : ℕ) (paths : Option (List MessagePath))
    (packet_id : Option (Option ℕ)) where
  pub acked_message-key :
      (m : Message)
      → get_message_content_key (acked_message ack_count paths packet_id m)
        ≡ get_message_content_key m
  unfolding acked_message get_message_content_key
  acked_message-key m = refl

  acked_entry-IsValidEntry :
      (entry : InternalCachedConversationEntry)
      → IsValidEntry entry
      → IsValidEntry (record entry {
        messages = update_by_id message_id (acked_message ack_count paths packet_id) entry.messages;
      })
  acked_entry-IsValidEntry entry v = record {
    bounded = omega (
      arith,
      v.bounded,
      length-update_by_id message_id (acked_message ack_count paths packet_id) entry.messages,
    );
    keyed = λ key.
        rw (content_keys-update_by_id message_id _ entry.messages acked_message-key) (v.keyed key);
  }

  -- An ACK changes the keys of no map, so it keeps the places of all entries.
  keys-update_ack :
      (cache : ConversationMessageCache)
      → JsMap.keys (update_ack message_id ack_count paths packet_id cache) ≡ JsMap.keys cache
  unfolding update_ack
  keys-update_ack [] = refl
  keys-update_ack ((id, entry) ∷ cache) = ground (arith, keys-update_ack cache)

  update_ack-AllValues :
      (cache : ConversationMessageCache)
      → All IsValidEntry (JsMap.values cache)
      → All IsValidEntry (JsMap.values (update_ack message_id ack_count paths packet_id cache))
  unfolding update_ack
  update_ack-AllValues [] h = tt
  update_ack-AllValues ((id, entry) ∷ cache) h =
      elim (Bool-cases (has_id message_id entry.messages)) [
        | inl here ↦ rw here (acked_entry-IsValidEntry entry h.0, h.1)
        | inr there ↦ rw there (h.0, update_ack-AllValues cache h.1)
      ]

  pub update_ack-IsValid :
      (cache : ConversationMessageCache)
      → IsValid cache
      → IsValid (update_ack message_id ack_count paths packet_id cache)
  update_ack-IsValid cache valid = record {
    distinct = JsMap.HasDistinctKeys-of_keys cache _ (keys-update_ack cache) valid.distinct;
    bounded = rw (JsMap.length_of_keys cache _ (keys-update_ack cache)) valid.bounded;
    entries = update_ack-AllValues cache valid.entries;
  }
