-- ===== src/Messages/Cache.antt =====
-- The class `ConversationMessageCache` of frontend/src/hooks/useConversationMessages.ts: the last
-- `max_cached_conversations` conversations, least recently used first.
pub mod Validity
pub mod Ack
pub mod Runs
pub mod Laws
use remoteterm_meshcore.Prelude.{
  ℕ, ◌≡◌, Bool, true, false, ◌||◌, Option, none, some, List, [], ◌∷◌, ◌++◌, Text, max, length, take,
  ltb, leb, get_or, or_else, nat_eq, list_eq, if◌then◌else◌, ◌==◌, contains, insert, insert_all,
}
use remoteterm_meshcore.Prelude.JsMap
use remoteterm_meshcore.Prelude.JsMap.{JsMap}
use remoteterm_meshcore.Prelude.Sort.{sort}
use remoteterm_meshcore.Data.{Message, MessagePath}
use remoteterm_meshcore.Messages.Key.{get_message_content_key, content_keys, ids}

abbrev pub max_cached_conversations : ℕ
max_cached_conversations = 20

abbrev pub max_messages_per_entry : ℕ
max_messages_per_entry = 200

pub record CachedConversationEntry : Type 0 where
  pub messages : List Message
  pub has_older_messages : Bool

pub record InternalCachedConversationEntry : Type 0 where
  pub messages : List Message
  pub has_older_messages : Bool
  pub content_keys : List Text

abbrev pub ConversationMessageCache : Type 0
ConversationMessageCache = JsMap Text InternalCachedConversationEntry

-- `.sort((a, b) => b.received_at - a.received_at)`
abbrev pub newer : Message → Message → Bool
newer a b = ltb b.received_at a.received_at

-- The messages and the flag of `normalizeEntry`, before the keys are computed.
unfoldable pub trim_entry : CachedConversationEntry → CachedConversationEntry
trim_entry entry =
    if ltb max_messages_per_entry (length entry.messages)
    then record {
      messages = take max_messages_per_entry (sort newer entry.messages);
      has_older_messages = true;
    }
    else entry

abbrev with_keys : CachedConversationEntry → InternalCachedConversationEntry
with_keys entry = record {
  messages = entry.messages;
  has_older_messages = entry.has_older_messages;
  content_keys = insert_all [] (content_keys entry.messages);
}

unfoldable pub normalize_entry : CachedConversationEntry → InternalCachedConversationEntry
unfolding trim_entry
normalize_entry entry = with_keys (trim_entry entry)

-- The size check after a write: the least recently used entry goes.
unfoldable pub evict : ConversationMessageCache → ConversationMessageCache
evict cache =
    if ltb max_cached_conversations (length cache) then JsMap.delete_first cache else cache

abbrev pub visible : InternalCachedConversationEntry → CachedConversationEntry
visible entry = record { messages = entry.messages; has_older_messages = entry.has_older_messages }

-- A hit becomes the most recently used entry.
unfoldable pub get :
    Text → ConversationMessageCache → ConversationMessageCache × Option CachedConversationEntry
get id cache = elim (JsMap.get id cache) [
  | none ↦ (cache, none)
  | some entry ↦ (JsMap.set id entry (JsMap.delete id cache), some (visible entry))
]

unfoldable pub set :
    Text → CachedConversationEntry → ConversationMessageCache → ConversationMessageCache
unfolding normalize_entry evict
set id entry cache = evict (JsMap.set id (normalize_entry entry) (JsMap.delete id cache))

-- `messages.some((message) => message.id === id)`, and `findIndex` by id finding one
unfoldable pub has_id : ℕ → List Message → Bool
has_id message_id [] = false
has_id message_id (m ∷ ms) = m.id == message_id || has_id message_id ms

-- The entry that `addMessage` starts for a conversation that is not cached.
abbrev pub single_entry : Message → InternalCachedConversationEntry
single_entry msg = record {
  messages = msg ∷ [];
  has_older_messages = true;
  content_keys = get_message_content_key msg ∷ [];
}

-- `{ messages: [...entry.messages, msg], hasOlderMessages: entry.hasOlderMessages }`
abbrev pub extended_entry : InternalCachedConversationEntry → Message → CachedConversationEntry
extended_entry entry msg = record {
  messages = entry.messages ++ msg ∷ [];
  has_older_messages = entry.has_older_messages;
}

unfoldable pub add_message :
    Text → Message → ConversationMessageCache → ConversationMessageCache × Bool
unfolding normalize_entry evict has_id
add_message id msg cache = elim (JsMap.get id cache) [
  | none ↦ (evict (JsMap.set id (single_entry msg) cache), true)
  | some entry ↦
      if contains entry.content_keys (get_message_content_key msg)
      then (cache, false)
      else if has_id msg.id entry.messages
      then (cache, false)
      else (JsMap.set id (normalize_entry (extended_entry entry msg)) (JsMap.delete id cache), true)
]

-- The object written over a message on an ACK; `paths` and `packet_id` may be undefined.
unfoldable pub acked_message : ℕ → Option (List MessagePath) → Option (Option ℕ) → Message → Message
acked_message ack_count paths packet_id current = record current {
  acked = max current.acked ack_count;
  paths = elim paths [
    | none ↦ current.paths
    | some ps ↦
        if leb (length (get_or current.paths [])) (length ps) then some ps else current.paths
  ];
  packet_id = or_else packet_id current.packet_id;
}

-- The write at the index that `findIndex` by id gives: the first message with the id.
unfoldable pub update_by_id : ℕ → (Message → Message) → List Message → List Message
update_by_id message_id f [] = []
update_by_id message_id f (m ∷ ms) =
    if m.id == message_id then f m ∷ ms else m ∷ update_by_id message_id f ms

unfoldable pub update_ack :
    ℕ
    → ℕ
    → Option (List MessagePath)
    → Option (Option ℕ)
    → ConversationMessageCache
    → ConversationMessageCache
unfolding has_id update_by_id acked_message
update_ack message_id ack_count paths packet_id [] = []
update_ack message_id ack_count paths packet_id ((id, entry) ∷ cache) =
    if has_id message_id entry.messages
    then (
      id,
      record entry {
        messages = update_by_id message_id (acked_message ack_count paths packet_id) entry.messages;
      },
    )
      ∷ cache
    else (id, entry) ∷ update_ack message_id ack_count paths packet_id cache

unfoldable pub remove : Text → ConversationMessageCache → ConversationMessageCache
remove id cache = JsMap.delete id cache

-- The loop of `rename`: the messages of the old entry whose ids are not seen yet are appended.
unfoldable pub merge_by_id : List Message → List ℕ → List Message → List Message
merge_by_id merged seen_ids [] = merged
merge_by_id merged seen_ids (message ∷ older) =
    merge_by_id (if contains seen_ids message.id then merged else merged ++ message ∷ [])
      (insert message.id seen_ids) older

abbrev pub merged_entry :
    InternalCachedConversationEntry → InternalCachedConversationEntry → CachedConversationEntry
merged_entry new_entry old_entry = record {
  messages =
      merge_by_id new_entry.messages (insert_all [] (ids new_entry.messages)) old_entry.messages;
  has_older_messages = new_entry.has_older_messages || old_entry.has_older_messages;
}

unfoldable pub rename : Text → Text → ConversationMessageCache → ConversationMessageCache
unfolding normalize_entry merge_by_id
rename old_id new_id cache = if old_id == new_id then cache else elim (JsMap.get old_id cache) [
  | none ↦ cache
  | some old_entry ↦ elim (JsMap.get new_id cache) [
    | none ↦ JsMap.set new_id old_entry (JsMap.delete old_id cache)
    | some new_entry ↦
        JsMap.set new_id (normalize_entry (merged_entry new_entry old_entry))
          (JsMap.delete old_id cache)
  ]
]

unfoldable pub clear : ConversationMessageCache → ConversationMessageCache
clear cache = []
