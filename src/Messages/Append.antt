-- ===== src/Messages/Append.antt =====
-- `appendUniqueMessages` and the tests on conversations of
-- frontend/src/hooks/useConversationMessages.ts.
pub mod Additions
pub mod Laws
use remoteterm_meshcore.Prelude.{
  ℕ, Bool, true, false, ◌||◌, Option, none, some, List, [], ◌∷◌, ◌++◌, Text, nat_eq, list_eq,
  if◌then◌else◌, ◌==◌, contains, insert, insert_all,
}
use remoteterm_meshcore.Data.{
  Message, MessageType, priv, chan, Conversation, ConversationType, contact, channel, raw, map,
  visualizer, search, mentions, trace,
}
use remoteterm_meshcore.Messages.Key.{get_message_content_key, content_keys, ids}

-- The loop of `appendUniqueMessages`.
unfoldable pub additions : List ℕ → List Text → List Message → List Message
additions seen_ids seen_content [] = []
additions seen_ids seen_content (msg ∷ incoming) =
    elim (contains seen_ids msg.id || contains seen_content (get_message_content_key msg)) [
      | true ↦ additions seen_ids seen_content incoming
      | false ↦
          msg
          ∷ additions (insert msg.id seen_ids) (insert (get_message_content_key msg) seen_content)
              incoming
    ]

-- With nothing to add the code returns `current` itself, which is the same list.
unfoldable pub append_unique_messages : List Message → List Message → List Message
unfolding additions
append_unique_messages current incoming =
    current
    ++ additions (insert_all [] (ids current)) (insert_all [] (content_keys current)) incoming

unfoldable pub is_message_conversation : Option Conversation → Bool
is_message_conversation none = false
is_message_conversation (some conversation) = elim conversation.kind [
  | contact ↦ true
  | channel ↦ true
  | _ ↦ false
]

-- The types of a message and of a conversation that can show it.
abbrev pub shows : MessageType → ConversationType → Bool
shows chan channel = true
shows priv contact = true
shows _ _ = false

unfoldable pub is_active_conversation_message : Option Conversation → Message → Bool
is_active_conversation_message none msg = false
is_active_conversation_message (some conversation) msg =
    if shows msg.kind conversation.kind then msg.conversation_key == conversation.id else false
