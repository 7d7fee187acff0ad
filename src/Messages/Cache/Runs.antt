-- ===== src/Messages/Cache/Runs.antt =====
-- The cache under any sequence of calls of its methods.
use remoteterm_meshcore.Prelude.{ℕ, Option, List, [], ◌∷◌, Text, arith}
use remoteterm_meshcore.Data.{Message, MessagePath}
use remoteterm_meshcore.Messages.Cache
use remoteterm_meshcore.Messages.Cache.{CachedConversationEntry, ConversationMessageCache}
use remoteterm_meshcore.Messages.Cache.Validity.{
  IsValid, get-IsValid, set-IsValid, add_message-IsValid, remove-IsValid, rename-IsValid,
  clear-IsValid,
}
use remoteterm_meshcore.Messages.Cache.Ack.{update_ack-IsValid}

pub data Call : Type 0 where
  get : Text → Call
  set : Text → CachedConversationEntry → Call
  add_message : Text → Message → Call
  update_ack : ℕ → ℕ → Option (List MessagePath) → Option (Option ℕ) → Call
  remove : Text → Call
  rename : Text → Text → Call
  clear : Call

unfoldable pub step : Call → ConversationMessageCache → ConversationMessageCache
step (get id) cache = (Cache.get id cache).0
step (set id entry) cache = Cache.set id entry cache
step (add_message id msg) cache = (Cache.add_message id msg cache).0
step (update_ack id count paths packet_id) cache = Cache.update_ack id count paths packet_id cache
step (remove id) cache = Cache.remove id cache
step (rename old_id new_id) cache = Cache.rename old_id new_id cache
step clear cache = Cache.clear cache

unfoldable pub run : List Call → ConversationMessageCache → ConversationMessageCache
unfolding step
run [] cache = cache
run (call ∷ calls) cache = run calls (step call cache)

step-IsValid :
    (call : Call) (cache : ConversationMessageCache) → IsValid cache → IsValid (step call cache)
unfolding step
step-IsValid (get id) cache v = get-IsValid id cache v
step-IsValid (set id entry) cache v = set-IsValid id entry cache v
step-IsValid (add_message id msg) cache v = add_message-IsValid id msg cache v
step-IsValid (update_ack id count paths packet_id) cache v =
    update_ack-IsValid id count paths packet_id cache v
step-IsValid (remove id) cache v = remove-IsValid id cache v
step-IsValid (rename old_id new_id) cache v = rename-IsValid old_id new_id cache v
step-IsValid clear cache v = clear-IsValid cache

run-IsValid_from :
    (calls : List Call) (cache : ConversationMessageCache)
    → IsValid cache
    → IsValid (run calls cache)
unfolding run
run-IsValid_from [] cache v = v
run-IsValid_from (call ∷ calls) cache v =
    run-IsValid_from calls (step call cache) (step-IsValid call cache v)

-- After any calls of its methods, starting empty, the cache has at most 20 conversations, each
-- under one key, with at most 200 messages each, and each key set has exactly the content keys of
-- the messages of its entry.
pub run-IsValid : (calls : List Call) → IsValid (run calls [])
run-IsValid calls =
    run-IsValid_from calls [] (record { distinct = tt; bounded = omega arith; entries = tt })
