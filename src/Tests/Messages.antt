-- ===== src/Tests/Messages.antt =====
-- The theorems about messages, at concrete messages of frontend/src/types.ts.
use remoteterm_meshcore.Prelude.{
  ℕ, zero, suc, ◌+◌, ◌≡◌, if◌then◌else◌, ◌↔◌, refl, true, false, none, some, List, [], ◌∷◌, ◌++◌,
  Text, codes, arith, All, nat_eq, list_eq, option_eq, contains,
}
use remoteterm_meshcore.Prelude.JsMap
use remoteterm_meshcore.Prelude.JsMap.{JsMap}
use remoteterm_meshcore.Data.{Message, MessagePath, priv}
use remoteterm_meshcore.Messages.Key.{get_message_content_key, content_keys}
use remoteterm_meshcore.Messages.Cache.{
  CachedConversationEntry, InternalCachedConversationEntry, ConversationMessageCache,
  normalize_entry, extended_entry, visible, trim_entry, has_id, add_message, acked_message,
  max_messages_per_entry,
}
use remoteterm_meshcore.Messages.Cache
use remoteterm_meshcore.Messages.Cache.Validity.{IsValid, IsValidEntry, set-IsValid}
use remoteterm_meshcore.Messages.Cache.Runs
use remoteterm_meshcore.Messages.Cache.Runs.{Call, run-IsValid}
use remoteterm_meshcore.Messages.Cache.Laws.{set_full, get-set, add_message_dedup}

abbrev pub message : ℕ → Text → Message
message id text = record {
  id = id;
  kind = priv;
  conversation_key = codes "ab";
  text = text;
  sender_timestamp = some 1000;
  received_at = 1000 + id;
  paths = none;
  txt_type = 0;
  signature = none;
  sender_key = none;
  outgoing = false;
  acked = 0;
  sender_name = none;
  channel_name = none;
  packet_id = none;
  transport_code = none;
  region = none;
  pending = none;
}

abbrev pub hello : Message
hello = message 1 (codes "hello")

abbrev pub reply : Message
reply = message 2 (codes "reply")

abbrev pub a_path : MessagePath
a_path = record { path = codes "1a"; received_at = 1001; path_len = none; rssi = none; snr = none }

abbrev one_message : CachedConversationEntry
one_message = record { messages = hello ∷ []; has_older_messages = false }

abbrev calls : List Call
calls =
    Runs.set (codes "ab") one_message
    ∷ Runs.add_message (codes "ab") reply
    ∷ Runs.update_ack 2 1 (some (a_path ∷ [])) none
    ∷ Runs.rename (codes "ab") (codes "cd")
    ∷ []

run-IsValid_example : IsValid (Runs.run calls [])
run-IsValid_example = run-IsValid calls

pub empty-IsValid : IsValid []
empty-IsValid = record { distinct = tt; bounded = omega arith; entries = tt }

abbrev cached : ConversationMessageCache
cached = Cache.set (codes "ab") one_message []

cached-IsValid : IsValid cached
cached-IsValid = set-IsValid (codes "ab") one_message [] empty-IsValid

get-set_example :
    (Cache.get (codes "ef") (Cache.set (codes "ef") one_message cached)).1
    ≡ some (trim_entry one_message)
get-set_example = get-set (codes "ef") one_message cached cached-IsValid

add_message_dedup_example :
    (((add_message (codes "ab") reply cached).1 ≡ true) ↔ (
      (contains (content_keys (trim_entry one_message).messages) (get_message_content_key reply)
        ≡ false)
      × (has_id reply.id (trim_entry one_message).messages ≡ false)))
    × ((Cache.get (codes "ab") (add_message (codes "ab") reply cached).0).1
        ≡ some (
            if (add_message (codes "ab") reply cached).1
            then trim_entry (extended_entry (normalize_entry one_message) reply)
            else visible (normalize_entry one_message)))
unfolding Cache.set JsMap.get JsMap.set JsMap.delete normalize_entry
add_message_dedup_example =
    add_message_dedup (codes "ab") reply cached (normalize_entry one_message) cached-IsValid refl

abbrev blank : InternalCachedConversationEntry
blank = record { messages = []; has_older_messages = false; content_keys = [] }

abbrev blanks : List ℕ → ConversationMessageCache
blanks [] = []
blanks (n ∷ ns) = (n ∷ [], blank) ∷ blanks ns

abbrev nineteen : ConversationMessageCache
nineteen =
    blanks
      (1 ∷ 2 ∷ 3 ∷ 4 ∷ 5 ∷ 6 ∷ 7 ∷ 8 ∷ 9 ∷ 10 ∷ 11 ∷ 12 ∷ 13 ∷ 14 ∷ 15 ∷ 16 ∷ 17 ∷ 18 ∷ 19 ∷ [])

blank-IsValidEntry : IsValidEntry blank
blank-IsValidEntry = record { bounded = omega arith; keyed = λ key. refl }

blanks-IsValidEntry : (ns : List ℕ) → All IsValidEntry (JsMap.values (blanks ns))
blanks-IsValidEntry [] = tt
blanks-IsValidEntry (n ∷ ns) = (blank-IsValidEntry, blanks-IsValidEntry ns)

full-IsValid : IsValid ((0 ∷ [], blank) ∷ nineteen)
unfolding JsMap.get
full-IsValid = record {
  distinct = (
    refl,
    (
      refl,
      (
        refl,
        (
          refl,
          (
            refl,
            (
              refl,
              (
                refl,
                (
                  refl,
                  (
                    refl,
                    (
                      refl,
                      (
                        refl,
                        (refl, (refl, (refl, (refl, (refl, (refl, (refl, (refl, (refl, tt))))))))),
                      ),
                    ),
                  ),
                ),
              ),
            ),
          ),
        ),
      ),
    ),
  );
  bounded = omega arith;
  entries = blanks-IsValidEntry (
      0 ∷ 1 ∷ 2 ∷ 3 ∷ 4 ∷ 5 ∷ 6 ∷ 7 ∷ 8 ∷ 9 ∷ 10 ∷ 11 ∷ 12 ∷ 13 ∷ 14 ∷ 15 ∷ 16 ∷ 17 ∷ 18 ∷ 19 ∷ []);
}

set_full_example :
    Cache.set (codes "ab") one_message ((0 ∷ [], blank) ∷ nineteen)
    ≡ nineteen ++ (codes "ab", normalize_entry one_message) ∷ []
unfolding JsMap.get
set_full_example = set_full (codes "ab") (0 ∷ []) one_message blank nineteen full-IsValid refl refl

-- `n` messages.
abbrev many : ℕ → List Message
many zero = []
many (suc n) = message n (codes "m") ∷ many n
