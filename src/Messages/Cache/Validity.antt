-- ===== src/Messages/Cache/Validity.antt =====
-- When a conversation cache is well formed, and lemmas on each of its methods.
use remoteterm_meshcore.Prelude.{
  suc, ◌≤◌, ◌≡◌, refl, inl, inr, true, none, [], Text, arith, length, length-take, All, ltb, nat_eq,
  list_eq, Bool-cases, Option-cases, ◌==◌, contains, contains-insert_all,
}
use remoteterm_meshcore.Prelude.JsMap
use remoteterm_meshcore.Prelude.JsMap.{JsMap}
use remoteterm_meshcore.Prelude.Sort.{sort}
use remoteterm_meshcore.Data.{Message}
use remoteterm_meshcore.Messages.Key.{get_message_content_key, content_keys}
use remoteterm_meshcore.Messages.Cache.{
  max_cached_conversations, max_messages_per_entry, CachedConversationEntry,
  InternalCachedConversationEntry, ConversationMessageCache, newer, trim_entry, normalize_entry,
  single_entry, evict, get, set, add_message, has_id, remove, rename, clear, merged_entry,
  extended_entry,
}

-- An entry keeps at most `max_messages_per_entry` messages, and its key set has just their keys.
pub record IsValidEntry (entry : InternalCachedConversationEntry) : Type 0 where
  pub bounded : length entry.messages ≤ max_messages_per_entry
  pub keyed :
      (key : Text) → contains entry.content_keys key ≡ contains (content_keys entry.messages) key

pub record IsValid (cache : ConversationMessageCache) : Type 0 where
  pub distinct : JsMap.HasDistinctKeys cache
  pub bounded : length cache ≤ max_cached_conversations
  pub entries : All IsValidEntry (JsMap.values cache)

length-trim_entry :
    (entry : CachedConversationEntry) → length (trim_entry entry).messages ≤ max_messages_per_entry
unfolding trim_entry
length-trim_entry entry = elim (Bool-cases (ltb max_messages_per_entry (length entry.messages))) [
  | inl long ↦ rw long (omega (arith, length-take 200 (sort newer entry.messages)))
  | inr short ↦ rw short (ground arith)
]

pub normalize_entry-IsValidEntry :
    (entry : CachedConversationEntry) → IsValidEntry (normalize_entry entry)
unfolding normalize_entry contains
normalize_entry-IsValidEntry entry = record {
  bounded = length-trim_entry entry;
  keyed = λ key. contains-insert_all [] (content_keys (trim_entry entry).messages) key;
}

-- `evict` brings a cache back to its bound after one write.
evict-IsValid :
    (cache : ConversationMessageCache)
    → JsMap.HasDistinctKeys cache
    → length cache ≤ suc max_cached_conversations
    → All IsValidEntry (JsMap.values cache)
    → IsValid (evict cache)
unfolding evict
evict-IsValid cache d b h = elim (Bool-cases (ltb max_cached_conversations (length cache))) [
  | inl full ↦ rw full (record {
    distinct = JsMap.delete_first-HasDistinctKeys cache d;
    bounded = omega (arith, JsMap.length-delete_first cache);
    entries = JsMap.delete_first-AllValues IsValidEntry cache h;
  })
  | inr room ↦ rw room (record { distinct = d; bounded = ground arith; entries = h })
]

-- Deleting a key and writing one, as every method that touches an entry does.
module _ (from to : Text) (entry : InternalCachedConversationEntry)
    (cache : ConversationMessageCache) (valid : IsValid cache)
    (valid_entry : IsValidEntry entry) where
  rewritten-HasDistinctKeys : JsMap.HasDistinctKeys (JsMap.set to entry (JsMap.delete from cache))
  rewritten-HasDistinctKeys =
      JsMap.set-HasDistinctKeys to entry (JsMap.delete from cache)
        (JsMap.delete-HasDistinctKeys from cache valid.distinct)

  rewritten-entries : All IsValidEntry (JsMap.values (JsMap.set to entry (JsMap.delete from cache)))
  rewritten-entries =
      JsMap.set-AllValues IsValidEntry to entry (JsMap.delete from cache) valid_entry
        (JsMap.delete-AllValues IsValidEntry from cache valid.entries)

  rewritten-IsValid :
      JsMap.has from cache ≡ true → IsValid (JsMap.set to entry (JsMap.delete from cache))
  rewritten-IsValid present = record {
    distinct = rewritten-HasDistinctKeys;
    bounded = omega (
      arith,
      JsMap.length-set-le to entry (JsMap.delete from cache),
      valid.bounded,
      JsMap.length-delete_present from cache present,
    );
    entries = rewritten-entries;
  }

  evicted-IsValid : IsValid (evict (JsMap.set to entry (JsMap.delete from cache)))
  evicted-IsValid =
      evict-IsValid _ rewritten-HasDistinctKeys
        (omega (
          arith,
          JsMap.length-set-le to entry (JsMap.delete from cache),
          valid.bounded,
          JsMap.length-delete from cache,
        ))
        rewritten-entries

pub get-IsValid :
    (id : Text) (cache : ConversationMessageCache) → IsValid cache → IsValid (get id cache).0
unfolding get
get-IsValid id cache valid = elim (Option-cases (JsMap.get id cache)) [
  | inl miss ↦ rw (miss, get) valid
  | inr (entry, hit) ↦
      rw (hit, get)
        (rewritten-IsValid id id entry cache valid
          (JsMap.get-AllValues IsValidEntry id cache entry valid.entries hit) (rw hit))
]

pub set-IsValid :
    (id : Text) (entry : CachedConversationEntry) (cache : ConversationMessageCache)
    → IsValid cache
    → IsValid (set id entry cache)
unfolding set
set-IsValid id entry cache valid =
    evicted-IsValid id id (normalize_entry entry) cache valid (normalize_entry-IsValidEntry entry)

single_entry-IsValidEntry : (msg : Message) → IsValidEntry (single_entry msg)
single_entry-IsValidEntry msg = record { bounded = omega arith; keyed = λ key. refl }

pub add_message-IsValid :
    (id : Text) (msg : Message) (cache : ConversationMessageCache)
    → IsValid cache
    → IsValid (add_message id msg cache).0
unfolding add_message
add_message-IsValid id msg cache valid = elim (Option-cases (JsMap.get id cache)) [
  | inl miss ↦
      rw (miss, add_message)
        (evict-IsValid _ (JsMap.set-HasDistinctKeys id _ cache valid.distinct)
          (omega (
            arith,
            JsMap.length-set id (single_entry msg) cache,
            valid.bounded,
            length_of_miss miss,
          ))
          (JsMap.set-AllValues IsValidEntry id _ cache (single_entry-IsValidEntry msg)
            valid.entries))
  | inr (entry, hit) ↦
      elim (Bool-cases (contains entry.content_keys (get_message_content_key msg))) [
        | inl seen ↦ rw (hit, add_message, seen) valid
        | inr new ↦ elim (Bool-cases (has_id msg.id entry.messages)) [
          | inl seen ↦ rw (hit, add_message, new, seen) valid
          | inr fresh ↦
              rw (hit, add_message, new, fresh)
                (rewritten-IsValid id id _ cache valid
                  (normalize_entry-IsValidEntry (extended_entry entry msg)) (rw hit))
        ]
      ]
]
  where
    length_of_miss :
        JsMap.get id cache ≡ none
        → length (JsMap.set id (single_entry msg) cache) ≡ suc (length cache)
    length_of_miss miss = rw (JsMap.length-set id (single_entry msg) cache) (rw miss)

pub remove-IsValid :
    (id : Text) (cache : ConversationMessageCache) → IsValid cache → IsValid (remove id cache)
unfolding remove
remove-IsValid id cache valid = record {
  distinct = JsMap.delete-HasDistinctKeys id cache valid.distinct;
  bounded = omega (arith, JsMap.length-delete id cache, valid.bounded);
  entries = JsMap.delete-AllValues IsValidEntry id cache valid.entries;
}

pub rename-IsValid :
    (old_id new_id : Text) (cache : ConversationMessageCache)
    → IsValid cache
    → IsValid (rename old_id new_id cache)
unfolding rename
rename-IsValid old_id new_id cache valid = elim (Bool-cases (old_id == new_id)) [
  | inl same ↦ rw same valid
  | inr other ↦ elim (Option-cases (JsMap.get old_id cache)) [
    | inl miss ↦ rw (other, miss, rename) valid
    | inr (old_entry, hit) ↦ elim (Option-cases (JsMap.get new_id cache)) [
      | inl free ↦
          rw (other, hit, free, rename)
            (rewritten-IsValid old_id new_id old_entry cache valid
              (JsMap.get-AllValues IsValidEntry old_id cache old_entry valid.entries hit) (rw hit))
      | inr (new_entry, taken) ↦
          rw (other, hit, taken, rename)
            (rewritten-IsValid old_id new_id (normalize_entry (merged_entry new_entry old_entry))
              cache valid (normalize_entry-IsValidEntry (merged_entry new_entry old_entry))
              (rw hit))
    ]
  ]
]

pub clear-IsValid : (cache : ConversationMessageCache) → IsValid (clear cache)
unfolding clear
clear-IsValid cache = record { distinct = tt; bounded = omega arith; entries = tt }
