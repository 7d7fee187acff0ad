-- ===== src/Messages/Cache/Laws.antt =====
-- What the methods of the conversation cache do to its contents.
use mathlib.Core.List.{Perm}
use mathlib.Core.Path.{subst}
use remoteterm_meshcore.Prelude.{
  ◌≤◌, ◌<◌, ◌≡◌, refl, sym, ◌∙◌, ◌↔◌, inl, inr, true, false, some, List, [], ◌∷◌, ◌++◌, Text, arith,
  length, length-append, take, drop, take-append-drop, length-take, All, All_imp, ltb, nat_eq,
  list_eq, Bool-cases, Option-cases, contains, if◌then◌else◌,
}
use remoteterm_meshcore.Prelude.JsMap
use remoteterm_meshcore.Prelude.Sort.{sort, length-sort, sort-perm, sort-IsSorted, IsSorted-cut}
use remoteterm_meshcore.Data.{Message}
use remoteterm_meshcore.Messages.Key.{get_message_content_key, content_keys}
use remoteterm_meshcore.Messages.Cache.{
  max_cached_conversations, max_messages_per_entry, CachedConversationEntry,
  InternalCachedConversationEntry, ConversationMessageCache, newer, trim_entry, normalize_entry,
  evict, get, set, has_id, extended_entry, visible, add_message,
}
use remoteterm_meshcore.Messages.Cache.Validity.{IsValid, IsValidEntry}

-- A write of a key that is not there puts it last; the first entry goes if that is one too many.
set-append :
    (id : Text) (entry : CachedConversationEntry) (cache : ConversationMessageCache)
    → set id entry cache ≡ evict (JsMap.delete id cache ++ (id, normalize_entry entry) ∷ [])
unfolding set
set-append id entry cache = rw (
    JsMap.set_absent id (normalize_entry entry) (JsMap.delete id cache)
      (JsMap.has-delete_self id cache))

-- In a valid cache that is full, storing a conversation that is not cached drops exactly the least
-- recently used entry and puts the new one last, the others staying in their order.
pub set_full :
    (id oldest : Text) (entry : CachedConversationEntry) (first : InternalCachedConversationEntry)
    (rest : ConversationMessageCache)
    → IsValid ((oldest, first) ∷ rest)
    → length ((oldest, first) ∷ rest) ≡ max_cached_conversations
    → JsMap.has id ((oldest, first) ∷ rest) ≡ false
    → set id entry ((oldest, first) ∷ rest) ≡ rest ++ (id, normalize_entry entry) ∷ []
unfolding evict
set_full id oldest entry first rest valid full absent =
    rw (set-append id entry cache, JsMap.delete_absent id cache absent, over)
      (JsMap.delete_first_lem oldest first (rest ++ (id, v) ∷ []) (
        subst (λ m. JsMap.HasDistinctKeys m) (JsMap.set_absent id v cache absent)
          (JsMap.set-HasDistinctKeys id v cache valid.distinct)))
  where
    v : InternalCachedConversationEntry
    v = normalize_entry entry

    cache : ConversationMessageCache
    cache = (oldest, first) ∷ rest

    over : ltb max_cached_conversations (length (cache ++ (id, v) ∷ [])) ≡ true
    over = ground (arith, length-append {0} cache ((id, v) ∷ []))

-- The entry just appended survives the eviction.
get-evict_append :
    (id : Text) (v : InternalCachedConversationEntry) (m : ConversationMessageCache)
    → JsMap.has id m ≡ false
    → JsMap.HasDistinctKeys (m ++ (id, v) ∷ [])
    → JsMap.get id (evict (m ++ (id, v) ∷ [])) ≡ some v
unfolding evict
get-evict_append id v [] absent distinct = JsMap.get_single id v
get-evict_append id v ((k, w) ∷ m) absent distinct =
    elim (Bool-cases (ltb max_cached_conversations (length ((k, w) ∷ m ++ (id, v) ∷ [])))) [
      | inl full ↦
          rw (full, JsMap.delete_first_lem k w (m ++ (id, v) ∷ []) distinct)
            (JsMap.get-append_absent id m _ (JsMap.has-tail id k w m absent)
              ∙ JsMap.get_single id v)
      | inr room ↦
          rw room (JsMap.get-append_absent id ((k, w) ∷ m) _ absent ∙ JsMap.get_single id v)
    ]

stored :
    (id : Text) (entry : CachedConversationEntry) (cache : ConversationMessageCache)
    → JsMap.HasDistinctKeys cache
    → JsMap.get id (set id entry cache) ≡ some (normalize_entry entry)
stored id entry cache distinct = rw (set-append id entry cache) (
    get-evict_append id v rest (JsMap.has-delete_self id cache) (
      rw (← JsMap.set_absent id v rest (JsMap.has-delete_self id cache))
        (JsMap.set-HasDistinctKeys id v rest (JsMap.delete-HasDistinctKeys id cache distinct))))
  where
    v : InternalCachedConversationEntry
    v = normalize_entry entry

    rest : ConversationMessageCache
    rest = JsMap.delete id cache

-- What was stored is read back, trimmed, from a valid cache.
pub get-set :
    (id : Text) (entry : CachedConversationEntry) (cache : ConversationMessageCache)
    → IsValid cache
    → (get id (set id entry cache)).1 ≡ some (trim_entry entry)
unfolding get normalize_entry
get-set id entry cache valid = rw (stored id entry cache valid.distinct, get)

extended :
    (id : Text) (msg : Message) (cache : ConversationMessageCache)
    (entry : InternalCachedConversationEntry)
    → (get id (JsMap.set id (normalize_entry (extended_entry entry msg)) (JsMap.delete id cache))).1
      ≡ some (trim_entry (extended_entry entry msg))
unfolding get normalize_entry
extended id msg cache entry =
    rw
      (
        JsMap.get-set_self id (normalize_entry (extended_entry entry msg)) (JsMap.delete id cache),
        get,
      )
      refl

-- In a valid cache a message is taken for a conversation that is cached exactly when none there has
-- its content key or its id. What is then read for the conversation is its messages with the new one
-- behind them, trimmed, and otherwise its messages as they were.
pub add_message_dedup :
    (id : Text) (msg : Message) (cache : ConversationMessageCache)
    (entry : InternalCachedConversationEntry)
    → IsValid cache
    → JsMap.get id cache ≡ some entry
    → (((add_message id msg cache).1 ≡ true) ↔ (
        (contains (content_keys entry.messages) (get_message_content_key msg) ≡ false)
        × (has_id msg.id entry.messages ≡ false)))
      × ((get id (add_message id msg cache).0).1
          ≡ some (
              if (add_message id msg cache).1
              then trim_entry (extended_entry entry msg)
              else visible entry))
unfolding add_message get
add_message_dedup id msg cache entry valid hit =
    let v : IsValidEntry entry =
      JsMap.get-AllValues IsValidEntry id cache entry valid.entries hit in
    let unchanged : (get id cache).1 ≡ some (visible entry) = rw (hit, get) refl in
    elim (Bool-cases (contains entry.content_keys (get_message_content_key msg))) [
      | inl seen ↦
          rw (hit, add_message, seen)
            ((λ p. cc, λ p. cc (v.keyed (get_message_content_key msg))), unchanged)
      | inr new ↦ elim (Bool-cases (has_id msg.id entry.messages)) [
        | inl seen ↦ rw (hit, add_message, new, seen) ((λ p. cc, λ p. cc), unchanged)
        | inr fresh ↦
            rw (hit, add_message, new, fresh)
              (
                (λ p. (sym (v.keyed (get_message_content_key msg)) ∙ new, refl), λ p. refl),
                extended id msg cache entry,
              )
      ]
    ]

-- A message that the cache refuses leaves the cache as it was.
pub add_message_refused :
    (id : Text) (msg : Message) (cache : ConversationMessageCache)
    → (add_message id msg cache).1 ≡ false
    → (add_message id msg cache).0 ≡ cache
unfolding add_message
add_message_refused id msg cache refused = elim (Option-cases (JsMap.get id cache)) [
  | inl miss ↦
      let added : (add_message id msg cache).1 ≡ true = rw (miss, add_message) refl in absurd (cc)
  | inr (entry, hit) ↦
      elim (Bool-cases (contains entry.content_keys (get_message_content_key msg))) [
        | inl seen ↦ rw (hit, add_message, seen) refl
        | inr new ↦ elim (Bool-cases (has_id msg.id entry.messages)) [
          | inl seen ↦ rw (hit, add_message, new, seen) refl
          | inr fresh ↦
              let added : (add_message id msg cache).1 ≡ true =
                rw (hit, add_message, new, fresh) refl in
              absurd (cc)
        ]
      ]
]

newer_asym : (a b : Message) → newer a b ≡ true → newer b a ≡ false
newer_asym a b h = ground arith

newer_trans : (a b c : Message) → newer b a ≡ false → newer c b ≡ false → newer c a ≡ false
newer_trans a b c h k = ground arith

-- Trimming an entry of more than 200 messages keeps 200 of them and marks that there are older
-- ones, and no message that it drops is newer than one that it keeps.
pub trim_entry_newest :
    (entry : CachedConversationEntry)
    → max_messages_per_entry < length entry.messages
    → (dropped : List Message) × Perm ((trim_entry entry).messages ++ dropped) entry.messages
      × (length (trim_entry entry).messages ≡ max_messages_per_entry)
      × All
          (λ kept. All (λ gone. gone.received_at ≤ kept.received_at) dropped)
          (trim_entry entry).messages
      × ((trim_entry entry).has_older_messages ≡ true)
unfolding trim_entry
trim_entry_newest entry h =
    rw (over, trim_entry)
      (
        drop 200 sorted,
        rw (take-append-drop 200 sorted) (sort-perm newer entry.messages),
        omega (arith, length-take 200 sorted, length-sort newer entry.messages),
        All_imp _ _ (take 200 sorted)
            (λ kept. All_imp _ _ (drop 200 sorted) (λ gone p. ground arith))
            (IsSorted-cut newer 200 sorted
              (sort-IsSorted newer newer_asym newer_trans entry.messages)),
        refl,
      )
  where
    sorted : List Message
    sorted = sort newer entry.messages

    over : ltb max_messages_per_entry (length entry.messages) ≡ true
    over = ground arith
