-- ===== src/Messages/Append/Laws.antt =====
-- Lemmas on `appendUniqueMessages`.
use remoteterm_meshcore.Prelude.{
  ℕ, ◌≡◌, refl, ap, ◌∙◌, true, ◌||◌, List, [], ◌++◌, Text, arith, append-nil, All, All_imp, nat_eq,
  list_eq, contains, contains-append, insert_all, contains-insert_all_nil, contains_disjoint,
  All_of_contains, IsDistinct, IsDistinct-append,
}
use remoteterm_meshcore.Data.{Message}
use remoteterm_meshcore.Messages.Key.{
  get_message_content_key, content_keys, content_keys-append, ids, ids-append,
}
use remoteterm_meshcore.Messages.Append.{additions, append_unique_messages}
use remoteterm_meshcore.Messages.Append.Additions.{
  fresh_ids, fresh_keys, additions-IsDistinct, covered, additions_complete, additions_none,
}

-- Appending keeps ids distinct, and content keys too.
pub append_unique-IsDistinct :
    (current incoming : List Message)
    → IsDistinct (ids current)
    → IsDistinct (content_keys current)
    → IsDistinct (ids (append_unique_messages current incoming))
      × IsDistinct (content_keys (append_unique_messages current incoming))
unfolding append_unique_messages
append_unique-IsDistinct current incoming d e =
    let set_ids : List ℕ = insert_all [] (ids current) in
    let set_keys : List Text = insert_all [] (content_keys current) in
    let added = additions-IsDistinct set_ids set_keys incoming in
    rw (ids-append, content_keys-append)
      (
        IsDistinct-append (ids current) _ d added.0 (
            All_of_contains _ (ids current) (λ k c.
              contains_disjoint set_ids _ k (fresh_ids set_ids set_keys incoming)
                (contains-insert_all_nil (ids current) k ∙ c))),
        IsDistinct-append (content_keys current) _ e added.1 (
            All_of_contains _ (content_keys current) (λ k c.
              contains_disjoint set_keys _ k (fresh_keys set_ids set_keys incoming)
                (contains-insert_all_nil (content_keys current) k ∙ c))),
      )

-- Every incoming message is in the result, or a message with its id or with its content key is.
pub append_unique_complete :
    (current incoming : List Message)
    → All
        (λ m.
          (contains (ids (append_unique_messages current incoming)) m.id
            || contains
                (content_keys (append_unique_messages current incoming))
                (get_message_content_key m))
          ≡ true)
        incoming
unfolding append_unique_messages
append_unique_complete current incoming =
    All_imp _ _ incoming (λ m p. shown m p)
      (additions_complete (insert_all [] (ids current)) (insert_all [] (content_keys current))
        incoming)
  where
    added : List Message
    added = additions (insert_all [] (ids current)) (insert_all [] (content_keys current)) incoming

    shown :
        (m : Message)
        → covered (insert_all [] (ids current)) (insert_all [] (content_keys current)) added m
          ≡ true
        → (contains (ids (current ++ added)) m.id
            || contains (content_keys (current ++ added)) (get_message_content_key m))
          ≡ true
    shown m p =
        rw (ids-append current added, content_keys-append current added)
          (ground (
            arith,
            p,
            contains-append (ids current) (ids added) m.id,
            contains-append (content_keys current) (content_keys added) (get_message_content_key m),
            contains-insert_all_nil (ids current) m.id,
            contains-insert_all_nil (content_keys current) (get_message_content_key m),
          ))

append_unique_lem :
    (current incoming : List Message)
    → append_unique_messages current incoming
      ≡ current
        ++ additions (insert_all [] (ids current)) (insert_all [] (content_keys current)) incoming
unfolding append_unique_messages
append_unique_lem current incoming = refl

-- Appending the same messages again adds nothing.
pub append_unique_twice :
    (current incoming : List Message)
    → append_unique_messages (append_unique_messages current incoming) incoming
      ≡ append_unique_messages current incoming
append_unique_twice current incoming =
    append_unique_lem result incoming
    ∙ (ap (λ added. result ++ added)
          (additions_none (insert_all [] (ids result)) (insert_all [] (content_keys result))
            incoming
            (All_imp _ _ incoming
              (λ m p. ground (
                arith,
                p,
                contains-insert_all_nil (ids result) m.id,
                contains-insert_all_nil (content_keys result) (get_message_content_key m),
              ))
              (append_unique_complete current incoming)))
        ∙ append-nil result)
  where
    result : List Message
    result = append_unique_messages current incoming
