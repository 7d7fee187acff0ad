-- ===== src/Messages/Reconcile/Laws.antt =====
-- Lemmas on `reconcileConversationMessages`.
use remoteterm_meshcore.Prelude.{
  ℕ, ◌≡◌, refl, ◌∙◌, ◌↔◌, inl, inr, false, not, ◌&&◌, ◌||◌, Option, none, some, List, [], ◌∷◌, ◌++◌,
  arith, All, All_imp, All_both, All_of_contains, contains-append, nat_eq, list_eq, option_eq,
  Bool-cases, eq_iff, contains, keep, IsDistinct, IsDistinct-append,
}
use remoteterm_meshcore.Prelude.JsMap
use remoteterm_meshcore.Prelude.JsMap.{JsMap}
use remoteterm_meshcore.Data.{Message}
use remoteterm_meshcore.Messages.Key.{ids, ids-append, All_of_ids}
use remoteterm_meshcore.Messages.Reconcile.{
  MessageSummary, paths_len, summary, index_by_id, differs, needs_update, older_messages,
  reconcile_conversation_messages,
}

differs_iff :
    (o : Option MessageSummary) (m : Message) → (differs o m ≡ false) ↔ (o ≡ some (summary m))
unfolding differs
differs_iff none m = (λ h. cc, λ h. cc)
differs_iff (some c) m = (
  λ h. ground (
    arith,
    eq_iff c.acked m.acked,
    eq_iff c.paths_len (paths_len m),
    eq_iff c.text m.text,
    eq_iff c.packet_id m.packet_id,
  ),
  λ h. ground (
    arith,
    eq_iff c.acked m.acked,
    eq_iff c.paths_len (paths_len m),
    eq_iff c.text m.text,
    eq_iff c.packet_id m.packet_id,
  ),
)

-- Each message of a list is what an index holds under its id.
abbrev Indexes : JsMap ℕ MessageSummary → List Message → Type 0
Indexes by_id = All (λ m. JsMap.get m.id by_id ≡ some (summary m))

pub needs_update_iff :
    (by_id : JsMap ℕ MessageSummary) (ms : List Message)
    → (needs_update by_id ms ≡ false) ↔ Indexes by_id ms
unfolding needs_update
needs_update_iff by_id [] = (λ h. tt, λ h. refl)
needs_update_iff by_id (m ∷ ms) = (
  λ h. (
    (differs_iff (JsMap.get m.id by_id) m).0 (ground arith),
    (needs_update_iff by_id ms).0 (ground arith),
  ),
  λ h.
      ground
        (arith, (differs_iff (JsMap.get m.id by_id) m).1 h.0, (needs_update_iff by_id ms).1 h.1),
)

pub get-index_by_id_absent :
    (k : ℕ) (by_id : JsMap ℕ MessageSummary) (ms : List Message)
    → contains (ids ms) k ≡ false
    → JsMap.get k (index_by_id by_id ms) ≡ JsMap.get k by_id
unfolding index_by_id contains
get-index_by_id_absent k by_id [] h = refl
get-index_by_id_absent k by_id (m ∷ ms) h = ground (
  arith,
  get-index_by_id_absent k (JsMap.set m.id (summary m) by_id) ms,
  JsMap.get-set m.id k (summary m) by_id,
)

pub index_by_id-append :
    (by_id : JsMap ℕ MessageSummary) (xs ys : List Message)
    → index_by_id by_id (xs ++ ys) ≡ index_by_id (index_by_id by_id xs) ys
unfolding index_by_id
index_by_id-append by_id [] ys = refl
index_by_id-append by_id (x ∷ xs) ys = index_by_id-append (JsMap.set x.id (summary x) by_id) xs ys

index_by_id-Indexes :
    (by_id : JsMap ℕ MessageSummary) (ms : List Message)
    → IsDistinct (ids ms)
    → Indexes (index_by_id by_id ms) ms
unfolding index_by_id
index_by_id-Indexes by_id [] d = tt
index_by_id-Indexes by_id (m ∷ ms) d = (
  get-index_by_id_absent m.id (JsMap.set m.id (summary m) by_id) ms d.0
      ∙ JsMap.get-set_self m.id (summary m) by_id,
  index_by_id-Indexes (JsMap.set m.id (summary m) by_id) ms d.1,
)

-- The messages kept from `current` are those whose ids the page does not have.
contains-older_messages :
    (k : ℕ) (fetched current : List Message)
    → contains (ids (older_messages fetched current)) k
      ≡ (not (contains (ids fetched) k) && contains (ids current) k)
unfolding older_messages keep contains
contains-older_messages k fetched [] = ground arith
contains-older_messages k fetched (m ∷ current) =
    ground (arith, eq_iff m.id k, contains-older_messages k fetched current)

older_messages-IsDistinct :
    (fetched current : List Message)
    → IsDistinct (ids current)
    → IsDistinct (ids (older_messages fetched current))
unfolding older_messages keep
older_messages-IsDistinct fetched [] d = tt
older_messages-IsDistinct fetched (m ∷ current) d =
    elim (Bool-cases (contains (ids fetched) m.id)) [
      | inl gone ↦ rw gone (older_messages-IsDistinct fetched current d.1)
      | inr kept ↦ rw kept (
        ground (arith, contains-older_messages m.id fetched current, d.0),
        older_messages-IsDistinct fetched current d.1,
      )
    ]

older_messages_disjoint :
    (fetched current : List Message)
    → All (λ k. contains (ids (older_messages fetched current)) k ≡ false) (ids fetched)
older_messages_disjoint fetched current =
    All_of_contains _ (ids fetched)
      (λ k c. ground (arith, contains-older_messages k fetched current))

-- The list that is shown when there is something to update.
merged_lem :
    (current fetched merged : List Message)
    → reconcile_conversation_messages current fetched ≡ some merged
    → merged ≡ fetched ++ older_messages fetched current
unfolding reconcile_conversation_messages
merged_lem current fetched merged h = ground arith

-- Reconciling again with the same page finds nothing to update, if the page has no id twice.
pub reconcile_twice :
    (current fetched merged : List Message)
    → IsDistinct (ids fetched)
    → reconcile_conversation_messages current fetched ≡ some merged
    → reconcile_conversation_messages merged fetched ≡ none
unfolding reconcile_conversation_messages
reconcile_twice current fetched merged d h =
    rw (merged_lem current fetched merged h, (needs_update_iff _ fetched).1 indexed) refl
  where
    older : List Message
    older = older_messages fetched current

    indexed : Indexes (index_by_id [] (fetched ++ older)) fetched
    indexed = rw (index_by_id-append [] fetched older) (
        All_imp _ _ fetched
          (λ m p. get-index_by_id_absent m.id (index_by_id [] fetched) older p.1 ∙ p.0)
          (All_both _ _ fetched (index_by_id-Indexes [] fetched d)
            (All_of_ids _ fetched (older_messages_disjoint fetched current))))

-- What is shown afterwards has no id twice, if neither list had one, and has every id that was shown before or fetched.
pub reconcile_ids :
    (current fetched merged : List Message)
    → IsDistinct (ids current)
    → IsDistinct (ids fetched)
    → reconcile_conversation_messages current fetched ≡ some merged
    → IsDistinct (ids merged)
      × ((k : ℕ) → contains (ids merged) k ≡ (contains (ids fetched) k || contains (ids current) k))
reconcile_ids current fetched merged d e h =
    rw (merged_lem current fetched merged h, ids-append)
      (
        IsDistinct-append (ids fetched) (ids (older_messages fetched current)) e
            (older_messages-IsDistinct fetched current d) (older_messages_disjoint fetched current),
        λ k.
            contains-append (ids fetched) (ids (older_messages fetched current)) k
            ∙ ground (arith, contains-older_messages k fetched current),
      )
