-- ===== src/Messages/Reconcile/Shown.antt =====
-- When `reconcileConversationMessages` of frontend/src/hooks/useConversationMessages.ts reports
-- nothing.
use remoteterm_meshcore.Prelude.{
  ℕ, ◌≡◌, refl, sym, ap, true, get_or, ◌∙◌, ◌↔◌, inl, inr, false, none, some, List, [], ◌∷◌, ◌++◌,
  arith, All, All_imp, nat_eq, list_eq, option_eq, Bool-cases, eq_iff, contains,
}
use remoteterm_meshcore.Prelude.JsMap
use remoteterm_meshcore.Prelude.JsMap.{JsMap}
use mathlib.Core.Path.{subst}
use remoteterm_meshcore.Data.{Message}
use remoteterm_meshcore.Messages.Key.{ids}
use remoteterm_meshcore.Messages.Reconcile.{
  MessageSummary, paths_len, summary, index_by_id, reconcile_conversation_messages,
}
use remoteterm_meshcore.Messages.Reconcile.Laws.{
  needs_update_iff, get-index_by_id_absent, index_by_id-append,
}

-- The last message of a list with the id of `m`, where it is, agrees with `m` in what is compared.
pub record IsShown (current : List Message) (m : Message) : Type 0 where
  pub before : List Message
  pub shown : Message
  pub after : List Message
  pub there : current ≡ before ++ shown ∷ after
  pub same_id : shown.id ≡ m.id
  pub last : contains (ids after) m.id ≡ false
  pub same_acked : shown.acked ≡ m.acked
  pub same_paths_len : paths_len shown ≡ paths_len m
  pub same_text : shown.text ≡ m.text
  pub same_packet_id : shown.packet_id ≡ m.packet_id

IsShown-index :
    (current : List Message) (m : Message)
    → IsShown current m
    → JsMap.get m.id (index_by_id [] current) ≡ some (summary m)
unfolding index_by_id
IsShown-index current m h =
    rw
      (
        h.there,
        index_by_id-append [] h.before (h.shown ∷ h.after),
        get-index_by_id_absent m.id
            (JsMap.set h.shown.id (summary h.shown) (index_by_id [] h.before)) h.after h.last,
        h.same_id,
        JsMap.get-set_self m.id (summary h.shown) (index_by_id [] h.before),
      )
      (ap some (cc (h.same_acked, h.same_paths_len, h.same_text, h.same_packet_id)))

later-IsShown :
    (first : Message) (current : List Message) (m : Message)
    → IsShown current m
    → IsShown (first ∷ current) m
later-IsShown first current m h = record {
  before = first ∷ h.before;
  shown = h.shown;
  after = h.after;
  there = ap (◌∷◌ first) h.there;
  same_id = h.same_id;
  last = h.last;
  same_acked = h.same_acked;
  same_paths_len = h.same_paths_len;
  same_text = h.same_text;
  same_packet_id = h.same_packet_id;
}

-- What an index holds is of the last message with the id, or of the index before.
index-IsShown :
    (by_id : JsMap ℕ MessageSummary) (current : List Message) (m : Message)
    → contains (ids current) m.id ≡ true
    → JsMap.get m.id (index_by_id by_id current) ≡ some (summary m)
    → IsShown current m
unfolding index_by_id contains
index-IsShown by_id [] m listed h = absurd (cc listed)
index-IsShown by_id (c ∷ current) m listed h = elim (Bool-cases (contains (ids current) m.id)) [
  | inl later ↦
      later-IsShown c current m (index-IsShown (JsMap.set c.id (summary c) by_id) current m later h)
  | inr last ↦
      let same : c.id ≡ m.id = ground (arith, eq_iff c.id m.id) in
      let found : JsMap.get m.id (JsMap.set c.id (summary c) by_id) ≡ some (summary m) =
        sym (get-index_by_id_absent m.id (JsMap.set c.id (summary c) by_id) current last) ∙ h in
      let held : some (summary c) ≡ some (summary m) =
        sym (JsMap.get-set_self c.id (summary c) by_id)
        ∙ subst (λ k. JsMap.get k (JsMap.set c.id (summary c) by_id) ≡ some (summary m)) (sym same)
            found in
      record {
        before = [];
        shown = c;
        after = current;
        there = refl;
        same_id = same;
        last = last;
        same_acked = ap (λ o. (get_or o (summary c)).acked) held;
        same_paths_len = ap (λ o. (get_or o (summary c)).paths_len) held;
        same_text = ap (λ o. (get_or o (summary c)).text) held;
        same_packet_id = ap (λ o. (get_or o (summary c)).packet_id) held;
      }
]

indexed_listed :
    (current : List Message) (m : Message)
    → JsMap.get m.id (index_by_id [] current) ≡ some (summary m)
    → contains (ids current) m.id ≡ true
unfolding JsMap.get
indexed_listed current m h = elim (Bool-cases (contains (ids current) m.id)) [
  | inl listed ↦ listed
  | inr absent ↦
      let nothing : none ≡ some (summary m) =
        sym (get-index_by_id_absent m.id [] current absent) ∙ h in
      absurd (cc nothing)
]

-- Nothing is reported exactly when for each fetched message the last of the messages shown that has
-- its id has the same ACK count, number of paths, text and packet id.
pub reconcile_none_iff :
    (current fetched : List Message)
    → (reconcile_conversation_messages current fetched ≡ none) ↔ All (IsShown current) fetched
unfolding reconcile_conversation_messages
reconcile_none_iff current fetched = (
  λ h.
      All_imp _ _ fetched (λ m p. index-IsShown [] current m (indexed_listed current m p) p)
        ((needs_update_iff (index_by_id [] current) fetched).0 (ground arith)),
  λ h.
      let indexed = All_imp _ _ fetched (IsShown-index current) h in
      ground (arith, (needs_update_iff (index_by_id [] current) fetched).1 indexed),
)
