-- ===== src/Network/Resolve/Laws.antt =====
-- Lemmas on `resolveNode`.
use remoteterm_meshcore.Prelude.{
  ℕ, ◌≡◌, refl, inl, inr, Bool, true, false, ◌&&◌, Option, none, some, List, [], ◌∷◌, ◌++◌, Text,
  codes, length, nat_eq, list_eq, option_eq, Bool-cases, Option-cases, ◌==◌, ltb, to_lower_case,
  get_or,
}
use remoteterm_meshcore.Prelude.JsMap
use remoteterm_meshcore.Data.{Contact}
use remoteterm_meshcore.Network.Graph.{PacketNetworkState}
use remoteterm_meshcore.Network.Graph.Validity.{
  Extends, Extends-refl, IsResolved, unresolved, IsResolved-self, IsResolved-node, IsResolved-after,
}
use remoteterm_meshcore.Network.Context.{PacketNetworkContext, prefix12}
use remoteterm_meshcore.Network.Guess.{TrafficContext, observe_traffic, split_by_traffic}
use remoteterm_meshcore.Network.Resolve.{
  SourceType, prefix, pubkey, name, known_node, unknown_node, visit_contact, the_contact,
  candidates, resolve_pubkey, resolve_name, resolve_ambiguous, resolve_filtered, resolve_prefix,
  resolve_node,
}

visit_contact-IsResolved :
    (context : PacketNetworkContext) (at : ℕ) (contact : Contact) (state : PacketNetworkState)
    → IsResolved state (visit_contact context at contact state)
visit_contact-IsResolved context at contact state =
    elim (Bool-cases (some (prefix12 contact.public_key) == context.my_prefix)) [
      | inl own ↦ rw (own, visit_contact) (IsResolved-self state)
      | inr other ↦
          rw (other, visit_contact)
            (IsResolved-node (known_node at (prefix12 contact.public_key) contact) state)
    ]

resolve_pubkey-IsResolved :
    (context : PacketNetworkContext) (at : ℕ) (value : Text) (state : PacketNetworkState)
    → IsResolved state (resolve_pubkey context at value state)
unfolding resolve_pubkey
resolve_pubkey-IsResolved context at value state = elim (Bool-cases (ltb (length value) 12)) [
  | inl short ↦ rw short (unresolved state)
  | inr long ↦ rw long (elim (Bool-cases (some (prefix12 value) == context.my_prefix)) [
    | inl own ↦ rw own (IsResolved-self state)
    | inr other ↦
        rw other
          (elim (Option-cases (JsMap.get (prefix12 value) context.contact_index.by_prefix12)) [
            | inl q ↦ rw q (IsResolved-node (unknown_node at (prefix12 value) none) state)
            | inr (contact, q) ↦ rw q (IsResolved-node _ state)
          ])
  ])
]

resolve_name-IsResolved :
    (context : PacketNetworkContext) (at : ℕ) (value : Text) (state : PacketNetworkState)
    → IsResolved state (resolve_name context at value state)
unfolding resolve_name
resolve_name-IsResolved context at value state =
    elim (Option-cases (JsMap.get value context.contact_index.by_name)) [
      | inl q ↦
          rw (q, resolve_name)
            (IsResolved-node (unknown_node at (codes "name:" ++ value) (some value)) state)
      | inr (contact, q) ↦ rw (q, resolve_name) (visit_contact-IsResolved context at contact state)
    ]

observe_traffic-Extends :
    (now : ℕ) (value : Text) (traffic : TrafficContext) (state : PacketNetworkState)
    → Extends state (observe_traffic now value traffic state)
observe_traffic-Extends now value traffic state = go traffic.packet_source refl
  where
    go :
        (source : Option Text)
        → traffic.packet_source ≡ source
        → Extends state (observe_traffic now value traffic state)
    go none h = rw (h, observe_traffic) (Extends-refl state)
    go (some []) h = rw (h, observe_traffic) (Extends-refl state)
    go (some (c ∷ source)) h = rw (h, observe_traffic) (refl, refl, refl, λ id p. p, λ p. p)

module _ (locale_before : Text → Text → Bool) (now : ℕ) (context : PacketNetworkContext) where
  resolve_ambiguous-IsResolved :
      (at : ℕ) (value : Text) (filtered : List Contact) (is_repeater : Bool)
      (traffic : Option TrafficContext) (state : PacketNetworkState)
      → IsResolved state
          (resolve_ambiguous locale_before now context at value filtered is_repeater traffic state)
  unfolding resolve_ambiguous split_by_traffic
  resolve_ambiguous-IsResolved at value filtered is_repeater none state =
      IsResolved-after _ state state (Extends-refl state)
  resolve_ambiguous-IsResolved at value filtered is_repeater (some traffic) state =
      elim (Bool-cases (context.split_ambiguous_by_traffic && is_repeater)) [
        | inl split ↦
            rw (split, resolve_ambiguous)
              (IsResolved-after _ state (observe_traffic now value traffic state)
                (observe_traffic-Extends now value traffic state))
        | inr whole ↦
            rw (whole, resolve_ambiguous) (IsResolved-after _ state state (Extends-refl state))
      ]

  resolve_filtered-IsResolved :
      (at : ℕ) (value : Text) (filtered : List Contact) (is_repeater : Bool)
      (traffic : Option TrafficContext) (state : PacketNetworkState)
      → IsResolved state
          (resolve_filtered locale_before now context at value filtered is_repeater traffic state)
  resolve_filtered-IsResolved at value [] false traffic state = unresolved state
  resolve_filtered-IsResolved at value [] true traffic state =
      resolve_ambiguous-IsResolved at value [] true traffic state
  resolve_filtered-IsResolved at value (only ∷ []) is_repeater traffic state =
      IsResolved-node (known_node at (prefix12 only.public_key) only) state
  resolve_filtered-IsResolved at value (a ∷ b ∷ more) is_repeater traffic state =
      resolve_ambiguous-IsResolved at value (a ∷ b ∷ more) is_repeater traffic state

  resolve_prefix-IsResolved :
      (at : ℕ) (value : Text) (is_repeater show_ambiguous : Bool) (traffic : Option TrafficContext)
      (state : PacketNetworkState)
      → IsResolved state (
          resolve_prefix locale_before now context at value is_repeater show_ambiguous traffic
            state)
  unfolding resolve_prefix
  resolve_prefix-IsResolved at value is_repeater show_ambiguous traffic state =
      let matches : List Contact =
        get_or (JsMap.get (to_lower_case value) context.contact_index.by_prefix) [] in
      elim (Option-cases (the_contact matches)) [
        | inr (contact, q) ↦
            rw (q, resolve_prefix) (visit_contact-IsResolved context at contact state)
        | inl q ↦
            rw (q, resolve_prefix)
              (elim (Bool-cases show_ambiguous) [
                | inl shown ↦ rw shown (
                    resolve_filtered-IsResolved at (to_lower_case value)
                      (candidates locale_before now context is_repeater matches) is_repeater traffic
                      state)
                | inr hidden ↦ rw hidden (unresolved state)
              ])
      ]

  -- Resolving a name, key or prefix changes nothing but nodes and the traffic record, removes no
  -- node, keeps nodes under their ids, and, if our own node is there, a resolved id is that of a
  -- node that is then there.
  pub resolve_node-IsResolved :
      (kind : SourceType) (value : Text) (is_repeater show_ambiguous : Bool) (at : ℕ)
      (traffic : Option TrafficContext) (state : PacketNetworkState)
      → IsResolved state (
          resolve_node locale_before now context kind value is_repeater show_ambiguous at traffic
            state)
  unfolding resolve_node
  resolve_node-IsResolved pubkey value is_repeater show_ambiguous at traffic state =
      resolve_pubkey-IsResolved context at value state
  resolve_node-IsResolved name value is_repeater show_ambiguous at traffic state =
      resolve_name-IsResolved context at value state
  resolve_node-IsResolved prefix value is_repeater show_ambiguous at traffic state =
      resolve_prefix-IsResolved at value is_repeater show_ambiguous traffic state
