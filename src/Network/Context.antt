-- ===== src/Network/Context.antt =====
-- `buildPacketNetworkContext` of frontend/src/networkGraph/packetNetworkGraph.ts: the indexes of
-- contacts and of advert paths by which packet hops are resolved.
use remoteterm_meshcore.Prelude.{
  ℕ, zero, suc, ◌+◌, Bool, Option, none, some, List, [], ◌∷◌, ◌++◌, Text, get_or, take,
  to_lower_case, nat_eq, list_eq, if◌then◌else◌,
}
use remoteterm_meshcore.Prelude.JsMap
use remoteterm_meshcore.Prelude.JsMap.{JsMap}
use remoteterm_meshcore.Data.{Contact, ContactAdvertPath, ContactAdvertPathSummary}
use remoteterm_meshcore.Network.Steps.{truthy}

pub record ContactIndex : Type 0 where
  pub by_prefix12 : JsMap Text Contact
  pub by_name : JsMap Text Contact
  pub by_prefix : JsMap Text (List Contact)

pub record PacketNetworkContext : Type 0 where
  pub advert_paths_by_repeater : JsMap Text (List ContactAdvertPath)
  pub contact_index : ContactIndex
  pub my_prefix : Option Text
  pub split_ambiguous_by_traffic : Bool
  pub use_advert_path_hints : Bool

-- `key.slice(0, 12).toLowerCase()`
abbrev pub prefix12 : Text → Text
prefix12 public_key = to_lower_case (take 12 public_key)

-- The loop over the lengths `len`, `len + 1`, ... of the prefixes of one contact.
unfoldable pub index_prefixes :
    ℕ → ℕ → Text → Contact → JsMap Text (List Contact) → JsMap Text (List Contact)
index_prefixes zero len prefix contact by_prefix = by_prefix
index_prefixes (suc rounds) len prefix contact by_prefix =
    index_prefixes rounds (len + 1) prefix contact (
      JsMap.set (take len prefix)
        (get_or (JsMap.get (take len prefix) by_prefix) [] ++ contact ∷ []) by_prefix)

abbrev index_name : Option Text → Contact → JsMap Text Contact → JsMap Text Contact
index_name none contact by_name = by_name
index_name (some []) contact by_name = by_name
index_name (some (c ∷ name)) contact by_name =
    if JsMap.has (c ∷ name) by_name then by_name else JsMap.set (c ∷ name) contact by_name

unfoldable pub index_contacts : ContactIndex → List Contact → ContactIndex
unfolding index_prefixes
index_contacts index [] = index
index_contacts index (contact ∷ contacts) =
    index_contacts
      (record {
        by_prefix12 = JsMap.set (prefix12 contact.public_key) contact index.by_prefix12;
        by_name = index_name contact.name contact index.by_name;
        by_prefix = index_prefixes 12 1 (prefix12 contact.public_key) contact index.by_prefix;
      })
      contacts

unfoldable pub index_advert_paths :
    JsMap Text (List ContactAdvertPath)
    → List ContactAdvertPathSummary
    → JsMap Text (List ContactAdvertPath)
index_advert_paths by_repeater [] = by_repeater
index_advert_paths by_repeater (summary ∷ summaries) =
    index_advert_paths (JsMap.set (prefix12 summary.public_key) summary.paths by_repeater) summaries

-- `public_key` is `config?.public_key`.
unfoldable pub build_packet_network_context :
    Option Text → List Contact → List ContactAdvertPathSummary → Bool → Bool → PacketNetworkContext
unfolding index_contacts index_advert_paths
build_packet_network_context public_key contacts repeater_advert_paths split hints = record {
  contact_index =
      index_contacts (record { by_prefix12 = []; by_name = []; by_prefix = [] }) contacts;
  advert_paths_by_repeater = index_advert_paths [] repeater_advert_paths;
  my_prefix = elim public_key [ none ↦ none | some key ↦ truthy (prefix12 key) ];
  split_ambiguous_by_traffic = split;
  use_advert_path_hints = hints;
}
