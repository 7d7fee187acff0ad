-- ===== src/Network/Steps.antt =====
-- Node ids, link keys and path steps of frontend/src/utils/visualizerUtils.ts.
pub mod Laws
use remoteterm_meshcore.Prelude.{
  ℕ, Bool, true, false, not, ◌&&◌, Option, none, some, List, [], ◌∷◌, ◌++◌, Text, codes, join,
  to_lower_case, to_upper_case, trim, text_ltb, nat_eq, list_eq, get_or, if◌then◌else◌, ◌==◌,
  contains, insert,
}
use remoteterm_meshcore.Prelude.JsMap
use remoteterm_meshcore.Prelude.JsMap.{JsMap}
use remoteterm_meshcore.Prelude.Sort.{sort}
use remoteterm_meshcore.Data.{Contact, contact_type_repeater}

pub data NodeType : Type 0 where
  self repeater client : NodeType

pub record PathStep : Type 0 where
  pub node_id : Option Text
  pub mark_hidden_link_when_omitted : Bool
  pub hidden_label : Option Text

-- A text that is not empty; the empty text is falsy.
abbrev pub truthy : Text → Option Text
truthy [] = none
truthy (c ∷ s) = some (c ∷ s)

unfoldable pub normalize_hop_token : Option Text → Option Text
normalize_hop_token none = none
normalize_hop_token (some hop) = truthy (to_lower_case (trim hop))

abbrev hop_node_id : Option Text → Option Text → Text
hop_node_id none next_hop = codes "?"
hop_node_id (some hop) none = codes "?" ++ hop
hop_node_id (some hop) (some next_hop) = codes "?" ++ hop ++ codes ":>" ++ next_hop

unfoldable pub build_ambiguous_repeater_node_id : Text → Option Text → Text
unfolding normalize_hop_token
build_ambiguous_repeater_node_id hop next_hop =
    hop_node_id (normalize_hop_token (some hop)) (normalize_hop_token next_hop)

abbrev hop_label : Option Text → Option Text → Text
hop_label none next_hop = codes "?"
hop_label (some hop) none = to_upper_case hop
hop_label (some hop) (some next_hop) = to_upper_case hop ++ codes ":>" ++ to_upper_case next_hop

unfoldable pub build_ambiguous_repeater_label : Text → Option Text → Text
unfolding normalize_hop_token
build_ambiguous_repeater_label hop next_hop =
    hop_label (normalize_hop_token (some hop)) (normalize_hop_token next_hop)

unfoldable pub build_link_key : Text → Text → Text
build_link_key source_id target_id = join (codes "->") (sort text_ltb (source_id ∷ target_id ∷ []))

unfoldable pub get_node_type : Option Contact → NodeType
get_node_type none = client
get_node_type (some contact) = if contact.kind == contact_type_repeater then repeater else client

-- The filter of `dedupeConsecutive`, after an element.
unfoldable pub dedupe_from : Text → List Text → List Text
dedupe_from previous [] = []
dedupe_from previous (item ∷ arr) =
    if item == previous then dedupe_from item arr else item ∷ dedupe_from item arr

unfoldable pub dedupe_consecutive : List Text → List Text
unfolding dedupe_from
dedupe_consecutive [] = []
dedupe_consecutive (item ∷ arr) = item ∷ dedupe_from item arr

-- The variables of the loop of `compactPathSteps`; `last` is the end of `nodes`.
pub record Compaction : Type 0 where
  pub nodes : List Text
  pub last : Option Text
  pub dashed_link_details : JsMap Text (List Text)
  pub pending_hidden_link : Bool
  pub pending_hidden_labels : List Text

-- The labels of a hidden stretch are added to those of its link.
unfoldable pub add_labels : List Text → List Text → List Text
add_labels existing [] = existing
add_labels existing (label ∷ labels) = add_labels (insert label existing) labels

unfoldable pub mark_dashed :
    Text → Text → List Text → JsMap Text (List Text) → JsMap Text (List Text)
unfolding add_labels
mark_dashed previous node_id labels details =
    JsMap.set (build_link_key previous node_id)
      (add_labels (get_or (JsMap.get (build_link_key previous node_id) details) []) labels) details

-- A step with a node, after the node `previous`.
abbrev pub visit : Text → Option Text → Compaction → Compaction
visit node_id none c = record {
  nodes = c.nodes ++ node_id ∷ [];
  last = some node_id;
  dashed_link_details = c.dashed_link_details;
  pending_hidden_link = false;
  pending_hidden_labels = [];
}
visit node_id (some previous) c =
    if previous == node_id
    then record c { pending_hidden_link = false; pending_hidden_labels = [] }
    else record {
      nodes = c.nodes ++ node_id ∷ [];
      last = some node_id;
      dashed_link_details =
          if c.pending_hidden_link
          then mark_dashed previous node_id c.pending_hidden_labels c.dashed_link_details
          else c.dashed_link_details;
      pending_hidden_link = false;
      pending_hidden_labels = [];
    }

abbrev hide_label : Option Text → List Text → List Text
hide_label none labels = labels
hide_label (some []) labels = labels
hide_label (some (c ∷ label)) labels = insert (c ∷ label) labels

-- A step without a node.
abbrev pub omit : PathStep → Option Text → Compaction → Compaction
omit step none c = c
omit step (some previous) c =
    if step.mark_hidden_link_when_omitted
    then record c {
      pending_hidden_link = true;
      pending_hidden_labels = hide_label step.hidden_label c.pending_hidden_labels;
    }
    else c

abbrev pub compact_step : PathStep → Option Text → Compaction → Compaction
compact_step step none c = omit step c.last c
compact_step step (some []) c = omit step c.last c
compact_step step (some (a ∷ node_id)) c = visit (a ∷ node_id) c.last c

unfoldable pub compact_from : Compaction → List PathStep → Compaction
compact_from c [] = c
compact_from c (step ∷ steps) = compact_from (compact_step step step.node_id c) steps

unfoldable pub compact_path_steps : List PathStep → Compaction
unfolding compact_from mark_dashed
compact_path_steps steps =
    compact_from
      (record {
        nodes = [];
        last = none;
        dashed_link_details = [];
        pending_hidden_link = false;
        pending_hidden_labels = [];
      })
      steps
