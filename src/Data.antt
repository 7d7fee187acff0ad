-- ===== src/Data.antt =====
-- The records of frontend/src/types.ts that the modelled code reads. A field that may be absent or
-- null is an `Option`; where the program tells `undefined` from `null` apart it is an option of an
-- option, `none` for `undefined` and `some none` for `null`. Numbers that may be negative are
-- integers; SNR is counted in quarters of a decibel.
use remoteterm_meshcore.Prelude.{ℕ, ◌≡◌, ◌↔◌, Bool, true, false, Option, List, Text, Eq, arith}
use remoteterm_meshcore.Prelude.Int.{ℤ}

pub record MessagePath : Type 0 where
  pub path : Text
  pub received_at : ℕ
  pub path_len : Option ℕ
  pub rssi : Option ℤ
  pub snr : Option ℤ

pub data MessageType : Type 0 where
  priv chan : MessageType

abbrev pub message_type_beq : MessageType → MessageType → Bool
message_type_beq priv priv = true
message_type_beq chan chan = true
message_type_beq _ _ = false

pub message_type_beq_iff : (a b : MessageType) → (message_type_beq a b ≡ true) ↔ (a ≡ b)
message_type_beq_iff a b = ground arith

instance abbrev pub message_type_eq : Eq MessageType
message_type_eq = record { beq = message_type_beq; beq_iff = message_type_beq_iff }

pub record Message : Type 0 where
  pub id : ℕ
  pub kind : MessageType
  pub conversation_key : Text
  pub text : Text
  pub sender_timestamp : Option ℕ
  pub received_at : ℕ
  pub paths : Option (List MessagePath)
  pub txt_type : ℕ
  pub signature : Option Text
  pub sender_key : Option Text
  pub outgoing : Bool
  pub acked : ℕ
  pub sender_name : Option Text
  pub channel_name : Option Text
  pub packet_id : Option (Option ℕ)
  pub transport_code : Option ℕ
  pub region : Option Text
  pub pending : Option Bool

pub data ConversationType : Type 0 where
  contact channel raw map visualizer search mentions trace : ConversationType

pub record Conversation : Type 0 where
  pub kind : ConversationType
  pub id : Text
  pub name : Text
  pub map_focus_key : Option Text

pub record Channel : Type 0 where
  pub key : Text
  pub name : Text
  pub is_hashtag : Bool
  pub on_radio : Bool
  pub flood_scope_override : Option Text
  pub path_hash_mode_override : Option ℤ
  pub last_read_at : Option ℕ
  pub favorite : Bool
  pub muted : Bool

pub record ContactRoute : Type 0 where
  pub path : Text
  pub path_len : ℤ
  pub path_hash_mode : ℤ

pub data RouteSource : Type 0 where
  override direct flood : RouteSource

-- Coordinates are counted in millionths of a degree.
pub record Contact : Type 0 where
  pub public_key : Text
  pub name : Option Text
  pub kind : ℕ
  pub flags : ℕ
  pub direct_path : Option Text
  pub direct_path_len : ℤ
  pub direct_path_hash_mode : ℤ
  pub direct_path_updated_at : Option ℕ
  pub route_override_path : Option Text
  pub route_override_len : Option ℤ
  pub route_override_hash_mode : Option ℤ
  pub effective_route : Option ContactRoute
  pub effective_route_source : Option RouteSource
  pub direct_route : Option ContactRoute
  pub route_override : Option ContactRoute
  pub last_advert : Option ℕ
  pub lat : Option ℤ
  pub lon : Option ℤ
  pub last_seen : Option ℕ
  pub on_radio : Bool
  pub favorite : Bool
  pub last_contacted : Option ℕ
  pub last_read_at : Option ℕ
  pub first_seen : Option ℕ
  pub flood_scope_override : Option Text

abbrev pub contact_type_repeater : ℕ
contact_type_repeater = 2

pub record ContactAdvertPath : Type 0 where
  pub path : Text
  pub path_len : ℕ
  pub next_hop : Option Text
  pub first_seen : ℕ
  pub last_seen : ℕ
  pub heard_count : ℕ

pub record ContactAdvertPathSummary : Type 0 where
  pub public_key : Text
  pub paths : List ContactAdvertPath

pub record DecryptedInfo : Type 0 where
  pub channel_name : Option Text
  pub sender : Option Text
  pub channel_key : Option Text
  pub contact_key : Option Text
  pub sender_timestamp : Option ℕ
  pub message : Option Text

pub record RawPacket : Type 0 where
  pub id : ℕ
  pub observation_id : Option ℕ
  pub timestamp : ℕ
  pub hex : Text
  pub payload_type : Text
  pub snr : Option ℤ
  pub rssi : Option ℤ
  pub decrypted : Bool
  pub decrypted_info : Option DecryptedInfo
  pub transport_code : Option ℕ
  pub region : Option Text
