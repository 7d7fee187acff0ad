-- ===== src/UrlHash.antt =====
-- Conversations as URL hashes: frontend/src/utils/urlHash.ts, with publicChannel.ts and pubkey.ts
-- beside it. `encode` and `decode` are the browser's encodeURIComponent and decodeURIComponent; both
-- throw on a malformed text, which is `none`. A function that may throw returns `none` for the
-- exception, and where it may also return null, `some none` for that.
pub mod Reading
pub mod Laws
use remoteterm_meshcore.Prelude.{
  ℕ, zero, suc, Bool, true, false, not, ◌&&◌, ◌||◌, Option, none, some, List, [], ◌∷◌, ◌++◌, Text,
  codes, length, take, drop, find, ltb, or_else, get_or, nat_eq, nat_beq, list_eq, if◌then◌else◌,
  ◌==◌, contains, to_upper_case, to_lower_case, starts_with, trim,
}
use remoteterm_meshcore.Data.{Channel, Contact, Conversation, ConversationType}
use remoteterm_meshcore.Data

pub record ParsedHashConversation : Type 0 where
  pub kind : ConversationType
  pub name : Text
  pub label : Option Text
  pub map_focus_key : Option Text

-- The texts before and after the first slash.
unfoldable pub split_slash : Text → Option (Text × Text)
split_slash [] = none
split_slash (c ∷ s) =
    let rest = split_slash s in
    if nat_beq c b'/'
    then some ([], s)
    else elim rest [ none ↦ none | some (before, after) ↦ some (c ∷ before, after) ]

abbrev pub page : ConversationType → Text → ParsedHashConversation
page kind name = record { kind = kind; name = name; label = none; map_focus_key = none }

-- The hashes of the pages without a conversation.
unfoldable pub parse_page : Text → Option ParsedHashConversation
parse_page hash =
    if hash == codes "raw"
    then some (page Data.raw (codes "raw"))
    else if hash == codes "map"
    then some (page Data.map (codes "map"))
    else if hash == codes "visualizer"
    then some (page Data.visualizer (codes "visualizer"))
    else if hash == codes "search"
    then some (page Data.search (codes "search"))
    else if hash == codes "mentions"
    then some (page Data.mentions (codes "mentions"))
    else if hash == codes "trace"
    then some (page Data.trace (codes "trace"))
    else none

abbrev pub message_kind : Text → Option ConversationType
message_kind kind =
    if kind == codes "channel"
    then some Data.channel
    else if kind == codes "contact"
    then some Data.contact
    else none

abbrev pub settings_sections : List Text
settings_sections =
    codes "radio"
    ∷ codes "local"
    ∷ codes "radio-app"
    ∷ codes "fanout"
    ∷ codes "database"
    ∷ codes "statistics"
    ∷ codes "about"
    ∷ []

module _ (decode : Text → Option Text) where
  -- The label segment, if it is not empty.
  unfoldable pub parse_label : Text → Option (Option Text)
  parse_label [] = some none
  parse_label (c ∷ raw) = elim (decode (c ∷ raw)) [ none ↦ none | some label ↦ some (some label) ]

  unfoldable pub parse_segments :
      ConversationType → Text → Text → Option (Option ParsedHashConversation)
  unfolding parse_label
  parse_segments kind token_raw label_raw = elim (decode token_raw) [
    | none ↦ none
    | some [] ↦ some none
    | some (c ∷ token) ↦ elim (parse_label label_raw) [
      | none ↦ none
      | some label ↦
          some
            (some (record { kind = kind; name = c ∷ token; label = label; map_focus_key = none }))
    ]
  ]

  -- What stands after `channel/` or `contact/`, which is not empty.
  unfoldable pub parse_value : ConversationType → Text → Option (Option ParsedHashConversation)
  unfolding parse_segments
  parse_value kind value = elim (split_slash value) [
    | none ↦ parse_segments kind value []
    | some (token_raw, label_raw) ↦ parse_segments kind token_raw label_raw
  ]

  unfoldable pub parse_focus : Text → Option (Option ParsedHashConversation)
  parse_focus [] = some (some (page Data.map (codes "map")))
  parse_focus (c ∷ key) = elim (decode (c ∷ key)) [
    | none ↦ none
    | some focus ↦ some (
        some (record {
          kind = Data.map;
          name = codes "map";
          label = none;
          map_focus_key = some focus;
        }))
  ]

  -- Of `window.location.hash`.
  unfoldable pub parse_hash_conversation : Text → Option (Option ParsedHashConversation)
  unfolding parse_page parse_value parse_focus
  parse_hash_conversation location_hash =
      let hash = drop 1 location_hash in
      elim (parse_page hash) [
        | some parsed ↦ some (some parsed)
        | none ↦
            if starts_with hash (codes "map/focus/")
            then parse_focus (drop 10 hash)
            else elim (split_slash hash) [
              | none ↦ some none
              | some (kind, value) ↦ elim (message_kind kind) [
                | none ↦ some none
                | some message ↦ if value == [] then some none else parse_value message value
              ]
            ]
      ]

  unfoldable pub parse_hash_settings_section : Text → Option (Option Text)
  parse_hash_settings_section location_hash =
      let hash = drop 1 location_hash in
      if not (starts_with hash (codes "settings/"))
      then some none
      else elim (decode (drop 9 hash)) [
        | none ↦ none
        | some section ↦ some (if contains settings_sections section then some section else none)
      ]

-- A channel is labelled by its name without a leading `#`.
unfoldable pub channel_label : Text → Text
channel_label [] = []
channel_label (c ∷ name) = if nat_beq c b'#' then name else c ∷ name

module _ (encode : Text → Option Text) where
  -- `${prefix}${encodeURIComponent(text)}`
  unfoldable pub with_encoded : Text → Text → Option Text
  with_encoded prefix text = elim (encode text) [
    | none ↦ none
    | some encoded ↦ some (prefix ++ encoded)
  ]

  unfoldable pub get_settings_hash : Text → Option Text
  unfolding with_encoded
  get_settings_hash section = with_encoded (codes "#settings/") section

  unfoldable pub get_map_focus_hash : Text → Option Text
  unfolding with_encoded
  get_map_focus_hash public_key_prefix = with_encoded (codes "#map/focus/") public_key_prefix

  -- `${prefix}${encodeURIComponent(id)}/${encodeURIComponent(label)}`
  unfoldable pub labelled_hash : Text → Text → Text → Option Text
  labelled_hash prefix id label = elim (encode id) [
    | none ↦ none
    | some encoded_id ↦ elim (encode label) [
      | none ↦ none
      | some encoded_label ↦ some (prefix ++ (encoded_id ++ (b'/' ∷ encoded_label)))
    ]
  ]

  unfoldable pub get_conversation_hash : Option Conversation → Option Text
  unfolding channel_label labelled_hash
  get_conversation_hash none = some []
  get_conversation_hash (some conv) = elim conv.kind [
    | Data.raw ↦ some (codes "#raw")
    | Data.map ↦ some (codes "#map")
    | Data.visualizer ↦ some (codes "#visualizer")
    | Data.search ↦ some (codes "#search")
    | Data.mentions ↦ some (codes "#mentions")
    | Data.trace ↦ some (codes "#trace")
    | Data.channel ↦ labelled_hash (codes "#channel/") conv.id (channel_label conv.name)
    | Data.contact ↦ labelled_hash (codes "#contact/") conv.id conv.name
  ]

abbrev pub public_channel_key : Text
public_channel_key = codes "8B3387E9C5CDEA6AC9E5EDBAA115CD72"

abbrev pub is_public_channel_key : Text → Bool
is_public_channel_key key = to_upper_case key == public_channel_key

abbrev pub find_public_channel : List Channel → Option Channel
find_public_channel channels = find (λ (c : Channel). is_public_channel_key c.key) channels

unfoldable pub resolve_channel_from_hash_token : Text → List Channel → Option Channel
resolve_channel_from_hash_token token channels =
    let normalized = trim token in
    let by_key = find (λ (c : Channel). to_lower_case c.key == to_lower_case normalized) channels in
    let by_public =
      if to_lower_case normalized == codes "public" then find_public_channel channels else none in
    let by_name =
      find (λ (c : Channel). c.name == normalized || c.name == b'#' ∷ normalized) channels in
    if normalized == [] then none else or_else by_key (or_else by_public by_name)

abbrev pub pubkey_prefix_length : ℕ
pubkey_prefix_length = 12

abbrev pub is_prefix_only_contact : Text → Bool
is_prefix_only_contact pubkey = ltb (length pubkey) 64

-- `!lastAdvert`
unfoldable pub is_unknown_full_key_contact : Text → Option ℕ → Bool
is_unknown_full_key_contact pubkey last_advert = length pubkey == 64 && get_or last_advert 0 == 0

unfoldable pub get_contact_display_name : Option Text → Text → Option ℕ → Text
get_contact_display_name (some (c ∷ name)) pubkey last_advert = c ∷ name
get_contact_display_name _ pubkey last_advert =
    if is_unknown_full_key_contact pubkey last_advert
    then codes "[unknown sender]"
    else take pubkey_prefix_length pubkey

unfoldable pub resolve_contact_from_hash_token : Text → List Contact → Option Contact
resolve_contact_from_hash_token token contacts =
    let normalized = trim token in
    let lower = to_lower_case normalized in
    let by_key = find (λ (c : Contact). to_lower_case c.public_key == lower) contacts in
    let by_name =
      find
        (λ (c : Contact).
          get_contact_display_name c.name c.public_key c.last_advert == normalized
          || starts_with (to_lower_case c.public_key) lower)
        contacts in
    if normalized == [] then none else or_else by_key by_name
