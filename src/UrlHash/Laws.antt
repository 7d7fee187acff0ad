-- ===== src/UrlHash/Laws.antt =====
-- URL hashes of frontend/src/utils/urlHash.ts, written and read back.
use remoteterm_meshcore.Prelude.{
  ℕ, ◌≡◌, not, ◌&&◌, leb, ltb, if◌then◌else◌, refl, ap, sym, ◌∙◌, inl, inr, Bool, true, false,
  Option, none, some, List, [], ◌∷◌, ◌++◌, Text, codes, arith, any, find, nat_eq, list_eq, ◌==◌,
  eq_iff, contains, to_lower_case, trim, Bool-cases,
}
use remoteterm_meshcore.Data.{Channel, Conversation, ConversationType}
use remoteterm_meshcore.Data
use remoteterm_meshcore.UrlHash.{
  parse_page, parse_label, parse_value, parse_hash_conversation, channel_label, labelled_hash,
  get_conversation_hash, resolve_channel_from_hash_token,
}
use remoteterm_meshcore.UrlHash.Reading.{
  nonempty_label, parsed_of, not_empty, read_channel, read_contact, parse_segments_read,
  parse_value_lem,
}

-- A text without lone surrogates.
abbrev pub is_high : ℕ → Bool
is_high c = leb 0xd800 c && ltb c 0xdc00

abbrev pub is_low : ℕ → Bool
is_low c = leb 0xdc00 c && ltb c 0xe000

unfoldable pub is_well_formed : Text → Bool
is_well_formed [] = true
is_well_formed (c ∷ []) = not (is_high c) && not (is_low c)
is_well_formed (c ∷ d ∷ s) =
    let plain = is_well_formed (d ∷ s) in
    let paired = is_well_formed s in
    if is_high c then is_low d && paired else not (is_low c) && plain

well_formed_label :
    (name : Text) → is_well_formed name ≡ true → is_well_formed (channel_label name) ≡ true
unfolding channel_label is_well_formed
well_formed_label [] h = h
well_formed_label (c ∷ []) h = ground arith
well_formed_label (c ∷ d ∷ name) h = ground arith

-- What is documented of encodeURIComponent and decodeURIComponent: the first throws on lone
-- surrogates only, what it gives is decoded back, and it escapes slashes.
module _ (encode : Text → Option Text) (decode : Text → Option Text)
    (encode_some : (s : Text) → is_well_formed s ≡ true → (e : Text) × (encode s ≡ some e))
    (decode-encode : (s e : Text) → encode s ≡ some e → decode e ≡ some s)
    (encode_slash : (s e : Text) → encode s ≡ some e → contains e b'/' ≡ false)
    (encode_empty : encode [] ≡ some []) where
  encode_cons :
      (c : ℕ) (s e : Text) → encode (c ∷ s) ≡ some e → (d : ℕ) × (raw : Text) × (e ≡ d ∷ raw)
  encode_cons c s [] h =
      let back = decode-encode (c ∷ s) [] h in
      let empty = decode-encode [] [] encode_empty in absurd (cc (back, empty))
  encode_cons c s (d ∷ raw) h = (d, raw, refl)

  parse_label-encode :
      (s e : Text) → encode s ≡ some e → parse_label decode e ≡ some (nonempty_label s)
  unfolding parse_label
  parse_label-encode [] e h = let none_ : [] ≡ e = cc (h, encode_empty) in rw (← none_) refl
  parse_label-encode (c ∷ s) e h =
      let (d, raw, same) = encode_cons c s e h in
      let back : decode (d ∷ raw) ≡ some (c ∷ s) =
        ap decode (sym same) ∙ decode-encode (c ∷ s) e h in
      rw same (rw (back, parse_label) refl)

  labelled :
      (kind : ConversationType) (prefix : Text) (c : ℕ) (id label : Text)
      → ((value : Text)
          → (value == []) ≡ false
          → parse_hash_conversation decode (prefix ++ value) ≡ parse_value decode kind value)
      → is_well_formed (c ∷ id) ≡ true
      → is_well_formed label ≡ true
      → (hash : Text) × (labelled_hash encode prefix (c ∷ id) label ≡ some hash)
        × (parse_hash_conversation decode hash
            ≡ some (
                some (record {
                  kind = kind;
                  name = c ∷ id;
                  label = nonempty_label label;
                  map_focus_key = none;
                })))
  unfolding labelled_hash
  labelled kind prefix c id label reads wf_id wf_label =
      let (e, is_e) = encode_some (c ∷ id) wf_id in
      let (l, is_l) = encode_some label wf_label in
      (
        prefix ++ (e ++ (b'/' ∷ l)),
        rw (is_e, labelled_hash) (rw is_l refl),
        reads (e ++ (b'/' ∷ l)) (not_empty decode e l b'/')
            ∙ parse_value_lem decode kind e (some l) (encode_slash (c ∷ id) e is_e)
            ∙ parse_segments_read decode kind e l id c (nonempty_label label)
                (decode-encode (c ∷ id) e is_e) (parse_label-encode label l is_l),
      )

  -- If encodeURIComponent and decodeURIComponent do what is documented of them, a conversation whose
  -- id is not empty, and whose id and name have no lone surrogate, has a hash, and reading it gives
  -- for a channel or a contact its type, its id and the label that was written, and for a page that
  -- page alone.
  pub parse_hash_conversation-get :
      (kind : ConversationType) (c : ℕ) (id name : Text) (focus : Option Text)
      → is_well_formed (c ∷ id) ≡ true
      → is_well_formed name ≡ true
      → let conv : Conversation = record {
        kind = kind;
        id = c ∷ id;
        name = name;
        map_focus_key = focus;
      } in
        (hash : Text) × (get_conversation_hash encode (some conv) ≡ some hash)
        × (parse_hash_conversation decode hash ≡ some (some (parsed_of conv)))
  unfolding parse_hash_conversation get_conversation_hash parse_page
  parse_hash_conversation-get Data.raw c id name focus wf_id wf_name = (codes "#raw", refl, refl)
  parse_hash_conversation-get Data.map c id name focus wf_id wf_name = (codes "#map", refl, refl)
  parse_hash_conversation-get Data.visualizer c id name focus wf_id wf_name =
      (codes "#visualizer", refl, refl)
  parse_hash_conversation-get Data.search c id name focus wf_id wf_name =
      (codes "#search", refl, refl)
  parse_hash_conversation-get Data.mentions c id name focus wf_id wf_name =
      (codes "#mentions", refl, refl)
  parse_hash_conversation-get Data.trace c id name focus wf_id wf_name =
      (codes "#trace", refl, refl)
  parse_hash_conversation-get Data.channel c id name focus wf_id wf_name =
      labelled Data.channel (codes "#channel/") c id (channel_label name) (read_channel decode)
        wf_id (well_formed_label name wf_name)
  parse_hash_conversation-get Data.contact c id name focus wf_id wf_name =
      labelled Data.contact (codes "#contact/") c id name (read_contact decode) wf_id wf_name

abbrev pub has_key : Text → Channel → Bool
has_key key channel = to_lower_case channel.key == key

find-has_key :
    (key : Text) (channels : List Channel)
    → any (has_key key) channels ≡ true
    → (found : Channel) × (find (has_key key) channels ≡ some found)
      × (to_lower_case found.key ≡ key)
unfolding any find
find-has_key key [] h = absurd (cc h)
find-has_key key (channel ∷ channels) h = elim (Bool-cases (has_key key channel)) [
  | inl same ↦ (channel, rw same refl, (eq_iff (to_lower_case channel.key) key).0 same)
  | inr other ↦
      let (found, there, same) = find-has_key key channels (ground arith) in
      (found, rw other there, same)
]

-- A token that is the key of a channel, but for letter case and white space around it, is resolved
-- to a channel of that key, whatever the names of the channels are, if it is not blank.
pub resolve_channel_from_hash_token_lem :
    (token : Text) (channels : List Channel)
    → (trim token == []) ≡ false
    → any (has_key (to_lower_case (trim token))) channels ≡ true
    → (found : Channel) × (resolve_channel_from_hash_token token channels ≡ some found)
      × (to_lower_case found.key ≡ to_lower_case (trim token))
unfolding resolve_channel_from_hash_token
resolve_channel_from_hash_token_lem token channels named listed =
    let (found, there, same) = find-has_key (to_lower_case (trim token)) channels listed in
    (found, rw (named, there) refl, same)
