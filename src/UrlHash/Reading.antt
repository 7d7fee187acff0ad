-- ===== src/UrlHash/Reading.antt =====
-- Links of frontend/src/utils/urlHash.ts that are read, and those that make the parser throw.
use remoteterm_meshcore.Prelude.{
  ℕ, ◌≡◌, ◌≢◌, ◌⊎◌, ◌↔◌, Option-cases, get_or, refl, inl, inr, false, Option, none, some, [], ◌∷◌,
  ◌++◌, Text, codes, arith, nat_eq, list_eq, ◌==◌, contains, starts_with,
}
use remoteterm_meshcore.Data.{Channel, Conversation, ConversationType}
use remoteterm_meshcore.Data
use remoteterm_meshcore.UrlHash.{
  ParsedHashConversation, page, split_slash, parse_page, parse_label, parse_segments, parse_value,
  parse_hash_conversation, channel_label,
}

split_slash-append :
    (s t : Text) → contains s b'/' ≡ false → split_slash (s ++ (b'/' ∷ t)) ≡ some (s, t)
unfolding split_slash contains
split_slash-append [] t h = refl
split_slash-append (c ∷ s) t h =
    let rest = split_slash-append s t (ground arith) in rw rest (ground arith)

split_slash-none : (s : Text) → contains s b'/' ≡ false → split_slash s ≡ none
unfolding split_slash contains
split_slash-none [] h = refl
split_slash-none (c ∷ s) h = let rest = split_slash-none s (ground arith) in rw rest (ground arith)

-- The label that a conversation's hash carries: none if it is empty.
abbrev pub nonempty_label : Text → Option Text
nonempty_label [] = none
nonempty_label (c ∷ label) = some (c ∷ label)

-- What the hash of a conversation is read as.
abbrev pub parsed_of : Conversation → ParsedHashConversation
parsed_of conv = elim conv.kind [
  | Data.raw ↦ page Data.raw (codes "raw")
  | Data.map ↦ page Data.map (codes "map")
  | Data.visualizer ↦ page Data.visualizer (codes "visualizer")
  | Data.search ↦ page Data.search (codes "search")
  | Data.mentions ↦ page Data.mentions (codes "mentions")
  | Data.trace ↦ page Data.trace (codes "trace")
  | Data.channel ↦ record {
    kind = Data.channel;
    name = conv.id;
    label = nonempty_label (channel_label conv.name);
    map_focus_key = none;
  }
  | Data.contact ↦ record {
    kind = Data.contact;
    name = conv.id;
    label = nonempty_label conv.name;
    map_focus_key = none;
  }
]

-- A link without a label, or with one behind a slash.
abbrev pub link_value : Text → Option Text → Text
link_value token none = token
link_value token (some label) = token ++ (b'/' ∷ label)

module _ (decode : Text → Option Text) where
  pub not_empty : (s t : Text) (c : ℕ) → ((s ++ (c ∷ t)) == []) ≡ false
  not_empty [] t c = refl
  not_empty (d ∷ s) t c = refl

  pub read_channel :
      (value : Text)
      → (value == []) ≡ false
      → parse_hash_conversation decode (codes "#channel/" ++ value)
        ≡ parse_value decode Data.channel value
  unfolding parse_hash_conversation parse_page split_slash starts_with
  read_channel value h = rw h refl

  pub read_contact :
      (value : Text)
      → (value == []) ≡ false
      → parse_hash_conversation decode (codes "#contact/" ++ value)
        ≡ parse_value decode Data.contact value
  unfolding parse_hash_conversation parse_page split_slash starts_with
  read_contact value h = rw h refl

  -- What makes a link throw: its token, or its label where the token is not empty.
  abbrev pub IsUndecodable : Text → Text → Type 0
  IsUndecodable token label =
      (decode token ≡ none)
      ⊎ ((c : ℕ) × (read : Text) × (decode token ≡ some (c ∷ read))
          × (label ≢ [])
          × (decode label ≡ none))

  parse_label_throws :
      (label : Text) → (parse_label decode label ≡ none) ↔ ((label ≢ []) × (decode label ≡ none))
  unfolding parse_label
  parse_label_throws [] = (λ h. absurd (cc h), λ h. absurd (h.0 refl))
  parse_label_throws (c ∷ label) = elim (Option-cases (decode (c ∷ label))) [
    | inl bad ↦ (λ h. (λ e. cc e, bad), λ h. rw (bad, parse_label) refl)
    | inr (text, good) ↦ (
      λ h.
          let read : parse_label decode (c ∷ label) ≡ some (some text) =
            rw (good, parse_label) refl in
          absurd (cc (h, read)),
      λ h. absurd (cc (h.1, good)),
    )
  ]

  parse_segments_bad :
      (kind : ConversationType) (token label : Text)
      → decode token ≡ none
      → parse_segments decode kind token label ≡ none
  unfolding parse_segments
  parse_segments_bad kind token label bad = rw (bad, parse_segments) refl

  parse_segments_empty :
      (kind : ConversationType) (token label : Text)
      → decode token ≡ some []
      → parse_segments decode kind token label ≡ some none
  unfolding parse_segments
  parse_segments_empty kind token label empty = rw (empty, parse_segments) refl

  parse_segments_unread :
      (kind : ConversationType) (token label read : Text) (c : ℕ)
      → decode token ≡ some (c ∷ read)
      → parse_label decode label ≡ none
      → parse_segments decode kind token label ≡ none
  unfolding parse_segments
  parse_segments_unread kind token label read c good bad = rw (good, parse_segments) (rw bad refl)

  pub parse_segments_read :
      (kind : ConversationType) (token label read : Text) (c : ℕ) (shown : Option Text)
      → decode token ≡ some (c ∷ read)
      → parse_label decode label ≡ some shown
      → parse_segments decode kind token label
        ≡ some (some (record { kind = kind; name = c ∷ read; label = shown; map_focus_key = none }))
  unfolding parse_segments
  parse_segments_read kind token label read c shown good fine =
      rw (good, parse_segments) (rw fine refl)

  parse_segments_throws :
      (kind : ConversationType) (token label : Text)
      → (parse_segments decode kind token label ≡ none) ↔ IsUndecodable token label
  parse_segments_throws kind token label = go (decode token) refl
    where
      go :
          (read : Option Text)
          → decode token ≡ read
          → (parse_segments decode kind token label ≡ none) ↔ IsUndecodable token label
      go none bad = (λ h. inl bad, λ h. parse_segments_bad kind token label bad)
      go (some []) empty = (
        λ h. absurd (cc (h, parse_segments_empty kind token label empty)),
        λ h. elim h [
          | inl bad ↦ absurd (cc (bad, empty))
          | inr (c, read, good, labelled_, rest) ↦ absurd (cc (good, empty))
        ],
      )
      go (some (c ∷ read)) good = elim (Option-cases (parse_label decode label)) [
        | inl bad ↦ (
          λ h.
              let (labelled_, unread) = (parse_label_throws label).0 bad in
              inr (c, read, good, labelled_, unread),
          λ h. parse_segments_unread kind token label read c good bad,
        )
        | inr (shown, fine) ↦ (
          λ h. absurd (cc (h, parse_segments_read kind token label read c shown good fine)),
          λ h. elim h [
            | inl bad ↦ absurd (cc (bad, good))
            | inr (d, other, same, labelled_, unread) ↦
                absurd (cc ((parse_label_throws label).1 (labelled_, unread), fine))
          ],
        )
      ]

  pub parse_value_lem :
      (kind : ConversationType) (token : Text) (label : Option Text)
      → contains token b'/' ≡ false
      → parse_value decode kind (link_value token label)
        ≡ parse_segments decode kind token (get_or label [])
  unfolding parse_value
  parse_value_lem kind token none plain = rw (split_slash-none token plain, parse_value) refl
  parse_value_lem kind token (some label) plain =
      rw (split_slash-append token label plain, parse_value) refl

  link_value_nonempty :
      (c : ℕ) (token : Text) (label : Option Text) → (link_value (c ∷ token) label == []) ≡ false
  link_value_nonempty c token none = refl
  link_value_nonempty c token (some label) = refl

  -- A link to a channel, or to a contact, of a token that is not empty and has no slash, with or
  -- without a label behind it, makes the parser throw exactly when the token cannot be decoded, or
  -- the token can be decoded, to a text that is not empty, and the label is not empty and cannot.
  pub parse_hash_conversation_throws :
      (c : ℕ) (token : Text) (label : Option Text)
      → contains (c ∷ token) b'/' ≡ false
      → ((parse_hash_conversation decode (codes "#channel/" ++ link_value (c ∷ token) label) ≡ none)
          ↔ IsUndecodable (c ∷ token) (get_or label []))
        × ((parse_hash_conversation decode (codes "#contact/" ++ link_value (c ∷ token) label)
              ≡ none)
            ↔ IsUndecodable (c ∷ token) (get_or label []))
  parse_hash_conversation_throws c token label plain =
      let nonempty = link_value_nonempty c token label in
      (
        rw
            (
              read_channel (link_value (c ∷ token) label) nonempty,
              parse_value_lem Data.channel (c ∷ token) label plain,
            )
            (parse_segments_throws Data.channel (c ∷ token) (get_or label [])),
        rw
            (
              read_contact (link_value (c ∷ token) label) nonempty,
              parse_value_lem Data.contact (c ∷ token) label plain,
            )
            (parse_segments_throws Data.contact (c ∷ token) (get_or label [])),
      )
