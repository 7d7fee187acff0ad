-- ===== src/Tests/Codecs.antt =====
-- The theorems about the texts of messages, at concrete texts.
use remoteterm_meshcore.Prelude.{
  ◌≡◌, refl, true, some, [], ◌∷◌, ◌++◌, Text, codes, arith, contains, nat_eq, list_eq,
}
use remoteterm_meshcore.Codecs.Sender.{parse_sender_from_text}
use remoteterm_meshcore.Codecs.Sender.Laws.{parse_sender_from_text-append}
use remoteterm_meshcore.Codecs.Reaction.Emojis.{utf16, reaction_emojis}
use remoteterm_meshcore.Codecs.Reaction.{parse_reaction, compute_reaction_hash, encode_reaction}
use remoteterm_meshcore.Codecs.Reaction.Laws.{parse_reaction-encode}

parse_sender_from_text-append_example :
    parse_sender_from_text (codes "Ada" ++ (codes ": " ++ codes "see you: soon"))
    ≡ record { sender = some (codes "Ada"); content = codes "see you: soon" }
unfolding contains
parse_sender_from_text-append_example =
    parse_sender_from_text-append (codes "Ada") (codes "see you: soon") refl (omega arith)
      (omega arith)

abbrev heart : Text
heart = utf16 (0x2764 ∷ 0xfe0f ∷ [])

heart_listed : contains reaction_emojis heart ≡ true
unfolding contains reaction_emojis
heart_listed = refl

parse_reaction-encode_example :
    (sent : Text) × (encode_reaction heart 1700000000 (some (codes "Ada")) (codes "hello")
      ≡ some sent)
    × (parse_reaction sent
        ≡ some (record {
          emoji = heart;
          target_hash = compute_reaction_hash 1700000000 (some (codes "Ada")) (codes "hello");
        }))
parse_reaction-encode_example =
    parse_reaction-encode heart 1700000000 (some (codes "Ada")) (codes "hello") heart_listed
