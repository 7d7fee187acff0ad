-- ===== src/Messages/Key.antt =====
-- frontend/src/utils/messageIdentity.ts: the key by which messages count as the same.
use remoteterm_meshcore.Prelude.{
  ℕ, ◌≡◌, refl, Option, none, some, List, [], ◌∷◌, ◌++◌, Text, codes, to_string, All,
}
use remoteterm_meshcore.Data.{Message, MessageType, priv, chan}

abbrev pub type_name : MessageType → Text
type_name priv = codes "PRIV"
type_name chan = codes "CHAN"

-- `msg.sender_timestamp ?? ...`
abbrev pub timestamp_part : Message → Option ℕ → Text
timestamp_part msg (some ts) = to_string ts
timestamp_part msg none = codes "r" ++ to_string msg.received_at ++ codes "-" ++ to_string msg.id

-- `msg.type === 'PRIV' && msg.sender_key ? ... : ''`; the empty key is falsy
abbrev pub sender_suffix : MessageType → Option Text → Text
sender_suffix priv (some (c ∷ key)) = codes "-" ++ c ∷ key
sender_suffix _ _ = []

unfoldable pub get_message_content_key : Message → Text
get_message_content_key msg =
    type_name msg.kind
    ++ codes "-"
    ++ msg.conversation_key
    ++ codes "-"
    ++ msg.text
    ++ codes "-"
    ++ timestamp_part msg msg.sender_timestamp
    ++ sender_suffix msg.kind msg.sender_key

-- `messages.map(getMessageContentKey)` and `messages.map((m) => m.id)`
abbrev pub content_keys : List Message → List Text
content_keys [] = []
content_keys (m ∷ ms) = get_message_content_key m ∷ content_keys ms

abbrev pub ids : List Message → List ℕ
ids [] = []
ids (m ∷ ms) = m.id ∷ ids ms

pub content_keys-append :
    (xs ys : List Message) → content_keys (xs ++ ys) ≡ content_keys xs ++ content_keys ys
content_keys-append [] ys = refl
content_keys-append (x ∷ xs) ys = λ i. get_message_content_key x ∷ content_keys-append xs ys i

pub ids-append : (xs ys : List Message) → ids (xs ++ ys) ≡ ids xs ++ ids ys
ids-append [] ys = refl
ids-append (x ∷ xs) ys = λ i. x.id ∷ ids-append xs ys i

-- What holds of the ids of messages, or of their content keys, said of the messages.
pub All_of_ids {κ} :
    (P : ℕ → Type κ) (ms : List Message) → All P (ids ms) → All (λ (m : Message). P m.id) ms
All_of_ids P [] h = tt
All_of_ids P (m ∷ ms) h = (h.0, All_of_ids P ms h.1)

pub All_of_content_keys {κ} :
    (P : Text → Type κ) (ms : List Message)
    → All P (content_keys ms)
    → All (λ m. P (get_message_content_key m)) ms
All_of_content_keys P [] h = tt
All_of_content_keys P (m ∷ ms) h = (h.0, All_of_content_keys P ms h.1)

pub ids_of_All {κ} :
    (P : ℕ → Type κ) (ms : List Message) → All (λ (m : Message). P m.id) ms → All P (ids ms)
ids_of_All P [] h = tt
ids_of_All P (m ∷ ms) h = (h.0, ids_of_All P ms h.1)

pub content_keys_of_All {κ} :
    (P : Text → Type κ) (ms : List Message)
    → All (λ m. P (get_message_content_key m)) ms
    → All P (content_keys ms)
content_keys_of_All P [] h = tt
content_keys_of_All P (m ∷ ms) h = (h.0, content_keys_of_All P ms h.1)
