-- ===== src/Network/PayloadType.antt =====
-- The payload types of the packet decoder that frontend/src/utils/visualizerUtils.ts tests for.
use remoteterm_meshcore.Prelude.{ℕ}

abbrev pub request : ℕ
request = 0

abbrev pub response : ℕ
response = 1

abbrev pub text_message : ℕ
text_message = 2

abbrev pub ack : ℕ
ack = 3

abbrev pub advert : ℕ
advert = 4

abbrev pub group_text : ℕ
group_text = 5

abbrev pub anon_request : ℕ
anon_request = 7

abbrev pub trace : ℕ
trace = 9
