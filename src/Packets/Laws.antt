-- ===== src/Packets/Laws.antt =====
-- The buffer of packets: lemmas on frontend/src/utils/rawPacketIdentity.ts.
use remoteterm_meshcore.Prelude.{
  ℕ, zero, suc, ◌-◌, ◌≤◌, ◌≡◌, refl, sym, ap, ◌∙◌, inl, inr, true, false, List, [], ◌∷◌, ◌++◌, Text,
  arith, length, length-append, length-drop, drop, any, ltb, nat_eq, list_eq, Bool-cases, ◌==◌,
  eq_refl, contains, IsDistinct, IsDistinct-concat,
}
use remoteterm_meshcore.Data.{RawPacket}
use remoteterm_meshcore.Packets.{get_raw_packet_observation_key, append_raw_packet_unique}

abbrev pub packet_keys : List RawPacket → List Text
packet_keys [] = []
packet_keys (p ∷ packets) = get_raw_packet_observation_key p ∷ packet_keys packets

pub drop-IsDistinct : (n : ℕ) (keys : List Text) → IsDistinct keys → IsDistinct (drop n keys)
drop-IsDistinct zero keys h = h
drop-IsDistinct (suc n) [] h = tt
drop-IsDistinct (suc n) (k ∷ keys) h = drop-IsDistinct n keys h.1

packet_keys-drop :
    (n : ℕ) (packets : List RawPacket) → packet_keys (drop n packets) ≡ drop n (packet_keys packets)
packet_keys-drop zero packets = refl
packet_keys-drop (suc n) [] = refl
packet_keys-drop (suc n) (p ∷ packets) = packet_keys-drop n packets

packet_keys-concat :
    (packets : List RawPacket) (p : RawPacket)
    → packet_keys (packets ++ p ∷ []) ≡ packet_keys packets ++ get_raw_packet_observation_key p ∷ []
packet_keys-concat [] p = refl
packet_keys-concat (q ∷ packets) p =
    ap (◌∷◌ (get_raw_packet_observation_key q)) (packet_keys-concat packets p)

length-packet_keys : (packets : List RawPacket) → length (packet_keys packets) ≡ length packets
length-packet_keys [] = refl
length-packet_keys (p ∷ packets) = ap suc (length-packet_keys packets)

any-packet_keys :
    (packets : List RawPacket) (key : Text)
    → any (λ (p : RawPacket). get_raw_packet_observation_key p == key) packets
      ≡ contains (packet_keys packets) key
unfolding any contains
any-packet_keys [] key = refl
any-packet_keys (p ∷ packets) key = ground (arith, any-packet_keys packets key)

-- The packets of a list kept below `max_packets`, which is not 0, stay distinct and below it when one
-- more packet is recorded.
pub append_raw_packet_unique_lem :
    (prev : List RawPacket) (packet : RawPacket) (max_packets : ℕ)
    → 1 ≤ max_packets
    → length prev ≤ max_packets
    → IsDistinct (packet_keys prev)
    → (length (append_raw_packet_unique prev packet max_packets) ≤ max_packets)
      × IsDistinct (packet_keys (append_raw_packet_unique prev packet max_packets))
unfolding append_raw_packet_unique
append_raw_packet_unique_lem prev packet max_packets pos short distinct =
    let key : Text = get_raw_packet_observation_key packet in
    let updated : List RawPacket = prev ++ packet ∷ [] in
    elim (Bool-cases (any (λ (p : RawPacket). get_raw_packet_observation_key p == key) prev)) [
      | inl old ↦ rw (old, append_raw_packet_unique) (short, distinct)
      | inr new ↦
          let fresh : contains (packet_keys prev) key ≡ false =
            sym (any-packet_keys prev key) ∙ new in
          let unique : IsDistinct (packet_keys updated) =
            rw (packet_keys-concat prev packet)
              (IsDistinct-concat (packet_keys prev) key distinct fresh) in
          elim (Bool-cases (ltb max_packets (length updated))) [
            | inr room ↦ rw (new, append_raw_packet_unique, room) (ground arith, unique)
            | inl full ↦
                let not_all : (max_packets == 0) ≡ false = ground arith in
                rw (new, append_raw_packet_unique, full, not_all)
                  (
                    omega (
                      arith,
                      length-drop (length updated - max_packets) updated,
                      length-append prev (packet ∷ []),
                    ),
                    rw (packet_keys-drop (length updated - max_packets) updated) (
                        drop-IsDistinct (length updated - max_packets) (packet_keys updated)
                          unique),
                  )
          ]
    ]

contains_last-drop :
    (n : ℕ) (keys : List Text) (key : Text)
    → n ≤ length keys
    → contains (drop n (keys ++ key ∷ [])) key ≡ true
unfolding contains
contains_last-drop zero [] key h = rw (eq_refl key) refl
contains_last-drop zero (k ∷ keys) key h = ground (arith, contains_last-drop zero keys key)
contains_last-drop (suc n) [] key h = absurd (omega arith)
contains_last-drop (suc n) (k ∷ keys) key h = contains_last-drop n keys key (omega arith)

recorded :
    (prev : List RawPacket) (packet : RawPacket) (max_packets : ℕ)
    → 1 ≤ max_packets
    → length prev ≤ max_packets
    → contains
        (packet_keys (append_raw_packet_unique prev packet max_packets))
        (get_raw_packet_observation_key packet)
      ≡ true
unfolding append_raw_packet_unique
recorded prev packet max_packets pos short =
    let key : Text = get_raw_packet_observation_key packet in
    let updated : List RawPacket = prev ++ packet ∷ [] in
    let surplus : ℕ = length updated - max_packets in
    elim (Bool-cases (any (λ (p : RawPacket). get_raw_packet_observation_key p == key) prev)) [
      | inl old ↦ rw (old, append_raw_packet_unique) (sym (any-packet_keys prev key) ∙ old)
      | inr new ↦ elim (Bool-cases (ltb max_packets (length updated))) [
        | inr room ↦
            rw (new, append_raw_packet_unique, room)
              (rw (packet_keys-concat prev packet)
                (contains_last-drop 0 (packet_keys prev) key (omega arith)))
        | inl full ↦
            let not_all : (max_packets == 0) ≡ false = ground arith in
            rw (new, append_raw_packet_unique, full, not_all)
              (rw (packet_keys-drop surplus updated, packet_keys-concat prev packet)
                (contains_last-drop surplus (packet_keys prev) key
                  (omega (arith, length-append prev (packet ∷ []), length-packet_keys prev))))
      ]
    ]

append_raw_packet_unique_known :
    (packets : List RawPacket) (packet : RawPacket) (max_packets : ℕ)
    → contains (packet_keys packets) (get_raw_packet_observation_key packet) ≡ true
    → append_raw_packet_unique packets packet max_packets ≡ packets
unfolding append_raw_packet_unique
append_raw_packet_unique_known packets packet max_packets h =
    rw (any-packet_keys packets (get_raw_packet_observation_key packet), h) refl

-- Recording the same packet again leaves the buffer as it is, if its limit is not 0 and was kept.
pub append_raw_packet_unique_again :
    (prev : List RawPacket) (packet : RawPacket) (max_packets : ℕ)
    → 1 ≤ max_packets
    → length prev ≤ max_packets
    → append_raw_packet_unique (append_raw_packet_unique prev packet max_packets) packet max_packets
      ≡ append_raw_packet_unique prev packet max_packets
append_raw_packet_unique_again prev packet max_packets pos short =
    append_raw_packet_unique_known (append_raw_packet_unique prev packet max_packets) packet
      max_packets (recorded prev packet max_packets pos short)
