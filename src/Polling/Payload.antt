-- ===== src/Polling/Payload.antt =====
-- src/http_polling_transport.cpp: payloads and the packets that they are joined from.
use sioxx.Prelude.{
  ◌≡◌, ◌≢◌, refl, ap, ◌∙◌, false, List, [], ◌∷◌, ◌++◌, ◌==◌, All, All-append, if_cases, arith,
  append_assoc, append-nil,
}
use sioxx.Prelude.Bytes.{Bytes, Lacks}
use sioxx.Polling.{separator, push_packet, split_from, polling_split_payload}

-- A packet in a payload: not empty, and without the separator.
abbrev pub IsPacket : Bytes → Type 0
IsPacket p = (p ≢ []) × Lacks separator p

-- The packets with a separator between each and the next.
abbrev pub join_packets : List Bytes → Bytes
join_packets [] = []
join_packets (p ∷ []) = p
join_packets (p ∷ q ∷ ps) = p ++ (separator ∷ join_packets (q ∷ ps))

push_packet_lem : (p : Bytes) (ps : List Bytes) → p ≢ [] → push_packet p ps ≡ p ∷ ps
push_packet_lem [] ps h = absurd (h refl)
push_packet_lem (c ∷ s) ps h = refl

split_from-append :
    (packet s rest : Bytes)
    → Lacks separator s
    → split_from packet (s ++ separator ∷ rest) ≡ push_packet (packet ++ s) (split_from [] rest)
unfolding split_from
split_from-append packet [] rest h = rw (append-nil packet) refl
split_from-append packet (c ∷ s) rest (n, h) =
    let e : (c == separator) ≡ false = ground arith in
    rw e (
      split_from-append (packet ++ c ∷ []) s rest h
      ∙ ap (λ l. push_packet l (split_from [] rest)) (append_assoc packet (c ∷ []) s))

split_from-last :
    (packet s : Bytes) → Lacks separator s → split_from packet s ≡ push_packet (packet ++ s) []
unfolding split_from
split_from-last packet [] h = rw (append-nil packet) refl
split_from-last packet (c ∷ s) (n, h) =
    let e : (c == separator) ≡ false = ground arith in
    rw e (
      split_from-last (packet ++ c ∷ []) s h
      ∙ ap (λ l. push_packet l []) (append_assoc packet (c ∷ []) s))

-- Packets that are not empty and hold no separator, joined with a separator between them, come out
-- again in order.
pub split-join_packets :
    (ps : List Bytes) → All IsPacket ps → polling_split_payload (join_packets ps) ≡ ps
unfolding polling_split_payload
split-join_packets [] h = unfold split_from in refl
split-join_packets (p ∷ []) ((ne, h), hs) = split_from-last [] p h ∙ push_packet_lem p [] ne
split-join_packets (p ∷ q ∷ ps) ((ne, h), hs) =
    split_from-append [] p (join_packets (q ∷ ps)) h
    ∙ push_packet_lem p (split_from [] (join_packets (q ∷ ps))) ne
    ∙ ap (λ l. p ∷ l) (split-join_packets (q ∷ ps) hs)

push_packet-All :
    (p : Bytes) (ps : List Bytes)
    → Lacks separator p
    → All IsPacket ps
    → All IsPacket (push_packet p ps)
push_packet-All [] ps h hs = hs
push_packet-All (c ∷ s) ps h hs = (((λ e. cc), h), hs)

split_from-All : (packet s : Bytes) → Lacks separator packet → All IsPacket (split_from packet s)
unfolding split_from
split_from-All packet [] h = push_packet-All packet [] h tt
split_from-All packet (c ∷ s) h =
    if_cases (All IsPacket) (c == separator) (push_packet packet (split_from [] s))
      (split_from (packet ++ c ∷ []) s)
      (λ _. push_packet-All packet (split_from [] s) h (split_from-All [] s tt))
      (λ e.
        split_from-All (packet ++ c ∷ []) s
          (All-append (λ x. x ≢ separator) packet (c ∷ []) h ((ground arith), tt)))

-- Whatever the server sends, a packet that is delivered is not empty and has no separator.
polling_split_payload-All : (payload : Bytes) → All IsPacket (polling_split_payload payload)
unfolding polling_split_payload
polling_split_payload-All payload = split_from-All [] payload tt
