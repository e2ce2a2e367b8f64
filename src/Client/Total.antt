-- ===== src/Client/Total.antt =====
-- src/client.cpp: the handling of a frame, from the decoder to the socket.
use sioxx.Prelude.{ℕ, ◌≡◌, refl, true, false, inl, inr, Option, some, List, [], Option-cases}
use mathlib.Core.Bool.{false≢true}
use mathlib.Core.Path.{subst, sym, ◌∙◌}
use sioxx.Prelude.Bytes.{Bytes}
use sioxx.Prelude.Map
use sioxx.Prelude.Map.{bytes_key, is_some}
use sioxx.Message.{Json}
use sioxx.Packet.{
  Packet, PacketType, connect, disconnect, event, ack, connect_error, binary_event, binary_ack,
}
use sioxx.Socket.State.{Socket}
use sioxx.Socket.Flush.{mark_connected-total}
use sioxx.JsonParser.Encode.{Frame}
use sioxx.JsonParser.Decode.{Decoded, more, done, fault, decode}
use sioxx.JsonParser.Safety.{IsValid, Keeps, decode-Keeps}
use sioxx.Client.State.{Effect, Client, from_all}
use sioxx.Client.Dispatch.{deliver, on_packet, on_decoded, on_engineio_frame}

deliver-is_some :
    (t : PacketType) (p : Packet) (clock : ℕ → ℕ) (now : ℕ) (s : Socket)
    → p.type ≡ t
    → is_some (deliver p clock now s) ≡ true
unfolding deliver
deliver-is_some connect p clock now s e =
    let (r, h) = mark_connected-total true [] clock s in rw (e, deliver) (rw h refl)
deliver-is_some disconnect p clock now s e =
    let (r, h) = mark_connected-total false [] clock s in rw (e, deliver) (rw h refl)
deliver-is_some event p clock now s e = rw (e, deliver) refl
deliver-is_some ack p clock now s e = rw (e, deliver) refl
deliver-is_some connect_error p clock now s e = rw (e, deliver) refl
deliver-is_some binary_event p clock now s e = rw (e, deliver) refl
deliver-is_some binary_ack p clock now s e = rw (e, deliver) refl

-- A packet is delivered, and the decoder stays as it is.
on_packet-total :
    (p : Packet) (clock : ℕ → ℕ) (now : ℕ) (c : Client)
    → (c' : Client) × (es : List Effect) × (on_packet p clock now c ≡ some (c', es))
      × (c'.decoder ≡ c.decoder)
unfolding on_packet
on_packet-total p clock now c = elim (Option-cases (Map.lookup p.nsp c.sockets)) [
  | inl n ↦ (c, [], rw (n, on_packet) refl, refl)
  | inr (s, e) ↦ elim (Option-cases (deliver p clock now s)) [
    | inl n ↦ absurd (false≢true (rw n at (deliver-is_some p.type p clock now s refl)))
    | inr ((s', es), d) ↦ (
      record c { sockets = Map.insert p.nsp s' c.sockets },
      from_all p.nsp es,
      rw (e, on_packet) (rw d refl),
      refl,
    )
  ]
]

on_decoded-total :
    (d : Decoded) (clock : ℕ → ℕ) (now : ℕ) (c : Client)
    → Keeps d
    → (c' : Client) × (es : List Effect) × (on_decoded d clock now c ≡ some (c', es))
      × IsValid c'.decoder
unfolding on_decoded
on_decoded-total (more d) clock now c k = (record c { decoder = d }, [], refl, k)
on_decoded-total (done d p) clock now c k =
    let (c', es, e, h) = on_packet-total p clock now (record c { decoder = d }) in
    (c', es, e, subst IsValid (sym (h ∙ k)) refl)
on_decoded-total fault clock now c k = absurd k

-- Whatever frame arrives at a client whose decoder has the invariant, its handling comes to its end
-- without a read outside the attachments, and the decoder has the invariant again: where meanwhile no
-- other thread uses the sockets, no handler calls back into the library and every `send_packet` of a
-- flush returns.
pub on_engineio_frame-total :
    (parse : Bytes → Option Json) (f : Frame) (clock : ℕ → ℕ) (now : ℕ) (c : Client)
    → IsValid c.decoder
    → (c' : Client) × (es : List Effect) × (on_engineio_frame parse f clock now c ≡ some (c', es))
      × IsValid c'.decoder
unfolding on_engineio_frame
on_engineio_frame-total parse f clock now c v =
    on_decoded-total (decode parse c.decoder f) clock now c (decode-Keeps parse c.decoder f v)
