-- ===== src/HttpPollingTransport/Fifo.antt =====
-- src/http_polling_transport.cpp: the write queue as an implementation of the channel, in both modes.
use sioxx.Prelude.{
  ◌≡◌, refl, sym, inl, inr, Bool, true, false, Option, none, some, List, [], ◌∷◌, ◌++◌,
  if◌then◌else◌, not, ◌&&◌, ◌||◌, ◌⊎◌, arith, if_intro, if_cases, append-nil, subst, ◌/◌, ◌==◌,
}
use sioxx.Prelude.Bytes.{Bytes, codes}
use sioxx.Message.{Json}
use sioxx.JsonParser.Numbers.{decimal}
use sioxx.Polling.{polling_split_payload, polling_decode_binary}
use sioxx.Transport.{closed, opened, on_open, on_error, on_close}
use sioxx.Transport.Channel.{Channel, in_order, shuts, still}
use sioxx.HttpPollingTransport.State.{
  Message, Poll, absent, ended, requests, opens, delivers, Effect, notifies, writes, cancels,
  throws, Reply, replied, raised, HttpPollingTransport, fail,
}
use sioxx.HttpPollingTransport.Polling.{
  asked, deliver_binary, take_sid, deliver_handshake, start_poll, connect, on_reply, take_reply,
  deliver_packet,
}
use sioxx.HttpPollingTransport.Writing.{is_success, write_first, write_next, on_write, fail_reply}
use sioxx.HttpPollingTransport.Steps.{answer}

-- The messages for which a request is sent.
abbrev pub delivered : List Effect → List Message
delivered [] = []
delivered (writes m r ∷ es) = m ∷ delivered es
delivered (_ ∷ es) = delivered es

abbrev is_drained : List Message → Bool
is_drained [] = true
is_drained (_ ∷ _) = false

-- On the caller's context a transport that is closing is shut, on its own threads once the queue is
-- drained.
abbrev pub holds : (is_closing external : Bool) → List Message → Option (List Message)
holds is_closing external q = if is_closing && (external || is_drained q) then none else some q

abbrev pub held : HttpPollingTransport → Option (List Message)
held t = holds t.is_closing t.external t.write_queue

abbrev pub Moves : HttpPollingTransport → List Message → HttpPollingTransport × List Effect → Type 0
Moves t a (t', es) = Channel (held t) a (delivered es) (held t')

-- The queue and the flags that it depends on stay as they are, and nothing is written.
abbrev pub IsQuiet : HttpPollingTransport → HttpPollingTransport × List Effect → Type 0
IsQuiet t (t', es) =
    (t'.is_closing ≡ t.is_closing)
    × (t'.external ≡ t.external)
    × (t'.write_queue ≡ t.write_queue)
    × (delivered es ≡ [])

pub quiet-Moves :
    (t : HttpPollingTransport) (r : HttpPollingTransport × List Effect) → IsQuiet t r → Moves t [] r
quiet-Moves t r (c, e, q, d) = rw (c, e, q, d) (still (held t))

pub holds_empty : (external : Bool) → holds true external [] ≡ none
holds_empty true = refl
holds_empty false = refl

-- A transport that fails is shut with what it holds.
pub shuts_all :
    (is_closing external : Bool) (q : List Message)
    → is_closing ≡ false
    → Channel (holds is_closing external q) [] [] (holds true external [])
shuts_all false external q c = rw (holds_empty external) (shuts q (append-nil q))
shuts_all true external q c = cc

fails : Bytes → HttpPollingTransport → HttpPollingTransport × List Effect
fails what t = (
  record t { is_closing = true; state = closed; write_queue = [] },
  (if t.external then cancels ∷ [] else [])
      ++ notifies (on_error what) ∷ notifies (on_close what) ∷ [],
)

fails-delivered : (what : Bytes) (t : HttpPollingTransport) → delivered (fails what t).1 ≡ []
unfolding fails
fails-delivered what t = ground arith

fail-Moves : (what : Bytes) (t : HttpPollingTransport) → Moves t [] (fail what t)
unfolding fail fails
fail-Moves what t =
    if_cases (Moves t []) t.is_closing (t, []) (fails what t) (λ c. still (held t))
      (λ c.
        subst (λ out. Channel (held t) [] out (holds true t.external []))
          (sym (fails-delivered what t)) (shuts_all t.is_closing t.external t.write_queue c))

-- The first message of the queue is written.
holds_first :
    (is_closing external : Bool) (m : Message) (rest : List Message)
    → (external && is_closing) ≡ false
    → Channel (holds is_closing external (m ∷ rest)) [] (m ∷ []) (holds is_closing external rest)
holds_first false external m rest h = in_order (append-nil (m ∷ rest))
holds_first true false m [] h = shuts [] refl
holds_first true false m (n ∷ rest) h = in_order (append-nil (m ∷ n ∷ rest))
holds_first true true m rest h = cc

write_first-Moves :
    (q : List Message) (t : HttpPollingTransport)
    → t.write_queue ≡ q
    → (t.external && t.is_closing) ≡ false
    → Moves t [] (write_first q t)
write_first-Moves [] t e h = still (held t)
write_first-Moves (m ∷ rest) t e h = rw e (holds_first t.is_closing t.external m rest h)

or_false : (a b : Bool) → (a || b) ≡ false → (a ≡ false) × (b ≡ false)
or_false false b h = (refl, h)
or_false true b h = cc

pub write_next-Moves : (t : HttpPollingTransport) → Moves t [] (write_next t)
unfolding write_next
write_next-Moves t =
    if_cases (Moves t []) (t.writing || (t.external && t.is_closing)) (t, [])
      (write_first t.write_queue t) (λ e. still (held t))
      (λ e. write_first-Moves t.write_queue t refl ((or_false t.writing _ e).1))

pub start_poll-IsQuiet : (h : Bool) (t : HttpPollingTransport) → IsQuiet t (start_poll h t)
unfolding start_poll
start_poll-IsQuiet h t = (refl, refl, refl, refl)

pub connect-IsQuiet :
    (url : Bytes) (t : HttpPollingTransport) → IsQuiet t ((connect url t).0, (connect url t).1)
unfolding connect start_poll
connect-IsQuiet url t = ground arith

-- The loop that polls does not touch the queue before it fails.
fail_poll-Moves :
    (what : Bytes) (p : Poll) (t : HttpPollingTransport)
    → Moves t [] (fail what (record t { poll = p }))
fail_poll-Moves what p t = fail-Moves what (record t { poll = p })

take_reply-Moves :
    (h : Bool) (reply : Reply) (t : HttpPollingTransport) → Moves t [] (take_reply h reply t)
take_reply-Moves h (raised what) t = fail-Moves _ (record t { poll = ended })
take_reply-Moves h (replied status body) t =
    if_intro (Moves t []) (not (status / 100 == 2)) (fail what (record t { poll = ended })) _
      (fail-Moves what (record t { poll = ended }))
      (if_intro (Moves t []) h
        (record t { state = opened; poll = opens body }, notifies on_open ∷ [])
        (record t { poll = delivers (polling_split_payload body) }, []) (still (held t))
        (still (held t)))
  where
    what : Bytes
    what = asked h ++ (codes " returned HTTP " ++ decimal status)

on_reply-Moves :
    (h : Bool) (reply : Reply) (t : HttpPollingTransport) → Moves t [] (on_reply h reply t)
unfolding on_reply
on_reply-Moves h reply t =
    if_intro (Moves t []) (t.is_closing && (t.external || not h)) (record t { poll = ended }, [])
      (take_reply h reply t) (still (held t)) (take_reply-Moves h reply t)

pub answer-Moves :
    (p : Poll) (reply : Reply) (t : HttpPollingTransport) → Moves t [] (answer p reply t)
answer-Moves (requests h) reply t = on_reply-Moves h reply t
answer-Moves absent reply t = still (held t)
answer-Moves ended reply t = still (held t)
answer-Moves (opens body) reply t = still (held t)
answer-Moves (delivers ps) reply t = still (held t)

fail_reply-Moves : (reply : Reply) (t : HttpPollingTransport) → Moves t [] (fail_reply reply t)
fail_reply-Moves (raised what) t = fail-Moves _ t
fail_reply-Moves (replied status body) t =
    if_intro (Moves t []) (status / 100 == 2) (t, []) _ (still (held t)) (fail-Moves _ t)

pub on_write-Moves : (reply : Reply) (t : HttpPollingTransport) → Moves t [] (on_write reply t)
unfolding on_write
on_write-Moves reply t =
    let t' : HttpPollingTransport = record t { writing = false } in
    if_intro (Moves t []) t.is_closing (t', []) _ (still (held t))
      (if_intro (Moves t []) (t.external && is_success reply) (write_next t') (fail_reply reply t')
        (write_next-Moves t') (fail_reply-Moves reply t'))

module _ (parse : Bytes → Option Json) (value_string : Bytes → Bytes → Json → Bytes ⊎ Bytes) where
  pub deliver_packet-Moves :
      (packet : Bytes) (t : HttpPollingTransport)
      → Moves t [] (deliver_packet parse value_string packet t)
  unfolding deliver_packet
  deliver_packet-Moves [] t = still (held t)
  deliver_packet-Moves (c ∷ rest) t =
      if_intro (Moves t []) (c == b'0') _ _ (handshake (parse rest)) (
        if_intro (Moves t []) (c == b'b') _ _ (binary (polling_decode_binary (c ∷ rest)))
          (still (held t)))
    where
      binary : (d : Option Bytes) → Moves t [] (deliver_binary parse value_string d t)
      binary none = still (held t)
      binary (some d) = still (held t)

      sid : (v : Bytes ⊎ Bytes) → Moves t [] (take_sid parse value_string (c ∷ rest) v t)
      sid (inr s) = still (held t)
      sid (inl what) =
          if_intro (Moves t []) t.external (record t { poll = ended }, throws ∷ []) _
            (still (held t)) (fail-Moves _ (record t { poll = ended }))

      handshake :
          (j : Option Json) → Moves t [] (deliver_handshake parse value_string (c ∷ rest) j t)
      handshake none = still (held t)
      handshake (some j) = sid (value_string (codes "sid") [] j)
