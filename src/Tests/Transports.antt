-- ===== src/Tests/Transports.antt =====
-- The theorems about the two transports at concrete inputs.
use sioxx.Prelude.{
  ◌≡◌, ◌≤◌, refl, true, false, Option, none, some, List, [], ◌∷◌, ◌++◌, ◌⊎◌, inr, length,
}
use sioxx.Prelude.Bytes.{Bytes, codes}
use sioxx.Message.{Json}
use sioxx.Transport.{opened}
use sioxx.Transport.Channel.{Channel}
use sioxx.WebsocketTransport.State.{Entry, Completion, queues, make_transport}
use sioxx.WebsocketTransport.Steps as Websocket
use sioxx.WebsocketTransport.Quiet
use sioxx.WebsocketTransport.Flow
use sioxx.WebsocketTransport.Flow.{IsOrdered, AtMostOne}
use sioxx.WebsocketTransport.Refinement as WebsocketRefinement
use sioxx.WebsocketTransport.Refinement.{step-Refines, delivered-run-prefix}
use sioxx.WebsocketTransport.Notices as WebsocketNotices
use sioxx.WebsocketTransport.Counts
use sioxx.WebsocketTransport.Counts.{opens}
use sioxx.WebsocketTransport.Notices.{opens-run-le}
use sioxx.WebsocketTransport.Silence.{run-IsSilent, notices}
use sioxx.HttpPollingTransport.State as Polling
use sioxx.HttpPollingTransport.Operation
use sioxx.HttpPollingTransport.Operation.Progress.{calls, calls-run}
use sioxx.HttpPollingTransport.Steps as PollingSteps
use sioxx.HttpPollingTransport.Fifo as PollingFifo
use sioxx.HttpPollingTransport.Refinement as PollingRefinement
use sioxx.HttpPollingTransport.Refinement.{step-Channel, delivered-run-prefix_polling}
use sioxx.HttpPollingTransport.Notices as PollingNotices
use sioxx.HttpPollingTransport.Notices.{closings-run-le}

abbrev succeeded : Completion
succeeded = record { error = none; sni_error = none; status = 0; payload = []; is_binary = false }

-- A connection, two messages, and the end of the first write.
abbrev session : List Websocket.Event
session =
    Websocket.connects (codes "ws://host/")
    ∷ Websocket.completes 0 succeeded
    ∷ Websocket.completes 0 succeeded
    ∷ Websocket.completes 0 succeeded
    ∷ Websocket.sends (codes "2[1]") false
    ∷ Websocket.sends (codes "2[2]") false
    ∷ Websocket.runs
    ∷ Websocket.runs
    ∷ Websocket.wrote none
    ∷ []

delivered-run-prefix_example :
    let r = Websocket.run (Websocket.initial true) session in
    ((rest : List Entry) × (WebsocketRefinement.accepted_by session ≡ Quiet.delivered r.1 ++ rest))
    × AtMostOne r.0.writing
delivered-run-prefix_example = delivered-run-prefix true session

opens-run-le_example :
    let r = Websocket.run (Websocket.initial true) session in
    (opens r.1 ≤ WebsocketNotices.connections_of session) × (Counts.closings r.1 ≤ opens r.1)
opens-run-le_example = opens-run-le true session

-- A transport with a stream whose strand holds a message.
abbrev ready : Websocket.World
ready = record {
  transport = record (make_transport false) { state = opened; ws_plain = true };
  posted = queues (codes "2[1]") false ∷ [];
  outstanding = [];
  writing = [];
}

ready-IsOrdered : IsOrdered ready
unfolding make_transport
ready-IsOrdered = (tt, λ _. ((tt, refl), refl))

step-Refines_example :
    let r = Websocket.step ready Websocket.runs in
    IsOrdered r.0
    × Channel (Flow.held ready) (Flow.accepted Websocket.runs) (Quiet.delivered r.1) (Flow.held r.0)
step-Refines_example = step-Refines ready Websocket.runs ready-IsOrdered

abbrev shutting : Websocket.World
shutting = record ready {
  transport = record (make_transport false) { is_closing = true; ws_plain = true };
}

run-IsSilent_example :
    ((Websocket.run shutting session).0.transport.is_closing ≡ true)
    × (notices (Websocket.run shutting session).1 ≡ [])
run-IsSilent_example = run-IsSilent shutting session refl

abbrev parse : Bytes → Option Json
parse s = none

abbrev value_string : Bytes → Bytes → Json → Bytes ⊎ Bytes
value_string key s j = inr s

abbrev polling : Polling.HttpPollingTransport
polling = record (Polling.make_transport false) {
  sid = codes "a1";
  extra_headers = (codes "Cookie", codes "k=v") ∷ [];
}

-- A handshake, two messages that are written one after the other, and an answer of failure.
abbrev polls : List PollingSteps.Event
polls =
    PollingSteps.connects (codes "http://host/")
    ∷ PollingSteps.answers (Polling.replied 200 (codes "0{}"))
    ∷ PollingSteps.sends (codes "2[1]", false)
    ∷ PollingSteps.sends (codes "b", true)
    ∷ PollingSteps.advances
    ∷ PollingSteps.writes_next
    ∷ PollingSteps.wrote (Polling.replied 200 [])
    ∷ PollingSteps.writes_next
    ∷ PollingSteps.wrote (Polling.replied 500 [])
    ∷ []

delivered-run-prefix_polling_example :
    let start = PollingSteps.initial false in
    (rest : List Polling.Message) × (PollingRefinement.accepted_by parse value_string start polls
      ≡ PollingFifo.delivered (PollingSteps.run parse value_string start polls).1 ++ rest)
delivered-run-prefix_polling_example = delivered-run-prefix_polling parse value_string false polls

closings-run-le_example :
    let r = PollingSteps.run parse value_string (PollingSteps.initial false) polls in
    (PollingNotices.closings r.1 ≤ 1) × (PollingNotices.errors r.1 ≤ PollingNotices.closings r.1)
closings-run-le_example = closings-run-le parse value_string false polls

abbrev queueing : PollingSteps.World
queueing = record { transport = record polling { state = opened; threads = true }; posted = [] }

step-Channel_example :
    let e = PollingSteps.sends (codes "2[1]", false) in
    let r = PollingSteps.step parse value_string queueing e in
    Channel
      (PollingFifo.held queueing.transport)
      (PollingRefinement.accepted queueing e)
      (PollingFifo.delivered r.1)
      (PollingFifo.held r.0.transport)
step-Channel_example =
    step-Channel parse value_string queueing (PollingSteps.sends (codes "2[1]", false))

-- Closed while it waits for the answer to the handshake.
abbrev closed_early : PollingSteps.World
closed_early = record {
  transport = record polling { is_closing = true; threads = true; poll = Polling.requests true };
  posted = [];
}

-- A request by TLS through a proxy that grants the tunnel.
abbrev granted : Operation.Completion
granted = record { error = none; sni_error = none; status = 200; body = codes "ok" }

abbrev by_proxy : Polling.HttpPollingTransport
by_proxy = record polling {
  url = record polling.url { tls = true };
  proxy = some (record { endpoint = polling.url; authorization = [] });
}

abbrev completions : List Operation.Completion
completions = granted ∷ granted ∷ granted ∷ granted ∷ granted ∷ granted ∷ granted ∷ []

calls-run_example :
    let n =
      calls
        (Operation.run
          (codes "aborted")
          by_proxy
          completions
          (Operation.start Operation.make_operation)).1 in
    (n ≤ 1) × (7 ≤ length completions → n ≡ 1)
calls-run_example = calls-run (codes "aborted") by_proxy completions
