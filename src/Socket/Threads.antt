-- ===== src/Socket/Threads.antt =====
-- src/socket.cpp: what the threads do, where a packet is handed to the client behind the critical section
-- that decided to send it, and other sections may come between the two.
pub mod Count
pub mod Order
use sioxx.Prelude.{ℕ, zero, suc, Option, none, some, List, [], ◌∷◌, ◌++◌}
use sioxx.Packet.{Packet}
use sioxx.Socket.State.{Effect, sends, Socket}
use sioxx.Socket.Steps
use sioxx.Socket.Steps.{Op, closes}

-- The socket, and the packets that threads hold behind their sections, the oldest first.
pub record World : Type 0 where
  pub socket : Socket
  pub handing : List Packet

-- A critical section; a `send_packet` of the client that returns; one that throws, so that the packet is
-- lost.
pub data Event : Type 0 where
  locks : Op → Event
  hands loses : ℕ → Event

abbrev pub packets : List Effect → List Packet
packets [] = []
packets (sends p ∷ es) = p ∷ packets es
packets (_ ∷ es) = packets es

abbrev pub others : List Effect → List Effect
others [] = []
others (sends p ∷ es) = others es
others (e ∷ es) = e ∷ others es

-- What a section leaves to be handed over, and what it does at once: `disconnect` sends before it locks.
abbrev pub held : Op → List Effect → List Packet × List Effect
held closes es = ([], es)
held o es = (packets es, others es)

abbrev pub nth : ℕ → List Packet → Option Packet
nth n [] = none
nth zero (p ∷ ps) = some p
nth (suc n) (p ∷ ps) = nth n ps

abbrev pub without : ℕ → List Packet → List Packet
without n [] = []
without zero (p ∷ ps) = ps
without (suc n) (p ∷ ps) = p ∷ without n ps

abbrev pub sent_by : Option Packet → List Effect
sent_by none = []
sent_by (some p) = sends p ∷ []

unfoldable pub step : World → Event → World × List Effect
step w (locks o) =
    let (s, es) = Steps.step w.socket o in
    let (ps, fs) = held o es in (record { socket = s; handing = w.handing ++ ps }, fs)
step w (hands n) = (record w { handing = without n w.handing }, sent_by (nth n w.handing))
step w (loses n) = (record w { handing = without n w.handing }, [])

unfoldable pub run : World → List Event → World × List Effect
run w [] = (w, [])
run w (e ∷ es) = let (w', fs) = step w e in let (w'', gs) = run w' es in (w'', fs ++ gs)
