-- ===== src/WebsocketTransport/Write.antt =====
-- src/websocket_transport.cpp: the write queue and the shutdown.
use sioxx.Prelude.{Bool, true, false, Option, none, some, List, [], ◌∷◌, ◌++◌, if◌then◌else◌, not}
use sioxx.Prelude.Bytes.{Bytes, codes}
use sioxx.Transport.{closed, closing}
use sioxx.WebsocketTransport.State.{
  Entry, Effect, writes, cancels_resolver, stops_context, closes_stream, Task, shuts_down,
  WebsocketTransport, fail_with,
}

-- The front's payload is moved out, and the entry stays until the write completes.
abbrev pub write_front : Bool → List Entry → WebsocketTransport → WebsocketTransport × List Effect
write_front tls [] w = (record w { write_in_progress = false }, [])
write_front tls ((payload, is_binary) ∷ rest) w =
    (record w { write_queue = (none, is_binary) ∷ rest }, writes tls payload is_binary ∷ [])

-- `pump_write_queue_plain` and `pump_write_queue_tls`.
unfoldable pub pump_write_queue : Bool → WebsocketTransport → WebsocketTransport × List Effect
pump_write_queue tls w =
    if w.is_closing
    then (w, [])
    else if not (if tls then w.ws_tls else w.ws_plain)
    then (record w { write_in_progress = false }, [])
    else write_front tls w.write_queue w

-- The function that `queue_write` posts.
unfoldable pub queue_write : Bytes → Bool → WebsocketTransport → WebsocketTransport × List Effect
queue_write payload is_binary w =
    let w' = record w {
      write_queue = w.write_queue ++ (some payload, is_binary) ∷ [];
      write_in_progress = true;
    } in
    let pumped = pump_write_queue w.url.tls w' in
    if w.is_closing then (w, []) else if w.write_in_progress then (w', []) else pumped

abbrev pub pop_front : List Entry → List Entry
pop_front [] = []
pop_front (e ∷ es) = es

-- The completion of a write on the stream with TLS or the one without.
unfoldable pub on_write :
    Bool → Option Bytes → WebsocketTransport → WebsocketTransport × List Effect
on_write tls none w =
    if w.is_closing
    then (w, [])
    else pump_write_queue tls (record w { write_queue = pop_front w.write_queue })
on_write tls (some ec) w =
    let (w', es) =
      fail_with (codes "write") ec (record w { write_queue = pop_front w.write_queue }) in
    if w.is_closing then (w, []) else (record w' { write_in_progress = false }, es)

abbrev close_streams : WebsocketTransport → List Effect
close_streams w =
    (if w.ws_tls then closes_stream true ∷ [] else [])
    ++ (if w.ws_plain then closes_stream false ∷ [] else [])

unfoldable pub shutdown_on_io_thread : WebsocketTransport → WebsocketTransport × List Effect
shutdown_on_io_thread w = (
  record w { write_queue = []; write_in_progress = false; state = closed },
  cancels_resolver ∷ (close_streams w ++ (if w.owned_ioc then stops_context ∷ [] else [])),
)

-- `close`, on the strand's thread or another.
unfoldable pub close : Bool → WebsocketTransport → WebsocketTransport × List Effect × List Task
close on_io_thread w =
    let w' = record w { shutdown_once = true; is_closing = true; state = closing } in
    let (w'', es) = shutdown_on_io_thread w' in
    if w.shutdown_once
    then (w, [], [])
    else if on_io_thread
    then (w'', es, [])
    else (w', [], shuts_down ∷ [])

-- `join_io_thread`, when the thread has come to its end.
unfoldable pub join_io_thread : WebsocketTransport → WebsocketTransport
join_io_thread w =
    if w.io_thread then record w { io_thread = false; ws_tls = false; ws_plain = false } else w

-- The destructor.
unfoldable pub destroy : WebsocketTransport → WebsocketTransport × List Effect
destroy w = (
  record w { is_closing = true; state = closed; io_thread = false },
  cancels_resolver ∷ (if w.owned_ioc then stops_context ∷ [] else []),
)
