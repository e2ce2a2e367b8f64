-- ===== src/HttpPollingTransport/Operation.antt =====
-- src/http_polling_transport.cpp, `async_request_operation`: one request on the caller's context, from
-- the resolver to the call of its handler.
pub mod Progress
use sioxx.Prelude.{
  ℕ, ◌/◌, Bool, true, false, Option, none, some, List, [], ◌∷◌, ◌++◌, if◌then◌else◌, ◌==◌, not,
}
use sioxx.Prelude.Bytes.{Bytes, codes}
use sioxx.Proxy.{ProxyConfig}
use sioxx.JsonParser.Numbers.{decimal}
use sioxx.HttpPollingTransport.State.{Reply, replied, raised, HttpPollingTransport}

-- The operation of Boost that is outstanding; `tcp_connects` knows of the stream that it connects
-- whether it is the one with TLS.
pub data Stage : Type 0 where
  nothing resolves : Stage
  tcp_connects : (tls : Bool) → Stage
  proxy_writes proxy_reads tls_handshakes request_writes response_reads : Stage

-- `registered` says whether `external_requests_` lists the operation.
pub record AsyncRequestOperation : Type 0 where
  pub stage : Stage
  pub plain_stream : Bool
  pub tls_stream : Bool
  pub finished : Bool
  pub registered : Bool

-- What an operation of Boost ends with: the text of its error code, that of the server name indication,
-- and the answer.
pub record Completion : Type 0 where
  pub error : Option Bytes
  pub sni_error : Option Bytes
  pub status : ℕ
  pub body : Bytes

-- `calls_handler` is the call of the handler, `fails` that of the transport's `fail`.
pub data Effect : Type 0 where
  calls_handler : Reply → Effect
  fails : Bytes → Effect
  cancels_resolver : Effect
  closes_socket : (tls : Bool) → Effect

abbrev pub make_operation : AsyncRequestOperation
make_operation = record {
  stage = nothing;
  plain_stream = false;
  tls_stream = false;
  finished = false;
  registered = true;
}

unfoldable pub start : AsyncRequestOperation → AsyncRequestOperation
start o = record o { stage = resolves }

unfoldable pub finish : Reply → AsyncRequestOperation → AsyncRequestOperation × List Effect
finish reply o =
    if o.finished
    then (o, [])
    else (record o { finished = true; registered = false }, calls_handler reply ∷ [])

-- The next operation of Boost.
abbrev pub goes_to : Stage → AsyncRequestOperation → AsyncRequestOperation × List Effect
goes_to s o = (record o { stage = s }, [])

abbrev pub connect_tls : Option Bytes → AsyncRequestOperation → AsyncRequestOperation × List Effect
connect_tls (some ec) o = finish (raised ec) o
connect_tls none o = goes_to (tcp_connects true) o

unfoldable pub connect :
    HttpPollingTransport → Completion → AsyncRequestOperation → AsyncRequestOperation × List Effect
connect t r o =
    let (o', es) = connect_tls r.sni_error (record o { tls_stream = true }) in
    if t.url.tls then (o', es) else goes_to (tcp_connects false) (record o { plain_stream = true })

abbrev pub through :
    Option ProxyConfig → AsyncRequestOperation → AsyncRequestOperation × List Effect
through none o = goes_to tls_handshakes o
through (some proxy) o = goes_to proxy_writes o

-- The handler of an operation that came without an error; `operation_aborted` is the text of Boost's
-- error code of that name.
module _ (operation_aborted : Bytes) where
  unfoldable pub on_proxy_read :
      Completion → AsyncRequestOperation → AsyncRequestOperation × List Effect
  on_proxy_read r o =
      let (o', es) = finish (raised operation_aborted) o in
      if not (r.status / 100 == 2)
      then (
        o',
        fails (codes "polling transport: proxy CONNECT returned HTTP " ++ decimal r.status) ∷ es,
      )
      else goes_to tls_handshakes o

  abbrev pub dispatch :
      Stage
      → HttpPollingTransport
      → Completion
      → AsyncRequestOperation
      → AsyncRequestOperation × List Effect
  dispatch nothing t r o = (o, [])
  dispatch resolves t r o = connect t r o
  dispatch (tcp_connects true) t r o = through t.proxy o
  dispatch (tcp_connects false) t r o = goes_to request_writes o
  dispatch proxy_writes t r o = goes_to proxy_reads o
  dispatch proxy_reads t r o = on_proxy_read r o
  dispatch tls_handshakes t r o = goes_to request_writes o
  dispatch request_writes t r o = goes_to response_reads o
  dispatch response_reads t r o = finish (replied r.status r.body) o

  -- Every handler ends the request where there is an error.
  abbrev pub complete_stage :
      Stage
      → HttpPollingTransport
      → Completion
      → AsyncRequestOperation
      → AsyncRequestOperation × List Effect
  complete_stage s t r o = elim r.error [ none ↦ dispatch s t r o | some ec ↦ finish (raised ec) o ]

  abbrev pub complete_from :
      Stage
      → HttpPollingTransport
      → Completion
      → AsyncRequestOperation
      → AsyncRequestOperation × List Effect
  complete_from nothing t r o = (o, [])
  complete_from s t r o = complete_stage s t r (record o { stage = nothing })

  unfoldable pub complete :
      HttpPollingTransport
      → Completion
      → AsyncRequestOperation
      → AsyncRequestOperation × List Effect
  complete t r o = complete_from o.stage t r o

  -- The operations of Boost complete one after the other.
  unfoldable pub run :
      HttpPollingTransport
      → List Completion
      → AsyncRequestOperation
      → AsyncRequestOperation × List Effect
  run t [] o = (o, [])
  run t (r ∷ rs) o = let (o', es) = complete t r o in let (o'', fs) = run t rs o' in (o'', es ++ fs)

unfoldable pub cancel : AsyncRequestOperation → List Effect
cancel o =
    cancels_resolver
    ∷ ((if o.plain_stream then closes_socket false ∷ [] else [])
        ++ (if o.tls_stream then closes_socket true ∷ [] else []))
