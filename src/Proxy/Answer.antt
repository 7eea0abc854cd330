-- ===== src/Proxy/Answer.antt =====
-- What becomes of a request at the upstream, simulator/src/proxy.rs: `proxy_upgrade`, and the part of
-- `proxy_request` from the connection on. Sockets, TLS and the HTTP client are parameters.
pub mod Upgraded
pub mod Relayed
use picoshift.Prelude.{
  ℕ, String, Bool, true, false, Option, none, some, List, [], ◌∷◌, if◌then◌else◌,
}
use picoshift.Prelude.Maps.{Map}
use picoshift.Prelude.Options.{unwrap_or}
use picoshift.Prelude.Text.Replace.{format}
use picoshift.Proxy.{RouteBackend}
use picoshift.Proxy.Requests.{
  Net, Api, Request, Outcome, answer, forward, tunnel, request_host, proxy_request,
}
use picoshift.Proxy.Tunnel.{Chunk, Upgrade, handshake}

-- The request that is built, with its body.
pub record Sent : Type 0 where
  pub method : String
  pub uri : String
  pub headers : List (String × Option String)
  pub body : List ℕ

-- An answer of the upstream; the body is `none` where the reading of it fails.
pub record Received : Type 0 where
  pub status : ℕ
  pub headers : List (String × Option String)
  pub body : Option (List ℕ)

pub data Reply : Type 0 where
  received : Received → Reply
  failed : String → Reply

-- Connections, `none` where one fails, and what comes over them: the answer to a request, or for a
-- tunnel whether the text could be written and what is read then.
pub record Links (net : Net) : Type 1 where
  pub Tcp : Type 0
  pub Tls : Type 0
  pub Sender : Type 0
  pub ServerName : Type 0
  pub connect : net.Ip → ℕ → Option Tcp
  pub server_name : String → Option ServerName
  pub of_ip : net.Ip → ServerName
  pub tls_connect : ServerName → Tcp → Option Tls
  pub http_handshake : Tls → Option Sender
  pub send_request : Sender → Sent → Reply
  -- The client that opens its own connection.
  pub request : Sent → Reply
  pub tcp_tunnel : Tcp → String → Bool × List Chunk
  pub tls_tunnel : Tls → String → Bool × List Chunk
  -- Whether the request builder takes it.
  pub is_request : Sent → Bool
  pub from_utf8_lossy : List ℕ → String
  pub is_header : String × String → Bool

-- An answer of the proxy itself, of the upstream, or to an upgrade; `dropped` is the error that
-- ends the connection, and `panics` the `unwrap` on a request that cannot be built.
pub data Served : Type 0 where
  answered : ℕ → String → Served
  relayed : ℕ → List (String × Option String) → List ℕ → Served
  upgraded : Upgrade → Served
  dropped : Served
  panics : Served

module _ (net : Net) (api : Api) (links : Links net) where
  abbrev pub server_name_of : String → net.Ip → links.ServerName
  server_name_of host ip = unwrap_or (links.server_name host) (links.of_ip ip)

  -- `match result`
  abbrev pub answer_reply : Reply → Served
  answer_reply (Reply.received r) = Served.relayed r.status r.headers (unwrap_or r.body [])
  answer_reply (Reply.failed e) = Served.answered 502 (format ("proxy error: " ∷ e ∷ "\n" ∷ []))

  abbrev pub over_http : Sent → Option links.Sender → Served
  over_http sent none = Served.answered 502 "proxy error: handshake failed\n"
  over_http sent (some sender) = answer_reply (links.send_request sender sent)

  abbrev pub over_tls : Sent → Option links.Tls → Served
  over_tls sent none = Served.answered 502 "proxy error: TLS failed\n"
  over_tls sent (some tls_stream) = over_http sent (links.http_handshake tls_stream)

  abbrev pub over_tcp : String → net.Ip → Sent → Option links.Tcp → Served
  over_tcp host ip sent none = Served.answered 502 "proxy error: connect failed\n"
  over_tcp host ip sent (some tcp) = over_tls sent (links.tls_connect (server_name_of host ip) tcp)

  unfoldable pub forward_sent : String → net.Ip → ℕ → Bool → Sent → Served
  forward_sent host ip port tls sent =
      if links.is_request sent
      then (if tls
          then over_tcp host ip sent (links.connect ip port)
          else answer_reply (links.request sent))
      else Served.panics

  -- The body is read before anything is sent.
  unfoldable pub forward_request :
      String
      → String
      → Option (List ℕ)
      → net.Ip
      → ℕ
      → Bool
      → String
      → List (String × Option String)
      → Served
  forward_request host method none ip port tls uri headers = Served.dropped
  forward_request host method (some body) ip port tls uri headers =
      forward_sent host ip port tls
        (record { method = method; uri = uri; headers = headers; body = body })

  abbrev pub shake_hands : Bool × List Chunk → Served
  shake_hands (written, chunks) =
      Served.upgraded (handshake links.from_utf8_lossy links.is_header written chunks)

  abbrev pub tunnel_over_tls : String → Option links.Tls → Served
  tunnel_over_tls raw_req none = Served.answered 502 "upstream TLS error\n"
  tunnel_over_tls raw_req (some tls_stream) = shake_hands (links.tls_tunnel tls_stream raw_req)

  abbrev pub tunnel_over_tcp : String → net.Ip → Bool → String → Option links.Tcp → Served
  tunnel_over_tcp host ip tls raw_req none = Served.answered 502 "upstream connect failed\n"
  tunnel_over_tcp host ip true raw_req (some tcp) =
      tunnel_over_tls raw_req (links.tls_connect (server_name_of host ip) tcp)
  tunnel_over_tcp host ip false raw_req (some tcp) = shake_hands (links.tcp_tunnel tcp raw_req)

  unfoldable pub proxy_upgrade : String → net.Ip → ℕ → Bool → String → Served
  proxy_upgrade host ip port tls raw_req =
      tunnel_over_tcp host ip tls raw_req (links.connect ip port)

  abbrev pub run_outcome : String → String → Option (List ℕ) → Outcome net api → Served
  run_outcome host method body (answer status text) = Served.answered status text
  run_outcome host method body (forward ip port tls uri headers) =
      forward_request host method body ip port tls uri headers
  run_outcome host method body (tunnel ip port tls raw_req) = proxy_upgrade host ip port tls raw_req

  -- The whole of `proxy_request`; the body is `none` where the reading of it fails.
  unfoldable pub serve : Map RouteBackend → Bool → Request net api → Option (List ℕ) → Served
  serve table tls_incoming req body =
      run_outcome (request_host net api req) req.method body
        (proxy_request net api table tls_incoming req)
