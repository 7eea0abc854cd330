-- ===== src/Proxy/Answer/Upgraded.antt =====
-- What an upgrade says of the upstream.
use picoshift.Prelude.{ℕ, String, ◌≡◌, Bool, true, false, some, List}
use picoshift.Prelude.Maps.{Map, lookup}
use picoshift.Prelude.Options.{is_some}
use picoshift.Proxy.{RouteBackend}
use picoshift.Proxy.Requests.{Net, Api, Request, request_host}
use picoshift.Proxy.Requests.Forwarding.{IsEndpoint, tunnel_text}
use picoshift.Proxy.Tunnel.{Chunk, Upgrade}
use picoshift.Proxy.Tunnel.Handshake.{IsShaken}
use picoshift.Proxy.Answer.{Links, server_name_of}

module _ (net : Net) (api : Api) (links : Links net) where
  -- What comes over a connection to the address for a text, a TLS one under the name of the host.
  abbrev pub IsStream : String → net.Ip → ℕ → Bool → String → Bool × List Chunk → Type 0
  IsStream host ip port true text stream =
      (tcp : links.Tcp) × (tls_stream : links.Tls) × (links.connect ip port ≡ some tcp)
      × (links.tls_connect (server_name_of net api links host ip) tcp ≡ some tls_stream)
      × (links.tls_tunnel tls_stream text ≡ stream)
  IsStream host ip port false text stream =
      (tcp : links.Tcp) × (links.connect ip port ≡ some tcp) × (links.tcp_tunnel tcp text ≡ stream)

  -- The request asks for an upgrade, and the result is what an endpoint of its host sends for it.
  pub record IsUpgraded (table : Map RouteBackend) (tls_incoming : Bool) (req : Request net api)
      (u : Upgrade) : Type 0 where
    pub asked : is_some (lookup "upgrade" req.headers) ≡ true
    pub ip : net.Ip
    pub port : ℕ
    pub tls : Bool
    pub endpoint : IsEndpoint net api table (request_host net api req) ip port tls
    pub stream : Bool × List Chunk
    pub spoken :
        IsStream
          (request_host net api req)
          ip
          port
          tls
          (tunnel_text net api tls_incoming req)
          stream
    pub shaken : IsShaken links.from_utf8_lossy links.is_header stream.0 stream.1 u
