-- ===== src/Proxy/Answer/Relayed.antt =====
-- What the client gets, and from whom.
use picoshift.Prelude.{
  ℕ, String, ◌≡◌, refl, ◌⊎◌, inl, inr, Bool, true, false, Option, none, some, List, [], Bool-cases,
  Option-cases, if◌then◌else◌,
}
use picoshift.Prelude.Maps.{Map}
use picoshift.Prelude.Options.{unwrap_or}
use picoshift.Proxy.{RouteBackend}
use picoshift.Proxy.Requests.{
  Net, Api, Request, Outcome, answer, forward, tunnel, request_host, proxy_request,
}
use picoshift.Proxy.Requests.Forwarding.{
  IsEndpoint, IsRefused, IsRouted, IsHeadersOf, uri_for, tunnel_text, proxy_request-IsRouted,
}
use picoshift.Proxy.Answer.{
  Sent, Received, Reply, Links, Served, server_name_of, answer_reply, over_tcp, forward_sent,
  forward_request, proxy_upgrade, run_outcome, serve, tunnel_over_tcp,
}
use picoshift.Proxy.Tunnel.Handshake.{handshake-IsShaken}
use picoshift.Proxy.Answer.Upgraded.{IsUpgraded}

module _ (net : Net) (api : Api) (links : Links net) where
  -- The reply came over a connection to the address, a TLS one under the name of the host.
  abbrev pub IsReply : String → net.Ip → ℕ → Bool → Sent → Reply → Type 0
  IsReply host ip port true sent reply =
      (tcp : links.Tcp) × (tls_stream : links.Tls) × (sender : links.Sender) × (links.connect ip
          port
        ≡ some tcp)
      × (links.tls_connect (server_name_of net api links host ip) tcp ≡ some tls_stream)
      × (links.http_handshake tls_stream ≡ some sender)
      × (links.send_request sender sent ≡ reply)
  IsReply host ip port false sent reply = links.request sent ≡ reply

  module _ (table : Map RouteBackend) (tls_incoming : Bool) (req : Request net api)
      (body : Option (List ℕ)) where
    abbrev host : String
    host = request_host net api req

    -- What an endpoint for the host is sent: the request, with the headers for the way it came.
    pub record IsSent (ip : net.Ip) (port : ℕ) (tls : Bool) (sent : Sent) : Type 0 where
      pub endpoint : IsEndpoint net api table host ip port tls
      pub same_method : sent.method ≡ req.method
      pub same_path : sent.uri ≡ uri_for net api req ip port tls
      pub same_headers : IsHeadersOf net api tls_incoming req sent.headers
      pub same_body : body ≡ some sent.body

    -- An answer that is passed on.
    pub record IsRelayed (status : ℕ) (headers : List (String × Option String)) (content : List ℕ)
        : Type 0 where
      pub ip : net.Ip
      pub port : ℕ
      pub tls : Bool
      pub sent : Sent
      pub is_sent : IsSent ip port tls sent
      pub reply : Received
      pub replied : IsReply host ip port tls sent (Reply.received reply)
      pub passed_on :
          (status ≡ reply.status) × (headers ≡ reply.headers) × (content ≡ unwrap_or reply.body [])

    -- What has failed: the connection, its TLS, the HTTP on it, or the request.
    pub data IsFailed (ip : net.Ip) (port : ℕ) (tls : Bool) : Type 0 where
      no_connection : links.connect ip port ≡ none → IsFailed ip port tls
      no_tls :
          (tcp : links.Tcp)
          → tls ≡ true
          → links.connect ip port ≡ some tcp
          → links.tls_connect (server_name_of net api links host ip) tcp ≡ none
          → IsFailed ip port tls
      no_http :
          (tcp : links.Tcp) (tls_stream : links.Tls)
          → tls ≡ true
          → links.connect ip port ≡ some tcp
          → links.tls_connect (server_name_of net api links host ip) tcp ≡ some tls_stream
          → links.http_handshake tls_stream ≡ none
          → IsFailed ip port tls
      no_reply :
          (sent : Sent) (e : String)
          → IsSent ip port tls sent
          → IsReply host ip port tls sent (Reply.failed e)
          → IsFailed ip port tls

    abbrev pub IsServed : Served → Type 0
    IsServed (Served.answered status text) =
        IsRefused net api table host status
        ⊎ (status ≡ 502)
          × ((ip : net.Ip) × (port : ℕ) × (tls : Bool) × IsEndpoint net api table host ip port tls
              × IsFailed ip port tls)
    IsServed (Served.relayed status headers content) = IsRelayed status headers content
    IsServed (Served.upgraded u) = IsUpgraded net api links table tls_incoming req u
    IsServed Served.dropped = body ≡ none
    IsServed Served.panics =
        (ip : net.Ip) × (port : ℕ) × (tls : Bool) × (sent : Sent) × IsSent ip port tls sent
        × (links.is_request sent ≡ false)

    answer_reply-IsServed :
        (ip : net.Ip) (port : ℕ) (tls : Bool) (sent : Sent) (reply : Reply)
        → IsSent ip port tls sent
        → IsReply host ip port tls sent reply
        → IsServed (answer_reply net api links reply)
    answer_reply-IsServed ip port tls sent (Reply.failed e) is_sent replied =
        inr (refl, (ip, port, tls, is_sent.endpoint, no_reply sent e is_sent replied))
    answer_reply-IsServed ip port tls sent (Reply.received r) is_sent replied = record {
      ip = ip;
      port = port;
      tls = tls;
      sent = sent;
      is_sent = is_sent;
      reply = r;
      replied = replied;
      passed_on = (refl, refl, refl);
    }

    over_tcp-IsServed :
        (ip : net.Ip) (port : ℕ) (sent : Sent)
        → IsSent ip port true sent
        → IsServed (over_tcp net api links host ip sent (links.connect ip port))
    over_tcp-IsServed ip port sent is_sent =
        let at = is_sent.endpoint in
        elim (Option-cases (links.connect ip port)) [
          | inl c ↦ rw c (inr (refl, (ip, port, true, at, no_connection c)))
          | inr (tcp, c) ↦
              elim (Option-cases (links.tls_connect (server_name_of net api links host ip) tcp)) [
                | inl t ↦ rw (c, t) (inr (refl, (ip, port, true, at, no_tls tcp refl c t)))
                | inr (tls_stream, t) ↦ elim (Option-cases (links.http_handshake tls_stream)) [
                  | inl h ↦
                      rw (c, t, h)
                        (inr (refl, (ip, port, true, at, no_http tcp tls_stream refl c t h)))
                  | inr (sender, h) ↦
                      rw (c, t, h)
                        (answer_reply-IsServed ip port true sent (links.send_request sender sent)
                          is_sent (tcp, tls_stream, sender, c, t, h, refl))
                ]
              ]
        ]

    sent_over-IsServed :
        (ip : net.Ip) (port : ℕ) (tls : Bool) (sent : Sent)
        → IsSent ip port tls sent
        → IsServed (
            if tls
            then over_tcp net api links host ip sent (links.connect ip port)
            else answer_reply net api links (links.request sent))
    sent_over-IsServed ip port true sent is_sent = over_tcp-IsServed ip port sent is_sent
    sent_over-IsServed ip port false sent is_sent =
        answer_reply-IsServed ip port false sent (links.request sent) is_sent refl

    forward_sent-IsServed :
        (ip : net.Ip) (port : ℕ) (tls : Bool) (sent : Sent)
        → IsSent ip port tls sent
        → IsServed (forward_sent net api links host ip port tls sent)
    unfolding forward_sent
    forward_sent-IsServed ip port tls sent is_sent = elim (Bool-cases (links.is_request sent)) [
      | inl b ↦ rw (forward_sent, b) (sent_over-IsServed ip port tls sent is_sent)
      | inr b ↦ rw (forward_sent, b) (ip, port, tls, sent, is_sent, b)
    ]

    tunnel_over_tcp-IsServed :
        (ip : net.Ip) (port : ℕ) (tls : Bool) (tcp : links.Tcp)
        → IsRouted net api table tls_incoming req
            (tunnel ip port tls (tunnel_text net api tls_incoming req))
        → links.connect ip port ≡ some tcp
        → IsServed (
            tunnel_over_tcp net api links host ip tls
              (tunnel_text net api tls_incoming req)
              (some tcp))
    tunnel_over_tcp-IsServed ip port false tcp (at, asked, _) c = record {
      asked = asked;
      ip = ip;
      port = port;
      tls = false;
      endpoint = at;
      stream = links.tcp_tunnel tcp (tunnel_text net api tls_incoming req);
      spoken = (tcp, c, refl);
      shaken = handshake-IsShaken _ _ _ _;
    }
    tunnel_over_tcp-IsServed ip port true tcp (at, asked, _) c =
        elim (Option-cases (links.tls_connect (server_name_of net api links host ip) tcp)) [
          | inl t ↦ rw t (inr (refl, (ip, port, true, at, no_tls tcp refl c t)))
          | inr (tls_stream, t) ↦ rw t (record {
            asked = asked;
            ip = ip;
            port = port;
            tls = true;
            endpoint = at;
            stream = links.tls_tunnel tls_stream (tunnel_text net api tls_incoming req);
            spoken = (tcp, tls_stream, c, t, refl);
            shaken = handshake-IsShaken _ _ _ _;
          })
        ]

    proxy_upgrade-IsServed :
        (ip : net.Ip) (port : ℕ) (tls : Bool) (raw_req : String)
        → IsRouted net api table tls_incoming req (tunnel ip port tls raw_req)
        → IsServed (proxy_upgrade net api links host ip port tls raw_req)
    unfolding proxy_upgrade
    proxy_upgrade-IsServed ip port tls raw_req (at, asked, text) =
        elim (Option-cases (links.connect ip port)) [
          | inl c ↦ rw (proxy_upgrade, c) (inr (refl, (ip, port, tls, at, no_connection c)))
          | inr (tcp, c) ↦
              rw (proxy_upgrade, c, text)
                (tunnel_over_tcp-IsServed ip port tls tcp (at, asked, refl) c)
        ]

    forward_request-IsServed :
        (ip : net.Ip) (port : ℕ) (tls : Bool) (uri : String)
        (headers : List (String × Option String)) (read : Option (List ℕ))
        → body ≡ read
        → IsRouted net api table tls_incoming req (forward ip port tls uri headers)
        → IsServed (forward_request net api links host req.method read ip port tls uri headers)
    unfolding forward_request
    forward_request-IsServed ip port tls uri headers none b routed = b
    forward_request-IsServed ip port tls uri headers (some content) b (at, _, path, sent_headers) =
        forward_sent-IsServed ip port tls
          (record { method = req.method; uri = uri; headers = headers; body = content })
          (record {
            endpoint = at;
            same_method = refl;
            same_path = path;
            same_headers = sent_headers;
            same_body = b;
          })

    run_outcome-IsServed :
        (out : Outcome net api)
        → IsRouted net api table tls_incoming req out
        → IsServed (run_outcome net api links host req.method body out)
    run_outcome-IsServed (answer status text) routed = inl routed
    run_outcome-IsServed (forward ip port tls uri headers) routed =
        forward_request-IsServed ip port tls uri headers body refl routed
    run_outcome-IsServed (tunnel ip port tls raw_req) routed =
        proxy_upgrade-IsServed ip port tls raw_req routed

  -- What the client of the proxy gets, whatever the connections do. An answer that is passed on has
  -- the status, the headers and the body of one to a request for the address of an endpoint for the
  -- host: that request has the method, the path, the body and the headers of the client's, but for
  -- the one `host` header and those that say how the client came; a TLS upstream is spoken to under
  -- its name. An upgrade is asked for by the client, and its result is what the bytes say that an
  -- endpoint sends for the text of the request. An answer of the proxy itself is the refusal of a
  -- host without a backend or of a backend without an endpoint, or a 502 where there is an endpoint
  -- and the connection, its TLS, the HTTP on it or the request fails. The connection is dropped only
  -- where the body of the request cannot be read, and the forwarding panics only over a request for an
  -- endpoint that cannot be built.
  pub serve-IsServed :
      (table : Map RouteBackend) (tls_incoming : Bool) (req : Request net api)
      (body : Option (List ℕ))
      → IsServed table tls_incoming req body (serve net api links table tls_incoming req body)
  unfolding serve
  serve-IsServed table tls_incoming req body =
      run_outcome-IsServed table tls_incoming req body
        (proxy_request net api table tls_incoming req)
        (proxy_request-IsRouted net api table tls_incoming req)
