-- ===== src/Proxy/Tests.antt =====
-- Runs of the reverse proxy's model at concrete inputs.
use picoshift.Prelude.{String, ◌≡◌, refl, true, false, none, some, [], ◌∷◌}
use picoshift.Prelude.Maps.{lookup}
use picoshift.Prelude.Text.Split.{split}
use picoshift.Prelude.Options.{or_else}
use picoshift.Json.Tree.{text, object, end, field, tree_serde}
use picoshift.Kube.{DynamicObject, ok}
use picoshift.Proxy.{number, RouteBackend, Service, build_route_table}
use picoshift.Proxy.Table.{latest, build_route_table-latest}
use picoshift.Proxy.Requests.{
  Net, Api, Request, proxy_request, target, table_target, backend_target, resolve_endpoint,
  cluster_address, cluster_port, request_host, send_upstream,
}
use picoshift.Proxy.Answer.{Sent, Reply, Links, Served, serve, forward_request, forward_sent}
use picoshift.Proxy.Answer.Relayed.{IsServed, serve-IsServed}

abbrev net : Net
net = record {
  Ip = String;
  parse_ip = λ s. some s;
  localhost = "127.0.0.1";
  show_addr = λ ip port. ip;
}

abbrev service : Service
service = record {
  name_any = "s";
  namespace = some "ns";
  cluster_ip = some "10.0.0.7";
  ports = none;
}

abbrev api : Api
api = record { service = λ ns name. ok service; endpoints = λ ns name. ok none }

abbrev backend : RouteBackend
backend = record {
  service_name = "s";
  service_namespace = "ns";
  target_port = number 8080;
  tls = false;
}

abbrev request : Request net api
request = record {
  method = "GET";
  path_and_query = some "/x";
  headers = ("host", some "a.test:80") ∷ [];
}

abbrev echo : Sent → Reply
echo sent = Reply.received (record { status = 200; headers = []; body = some sent.body })

-- Streams are known by their addresses, and the upstream answers with the body that it is sent.
abbrev links : Links net
links = record {
  Tcp = String;
  Tls = String;
  Sender = String;
  ServerName = String;
  connect = λ ip port. some ip;
  server_name = λ host. some host;
  of_ip = λ ip. ip;
  tls_connect = λ host tcp. some tcp;
  http_handshake = λ tls_stream. some tls_stream;
  send_request = λ sender sent. echo sent;
  request = echo;
  tcp_tunnel = λ tcp raw_req. (true, []);
  tls_tunnel = λ tls_stream raw_req. (true, []);
  is_request = λ sent. true;
  from_utf8_lossy = λ bs. "";
  is_header = λ h. true;
}

echoes :
    serve net api links (("a.test", backend) ∷ []) true request (some (104 ∷ 105 ∷ []))
    ≡ Served.relayed 200 [] (104 ∷ 105 ∷ [])
unfolding serve proxy_request target table_target backend_target resolve_endpoint cluster_address
    cluster_port request_host send_upstream forward_request forward_sent lookup split
echoes = refl

serve-IsServed_example :
    IsServed net api links
      (("a.test", backend) ∷ [])
      true
      request
      (some (104 ∷ 105 ∷ []))
      (serve net api links (("a.test", backend) ∷ []) true request (some (104 ∷ 105 ∷ [])))
serve-IsServed_example =
    serve-IsServed net api links (("a.test", backend) ∷ []) true request (some (104 ∷ 105 ∷ []))

abbrev route : DynamicObject tree_serde
route = record {
  name_any = "r";
  namespace = some "ns";
  uid = none;
  generation = none;
  labels = none;
  value = object (
      field "spec"
        (object
          (field "host" (text "a.test") (field "to" (object (field "name" (text "s") end)) end)))
        end);
}

build_route_table-latest_example :
    lookup "a.test" (build_route_table tree_serde [] (some route ∷ none ∷ []))
    ≡ or_else (latest tree_serde "a.test" (some route ∷ none ∷ [])) (lookup "a.test" [])
build_route_table-latest_example =
    build_route_table-latest tree_serde "a.test" [] (some route ∷ none ∷ [])
