-- ===== src/Lib.antt =====
-- A model of the picoshift simulator (simulator/src), which gives a plain Kubernetes cluster the
-- parts of OpenShift that operators expect, and the theorems that make it correct.
--
-- The program is a set of tasks that share the API server: controllers that reconcile objects, a
-- mock OAuth server with its own state, an admission webhook and a reverse proxy. Each task is a
-- module, with its state as a record, its operations as functions, and its laws in child modules.
--
-- Files and code (paths from the repository's root):
--   OAuth/Users      simulator/src/oauth/types.rs: UserEntry, UserStore (load, authenticate, get,
--                    from_htpasswd)
--   OAuth/Der        simulator/src/oauth/types.rs: JwtKeys::parse_rsa_integers and its readers
--   OAuth/State      simulator/src/oauth/types.rs: AuthCode, TokenInfo, JwtKeys, OAuthState; the
--                    eviction task of simulator/src/oauth/mod.rs (evict)
--   OAuth/Http       the responses of simulator/src/oauth/helpers.rs
--   OAuth/Pages      login_form_html, html_escape, discovery_json of simulator/src/oauth/helpers.rs
--   OAuth/Clients    simulator/src/oauth/k8s.rs: validate_client, ensure_user_and_identity
--   OAuth/Authorize  simulator/src/oauth/handlers.rs: issue_auth_code, handle_authorize_get,
--                    handle_authorize_post
--   OAuth/Token      simulator/src/oauth/handlers.rs: handle_token, verify_pkce,
--                    extract_client_id_from_basic
--   OAuth/UserInfo   simulator/src/oauth/handlers.rs: decode_jwt_username, handle_userinfo,
--                    handle_jwks
--   Proxy            simulator/src/proxy.rs: extract_host, extract_backend, build_route_table,
--                    build_gateway_route_table
--   Proxy/Requests   simulator/src/proxy.rs: resolve_endpoint, proxy_request up to the connection,
--                    the request that ws_handshake_and_tunnel sends
--   Route            simulator/src/route.rs
--   ServiceCa        simulator/src/service_ca.rs
--   PodMutate        simulator/src/pod_mutate.rs
--   JobSet           simulator/src/jobset.rs
--   ImageStream      simulator/src/imagestream.rs
--   LoadBalancer     simulator/src/loadbalancer.rs
--   OAuth/Byoidc     simulator/src/oauth/byoidc.rs: validate_token, handle_byoidc_userinfo;
--                    Provider: rewrite_to_internal, refresh and new of ExternalJwksCache;
--                    Endpoints: handle_byoidc_authorize, _token, _jwks and _proxy
--   OAuth/Server     simulator/src/oauth/mod.rs: handle_request and the steps of run;
--                    OAuthState::new; its specification is OAuth/Server/Spec
--   OAuth/Infra      simulator/src/oauth/infra.rs: setup_infrastructure, create_oauth_route,
--                    patch_coredns
--   Gateway          simulator/src/gateway.rs: the rules of HTTPRoutes, generate_rds_yaml,
--                    generate_cds_yaml, extract_tls_ports; Envoy: generate_bootstrap_yaml,
--                    generate_lds_yaml; Workload: the objects of the Envoy; Reconcile: the
--                    reconcilers
--   Project          simulator/src/project.rs
--   OAuth/Watcher    simulator/src/oauth/watcher.rs
--   Proxy/Answer     simulator/src/proxy.rs: proxy_upgrade, proxy_request from the connection on
--   Proxy/Tunnel     simulator/src/proxy.rs: what ws_handshake_and_tunnel makes of the answer
--   PodMutate/Webhook  simulator/src/pod_mutate.rs: setup_webhook_with_ip
--   Util             simulator/src/util.rs: the API resources, get_node_ip
--   Kube, Json, Prelude  what they share: actions over a log of calls, JSON values, texts and maps
--   Tests, and Tests in OAuth, OAuth/Users, OAuth/Server (and LocalTests there), OAuth/Infra,
--                    Proxy, ServiceCa, Gateway and Gateway/Reconcile  runs at concrete inputs
--
-- How the code is modelled. A call of the API server is an entry of a log, and its answer is a
-- function of the calls before it, so a theorem about all answers is one about all servers and all
-- interleavings with others. Early returns are the constructor `reply` of Reply, or an `err` of
-- Result. The lock-protected maps of the OAuth server are association lists in a World that a
-- handler takes and gives back; random texts and clock readings are arguments. Instants are
-- nanoseconds; `elapsed` stops at 0 as in Rust. The u8 counter of LoadBalancer, the u32 counters of
-- JobSet, the u64 of PodMutate and the usize of OAuth/Der wrap around where the code's do.
--
-- Other packages are parameters: serde_json (Json.Interface, with the laws that a built object is
-- read back; Json.Tree shows that they can hold), and the URL, base64, SHA-256 and JWT functions of
-- OAuth.State.Externals, of which no law is assumed. So are the hash of PodMutate, the types of
-- k8s_openapi in JobSet, IP addresses in Proxy/Requests,
-- connections in Proxy/Answer, and the signing of certificates in
-- ServiceCa.
--
-- The loop that loads the external provider's keys counts its five rounds down. Every other loop is
-- structural recursion over the list, the text or the number that it walks. The one
-- use of fuel is Prelude/Decimal.show, which prints n with the fuel n + 1: a step divides by ten.
--
-- The requests of the OAuth server are taken one after the other: a step of OAuth/Server is a whole
-- request, an eviction round or a reload. The handlers take their locks one at a time, and the one
-- decision that two of them could race for, who takes a code, is a single removal under its lock.
--
-- Not modelled: the signing of certificates (rcgen), the generation of the key pair, TLS, sockets,
-- the copying of bytes through a tunnel once it is open, the watch loops of kube and the start of the
-- tasks in simulator/src/main.rs, whose work is in other packages. Logging is left out everywhere.
pub mod Prelude
pub mod Json
pub mod Kube
pub mod OAuth
pub mod LoadBalancer
pub mod ImageStream
pub mod JobSet
pub mod PodMutate
pub mod ServiceCa
pub mod Route
pub mod Proxy
pub mod Tests
pub mod Project
pub mod Gateway
pub mod Util
