-- ===== src/Gateway/Envoy.antt =====
-- The fixed parts of the gateway's Envoy, simulator/src/gateway.rs: its bootstrap and listener
-- configuration, its Deployment and its Service. Constants stand in the texts.
use picoshift.Prelude.{ℕ, zero, suc, String, List, [], ◌∷◌, map, if◌then◌else◌}
use text.Mathlib.Text.{starts_with}
use picoshift.Prelude.Text.{is_empty}
use picoshift.Prelude.Text.Lines.{lines}
use picoshift.Prelude.Text.Replace.{format}

unfoldable pub generate_bootstrap_yaml : String
generate_bootstrap_yaml = format (
    "node:\n" ∷ "  cluster: ocp-sim-gateway\n" ∷ "  id: ocp-sim-gateway-node\n" ∷ "\n"
    ∷ "dynamic_resources:\n" ∷ "  lds_config:\n" ∷ "    path_config_source:\n"
    ∷ "      path: /etc/envoy/xds/lds.yaml\n" ∷ "      watched_directory:\n"
    ∷ "        path: /etc/envoy/xds\n" ∷ "  cds_config:\n" ∷ "    path_config_source:\n"
    ∷ "      path: /etc/envoy/xds/cds.yaml\n" ∷ "      watched_directory:\n"
    ∷ "        path: /etc/envoy/xds\n" ∷ "\n" ∷ "admin:\n" ∷ "  address:\n"
    ∷ "    socket_address:\n" ∷ "      address: 127.0.0.1\n" ∷ "      port_value: 15000\n" ∷ [])

abbrev lua_filter_script : String
lua_filter_script = format (
    "function envoy_on_request(request_handle)\n"
    ∷ "  local access_token = request_handle:headers():get(\"x-auth-request-access-token\")\n"
    ∷ "  local auth_user = request_handle:headers():get(\"x-auth-request-user\")\n" ∷ "\n"
    ∷ "  if access_token then\n"
    ∷ "    request_handle:headers():add(\"x-forwarded-access-token\", access_token)\n"
    ∷ "    request_handle:headers():replace(\"authorization\", \"Bearer \" .. access_token)\n"
    ∷ "  elseif auth_user then\n"
    ∷ "    local auth_header = request_handle:headers():get(\"authorization\")\n"
    ∷ "    if auth_header then\n" ∷ "      local token = auth_header:match(\"^Bearer%s+(.+)\")\n"
    ∷ "      if token then\n"
    ∷ "        request_handle:headers():add(\"x-forwarded-access-token\", token)\n" ∷ "      end\n"
    ∷ "    end\n" ∷ "  end\n" ∷ "\n" ∷ "  if access_token or auth_user then\n"
    ∷ "    local cookie_header = request_handle:headers():get(\"cookie\")\n"
    ∷ "    if cookie_header then\n" ∷ "      local filtered_cookies = {}\n"
    ∷ "      local cookie_pattern = \"^{{cookie_name}}\"\n"
    ∷ "      for cookie in cookie_header:gmatch(\"([^;]+)\") do\n"
    ∷ "        local trimmed = cookie:match(\"^%s*(.-)%s*$\")\n"
    ∷ "        if trimmed and trimmed ~= \"\" then\n"
    ∷ "          local cookie_name = trimmed:match(\"^([^=]+)\")\n"
    ∷ "          if cookie_name and not cookie_name:match(cookie_pattern) then\n"
    ∷ "            table.insert(filtered_cookies, trimmed)\n" ∷ "          end\n" ∷ "        end\n"
    ∷ "      end\n" ∷ "      if #filtered_cookies > 0 then\n"
    ∷ "        request_handle:headers():replace(\"cookie\", table.concat(filtered_cookies, \"; \"))\n"
    ∷ "      else\n" ∷ "        request_handle:headers():remove(\"cookie\")\n" ∷ "      end\n"
    ∷ "    end\n" ∷ "  end\n" ∷ "end\n" ∷ [])

abbrev spaces : ℕ → String
spaces zero = ""
spaces (suc n) = format (" " ∷ spaces n ∷ [])

-- `join("\n")`
abbrev join_lines : List String → String
join_lines [] = ""
join_lines (l ∷ []) = l
join_lines (l ∷ m ∷ ls) = format (l ∷ "\n" ∷ join_lines (m ∷ ls) ∷ [])

unfoldable pub indent_lines : String → ℕ → String
indent_lines s n =
    join_lines (map (λ line. if is_empty line then "" else format (spaces n ∷ line ∷ [])) (lines s))

abbrev text_len : String → ℕ
text_len String.[] = 0
text_len (String.◌∷◌ c s) = suc (text_len s)

abbrev tail_len : String → ℕ
tail_len String.[] = 0
tail_len (String.◌∷◌ c s) = text_len s

-- `str::replace` of a text that is not empty, with the characters of a match that are left to skip.
unfoldable pub replace_from : ℕ → String → String → String → String
replace_from n pattern by String.[] = ""
replace_from (suc n) pattern by (String.◌∷◌ c s) = replace_from n pattern by s
replace_from zero pattern by (String.◌∷◌ c s) =
    let skipped = replace_from (tail_len pattern) pattern by s in
    let kept = replace_from zero pattern by s in
    if starts_with (String.◌∷◌ c s) pattern then format (by ∷ skipped ∷ []) else String.◌∷◌ c kept

abbrev listener_head : String
listener_head = format (
    "resources:\n" ∷ "- \"@type\": type.googleapis.com/envoy.config.listener.v3.Listener\n"
    ∷ "  name: gateway-https\n" ∷ "  address:\n" ∷ "    socket_address:\n"
    ∷ "      address: 0.0.0.0\n" ∷ "      port_value: 8443\n" ∷ "  filter_chains:\n"
    ∷ "  - transport_socket:\n" ∷ "      name: envoy.transport_sockets.tls\n"
    ∷ "      typed_config:\n"
    ∷ "        \"@type\": type.googleapis.com/envoy.extensions.transport_sockets.tls.v3.DownstreamTlsContext\n"
    ∷ "        common_tls_context:\n" ∷ "          tls_certificates:\n"
    ∷ "          - certificate_chain:\n" ∷ "              filename: /etc/envoy/tls/tls.crt\n"
    ∷ "            private_key:\n" ∷ "              filename: /etc/envoy/tls/tls.key\n"
    ∷ "    filters:\n" ∷ "    - name: envoy.filters.network.http_connection_manager\n"
    ∷ "      typed_config:\n"
    ∷ "        \"@type\": type.googleapis.com/envoy.extensions.filters.network.http_connection_manager.v3.HttpConnectionManager\n"
    ∷ "        stat_prefix: gateway\n" ∷ "        rds:\n"
    ∷ "          route_config_name: gateway-routes\n" ∷ "          config_source:\n"
    ∷ "            path_config_source:\n" ∷ "              path: /etc/envoy/xds/rds.yaml\n"
    ∷ "              watched_directory:\n" ∷ "                path: /etc/envoy/xds\n"
    ∷ "        http_filters:\n" ∷ "        - name: envoy.filters.http.ext_authz\n"
    ∷ "          typed_config:\n"
    ∷ "            \"@type\": type.googleapis.com/envoy.extensions.filters.http.ext_authz.v3.ExtAuthz\n"
    ∷ "            transport_api_version: V3\n" ∷ "            http_service:\n"
    ∷ "              server_uri:\n"
    ∷ "                uri: https://kube-auth-proxy.openshift-ingress.svc.cluster.local:8443/oauth2/auth\n"
    ∷ "                cluster: kube-auth-proxy\n" ∷ "                timeout: 5s\n"
    ∷ "              authorization_request:\n" ∷ "                allowed_headers:\n"
    ∷ "                  patterns:\n" ∷ "                  - exact: cookie\n"
    ∷ "                  - exact: authorization\n" ∷ "              authorization_response:\n"
    ∷ "                allowed_upstream_headers:\n" ∷ "                  patterns:\n"
    ∷ "                  - exact: x-auth-request-user\n"
    ∷ "                  - exact: x-auth-request-email\n"
    ∷ "                  - exact: x-auth-request-access-token\n"
    ∷ "                  - exact: authorization\n" ∷ "                allowed_client_headers:\n"
    ∷ "                  patterns:\n" ∷ "                  - exact: set-cookie\n"
    ∷ "        - name: envoy.filters.http.lua\n" ∷ "          typed_config:\n"
    ∷ "            \"@type\": type.googleapis.com/envoy.extensions.filters.http.lua.v3.Lua\n"
    ∷ "            inline_code: |\n" ∷ [])

abbrev listener_tail : String
listener_tail = format (
    "        - name: envoy.filters.http.router\n" ∷ "          typed_config:\n"
    ∷ "            \"@type\": type.googleapis.com/envoy.extensions.filters.http.router.v3.Router\n"
    ∷ "        upgrade_configs:\n" ∷ "        - upgrade_type: websocket\n" ∷ [])

-- The host name of the listener is not used.
unfoldable pub generate_lds_yaml : String → String
generate_lds_yaml hostname =
    let lua_script = replace_from 0 "{{cookie_name}}" "_oauth2_proxy" lua_filter_script in
    format (listener_head ∷ indent_lines lua_script 14 ∷ "\n" ∷ listener_tail ∷ [])
