-- ===== src/OAuth/Infra/Tests.antt =====
-- Runs of the set-up at concrete inputs.
use picoshift.Prelude.{String, ◌≡◌, refl, none, some, List, [], ◌∷◌}
use picoshift.Prelude.Maps.{Map, lookup}
use picoshift.Prelude.Text.Split.{split}
use picoshift.Prelude.Text.Replace.{format}
use picoshift.Json.Tree.{tree_serde}
use picoshift.Kube.{ok, err, KubeError}
use picoshift.Util.{Node, get_node_ip, internal_ip}
use picoshift.OAuth.State.{oidc, byoidc}
use picoshift.OAuth.Server.{is_byoidc}
use picoshift.OAuth.Infra.{
  get_coredns, Api, hosts_block, patch_coredns, extend_corefile, publish_mode, publish,
  create_oauth_route, setup_on, setup_infrastructure,
}
use picoshift.OAuth.Infra.Dns.{patch_coredns-settled}
use picoshift.OAuth.Infra.Published.{IsPublished, setup_infrastructure-IsPublished}

abbrev nodes : List Node
nodes =
    record { addresses = none }
    ∷ record {
      addresses = some (
          record { type_ = "Hostname"; address = "n1" }
          ∷ record { type_ = "InternalIP"; address = "10.0.0.1" }
          ∷ []);
    }
    ∷ []

abbrev corefile : Map String
corefile = ("Corefile", format (".:53" ∷ hosts_block "10.0.0.1" oidc ∷ [])) ∷ []

-- The namespace is there already, and the Corefile is extended.
abbrev api : Api tree_serde
api = record {
  answer = λ log c. err (KubeError.api 409);
  nodes = λ log. ok nodes;
  coredns = λ log. ok (some corefile);
  dns_pods = λ log. ok [];
}

written : lookup "Corefile" corefile ≡ some (format (".:53" ∷ hosts_block "10.0.0.1" oidc ∷ []))
unfolding lookup
written = refl

-- A later start in the external mode at another address leaves the old entry.
patch_coredns-settled_example : patch_coredns api "10.0.0.2" byoidc [] ≡ (ok tt, get_coredns ∷ [])
patch_coredns-settled_example =
    patch_coredns-settled api ".:53" "10.0.0.1" "10.0.0.2" oidc byoidc corefile [] refl written

runs : (setup_infrastructure api byoidc []).0 ≡ ok tt
unfolding setup_infrastructure get_node_ip internal_ip setup_on publish_mode publish
    create_oauth_route split is_byoidc patch_coredns extend_corefile lookup hosts_block
runs = refl

setup_infrastructure-IsPublished_example :
    IsPublished api byoidc [] (setup_infrastructure api byoidc []).1
setup_infrastructure-IsPublished_example = setup_infrastructure-IsPublished api byoidc [] tt runs
