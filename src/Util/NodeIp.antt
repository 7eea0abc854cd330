-- ===== src/Util/NodeIp.antt =====
-- Which address `get_node_ip` finds.
use picoshift.Prelude.{
  String, Bool, ◌≡◌, refl, ◌==◌, Option, none, some, List, [], ◌∷◌, ◌++◌, arith, find,
}
use picoshift.Prelude.Options.{unwrap_or, or_else}
use picoshift.Util.{NodeAddress, Node, internal_ip, get_node_ip}

-- The addresses of all nodes, in the order of the list.
abbrev pub all_addresses : List Node → List NodeAddress
all_addresses [] = []
all_addresses (node ∷ nodes) = unwrap_or node.addresses [] ++ all_addresses nodes

abbrev pub address_of : Option NodeAddress → Option String
address_of none = none
address_of (some a) = some a.address

abbrev pub is_internal : NodeAddress → Bool
is_internal a = a.type_ == "InternalIP"

internal_ip-append :
    (as_ bs : List NodeAddress)
    → address_of (find is_internal (as_ ++ bs))
      ≡ or_else (internal_ip as_) (address_of (find is_internal bs))
unfolding internal_ip
internal_ip-append [] bs = refl
internal_ip-append (a ∷ as_) bs = ground (arith, internal_ip-append as_ bs)

-- The node IP is the first address of type `InternalIP` among those of all nodes, wherever it
-- stands, and there is none just where no node has one.
get_node_ip-first :
    (nodes : List Node) → get_node_ip nodes ≡ address_of (find is_internal (all_addresses nodes))
unfolding get_node_ip
get_node_ip-first [] = refl
get_node_ip-first (node ∷ nodes) = rw (
  internal_ip-append (unwrap_or node.addresses []) (all_addresses nodes),
  get_node_ip,
  get_node_ip-first nodes,
)
