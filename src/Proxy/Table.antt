-- ===== src/Proxy/Table.antt =====
-- What the route table holds after the events of a watch.
use picoshift.Prelude.{
  String, ◌≡◌, refl, ap, ◌∙◌, Bool, true, false, Option, none, some, List, [], ◌∷◌, ◌==◌,
  if◌then◌else◌,
}
use picoshift.Prelude.Maps.{Map, lookup, lookup-insert}
use picoshift.Prelude.Options.{or_else}
use picoshift.Json.Interface.{Serde}
use picoshift.Kube.{DynamicObject}
use picoshift.Proxy.{RouteBackend, route_entry, insert_entry, build_route_table}

module _ (J : Serde) where
  abbrev own : String → Option (String × RouteBackend) → Option RouteBackend
  own host none = none
  own host (some (h, backend)) = if h == host then some backend else none

  or_else_assoc : (a b c : Option RouteBackend) → or_else a (or_else b c) ≡ or_else (or_else a b) c
  or_else_assoc none b c = refl
  or_else_assoc (some a) b c = refl

  or_else-if :
      (b : Bool) (v : RouteBackend) (o : Option RouteBackend)
      → (if b then some v else o) ≡ or_else (if b then some v else none) o
  or_else-if true v o = refl
  or_else-if false v o = refl

  entry-lookup :
      (host : String) (entry : Option (String × RouteBackend)) (table : Map RouteBackend)
      → lookup host (insert_entry J entry table) ≡ or_else (own host entry) (lookup host table)
  entry-lookup host none table = refl
  entry-lookup host (some (h, backend)) table =
      lookup-insert h host backend table ∙ or_else-if (h == host) backend (lookup host table)

  -- The backend of the last event that names the host, whatever came after it.
  unfoldable pub latest : String → List (Option (DynamicObject J)) → Option RouteBackend
  latest host [] = none
  latest host (none ∷ events) = latest host events
  latest host (some route ∷ events) = or_else (latest host events) (own host (route_entry J route))

  -- After the events of a watch the table has for a host the backend of the last event that names
  -- it, and otherwise what it had: an entry stays when its route takes another host.
  pub build_route_table-latest :
      (host : String) (table : Map RouteBackend) (events : List (Option (DynamicObject J)))
      → lookup host (build_route_table J table events)
        ≡ or_else (latest host events) (lookup host table)
  unfolding build_route_table latest
  build_route_table-latest host table [] = refl
  build_route_table-latest host table (none ∷ events) = build_route_table-latest host table events
  build_route_table-latest host table (some route ∷ events) =
      build_route_table-latest host (insert_entry J (route_entry J route) table) events
      ∙ ap (or_else (latest host events)) (entry-lookup host (route_entry J route) table)
      ∙ or_else_assoc (latest host events) (own host (route_entry J route)) (lookup host table)
