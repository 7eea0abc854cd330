-- ===== src/Json/Tree.antt =====
-- An implementation of the interface by trees, which shows that its laws can hold.
use picoshift.Prelude.{
  ℕ, String, ◌≡◌, refl, ap, Bool, Option, none, some, List, [], ◌∷◌, ◌==◌, arith, if◌then◌else◌,
}
use picoshift.Prelude.Maps.{Map, lookup}
use picoshift.Json.Interface.{Serde}

mutual
  pub data Tree : Type 0 where
    text : String → Tree
    flag : Bool → Tree
    number : ℕ → Tree
    array : Items → Tree
    object : Fields → Tree

  pub data Items : Type 0 where
    nil : Items
    cons : Tree → Items → Items

  pub data Fields : Type 0 where
    end : Fields
    field : String → Tree → Fields → Fields

abbrev pub to_items : List Tree → Items
to_items [] = nil
to_items (t ∷ ts) = cons t (to_items ts)

abbrev pub of_items : Items → List Tree
of_items nil = []
of_items (cons t ts) = t ∷ of_items ts

abbrev pub to_fields : Map Tree → Fields
to_fields [] = end
to_fields ((k, t) ∷ m) = field k t (to_fields m)

abbrev pub get_field : String → Fields → Option Tree
get_field k end = none
get_field k (field j t m) = if j == k then some t else get_field k m

abbrev pub tree_get : Tree → String → Option Tree
tree_get (object m) k = get_field k m
tree_get _ k = none

abbrev pub tree_str : Tree → Option String
tree_str (text s) = some s
tree_str _ = none

abbrev pub tree_bool : Tree → Option Bool
tree_bool (flag b) = some b
tree_bool _ = none

abbrev pub tree_u64 : Tree → Option ℕ
tree_u64 (number n) = some n
tree_u64 _ = none

abbrev pub tree_array : Tree → Option (List Tree)
tree_array (array ts) = some (of_items ts)
tree_array _ = none

-- The text is never looked into, so any function serves.
abbrev pub tree_to_string : Tree → String
tree_to_string (text s) = s
tree_to_string _ = "{…}"

pub get_field-to_fields : (m : Map Tree) (k : String) → get_field k (to_fields m) ≡ lookup k m
unfolding lookup
get_field-to_fields [] k = refl
get_field-to_fields ((j, t) ∷ m) k = ground (arith, get_field-to_fields m k)

pub of_items-to_items : (ts : List Tree) → of_items (to_items ts) ≡ ts
of_items-to_items [] = refl
of_items-to_items (t ∷ ts) = ap (λ r. t ∷ r) (of_items-to_items ts)

abbrev pub tree_serde : Serde
tree_serde = record {
  Value = Tree;
  get = tree_get;
  as_str = tree_str;
  as_bool = tree_bool;
  as_u64 = tree_u64;
  as_array = tree_array;
  str = text;
  bool = flag;
  num = number;
  arr = λ ts. array (to_items ts);
  obj = λ m. object (to_fields m);
  to_string = tree_to_string;
  get-obj = get_field-to_fields;
  as_str-str = λ s. refl;
  as_bool-bool = λ b. refl;
  as_u64-num = λ n h. refl;
  as_array-arr = λ ts. ap some (of_items-to_items ts);
}
