-- ===== src/StrictJson/Measure.antt =====
-- The size and nesting of a document by recursion, which the walk is compared with.
use platform_gitops.Prelude.{
  ℕ, suc, ◌+◌, max, List, [], ◌∷◌, length, nat_eq, if◌then◌else◌, ◌≡◌, arith,
}
use platform_gitops.StrictJson.Document.{
  Value, scalar, float, constant, array, object, Items, no_items, item, Fields, no_members, member,
  size, values,
}
use platform_gitops.StrictJson.Validate.{weight, weight_items, weight_fields}

-- Values and keys.
unfoldable mutual
  pub nodes : Value → ℕ
  nodes (scalar s) = 1
  nodes (float finite) = 1
  nodes (constant s) = 1
  nodes (array xs) = suc (nodes_items xs)
  nodes (object fs) = suc (nodes_fields fs)

  pub nodes_items : Items → ℕ
  nodes_items no_items = 0
  nodes_items (item v vs) = nodes v + nodes_items vs

  pub nodes_fields : Fields → ℕ
  nodes_fields no_members = 0
  nodes_fields (member k v fs) = suc (nodes v + nodes_fields fs)

-- Arrays and objects one inside the other.
unfoldable mutual
  pub nesting : Value → ℕ
  nesting (scalar s) = 0
  nesting (float finite) = 0
  nesting (constant s) = 0
  nesting (array xs) = suc (nesting_items xs)
  nesting (object fs) = suc (nesting_fields fs)

  pub nesting_items : Items → ℕ
  nesting_items no_items = 0
  nesting_items (item v vs) = max (nesting v) (nesting_items vs)

  pub nesting_fields : Fields → ℕ
  nesting_fields no_members = 0
  nesting_fields (member k v fs) = max (nesting v) (nesting_fields fs)

pub nodes_fields_lem : (fs : Fields) → nodes_fields fs ≡ size fs + nodes_items (values fs)
unfolding nodes size values
nodes_fields_lem no_members = omega arith
nodes_fields_lem (member k v fs) = omega (arith, nodes_fields_lem fs)

pub nesting_fields_lem : (fs : Fields) → nesting_fields fs ≡ nesting_items (values fs)
unfolding nesting values
nesting_fields_lem no_members = omega arith
nesting_fields_lem (member k v fs) = omega (arith, nesting_fields_lem fs)

pub weight_fields_lem : (fs : Fields) → weight_fields fs ≡ weight_items (values fs)
unfolding weight values
weight_fields_lem no_members = omega arith
weight_fields_lem (member k v fs) = omega (arith, weight_fields_lem fs)

-- What is left to do with the iterators of the stack. Values of an iterator with `l` others below
-- it are nested `l` deep already.
abbrev pub reach : ℕ → ℕ → ℕ
reach n l = if nat_eq n 0 then 0 else n + l

abbrev pub pending_nodes : List Items → ℕ
pending_nodes [] = 0
pending_nodes (xs ∷ p) = nodes_items xs + pending_nodes p

abbrev pub pending_nesting : List Items → ℕ
pending_nesting [] = 0
pending_nesting (xs ∷ p) = max (reach (nesting_items xs) (length p)) (pending_nesting p)

abbrev pub pending_weight : List Items → ℕ
pending_weight [] = 0
pending_weight (xs ∷ p) = weight_items xs + pending_weight p
