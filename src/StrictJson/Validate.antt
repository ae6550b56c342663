-- ===== src/StrictJson/Validate.antt =====
-- _validate_structure: the walk with a stack of iterators, and loads_strict_json.
use platform_gitops.Prelude.{
  ℕ, zero, suc, ◌+◌, Option, none, some, String, List, [], ◌∷◌, length, ltb, if◌then◌else◌,
}
use platform_gitops.Prelude.Result.{Result, ok, err}
use platform_gitops.StrictJson.Document.{
  Value, scalar, float, constant, array, object, Items, no_items, item, Fields, no_members, member,
  JsonError, node_limit, nesting_limit, decoder_nesting_limit, not_json, values, size, apply_hooks,
}

abbrev pub max_json_depth : ℕ
max_json_depth = 128

abbrev pub max_json_nodes : ℕ
max_json_nodes = 1000000

abbrev pub Outcome : Type 0
Outcome = Option (Result JsonError (Unit {0}))

-- The count of a value with that of an object's keys, and the iterator over its children, if it has
-- any.
unfoldable pub count_node : ℕ → Value → ℕ
count_node n (object fs) = n + 1 + size fs
count_node n v = n + 1

unfoldable pub children : Value → Option Items
children (array xs) = some xs
children (object fs) = some (values fs)
children v = none

module _ (nodes depth : ℕ) where
  -- Each round takes one value, or drops an iterator that is used up; none is the end of the fuel.
  unfoldable pub walk : ℕ → List Items → ℕ → Outcome
  walk zero pending count = none
  walk (suc fuel) [] count = some (ok tt)
  walk (suc fuel) (no_items ∷ pending) count = walk fuel pending count
  walk (suc fuel) (item v rest ∷ pending) count =
      let next = walk fuel (rest ∷ pending) (count_node count v) in
      let deeper = λ (xs : Items). walk fuel (xs ∷ rest ∷ pending) (count_node count v) in
      if ltb nodes (count_node count v) then some (err node_limit) else (elim (children v) [
        | none ↦ next
        | some xs ↦
            if ltb depth (length (rest ∷ pending)) then some (err nesting_limit) else deeper xs
      ])

-- The values and iterators of a document, which bound the rounds of its walk.
unfoldable mutual
  pub weight : Value → ℕ
  weight (scalar s) = 0
  weight (float finite) = 0
  weight (constant s) = 0
  weight (array xs) = weight_items xs
  weight (object fs) = weight_fields fs

  pub weight_items : Items → ℕ
  weight_items no_items = 1
  weight_items (item v vs) = suc (weight v + weight_items vs)

  pub weight_fields : Fields → ℕ
  weight_fields no_members = 1
  weight_fields (member k v fs) = suc (weight v + weight_fields fs)

unfoldable pub validate_structure : Value → Outcome
unfolding walk weight
validate_structure document =
    walk max_json_nodes max_json_depth (suc (weight_items (item document no_items)))
      (item document no_items ∷ []) 0

-- What the decoder returns: a value, its own nesting limit, or an error.
pub data Decoded : Type 0 where
  decoded : Value → Decoded
  recursion_error decode_error : Decoded

-- `_validate_structure(decoded)`, and `return decoded`.
unfoldable pub finish_load : Value → Outcome → Option (Result JsonError Value)
finish_load v none = none
finish_load v (some (err e)) = some (err e)
finish_load v (some (ok u)) = some (ok v)

-- The hooks run while the document is decoded.
unfoldable pub after_hooks : Value → Result JsonError (Unit {0}) → Option (Result JsonError Value)
after_hooks v (err e) = some (err e)
after_hooks v (ok u) = finish_load v (validate_structure v)

unfoldable pub load : Decoded → Option (Result JsonError Value)
load recursion_error = some (err decoder_nesting_limit)
load decode_error = some (err not_json)
load (decoded v) = after_hooks v (apply_hooks v)

unfoldable pub loads_strict_json : (String → Decoded) → String → Option (Result JsonError Value)
unfolding load
loads_strict_json decode text = load (decode text)
