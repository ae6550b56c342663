-- ===== src/StrictJson/Document.antt =====
-- Decoded documents, and the hooks of loads_strict_json that each object and number goes through.
use platform_gitops.Prelude.{ℕ, suc, String, Bool, List, [], ◌∷◌, contains, if◌then◌else◌}
use platform_gitops.Prelude.Result.{Result, ok, err, ◌>>◌}

-- A value as the decoder reads it: a float with whether it is finite, a constant such as NaN, and an
-- object by its pairs, in order.
mutual
  pub data Value : Type 0 where
    scalar : String → Value
    float : Bool → Value
    constant : String → Value
    array : Items → Value
    object : Fields → Value

  pub data Items : Type 0 where
    no_items : Items
    item : Value → Items → Items

  pub data Fields : Type 0 where
    no_members : Fields
    member : String → Value → Fields → Fields

-- The StrictJsonErrors, and another JSONDecodeError.
pub data JsonError : Type 0 where
  duplicate_keys non_standard_constant not_finite node_limit nesting_limit decoder_nesting_limit :
      JsonError
  not_json : JsonError

-- `value.values()`, `value.keys()` and `len(value)`.
unfoldable pub values : Fields → Items
values no_members = no_items
values (member k v fs) = item v (values fs)

unfoldable pub keys : Fields → List String
keys no_members = []
keys (member k v fs) = k ∷ keys fs

unfoldable pub size : Fields → ℕ
size no_members = 0
size (member k v fs) = suc (size fs)

-- _reject_duplicate_keys, with the keys met so far; without a repeated key the dictionary has the
-- pairs in their order.
unfoldable pub reject_duplicates : List String → Fields → Result JsonError (Unit {0})
reject_duplicates seen no_members = ok tt
reject_duplicates seen (member k v fs) =
    let rest = reject_duplicates (k ∷ seen) fs in
    if contains k seen then err duplicate_keys else rest

-- The hooks, in the order in which the decoder ends its values. They are applied to the whole text,
-- so that where it is also malformed further on, the error is the decoder's.
unfoldable mutual
  pub apply_hooks : Value → Result JsonError (Unit {0})
  apply_hooks (scalar s) = ok tt
  apply_hooks (float finite) = if finite then ok tt else err not_finite
  apply_hooks (constant s) = err non_standard_constant
  apply_hooks (array xs) = hook_items xs
  apply_hooks (object fs) = hook_fields fs >> reject_duplicates [] fs

  pub hook_items : Items → Result JsonError (Unit {0})
  hook_items no_items = ok tt
  hook_items (item v vs) = apply_hooks v >> hook_items vs

  pub hook_fields : Fields → Result JsonError (Unit {0})
  hook_fields no_members = ok tt
  hook_fields (member k v fs) = apply_hooks v >> hook_fields fs
