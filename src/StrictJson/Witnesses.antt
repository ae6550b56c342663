-- ===== src/StrictJson/Witnesses.antt =====
-- The theorems at a small configuration document.
use platform_gitops.Prelude.{◌≡◌, ◌↔◌, refl, String, true, some}
use platform_gitops.Prelude.Result.{ok, err}
use platform_gitops.StrictJson.Document.{
  Value, scalar, float, array, object, no_items, item, no_members, member, duplicate_keys,
  apply_hooks, reject_duplicates,
}
use platform_gitops.StrictJson.Validate.{
  Decoded, decoded, loads_strict_json, validate_structure, max_json_nodes, max_json_depth,
}
use platform_gitops.StrictJson.Measure.{nodes, nesting}
use platform_gitops.StrictJson.Limits.{Verdict, validate_structure-Verdict}
use platform_gitops.StrictJson.Keys.{IsLoadable, loads_strict_json-IsLoadable}

abbrev document : Value
document = object (
    member "name" (scalar "shop")
      (member "ports" (array (item (scalar "80") (item (float true) no_items))) no_members))

-- A decoder that knows one text.
abbrev decode : String → Decoded
decode text = decoded document

validate_structure-Verdict_example :
    Verdict max_json_nodes max_json_depth
      (validate_structure document)
      (nodes document)
      (nesting document)
validate_structure-Verdict_example = validate_structure-Verdict document

loads_strict_json-IsLoadable_example :
    (loads_strict_json decode "{...}" ≡ some (ok document))
    ↔ ((decode "{...}" ≡ decoded document) × IsLoadable document)
loads_strict_json-IsLoadable_example = loads_strict_json-IsLoadable decode "{...}" document

seven_nodes : nodes document ≡ 7
unfolding nodes
seven_nodes = refl

repeated :
    apply_hooks (object (member "a" (scalar "1") (member "a" (scalar "2") no_members)))
    ≡ err duplicate_keys
unfolding apply_hooks reject_duplicates
repeated = refl
