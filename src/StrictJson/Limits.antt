-- ===== src/StrictJson/Limits.antt =====
-- The walk accepts exactly the documents within the limits, and its fuel is enough.
use platform_gitops.Prelude.{
  ℕ, zero, suc, ◌+◌, ◌≤◌, ◌<◌, max, ◌≡◌, ◌⊎◌, inl, inr, refl, arith, none, some, List, [], ◌∷◌,
  length, ltb, ltb→lt, ltb→le, Bool-cases,
}
use platform_gitops.Prelude.Result.{ok, err}
use platform_gitops.StrictJson.Document.{
  Value, scalar, float, constant, array, object, Items, no_items, item, node_limit, nesting_limit,
  values,
}
use platform_gitops.StrictJson.Validate.{
  Outcome, count_node, children, walk, weight, weight_items, validate_structure, max_json_nodes,
  max_json_depth,
}
use platform_gitops.StrictJson.Measure.{
  nodes, nesting, nodes_items, nesting_items, nodes_fields_lem, nesting_fields_lem,
  weight_fields_lem, pending_nodes, pending_nesting, pending_weight,
}

-- What a walk returns, by the nodes and the nesting that it would meet.
abbrev pub Verdict : ℕ → ℕ → Outcome → ℕ → ℕ → Type 0
Verdict max_nodes depth r count deep =
    ((r ≡ some (ok tt)) × (count ≤ max_nodes) × (deep ≤ depth))
    ⊎ ((r ≡ some (err node_limit)) × (max_nodes < count))
    ⊎ ((r ≡ some (err nesting_limit)) × (depth < deep))

module _ (max_nodes depth : ℕ) where
  -- A round that goes on.
  Verdict-mono :
      (r s : Outcome) (count deep count' deep' k : ℕ)
      → r ≡ s
      → Verdict max_nodes depth s count' deep'
      → count ≡ count'
      → deep ≡ max k deep'
      → k ≤ depth
      → Verdict max_nodes depth r count deep
  Verdict-mono r s count deep count' deep' k e (inl (o, c, d)) p q h =
      inl (ground (arith, e, o), omega arith, omega arith)
  Verdict-mono r s count deep count' deep' k e (inr (inl (o, c))) p q h =
      inr (inl (ground (arith, e, o), omega arith))
  Verdict-mono r s count deep count' deep' k e (inr (inr (o, d))) p q h =
      inr (inr (ground (arith, e, o), omega arith))

  walk_leaf :
      (fuel : ℕ) (v : Value) (rest : Items) (pending : List Items) (count : ℕ)
      → children v ≡ none
      → nodes v ≡ 1
      → nesting v ≡ 0
      → (count_node count v ≤ max_nodes
          → Verdict max_nodes depth
              (walk max_nodes depth fuel (rest ∷ pending) (count_node count v))
              (count_node count v + pending_nodes (rest ∷ pending))
              (pending_nesting (rest ∷ pending)))
      → count_node count v ≡ count + 1
      → Verdict max_nodes depth
          (walk max_nodes depth (suc fuel) (item v rest ∷ pending) count)
          (count + pending_nodes (item v rest ∷ pending))
          (pending_nesting (item v rest ∷ pending))
  unfolding walk nodes nesting
  walk_leaf fuel v rest pending count leaf one flat ih e =
      elim (Bool-cases (ltb max_nodes (count_node count v))) [
        | inl over ↦
            inr (
              inl (ground (arith, over), omega (arith, ltb→lt max_nodes (count_node count v) over)))
        | inr under ↦
            Verdict-mono _ _ _ _ _ _ 0 (ground (arith, under, leaf))
              (ih (ltb→le max_nodes (count_node count v) under)) (omega arith)
              (ground (arith, flat)) (omega arith)
      ]

  walk_container :
      (fuel : ℕ) (v : Value) (xs rest : Items) (pending : List Items) (count : ℕ)
      → children v ≡ some xs
      → count_node count v + nodes_items xs ≡ count + nodes v
      → nesting v ≡ suc (nesting_items xs)
      → (count_node count v ≤ max_nodes
          → Verdict max_nodes depth
              (walk max_nodes depth fuel (xs ∷ rest ∷ pending) (count_node count v))
              (count_node count v + pending_nodes (xs ∷ rest ∷ pending))
              (pending_nesting (xs ∷ rest ∷ pending)))
      → Verdict max_nodes depth
          (walk max_nodes depth (suc fuel) (item v rest ∷ pending) count)
          (count + pending_nodes (item v rest ∷ pending))
          (pending_nesting (item v rest ∷ pending))
  unfolding walk nodes nesting
  walk_container fuel v xs rest pending count branch size_of deep ih =
      elim (Bool-cases (ltb max_nodes (count_node count v))) [
        | inl over ↦
            inr (
              inl (ground (arith, over), omega (arith, ltb→lt max_nodes (count_node count v) over)))
        | inr under ↦ elim (Bool-cases (ltb depth (length (rest ∷ pending)))) [
          | inl below ↦ inr (inr (ground (arith, under, branch, below), ground (arith, deep)))
          | inr above ↦
              Verdict-mono _ _ _ _ _ _ (suc (length pending)) (ground (arith, under, branch, above))
                (ih (ltb→le max_nodes (count_node count v) under)) (omega arith)
                (ground (arith, deep)) (ground arith)
        ]
      ]

  abbrev Total : ℕ → List Items → ℕ → Type 0
  Total fuel pending count =
      pending_weight pending < fuel
      → count ≤ max_nodes
      → Verdict max_nodes depth (walk max_nodes depth fuel pending count)
          (count + pending_nodes pending) (pending_nesting pending)

  walk_ended :
      (fuel count : ℕ)
      → count ≤ max_nodes
      → Verdict max_nodes depth (walk max_nodes depth (suc fuel) [] count) (count + 0) 0
  unfolding walk
  walk_ended fuel count p = inl (refl, omega arith, omega arith)

  walk_used_up :
      (fuel : ℕ) (pending : List Items) (count : ℕ)
      → Total fuel pending count
      → Total (suc fuel) (no_items ∷ pending) count
  unfolding walk nodes nesting weight
  walk_used_up fuel pending count ih h p =
      Verdict-mono _ _ _ _ _ _ 0 refl (ih (omega arith) p) (omega arith) (omega arith) (omega arith)

  walk_next :
      (fuel : ℕ) (v : Value) (rest : Items) (pending : List Items) (count : ℕ)
      → ((p : List Items) (n : ℕ) → Total fuel p n)
      → Total (suc fuel) (item v rest ∷ pending) count
  unfolding children count_node nodes nesting weight
  walk_next fuel (scalar x) rest pending count ih h p =
      walk_leaf fuel (scalar x) rest pending count refl refl refl
        (ih (rest ∷ pending) _ (omega arith)) refl
  walk_next fuel (float x) rest pending count ih h p =
      walk_leaf fuel (float x) rest pending count refl refl refl
        (ih (rest ∷ pending) _ (omega arith)) refl
  walk_next fuel (constant x) rest pending count ih h p =
      walk_leaf fuel (constant x) rest pending count refl refl refl
        (ih (rest ∷ pending) _ (omega arith)) refl
  walk_next fuel (array xs) rest pending count ih h p =
      walk_container fuel (array xs) xs rest pending count refl (omega arith) (omega arith)
        (ih (xs ∷ rest ∷ pending) _ (omega arith))
  walk_next fuel (object fs) rest pending count ih h p =
      walk_container fuel (object fs) (values fs) rest pending count refl
        (omega (arith, nodes_fields_lem fs)) (omega (arith, nesting_fields_lem fs))
        (ih (values fs ∷ rest ∷ pending) _ (omega (arith, weight_fields_lem fs)))

  walk-Verdict : (fuel : ℕ) (pending : List Items) (count : ℕ) → Total fuel pending count
  walk-Verdict zero pending count h p = absurd (omega arith)
  walk-Verdict (suc fuel) [] count h p = walk_ended fuel count p
  walk-Verdict (suc fuel) (no_items ∷ pending) count h p =
      walk_used_up fuel pending count (walk-Verdict fuel pending count) h p
  walk-Verdict (suc fuel) (item v rest ∷ pending) count h p =
      walk_next fuel v rest pending count (walk-Verdict fuel) h p

-- _validate_structure ends, accepts a document exactly when it has no more nodes and no deeper
-- nesting than the limits, and otherwise names a limit that the document exceeds.
pub validate_structure-Verdict :
    (document : Value)
    → Verdict max_json_nodes max_json_depth
        (validate_structure document)
        (nodes document)
        (nesting document)
unfolding validate_structure nesting nodes
validate_structure-Verdict document =
    Verdict-mono max_json_nodes max_json_depth _ _ _ _ _ _ 0 refl
      (walk-Verdict max_json_nodes max_json_depth (suc (weight_items (item document no_items)))
        (item document no_items ∷ []) 0 (omega arith) (omega arith))
      (omega arith) (ground arith) (omega arith)
