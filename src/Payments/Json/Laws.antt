-- ===== src/Payments/Json/Laws.antt =====
-- What the walk accepts, and that it ends.
use lucent.Prelude.{
  ℕ, zero, suc, ◌+◌, ◌≤◌, ◌<◌, [], ◌∷◌, length, Bool, true, false, ◌&&◌, ◌||◌, ltb, leb, Result, ok,
  err, ◌≡◌, ◌⊎◌, inl, inr, refl, ◌∙◌, arith, Bool-cases,
}
use lucent.Payments.Json.{
  max_facilitator_json_depth, max_facilitator_json_nodes, max_facilitator_json_string, Json, null,
  boolean, integer, float, string, array, object, foreign, Items, nil, cons, Stack, JsonError,
  string_limit, no_fuel, push_all, visit, walk, validate_facilitator_json,
}

-- How many values a value holds, itself included.
mutual
  pub node_count : Json → ℕ
  node_count (array items) = item_count items + 1
  node_count (object items) = item_count items + 1
  node_count null = 1
  node_count (boolean b) = 1
  node_count integer = 1
  node_count (float finite) = 1
  node_count (string t) = 1
  node_count foreign = 1

  pub item_count : Items → ℕ
  item_count nil = 0
  item_count (cons x xs) = node_count x + item_count xs

-- At this depth and below, no value is too deep, no text too long, every float is finite, and every
-- value is one of JSON.
mutual
  pub is_bounded : ℕ → Json → Bool
  is_bounded depth (array items) =
      leb depth max_facilitator_json_depth && are_bounded (depth + 1) items
  is_bounded depth (object items) =
      leb depth max_facilitator_json_depth && are_bounded (depth + 1) items
  is_bounded depth (string t) =
      leb depth max_facilitator_json_depth && leb (length t) max_facilitator_json_string
  is_bounded depth (float finite) = leb depth max_facilitator_json_depth && finite
  is_bounded depth foreign = false
  is_bounded depth null = leb depth max_facilitator_json_depth
  is_bounded depth (boolean b) = leb depth max_facilitator_json_depth
  is_bounded depth integer = leb depth max_facilitator_json_depth

  pub are_bounded : ℕ → Items → Bool
  are_bounded depth nil = true
  are_bounded depth (cons x xs) = is_bounded depth x && are_bounded depth xs

abbrev total : Stack → ℕ
total [] = 0
total ((x, depth) ∷ s) = node_count x + total s

abbrev stack_bounded : Stack → Bool
stack_bounded [] = true
stack_bounded ((x, depth) ∷ s) = is_bounded depth x && stack_bounded s

total-push_all :
    (items : Items) (depth : ℕ) (s : Stack)
    → total (push_all items depth s) ≡ item_count items + total s
unfolding push_all item_count
total-push_all nil depth s = omega arith
total-push_all (cons x xs) depth s = omega (arith, total-push_all xs depth ((x, depth) ∷ s))

bounded-push_all :
    (items : Items) (depth : ℕ) (s : Stack)
    → stack_bounded (push_all items depth s) ≡ are_bounded depth items && stack_bounded s
unfolding push_all are_bounded
bounded-push_all nil depth s = refl
bounded-push_all (cons x xs) depth s = bounded-push_all xs depth ((x, depth) ∷ s) ∙ ground arith

one_node : (x : Json) → 1 ≤ node_count x
unfolding node_count
one_node (array items) = omega arith
one_node (object items) = omega arith
one_node null = omega arith
one_node (boolean b) = omega arith
one_node integer = omega arith
one_node (float finite) = omega arith
one_node (string t) = omega arith
one_node foreign = omega arith

too_deep :
    (depth : ℕ) (x : Json)
    → ltb max_facilitator_json_depth depth ≡ true
    → is_bounded depth x ≡ false
unfolding is_bounded
too_deep depth (array items) deep = ground arith
too_deep depth (object items) deep = ground arith
too_deep depth null deep = ground arith
too_deep depth (boolean b) deep = ground arith
too_deep depth integer deep = ground arith
too_deep depth (float finite) deep = ground arith
too_deep depth (string t) deep = ground arith
too_deep depth foreign deep = refl

-- A visit fails on a value out of bounds, or leaves a stack that holds all that is left to check.
abbrev Visited : Json → ℕ → Stack → Type 0
Visited x depth s =
    ((e : JsonError) × ((visit x depth s ≡ err e) × (is_bounded depth x ≡ false)))
    ⊎ ((rest : Stack) × ((visit x depth s ≡ ok rest)
          × ((total rest + 1 ≡ node_count x + total s)
              × (is_bounded depth x && stack_bounded s ≡ stack_bounded rest))))

visit_lem :
    (x : Json) (depth : ℕ) (s : Stack)
    → ltb max_facilitator_json_depth depth ≡ false
    → Visited x depth s
unfolding visit node_count is_bounded
visit_lem (array items) depth s h = inr (
  push_all items (depth + 1) s,
  (
    refl,
    (
      omega (arith, total-push_all items (depth + 1) s),
      ground (arith, bounded-push_all items (depth + 1) s),
    ),
  ),
)
visit_lem (object items) depth s h = inr (
  push_all items (depth + 1) s,
  (
    refl,
    (
      omega (arith, total-push_all items (depth + 1) s),
      ground (arith, bounded-push_all items (depth + 1) s),
    ),
  ),
)
visit_lem null depth s h = inr (s, (refl, (omega arith, ground arith)))
visit_lem (boolean b) depth s h = inr (s, (refl, (omega arith, ground arith)))
visit_lem integer depth s h = inr (s, (refl, (omega arith, ground arith)))
visit_lem (float true) depth s h = inr (s, (refl, (omega arith, ground arith)))
visit_lem (float false) depth s h = inl (_, (refl, ground arith))
visit_lem (string t) depth s h = elim (Bool-cases (ltb max_facilitator_json_string (length t))) [
  | inl long ↦ inl (string_limit, (rw long refl, ground arith))
  | inr short ↦ inr (s, (rw short refl, (omega arith, ground arith)))
]
visit_lem foreign depth s h = inl (_, (refl, refl))

abbrev pub is_ok : Result JsonError (Unit {0}) → Bool
is_ok (ok u) = true
is_ok (err e) = false

after_visit :
    (fuel nodes : ℕ) (x : Json) (depth : ℕ) (s : Stack)
    → ((rest : Stack)
        → is_ok (walk fuel (nodes + 1) rest)
          ≡ leb (nodes + 1 + total rest) max_facilitator_json_nodes && stack_bounded rest)
    → Visited x depth s
    → is_ok (elim (visit x depth s) [ err e ↦ err e | ok rest ↦ walk fuel (nodes + 1) rest ])
      ≡ leb (nodes + (node_count x + total s)) max_facilitator_json_nodes
        && (is_bounded depth x && stack_bounded s)
after_visit fuel nodes x depth s later (inl (e, (failed, out))) = rw (failed, out) (ground arith)
after_visit fuel nodes x depth s later (inr (rest, (passed, (count, bounds)))) =
    let same : nodes + 1 + total rest ≡ nodes + (node_count x + total s) = omega (arith, count) in
    rw (passed, later rest, same, bounds) refl

walk_lem :
    (fuel nodes : ℕ) (s : Stack)
    → max_facilitator_json_nodes < fuel + nodes
    → nodes ≤ max_facilitator_json_nodes
    → is_ok (walk fuel nodes s)
      ≡ leb (nodes + total s) max_facilitator_json_nodes && stack_bounded s
unfolding walk
walk_lem zero nodes s more few = absurd (omega (arith, more, few))
walk_lem (suc fuel) nodes [] more few = ground arith
walk_lem (suc fuel) nodes ((x, depth) ∷ s) more few =
    elim (Bool-cases
      (ltb max_facilitator_json_nodes (nodes + 1) || ltb max_facilitator_json_depth depth)) [
        | inl over ↦ rw over (ground (arith, one_node x, too_deep depth x))
        | inr within ↦
            let few' : nodes + 1 ≤ max_facilitator_json_nodes = ground (arith, within) in
            rw within (
              after_visit fuel nodes x depth s
                (λ rest. walk_lem fuel (nodes + 1) rest (omega (arith, more)) few')
                (visit_lem x depth s (ground (arith, within))))
      ]

visit_goes_on : (x : Json) (depth : ℕ) (s : Stack) → ¬ (visit x depth s ≡ err no_fuel)
unfolding visit
visit_goes_on (array items) depth s h = cc
visit_goes_on (object items) depth s h = cc
visit_goes_on null depth s h = cc
visit_goes_on (boolean b) depth s h = cc
visit_goes_on integer depth s h = cc
visit_goes_on (float true) depth s h = cc
visit_goes_on (float false) depth s h = cc
visit_goes_on (string t) depth s h = ground arith
visit_goes_on foreign depth s h = cc

after_visit_ends :
    (fuel nodes : ℕ) (r : Result JsonError Stack)
    → ((rest : Stack) → ¬ (walk fuel (nodes + 1) rest ≡ err no_fuel))
    → ¬ (r ≡ err no_fuel)
    → ¬ (elim r [ err e ↦ err e | ok rest ↦ walk fuel (nodes + 1) rest ] ≡ err no_fuel)
after_visit_ends fuel nodes (ok rest) later own h = later rest h
after_visit_ends fuel nodes (err e) later own h = own (ground arith)

walk_ends :
    (fuel nodes : ℕ) (s : Stack)
    → max_facilitator_json_nodes < fuel + nodes
    → nodes ≤ max_facilitator_json_nodes
    → ¬ (walk fuel nodes s ≡ err no_fuel)
unfolding walk
walk_ends zero nodes s more few h = absurd (omega (arith, more, few))
walk_ends (suc fuel) nodes [] more few h = cc
walk_ends (suc fuel) nodes ((x, depth) ∷ s) more few h =
    elim (Bool-cases
      (ltb max_facilitator_json_nodes (nodes + 1) || ltb max_facilitator_json_depth depth)) [
        | inl over ↦ let k = rw over at h in cc
        | inr within ↦
            let few' : nodes + 1 ≤ max_facilitator_json_nodes = ground (arith, within) in
            let k = rw within at h in
            after_visit_ends fuel nodes (visit x depth s)
              (λ rest. walk_ends fuel (nodes + 1) rest (omega (arith, more)) few')
              (visit_goes_on x depth s) k
      ]

-- The walk accepts an answer exactly when it holds at most 20,000 values, none of them deeper than
-- 32, with no text of more than 65,536 characters, no float that is not finite, and nothing that is
-- not JSON.
pub validate_facilitator_json_lem :
    (value : Json)
    → is_ok (validate_facilitator_json value)
      ≡ leb (node_count value) max_facilitator_json_nodes && is_bounded 0 value
unfolding validate_facilitator_json
validate_facilitator_json_lem value =
    walk_lem (max_facilitator_json_nodes + 1) 0 ((value, 0) ∷ []) (omega arith) (omega arith)
    ∙ ground arith

-- The walk ends before its fuel does.
pub validate_facilitator_json_ends :
    (value : Json) → ¬ (validate_facilitator_json value ≡ err no_fuel)
unfolding validate_facilitator_json
validate_facilitator_json_ends value =
    walk_ends (max_facilitator_json_nodes + 1) 0 ((value, 0) ∷ []) (omega arith) (omega arith)
