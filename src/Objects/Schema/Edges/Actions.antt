-- ===== src/Objects/Schema/Edges/Actions.antt =====
-- The actions of an operation that is checked give their edges without an error.
use rethinking_git.Base.{
  ok, err, ◌≡◌, refl, arith, ◌>>=◌, ◌>>◌, some, none, ℕ, ◌==◌, List, [], ◌∷◌, ◌++◌, Option, >>=-ok,
  ensure-ok, ensure, length, if◌then◌else◌, inl, inr, not, ◌&&◌, ◌||◌, subst, Bool-cases,
}
use rethinking_git.Base.Set
use rethinking_git.Objects.Canonical.{Fields, Value}
use rethinking_git.Objects.Reference.{
  ObjectKind, ReferenceRole, ReferenceKey, same_kind, expected_kind, key_ord,
}
use rethinking_git.Objects.Schema.{
  field, each, if_some, checked, exact_map, oid, optional_field, as_map, unsigned, bytes, text,
  wrong, same_answer, is_some,
}
use rethinking_git.Objects.Schema.Parts.{
  typed_ref, typed_ref_kind, policy_ref, reference_key, line_advance,
}
use rethinking_git.Objects.Schema.Operations.{
  is_line_or_head, object_action, line_action, reference_action, check_action, action_loop,
}
use rethinking_git.Objects.Schema.Edges.Build.{Edges, edges_of, oid_edge, typed_edge, edges_if_some}
use rethinking_git.Objects.Schema.Edges.History.{
  change_edges, line_policy, line_edges, declaration_edges, action_edges,
}
use rethinking_git.Objects.Schema.Edges.Total.{Succeeds, >>-ok, join-Succeeds, oid_edge-Succeeds}
use rethinking_git.Objects.Schema.Edges.Shared.{
  exact_map-as_map, policy_edge-Succeeds, typed_edge-Succeeds, optional_edge-Succeeds,
}

-- A typed reference that may be missing.
optional_typed :
    (role : ReferenceRole) (value : Option Value)
    → if_some value (λ v. typed_ref v 8) ≡ ok tt
    → Succeeds (edges_if_some value (typed_edge role 8))
optional_typed role none h = ([], refl)
optional_typed role (some value) h = typed_edge-Succeeds role 8 value h

object_checks :
    (m : Fields) (value : Value)
    → exact_map value (0 ∷ []) (1 ∷ 2 ∷ []) 8 ≡ ok m
    → object_action value ≡ ok tt
    → (if_some (optional_field m 1) (λ v. typed_ref v 8) ≡ ok tt)
      × (if_some (optional_field m 2) (λ v. typed_ref v 8) ≡ ok tt)
unfolding object_action typed_ref
object_checks m value e h = ground arith

-- A kind that was read, and the check of the whole reference.
typed_ref_of_kind :
    (value : Value) (kind : ObjectKind)
    → typed_ref_kind value 8 ≡ ok kind
    → typed_ref value 8 ≡ ok tt
unfolding typed_ref
typed_ref_of_kind value kind h = ground (arith, h)

before_check :
    (key : ReferenceKey) (before : Option Value)
    → if_some before
        (λ v. do kind ← typed_ref_kind v 8; ensure (same_kind kind (expected_kind key)) (wrong 8))
      ≡ ok tt
    → if_some before (λ v. typed_ref v 8) ≡ ok tt
before_check key none h = refl
before_check key (some value) h =
    let (kind, e, _) = >>=-ok (typed_ref_kind value 8) _ h in typed_ref_of_kind value kind e

required_ref :
    (m : Fields) (key : ℕ) (value : Value)
    → field m key ≡ ok value
    → typed_ref value 8 ≡ ok tt
    → if_some (optional_field m key) (λ v. typed_ref v 8) ≡ ok tt
unfolding field
required_ref m key value e h = ground arith

-- The references of a checked action are read from its map.
abbrev Changes : ℕ → ℕ → Value → Type 0
Changes before after value =
    (m : Fields) × (as_map value ≡ ok m) × Succeeds (change_edges before after m)

changes :
    (before after : ℕ) (m : Fields)
    → if_some (optional_field m before) (λ v. typed_ref v 8) ≡ ok tt
    → if_some (optional_field m after) (λ v. typed_ref v 8) ≡ ok tt
    → Succeeds (change_edges before after m)
unfolding change_edges
changes before after m b a = join-Succeeds _ (
  optional_typed ReferenceRole.operation_before (optional_field m before) b,
  (optional_typed ReferenceRole.operation_after (optional_field m after) a, tt),
)

object_action-Changes : (value : Value) → object_action value ≡ ok tt → Changes 1 2 value
unfolding object_action
object_action-Changes value h =
    let (m, e, h₁) = >>=-ok (exact_map value (0 ∷ []) (1 ∷ 2 ∷ []) 8) _ h in
    let (b, a) = object_checks m value e h in
    (m, exact_map-as_map value (0 ∷ []) (1 ∷ 2 ∷ []) 8 m e, changes 1 2 m b a)

reference_action-Changes :
    (keys out : List ReferenceKey) (value : Value)
    → reference_action keys value ≡ ok out
    → Changes 2 3 value
unfolding reference_action
reference_action-Changes keys out value h =
    let (m, e, h₁) = >>=-ok (exact_map value (0 ∷ 1 ∷ 3 ∷ []) (2 ∷ []) 8) _ h in
    let (key_value, _, h₂) = >>=-ok (field m 1) _ h₁ in
    let (key, _, h₃) = >>=-ok (reference_key key_value 8) _ h₂ in
    let (_, h₄) = ensure-ok (not (is_line_or_head key || Set.contains key keys)) (wrong 8) _ h₃ in
    let (b, h₅) =
      >>-ok
        (if_some (optional_field m 2) λ before. do
          kind ← typed_ref_kind before 8
          ensure (same_kind kind (expected_kind key)) (wrong 8))
        _ h₄ in
    let (after, e₂, h₆) = >>=-ok (field m 3) _ h₅ in
    let (kind, e₃, _) = >>=-ok (typed_ref_kind after 8) _ h₆ in
    (
      m,
      exact_map-as_map value (0 ∷ 1 ∷ 3 ∷ []) (2 ∷ []) 8 m e,
      changes 2 3 m (before_check key (optional_field m 2) b)
          (required_ref m 3 after e₂ (typed_ref_of_kind after kind e₃)),
    )

policy_field :
    (role : ReferenceRole) (m : Fields) (key : ℕ)
    → (field m key >>= λ v. policy_ref v 8) ≡ ok tt
    → Succeeds (line_policy m key role)
unfolding line_policy
policy_field role m key h =
    let (value, e, h₁) = >>=-ok (field m key) _ h in
    let (edges, made) = policy_edge-Succeeds role 8 value h₁ in (edges, ground (arith, e, made))

head_field :
    (m : Fields)
    → (field m 3 >>= λ v. checked (oid v 8)) ≡ ok tt
    → Succeeds (
        field m 3
        >>= oid_edge ReferenceRole.operation_line_head_snapshot (some ObjectKind.snapshot) 8)
head_field m h =
    let (value, e, h₁) = >>=-ok (field m 3) _ h in
    let (edges, made) =
      oid_edge-Succeeds ReferenceRole.operation_line_head_snapshot (some ObjectKind.snapshot) 8
        value h₁ in
    (edges, ground (arith, e, made))

-- The policies of a declaration, which `line_advance` checks one after the other.
policies_of :
    (m : Fields)
    → each (λ k. field m k >>= λ v. policy_ref v 8) (6 ∷ 7 ∷ 8 ∷ 9 ∷ []) ≡ ok tt
    → ((field m 6 >>= λ v. policy_ref v 8) ≡ ok tt)
      × ((field m 7 >>= λ v. policy_ref v 8) ≡ ok tt)
      × ((field m 8 >>= λ v. policy_ref v 8) ≡ ok tt)
      × ((field m 9 >>= λ v. policy_ref v 8) ≡ ok tt)
unfolding each
policies_of m h = ground arith

line_declaration :
    (value : Value) (id : List ℕ)
    → line_advance value 8 ≡ ok id
    → (m : Fields) × (as_map value ≡ ok m)
      × ((field m 0 >>= λ v. policy_ref v 8) ≡ ok tt)
      × (each (λ k. field m k >>= λ v. policy_ref v 8) (6 ∷ 7 ∷ 8 ∷ 9 ∷ []) ≡ ok tt)
      × ((field m 3 >>= λ v. checked (oid v 8)) ≡ ok tt)
      × (if_some (optional_field m 5) (λ v. checked (oid v 8)) ≡ ok tt)
unfolding line_advance
line_declaration value id h =
    let (m, e, h₁) =
      >>=-ok (exact_map value (0 ∷ 1 ∷ 2 ∷ 3 ∷ 4 ∷ 6 ∷ 7 ∷ 8 ∷ 9 ∷ []) (5 ∷ []) 8) _ h in
    let (policy, e₁, h₂) = >>=-ok (field m 0) _ h₁ in
    let (c₁, h₃) = >>-ok (policy_ref policy 8) _ h₂ in
    let (line, _, h₄) = >>=-ok (field m 1) _ h₃ in
    let (line_id, _, h₅) = >>=-ok (bytes line 8) _ h₄ in
    let (_, h₆) = ensure-ok (length line_id == 16) (wrong 8) _ h₅ in
    let (name, _, h₇) = >>=-ok (field m 2) _ h₆ in
    let (_, h₈) = >>-ok (checked (text name 8)) _ h₇ in
    let (head, e₂, h₉) = >>=-ok (field m 3) _ h₈ in
    let (c₂, h₁₀) = >>-ok (checked (oid head 8)) _ h₉ in
    let (number, _, h₁₁) = >>=-ok (field m 4) _ h₁₀ in
    let (generation, _, h₁₂) = >>=-ok (unsigned number 8) _ h₁₁ in
    let (_, h₁₃) =
      ensure-ok (not (same_answer (generation == 0) (is_some (optional_field m 5)))) (wrong 8) _
        h₁₂ in
    let (c₃, h₁₄) = >>-ok (if_some (optional_field m 5) (λ v. checked (oid v 8))) _ h₁₃ in
    let (c₄, _) =
      >>-ok (each (λ k. field m k >>= λ v. policy_ref v 8) (6 ∷ 7 ∷ 8 ∷ 9 ∷ [])) _ h₁₄ in
    (
      m,
      exact_map-as_map value (0 ∷ 1 ∷ 2 ∷ 3 ∷ 4 ∷ 6 ∷ 7 ∷ 8 ∷ 9 ∷ []) (5 ∷ []) 8 m e,
      ground (arith, e₁, c₁),
      c₄,
      ground (arith, e₂, c₂),
      c₃,
    )

declaration_edges-Succeeds :
    (d : Fields) (value : Value) (id : List ℕ)
    → as_map value ≡ ok d
    → line_advance value 8 ≡ ok id
    → Succeeds (declaration_edges d)
unfolding declaration_edges
declaration_edges-Succeeds d value id h a =
    let (d', e, p₀, ps, head, previous) = line_declaration value id a in
    let one : d' ≡ d = ground arith in
    let (p₆, p₇, p₈, p₉) = policies_of d' ps in
    subst (λ x. Succeeds (declaration_edges x)) one
      (join-Succeeds _ (
        policy_field ReferenceRole.operation_line_policy d' 0 p₀,
        (
          policy_field ReferenceRole.operation_line_integration_policy d' 6 p₆,
          (
            policy_field ReferenceRole.operation_line_approval_policy d' 7 p₇,
            (
              policy_field ReferenceRole.operation_line_release_policy d' 8 p₈,
              (
                policy_field ReferenceRole.operation_line_visibility_policy d' 9 p₉,
                (
                  head_field d' head,
                  (
                    optional_edge-Succeeds ReferenceRole.operation_line_previous_state
                        (some ObjectKind.line_state) 8 (optional_field d' 5) previous,
                    tt,
                  ),
                ),
              ),
            ),
          ),
        ),
      ))

line_action-edges :
    (schema : ℕ) (keys out : List ReferenceKey) (value : Value)
    → line_action schema keys value ≡ ok out
    → (m : Fields) × (as_map value ≡ ok m) × Succeeds (line_edges m)
unfolding line_action line_edges
line_action-edges schema keys out value h =
    let (m, e, h₁) = >>=-ok (exact_map value (0 ∷ 3 ∷ []) [] 8) _ h in
    let (content, e₁, h₂) = >>=-ok (field m 3) _ h₁ in
    let (id, e₂, _) = >>=-ok (line_advance content 8) _ h₂ in
    let (d, e₃, _, _, _, _) = line_declaration content id e₂ in
    let (edges, made) = declaration_edges-Succeeds d content id e₃ e₂ in
    (m, exact_map-as_map value (0 ∷ 3 ∷ []) [] 8 m e, (edges, ground (arith, e₁, e₃, made)))

-- A value has one map.
at_map :
    (edges : Fields → Edges) (value : Value) (m : Fields)
    → as_map value ≡ ok m
    → ((m' : Fields) × (as_map value ≡ ok m') × Succeeds (edges m'))
    → Succeeds (edges m)
at_map edges value m e (m', e', made) =
    let one : m' ≡ m = ground arith in subst (λ x. Succeeds (edges x)) one made

-- The three variants.
variant_edges :
    (schema variant : ℕ) (keys out : List ReferenceKey) (value : Value) (m : Fields)
    → as_map value ≡ ok m
    → (if schema == 0 && variant == 0
        then (object_action value >> ok keys)
        else if (schema == 0 || schema == 1) && variant == 1
        then line_action schema keys value
        else if schema == 1 && variant == 2
        then reference_action keys value
        else err (wrong 8))
      ≡ ok out
    → Succeeds (
        if variant == 0
        then change_edges 1 2 m
        else if variant == 2
        then change_edges 2 3 m
        else if variant == 1
        then line_edges m
        else err (wrong 8))
variant_edges schema variant keys out value m e h = elim (Bool-cases (variant == 0)) [
  | inl z ↦
      let a : object_action value ≡ ok tt = ground (arith, z) in
      let (edges, made) = at_map (change_edges 1 2) value m e (object_action-Changes value a) in
      (edges, ground (arith, z, made))
  | inr nz ↦ elim (Bool-cases (variant == 2)) [
    | inl two ↦
        let a : reference_action keys value ≡ ok out = ground (arith, nz, two) in
        let (edges, made) =
          at_map (change_edges 2 3) value m e (reference_action-Changes keys out value a) in
        (edges, ground (arith, nz, two, made))
    | inr not_two ↦ elim (Bool-cases (variant == 1)) [
      | inl one ↦
          let a : line_action schema keys value ≡ ok out = ground (arith, nz, not_two, one) in
          let (edges, made) =
            at_map line_edges value m e (line_action-edges schema keys out value a) in
          (edges, ground (arith, nz, not_two, one, made))
      | inr not_one ↦ absurd (ground (arith, nz, not_two, not_one))
    ]
  ]
]

check_action-edges :
    (schema : ℕ) (keys out : List ReferenceKey) (value : Value)
    → check_action schema keys value ≡ ok out
    → Succeeds (action_edges value)
unfolding check_action action_edges
check_action-edges schema keys out value h =
    let (m, e, h₁) = >>=-ok (as_map value) _ h in
    let (number, e₁, h₂) = >>=-ok (field m 0) _ h₁ in
    let (variant, e₂, h₃) = >>=-ok (unsigned number 8) _ h₂ in
    let (edges, made) = variant_edges schema variant keys out value m e h₃ in
    (edges, ground (arith, e, e₁, e₂, made))

pub action_loop-edges :
    (schema : ℕ) (keys : List ReferenceKey) (values : List Value)
    → action_loop schema keys values ≡ ok tt
    → Succeeds (edges_of action_edges values)
unfolding action_loop edges_of
action_loop-edges schema keys [] h = ([], refl)
action_loop-edges schema keys (value ∷ values) h =
    let (out, e, h₁) = >>=-ok (check_action schema keys value) _ h in
    let (first, p) = check_action-edges schema keys out value e in
    let (rest, q) = action_loop-edges schema out values h₁ in (first ++ rest, ground (arith, p, q))
