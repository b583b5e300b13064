-- ===== src/Store/Closure/Complete.antt =====
-- What a closure contains.
use mathlib.Core.List.{reverse, reverse_aux}
use rethinking_git.Base.{
  ℕ, zero, suc, true, List, [], ◌∷◌, ◌++◌, ◌≡◌, ◌⊎◌, inl, inr, sym, subst, ap, ◌∙◌, none, some,
  Result, ok, arith, >>=-ok, ensure-ok, In, In-append, if◌then◌else◌, Bool-cases, Option-cases,
}
use rethinking_git.Base.Order.{same, same_refl, eq_of_same}
use rethinking_git.Base.Map
use rethinking_git.Base.Map.{Map, get-insert}
use rethinking_git.Objects.Id.{ObjectId}
use rethinking_git.Objects.Reference.{id_ord, ReferenceEdge}
use rethinking_git.Store.Model.{StoreError, StoredObject, MemorySnapshot}
use rethinking_git.Store.Memory.{visible_object}
use rethinking_git.Store.Closure.{
  closure_object, has_kind, closure_loop, closure_from, wrong_kind_error,
}

In-reverse_aux :
    {A : Type 0} (a : A) (xs acc : List A) → In a xs ⊎ In a acc → In a (reverse_aux xs acc)
In-reverse_aux a [] acc m = ground arith
In-reverse_aux a (x ∷ xs) acc m = In-reverse_aux a xs (x ∷ acc) (ground arith)

In-reverse : {A : Type 0} (a : A) (xs : List A) → In a xs → In a (reverse xs)
In-reverse a xs m = In-reverse_aux a xs [] (inl m)

closure_object-visible :
    (s : MemorySnapshot) (id : ObjectId) (o : StoredObject)
    → closure_object s id ≡ ok o
    → visible_object s id ≡ ok o
unfolding closure_object
closure_object-visible s id o h = ground arith

-- The edge leads to an object of the closure, which has the kind that the edge expects.
pub record Found (objects : Map ObjectId StoredObject) (edge : ReferenceEdge) : Type 0 where
  pub target : StoredObject
  pub present : Map.get edge.id objects ≡ some target
  pub kind : has_kind edge.expected_kind target.kind ≡ true

-- Every object is the one that the state shows under its identifier.
abbrev pub AreVisible : MemorySnapshot → Map ObjectId StoredObject → Type 0
AreVisible s objects =
    (id : ObjectId) (o : StoredObject) → Map.get id objects ≡ some o → visible_object s id ≡ ok o

same_result : (a b : StoredObject) → ◌≡◌ {A = Result StoreError StoredObject} (ok a) (ok b) → a ≡ b
same_result a b h = cc

visited_again :
    (s : MemorySnapshot) (objects : Map ObjectId StoredObject) (id : ObjectId) (o : StoredObject)
    → AreVisible s objects
    → visible_object s id ≡ ok o
    → (Map.get id objects ≡ none) ⊎ (Map.get id objects ≡ some o)
visited_again s objects id o v h = elim (Option-cases (Map.get id objects)) [
  | inl n ↦ inl n
  | inr (o', e) ↦ let back = v id o' e in inr (e ∙ ap some (same_result o' o (sym back ∙ h)))
]

record Walked (s : MemorySnapshot) (objects : Map ObjectId StoredObject)
    (pending : List ReferenceEdge) (r : Map ObjectId StoredObject) : Type 0 where
  visible : AreVisible s r
  keeps : (id : ObjectId) (o : StoredObject) → Map.get id objects ≡ some o → Map.get id r ≡ some o
  reached : (edge : ReferenceEdge) → In edge pending → Found r edge
  closed :
      (id : ObjectId) (o : StoredObject)
      → Map.get id r ≡ some o
      → (Map.get id objects ≡ some o)
        ⊎ ((edge : ReferenceEdge) → In edge o.references → Found r edge)

abbrev after_visit :
    Map ObjectId StoredObject → ObjectId → StoredObject → List ReferenceEdge → List ReferenceEdge
after_visit objects id o pending =
    if Map.contains_key id objects then pending else reverse o.references ++ pending

after_visit-pending :
    (objects : Map ObjectId StoredObject) (id : ObjectId) (o : StoredObject)
    (pending : List ReferenceEdge) (edge : ReferenceEdge)
    → In edge pending
    → In edge (after_visit objects id o pending)
after_visit-pending objects id o pending edge m =
    ground (arith, In-append edge (reverse o.references) pending)

after_visit-first :
    (objects : Map ObjectId StoredObject) (id : ObjectId) (o : StoredObject)
    (pending : List ReferenceEdge)
    → Map.get id objects ≡ none
    → after_visit objects id o pending ≡ reverse o.references ++ pending
after_visit-first objects id o pending n = ground arith

after_visit-references :
    (objects : Map ObjectId StoredObject) (id : ObjectId) (o : StoredObject)
    (pending : List ReferenceEdge) (edge : ReferenceEdge)
    → Map.get id objects ≡ none
    → In edge o.references
    → In edge (after_visit objects id o pending)
after_visit-references objects id o pending edge n m =
    subst (In edge) (sym (after_visit-first objects id o pending n))
      ((In-append edge (reverse o.references) pending).1 (inl (In-reverse edge o.references m)))

insert-AreVisible :
    (s : MemorySnapshot) (objects : Map ObjectId StoredObject) (id : ObjectId) (o : StoredObject)
    → AreVisible s objects
    → visible_object s id ≡ ok o
    → AreVisible s (Map.insert id o objects)
insert-AreVisible s objects id o v h id' o' e = elim (Bool-cases (same id' id)) [
  | inl t ↦ ground (arith, get-insert id' id o objects, eq_of_same id' id)
  | inr f ↦ v id' o' (ground (arith, get-insert id' id o objects))
]

-- An object that is in the closure after a visit was there before, or is the visited one, for the
-- first time.
inserted :
    (objects : Map ObjectId StoredObject) (id : ObjectId) (o : StoredObject) (id' : ObjectId)
    (o' : StoredObject)
    → (Map.get id objects ≡ none) ⊎ (Map.get id objects ≡ some o)
    → Map.get id' (Map.insert id o objects) ≡ some o'
    → (Map.get id' objects ≡ some o') ⊎ (Map.get id objects ≡ none) × (o' ≡ o)
inserted objects id o id' o' b e = ground (arith, get-insert id' id o objects, eq_of_same id' id)

closure_loop-Walked :
    (fuel : ℕ) (s : MemorySnapshot) (objects : Map ObjectId StoredObject)
    (pending : List ReferenceEdge) (r : Map ObjectId StoredObject)
    → AreVisible s objects
    → closure_loop fuel s objects pending ≡ ok r
    → Walked s objects pending r
unfolding closure_loop
closure_loop-Walked fuel s objects [] r v h =
    subst (λ t. Walked s objects [] t) (ground arith)
      (record {
        visible = v;
        keeps = λ id o e. e;
        reached = λ edge m. absurd m;
        closed = λ id o e. inl e;
      })
closure_loop-Walked zero s objects (edge ∷ pending) r v h = cc
closure_loop-Walked (suc fuel) s objects (edge ∷ pending) r v h =
    let (o, of_o, h₁) = >>=-ok (closure_object s edge.id) _ h in
    let (kind, h₂) =
      ensure-ok (has_kind edge.expected_kind o.kind) (wrong_kind_error edge.expected_kind o.kind) _
        h₁ in
    let seen = closure_object-visible s edge.id o of_o in
    let before = visited_again s objects edge.id o v seen in
    let rest =
      closure_loop-Walked fuel s (Map.insert edge.id o objects)
        (after_visit objects edge.id o pending) r (insert-AreVisible s objects edge.id o v seen)
        h₂ in
    let here : Map.get edge.id r ≡ some o =
      rest.keeps edge.id o
        (ground (arith, get-insert edge.id edge.id o objects, same_refl edge.id)) in
    record {
      visible = rest.visible;
      keeps = λ id o' e.
          rest.keeps id o'
            (ground (arith, get-insert id edge.id o objects, eq_of_same id edge.id, before));
      reached = λ edge' m. elim m [
        | inl e ↦ subst (Found r) (sym e) (record { target = o; present = here; kind = kind })
        | inr m' ↦ rest.reached edge' (after_visit-pending objects edge.id o pending edge' m')
      ];
      closed = λ id o' e. elim (rest.closed id o' e) [
        | inl found ↦ elim (inserted objects edge.id o id o' before found) [
          | inl old ↦ inl old
          | inr (n, same) ↦ inr (λ edge' m. rest.reached edge' (
              after_visit-references objects edge.id o pending edge' n
                (subst (λ t. In edge' t.references) same m)))
        ]
        | inr all ↦ inr all
      ];
    }

nothing : (id : ObjectId) (o : StoredObject) → Map.get {K = ObjectId} id [] ≡ some o → ⊥
unfolding Map.get
nothing id o e = cc

-- What `closure_from` returns holds the target of every root and of every edge of its objects, each of
-- the kind that the edge expects, and nothing but visible objects.
pub closure_from_complete :
    (s : MemorySnapshot) (roots : List ReferenceEdge) (r : Map ObjectId StoredObject)
    → closure_from s roots ≡ ok r
    → AreVisible s r
      × ((edge : ReferenceEdge) → In edge roots → Found r edge)
      × ((id : ObjectId) (o : StoredObject) (edge : ReferenceEdge)
          → Map.get id r ≡ some o
          → In edge o.references
          → Found r edge)
unfolding closure_from
closure_from_complete s roots r h =
    let w = closure_loop-Walked _ s [] (reverse roots) r (λ id o e. absurd (nothing id o e)) h in
    (
      w.visible,
      λ edge m. w.reached edge (In-reverse edge roots m),
      λ id o edge e m. elim (w.closed id o e) [
        | inl n ↦ absurd (nothing id o n)
        | inr all ↦ all edge m
      ],
    )
