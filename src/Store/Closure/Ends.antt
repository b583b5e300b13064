-- ===== src/Store/Closure/Ends.antt =====
-- The loop of a closure ends within its fuel.
use mathlib.Core.List.{reverse, reverse_aux}
use rethinking_git.Base.{
  ℕ, zero, suc, ◌+◌, ◌≤◌, Bool, true, false, List, [], ◌∷◌, ◌++◌, ◌≡◌, ◌≢◌, inl, inr, refl, some,
  Result, ok, err, arith, ensure, ◌>>=◌, if◌then◌else◌, Bool-cases, length, length-append,
}
use rethinking_git.Base.Order.{same, same_refl, eq_of_same}
use rethinking_git.Base.Map
use rethinking_git.Base.Map.{Map, get-insert}
use rethinking_git.Objects.Id.{ObjectId}
use rethinking_git.Objects.Reference.{id_ord, ReferenceEdge}
use rethinking_git.Store.Model.{StoreError, StoredObject, MemorySnapshot, out_of_fuel}
use rethinking_git.Store.Memory.{visible_object}
use rethinking_git.Store.Closure.{
  closure_object, has_kind, closure_loop, closure_from, wrong_kind_error, count_references,
}

-- The edges of the objects that are not visited yet.
unvisited : Map ObjectId StoredObject → Map ObjectId StoredObject → ℕ
unvisited [] objects = 0
unvisited ((id, o) ∷ stored) objects =
    if Map.contains_key id objects
    then unvisited stored objects
    else length o.references + unvisited stored objects

contains_key-insert :
    (j id : ObjectId) (o : StoredObject) (objects : Map ObjectId StoredObject)
    → Map.contains_key j (Map.insert id o objects)
      ≡ (if same j id then true else Map.contains_key j objects)
contains_key-insert j id o objects = ground (arith, get-insert j id o objects)

unvisited-insert :
    (stored objects : Map ObjectId StoredObject) (id : ObjectId) (o : StoredObject)
    → unvisited stored (Map.insert id o objects) ≤ unvisited stored objects
unfolding unvisited
unvisited-insert [] objects id o = omega arith
unvisited-insert ((j, w) ∷ stored) objects id o =
    ground (arith, contains_key-insert j id o objects, unvisited-insert stored objects id o)

unvisited-first :
    (stored objects : Map ObjectId StoredObject) (id : ObjectId) (o : StoredObject)
    → Map.contains_key id objects ≡ false
    → Map.get id stored ≡ some o
    → unvisited stored (Map.insert id o objects) + length o.references ≤ unvisited stored objects
unfolding unvisited Map.get
unvisited-first [] objects id o n h = cc
unvisited-first ((j, w) ∷ stored) objects id o n h = ground (
  arith,
  contains_key-insert j id o objects,
  eq_of_same id j,
  same_refl j,
  eq_of_same j id,
  unvisited-insert stored objects id o,
  unvisited-first stored objects id o,
)

unvisited-all : (stored : Map ObjectId StoredObject) → unvisited stored [] ≡ count_references stored
unfolding unvisited count_references Map.get
unvisited-all [] = refl
unvisited-all ((id, o) ∷ stored) = ground (arith, unvisited-all stored)

length-reverse_aux :
    {A : Type 0} (xs acc : List A) → length (reverse_aux xs acc) ≡ length xs + length acc
length-reverse_aux [] acc = omega arith
length-reverse_aux (x ∷ xs) acc = ground (arith, length-reverse_aux xs (x ∷ acc))

length-reverse : {A : Type 0} (xs : List A) → length (reverse xs) ≡ length xs
length-reverse xs = ground (arith, length-reverse_aux xs [])

closure_object-stored :
    (s : MemorySnapshot) (id : ObjectId) (o : StoredObject)
    → closure_object s id ≡ ok o
    → Map.get id s.objects ≡ some o
unfolding closure_object visible_object
closure_object-stored s id o h = ground arith

closure_object-ends : (s : MemorySnapshot) (id : ObjectId) → closure_object s id ≢ err out_of_fuel
unfolding closure_object visible_object
closure_object-ends s id h = ground arith

-- The first error of a chain.
>>=-ends :
    {A B : Type 0} (m : Result StoreError A) (f : A → Result StoreError B)
    → m ≢ err out_of_fuel
    → ((a : A) → m ≡ ok a → f a ≢ err out_of_fuel)
    → (m >>= f) ≢ err out_of_fuel
>>=-ends (ok a) f n k = k a refl
>>=-ends (err e) f n k = λ h. n (ground arith)

next_pending :
    (stored objects : Map ObjectId StoredObject) (id : ObjectId) (o : StoredObject)
    (pending : List ReferenceEdge) (fuel : ℕ)
    → Map.get id stored ≡ some o
    → unvisited stored objects + suc (length pending) ≤ suc fuel
    → unvisited stored (Map.insert id o objects)
        + length (if Map.contains_key id objects then pending else reverse o.references ++ pending)
      ≤ fuel
next_pending stored objects id o pending fuel e h =
    elim (Bool-cases (Map.contains_key id objects)) [
      | inl t ↦ ground (arith, t, unvisited-insert stored objects id o)
      | inr f ↦ ground (
        arith,
        f,
        unvisited-first stored objects id o f e,
        length-append (reverse o.references) pending,
        length-reverse o.references,
      )
    ]

kind_ends :
    (t : Bool) (s : MemorySnapshot) (edge : ReferenceEdge) (o : StoredObject)
    → ensure t (wrong_kind_error edge.expected_kind o.kind) ≢ err out_of_fuel
kind_ends t s edge o h = ground arith

closure_loop-ends :
    (fuel : ℕ) (s : MemorySnapshot) (objects : Map ObjectId StoredObject)
    (pending : List ReferenceEdge)
    → unvisited s.objects objects + length pending ≤ fuel
    → closure_loop fuel s objects pending ≢ err out_of_fuel
unfolding closure_loop
closure_loop-ends fuel s objects [] h = λ e. cc
closure_loop-ends zero s objects (edge ∷ pending) h = λ e. omega arith
closure_loop-ends (suc fuel) s objects (edge ∷ pending) h =
    >>=-ends (closure_object s edge.id) _ (closure_object-ends s edge.id) λ o e.
      >>=-ends
        (ensure (has_kind edge.expected_kind o.kind) (wrong_kind_error edge.expected_kind o.kind)) _
        (kind_ends (has_kind edge.expected_kind o.kind) s edge o)
        λ _ _. closure_loop-ends fuel s (Map.insert edge.id o objects) _ (
          next_pending s.objects objects edge.id o pending fuel
            (closure_object-stored s edge.id o e) h)

-- The fuel of `closure_from` is enough, for every state and all roots.
pub closure_from-ends :
    (s : MemorySnapshot) (roots : List ReferenceEdge) → closure_from s roots ≢ err out_of_fuel
unfolding closure_from
closure_from-ends s roots =
    closure_loop-ends _ s [] (reverse roots)
      (ground (arith, unvisited-all s.objects, length-reverse roots))
