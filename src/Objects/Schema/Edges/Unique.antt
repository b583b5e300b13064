-- ===== src/Objects/Schema/Edges/Unique.antt =====
-- The last loop of `references`.
use mathlib.Core.Bool.{true, false}
use rethinking_git.Base.{
  List, [], ◌∷◌, ◌++◌, ok, ◌≡◌, refl, ◌⊎◌, inl, inr, ◌↔◌, In, In-append, Distinct, Distinct-snoc,
  list_contains, list_contains-iff-In, subst, >>=-ok, arith, Bool-cases, sym,
}
use rethinking_git.Objects.Canonical.{Value}
use rethinking_git.Objects.Reference.{ObjectKind, ReferenceEdge}
use rethinking_git.Objects.Schema.Edges.{
  ReferenceEdge-discrete, keep_unique, pushed_edges, references,
}

known :
    (edge : ReferenceEdge) (unique edges : List ReferenceEdge)
    → list_contains ReferenceEdge-discrete edge unique ≡ true
    → keep_unique unique (edge ∷ edges) ≡ keep_unique unique edges
unfolding keep_unique
known edge unique edges h = rw (keep_unique, h) refl

added :
    (edge : ReferenceEdge) (unique edges : List ReferenceEdge)
    → list_contains ReferenceEdge-discrete edge unique ≡ false
    → keep_unique unique (edge ∷ edges) ≡ keep_unique (unique ++ edge ∷ []) edges
unfolding keep_unique
added edge unique edges h = ground (arith, h)

moved :
    (edge e : ReferenceEdge) (unique : List ReferenceEdge) → e ≡ edge → In edge unique → In e unique
moved edge e unique h m = subst (λ x. In x unique) (sym h) m

-- What `keep_unique` keeps.
abbrev Kept : List ReferenceEdge → List ReferenceEdge → List ReferenceEdge → Type 0
Kept unique edges kept =
    Distinct kept × ((e : ReferenceEdge) → In e kept ↔ (In e unique ⊎ In e edges))

keep_unique-Kept :
    (unique edges : List ReferenceEdge)
    → Distinct unique
    → Kept unique edges (keep_unique unique edges)
unfolding keep_unique
keep_unique-Kept unique [] d = (d, λ e. (λ m. inl m, λ o. elim o [ inl m ↦ m | inr m ↦ absurd m ]))
keep_unique-Kept unique (edge ∷ edges) d =
    let member = list_contains-iff-In ReferenceEdge-discrete edge unique in
    elim (Bool-cases (list_contains ReferenceEdge-discrete edge unique)) [
      | inl c ↦
          let (one, all) = keep_unique-Kept unique edges d in
          subst (Kept unique (edge ∷ edges)) (sym (known edge unique edges c))
            (one, λ e. ground (arith, all e, moved edge e unique, member.0 c))
      | inr c ↦
          let fresh = Distinct-snoc edge unique (λ m. ground (arith, member.1 m)) d in
          let (one, all) = keep_unique-Kept (unique ++ edge ∷ []) edges fresh in
          subst (Kept unique (edge ∷ edges)) (sym (added edge unique edges c))
            (one, λ e. ground (arith, all e, In-append e unique (edge ∷ [])))
    ]

-- The references are the edges that are pushed, each of them once.
pub references-Distinct :
    (kind : ObjectKind) (value : Value) (edges : List ReferenceEdge)
    → references kind value ≡ ok edges
    → Distinct edges
      × ((out : List ReferenceEdge) × (pushed_edges kind value ≡ ok out)
          × ((e : ReferenceEdge) → In e edges ↔ In e out))
unfolding references
references-Distinct kind value edges h =
    let (out, p, q) = >>=-ok (pushed_edges kind value) _ h in
    let e : keep_unique [] out ≡ edges = ground arith in
    (
      subst Distinct e (keep_unique-Kept [] out tt).0,
      (
        out,
        p,
        λ x. subst (λ es. In x es ↔ In x out) e (ground (arith, (keep_unique-Kept [] out tt).1 x)),
      ),
    )
