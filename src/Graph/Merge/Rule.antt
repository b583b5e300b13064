-- ===== src/Graph/Merge/Rule.antt =====
-- The merge at one path.
use rethinking_git.Base.{
  Option, none, some, List, [], ◌∷◌, ◌++◌, ◌≡◌, ◌≢◌, ◌↔◌, ◌⊎◌, inl, inr, refl, sym, subst,
  option_eq_iff, arith, append-nil, In,
}
use rethinking_git.Graph.Tree.{TreeEntry, entries-cases, TreeEntry-discrete}
use rethinking_git.Graph.Merge.{
  MergePlan, MergeConflict, merge_entry, conflict, push_entry, first_some,
}

abbrev pub empty_plan : MergePlan
empty_plan = record { merged_entries = []; conflicts = [] }

abbrev pub merged_at : Option TreeEntry → Option TreeEntry → Option TreeEntry → List TreeEntry
merged_at b l i = (merge_entry b l i empty_plan).merged_entries

abbrev pub conflicts_at :
    Option TreeEntry → Option TreeEntry → Option TreeEntry → List MergeConflict
conflicts_at b l i = (merge_entry b l i empty_plan).conflicts

-- The rule: what both sides agree on, or the side that changed when the other did not.
abbrev pub Takes : Option TreeEntry → Option TreeEntry → Option TreeEntry → TreeEntry → Type 0
Takes b l i e = (l ≡ some e) × (i ≡ some e) ⊎ (b ≡ l) × (i ≡ some e) ⊎ (b ≡ i) × (l ≡ some e)

-- The three sides differ pairwise.
abbrev pub Differ : Option TreeEntry → Option TreeEntry → Option TreeEntry → Type 0
Differ b l i = (l ≢ i) × (b ≢ l) × (b ≢ i)

-- The branches of the loop's body.
merge_entry-agree :
    (b l i : Option TreeEntry) (plan : MergePlan)
    → l ≡ i
    → merge_entry b l i plan ≡ push_entry l plan
unfolding merge_entry
merge_entry-agree b l i plan h = rw ((option_eq_iff TreeEntry-discrete l i).1 h)

merge_entry-unchanged_line :
    (b l i : Option TreeEntry) (plan : MergePlan)
    → l ≢ i
    → b ≡ l
    → merge_entry b l i plan ≡ push_entry i plan
unfolding merge_entry
merge_entry-unchanged_line b l i plan n h = ground (
  arith,
  option_eq_iff TreeEntry-discrete l i,
  option_eq_iff TreeEntry-discrete b l,
  option_eq_iff TreeEntry-discrete b i,
)

merge_entry-unchanged_incoming :
    (b l i : Option TreeEntry) (plan : MergePlan)
    → l ≢ i
    → b ≡ i
    → merge_entry b l i plan ≡ push_entry l plan
unfolding merge_entry
merge_entry-unchanged_incoming b l i plan n h = ground (
  arith,
  option_eq_iff TreeEntry-discrete l i,
  option_eq_iff TreeEntry-discrete b l,
  option_eq_iff TreeEntry-discrete b i,
)

some-source :
    (b l i : Option TreeEntry)
    → Differ b l i
    → (s : TreeEntry) × (first_some (first_some l i) b ≡ some s)
some-source b (some l) i d = (l, refl)
some-source b none (some i) d = (i, refl)
some-source b none none d = absurd (d.0 refl)

merge_entry-Differ :
    (b l i : Option TreeEntry) (plan : MergePlan) (d : Differ b l i)
    → merge_entry b l i plan ≡ record plan {
      conflicts = plan.conflicts ++ conflict (some-source b l i d).0.path b l i ∷ [];
    }
unfolding merge_entry
merge_entry-Differ b l i plan d = ground (
  arith,
  some-source b l i d,
  option_eq_iff TreeEntry-discrete l i,
  option_eq_iff TreeEntry-discrete b l,
  option_eq_iff TreeEntry-discrete b i,
)

-- The four cases that the body tells apart.
rule-cases :
    (b l i : Option TreeEntry) → (l ≡ i) ⊎ (l ≢ i) × (b ≡ l) ⊎ (l ≢ i) × (b ≡ i) ⊎ Differ b l i
rule-cases b l i = ground (arith, entries-cases l i, entries-cases b l, entries-cases b i)

push_entry-append :
    (o : Option TreeEntry) (plan : MergePlan)
    → push_entry o plan ≡ record {
      merged_entries = plan.merged_entries ++ (push_entry o empty_plan).merged_entries;
      conflicts = plan.conflicts ++ (push_entry o empty_plan).conflicts;
    }
push_entry-append none plan =
    ground (arith, append-nil plan.merged_entries, append-nil plan.conflicts)
push_entry-append (some e) plan = ground (arith, append-nil plan.conflicts)

push_entry-conflicts : (o : Option TreeEntry) → (push_entry o empty_plan).conflicts ≡ []
push_entry-conflicts none = refl
push_entry-conflicts (some e) = refl

In-push :
    (o : Option TreeEntry) (e : TreeEntry)
    → In e (push_entry o empty_plan).merged_entries ↔ (o ≡ some e)
In-push none e = (λ h. absurd h, λ h. cc)
In-push (some x) e = ground arith

-- The body only adds at the end of the two lists.
pub merge_entry-append :
    (b l i : Option TreeEntry) (plan : MergePlan)
    → merge_entry b l i plan ≡ record {
      merged_entries = plan.merged_entries ++ merged_at b l i;
      conflicts = plan.conflicts ++ conflicts_at b l i;
    }
merge_entry-append b l i plan = elim (rule-cases b l i) [
  | inl e ↦ ground (
    arith,
    merge_entry-agree b l i plan e,
    merge_entry-agree b l i empty_plan e,
    push_entry-append l plan,
  )
  | inr (inl (n, e)) ↦ ground (
    arith,
    merge_entry-unchanged_line b l i plan n e,
    merge_entry-unchanged_line b l i empty_plan n e,
    push_entry-append i plan,
  )
  | inr (inr (inl (n, e))) ↦ ground (
    arith,
    merge_entry-unchanged_incoming b l i plan n e,
    merge_entry-unchanged_incoming b l i empty_plan n e,
    push_entry-append l plan,
  )
  | inr (inr (inr d)) ↦ ground (
    arith,
    merge_entry-Differ b l i plan d,
    merge_entry-Differ b l i empty_plan d,
    append-nil plan.merged_entries,
  )
]

-- What a plan holds at a path whose rule has one entry to take.
In-merged :
    (b l i o : Option TreeEntry) (e : TreeEntry)
    → merge_entry b l i empty_plan ≡ push_entry o empty_plan
    → In e (merged_at b l i) ↔ (o ≡ some e)
In-merged b l i o e h = subst (λ p. In e p.merged_entries ↔ (o ≡ some e)) (sym h) (In-push o e)

pub merged_at-iff-Takes :
    (b l i : Option TreeEntry) (e : TreeEntry) → In e (merged_at b l i) ↔ Takes b l i e
merged_at-iff-Takes b l i e = elim (rule-cases b l i) [
  | inl h ↦ ground (arith, In-merged b l i l e (merge_entry-agree b l i empty_plan h))
  | inr (inl (n, h)) ↦
      ground (arith, In-merged b l i i e (merge_entry-unchanged_line b l i empty_plan n h))
  | inr (inr (inl (n, h))) ↦
      ground (arith, In-merged b l i l e (merge_entry-unchanged_incoming b l i empty_plan n h))
  | inr (inr (inr d)) ↦ (
    λ h. absurd (subst (λ p. In e p.merged_entries) (merge_entry-Differ b l i empty_plan d) h),
    λ t. ground arith,
  )
]

-- The record of a conflict, with the path of the first side that is there.
pub record Records (b l i : Option TreeEntry) (c : MergeConflict) : Type 0 where
  pub source : TreeEntry
  pub differ : Differ b l i
  pub first : first_some (first_some l i) b ≡ some source
  pub made : c ≡ conflict source.path b l i

no-conflicts :
    (b l i o : Option TreeEntry) (c : MergeConflict)
    → merge_entry b l i empty_plan ≡ push_entry o empty_plan
    → ¬ In c (conflicts_at b l i)
no-conflicts b l i o c h m =
    subst (λ t. In c t) (push_entry-conflicts o) (subst (λ p. In c p.conflicts) h m)

pub conflicts_at-iff-Records :
    (b l i : Option TreeEntry) (c : MergeConflict) → In c (conflicts_at b l i) ↔ Records b l i c
conflicts_at-iff-Records b l i c = elim (rule-cases b l i) [
  | inl h ↦ (
    λ m. absurd (no-conflicts b l i l c (merge_entry-agree b l i empty_plan h) m),
    λ r. absurd (r.differ.0 h),
  )
  | inr (inl (n, h)) ↦ (
    λ m. absurd (no-conflicts b l i i c (merge_entry-unchanged_line b l i empty_plan n h) m),
    λ r. absurd (r.differ.1 h),
  )
  | inr (inr (inl (n, h))) ↦ (
    λ m. absurd (no-conflicts b l i l c (merge_entry-unchanged_incoming b l i empty_plan n h) m),
    λ r. absurd (r.differ.2 h),
  )
  | inr (inr (inr d)) ↦
      let (s, e) = some-source b l i d in
      let here = merge_entry-Differ b l i empty_plan d in
      (
        λ m. record {
          source = s;
          differ = d;
          first = e;
          made = elim (subst (λ p. In c p.conflicts) here m) [ inl q ↦ q | inr f ↦ absurd f ];
        },
        λ r. subst (λ p. In c p.conflicts) (sym here) (inl (ground (arith, r.made, r.first, e))),
      )
]
