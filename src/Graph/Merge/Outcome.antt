-- ===== src/Graph/Merge/Outcome.antt =====
-- What a merge that succeeds returns, in terms of its inputs.
use rethinking_git.Base.{
  Option, none, List, ◌≡◌, ◌≢◌, ◌↔◌, ◌⊎◌, sym, subst, ap, ◌∙◌, ok, >>=-ok, arith, In, In-flat_map,
  ℕ,
}
use rethinking_git.Base.Order.{nat_ord, list_ord}
use rethinking_git.Base.Map
use rethinking_git.Base.Map.{Map}
use rethinking_git.Graph.Tree.{TreeEntry, PathKey}
use rethinking_git.Graph.Merge.{
  MergePlan, MergeConflict, base, line, incoming, merged_result, entries_by_path, merge_three_way,
  merge_loop, all_paths, conflict,
}
use rethinking_git.Graph.Merge.Rule.{
  Takes, Records, empty_plan, merged_at-iff-Takes, conflicts_at-iff-Records,
}
use rethinking_git.Graph.Merge.Loop.{
  at, at-path, get-entries_by_path, merged_of, conflicts_of, merge_loop-flat_map, In-all_paths,
}

module _ (fold : List ℕ → List ℕ) (bs ls is : List TreeEntry) where
  -- The maps of a merge that succeeds.
  pub record Inputs (plan : MergePlan) : Type 0 where
    pub b : Map PathKey TreeEntry
    pub l : Map PathKey TreeEntry
    pub i : Map PathKey TreeEntry
    pub of_base : entries_by_path fold base bs ≡ ok b
    pub of_line : entries_by_path fold line ls ≡ ok l
    pub of_incoming : entries_by_path fold incoming is ≡ ok i
    pub merged : Map PathKey TreeEntry
    pub of_merged : entries_by_path fold merged_result plan.merged_entries ≡ ok merged
    pub result : merge_loop b l i (all_paths b l i) empty_plan ≡ plan

  pub inputs : (plan : MergePlan) → merge_three_way fold bs ls is ≡ ok plan → Inputs plan
  unfolding merge_three_way
  inputs plan h =
      let (b, of_base, h₁) = >>=-ok (entries_by_path fold base bs) _ h in
      let (l, of_line, h₂) = >>=-ok (entries_by_path fold line ls) _ h₁ in
      let (i, of_incoming, h₃) = >>=-ok (entries_by_path fold incoming is) _ h₂ in
      let p = merge_loop b l i (all_paths b l i) empty_plan in
      let (m, of_merged, h₄) = >>=-ok (entries_by_path fold merged_result p.merged_entries) _ h₃ in
      let result : p ≡ plan = ground arith in
      record {
        b = b;
        l = l;
        i = i;
        of_base = of_base;
        of_line = of_line;
        of_incoming = of_incoming;
        merged = m;
        of_merged =
            subst (λ q. entries_by_path fold merged_result q.merged_entries ≡ ok m) result
              of_merged;
        result = result;
      }

  In-merged_entries :
      (plan : MergePlan) (s : Inputs plan) (e : TreeEntry)
      → In e plan.merged_entries
        ↔ ((k : PathKey) × In k (all_paths s.b s.l s.i) × In e (merged_of s.b s.l s.i k))
  In-merged_entries plan s e =
      let loop = merge_loop-flat_map s.b s.l s.i (all_paths s.b s.l s.i) empty_plan in
      subst
        (λ t.
          In e t ↔ ((k : PathKey) × In k (all_paths s.b s.l s.i) × In e (merged_of s.b s.l s.i k)))
        (ap (λ p. p.merged_entries) (sym loop ∙ s.result))
        (In-flat_map (merged_of s.b s.l s.i) e (all_paths s.b s.l s.i))

  In-conflicts :
      (plan : MergePlan) (s : Inputs plan) (c : MergeConflict)
      → In c plan.conflicts
        ↔ ((k : PathKey) × In k (all_paths s.b s.l s.i) × In c (conflicts_of s.b s.l s.i k))
  In-conflicts plan s c =
      let loop = merge_loop-flat_map s.b s.l s.i (all_paths s.b s.l s.i) empty_plan in
      subst
        (λ t.
          In c t
          ↔ ((k : PathKey) × In k (all_paths s.b s.l s.i) × In c (conflicts_of s.b s.l s.i k)))
        (ap (λ p. p.conflicts) (sym loop ∙ s.result))
        (In-flat_map (conflicts_of s.b s.l s.i) c (all_paths s.b s.l s.i))

  -- The maps read as the inputs.
  at_base : (plan : MergePlan) (s : Inputs plan) (k : PathKey) → Map.get k s.b ≡ at k bs
  at_base plan s k = get-entries_by_path fold base bs s.b k s.of_base

  at_line : (plan : MergePlan) (s : Inputs plan) (k : PathKey) → Map.get k s.l ≡ at k ls
  at_line plan s k = get-entries_by_path fold line ls s.l k s.of_line

  at_incoming : (plan : MergePlan) (s : Inputs plan) (k : PathKey) → Map.get k s.i ≡ at k is
  at_incoming plan s k = get-entries_by_path fold incoming is s.i k s.of_incoming

  Takes-path : (k : PathKey) (e : TreeEntry) → Takes (at k bs) (at k ls) (at k is) e → k ≡ e.path
  Takes-path k e t = ground (arith, at-path k ls e, at-path k is e)

  Takes-read :
      (plan : MergePlan) (s : Inputs plan) (k : PathKey) (e : TreeEntry)
      → Takes (Map.get k s.b) (Map.get k s.l) (Map.get k s.i) e
        ↔ Takes (at k bs) (at k ls) (at k is) e
  Takes-read plan s k e =
      rw (at_base plan s k, at_line plan s k, at_incoming plan s k) (λ t. t, λ t. t)

  Takes-some :
      (b l i : Option TreeEntry) (e : TreeEntry)
      → Takes b l i e
      → (b ≢ none) ⊎ (l ≢ none) ⊎ (i ≢ none)
  Takes-some b l i e t = ground arith

  -- An entry is in the plan exactly if the three-way rule takes it at its path.
  pub merge-Takes :
      (plan : MergePlan) (e : TreeEntry)
      → merge_three_way fold bs ls is ≡ ok plan
      → In e plan.merged_entries ↔ Takes (at e.path bs) (at e.path ls) (at e.path is) e
  merge-Takes plan e h =
      let s = inputs plan h in
      (
        λ m.
            let (k, _, n) = (In-merged_entries plan s e).0 m in
            let t = (merged_at-iff-Takes (Map.get k s.b) (Map.get k s.l) (Map.get k s.i) e).0 n in
            let t' = (Takes-read plan s k e).0 t in
            subst (λ x. Takes (at x bs) (at x ls) (at x is) e) (Takes-path k e t') t',
        λ t.
            let t' = (Takes-read plan s e.path e).1 t in
            (In-merged_entries plan s e).1 (
              e.path,
              (In-all_paths s.b s.l s.i e.path).1 (Takes-some _ _ _ e t'),
              (merged_at-iff-Takes (Map.get e.path s.b) (Map.get e.path s.l) (Map.get e.path s.i)
                    e).1
                  t',
            ),
      )

  Records-path :
      (k : PathKey) (c : MergeConflict) → Records (at k bs) (at k ls) (at k is) c → k ≡ c.path
  unfolding conflict
  Records-path k c r =
      ground (
        arith,
        r.first,
        r.made,
        at-path k ls r.source,
        at-path k is r.source,
        at-path k bs r.source,
      )

  Records-read :
      (plan : MergePlan) (s : Inputs plan) (k : PathKey) (c : MergeConflict)
      → Records (Map.get k s.b) (Map.get k s.l) (Map.get k s.i) c
        ↔ Records (at k bs) (at k ls) (at k is) c
  Records-read plan s k c =
      rw (at_base plan s k, at_line plan s k, at_incoming plan s k) (λ t. t, λ t. t)

  Records-some :
      (b l i : Option TreeEntry) (c : MergeConflict)
      → Records b l i c
      → (b ≢ none) ⊎ (l ≢ none) ⊎ (i ≢ none)
  Records-some b l i c r = ground (arith, r.first)

  -- A conflict is in the plan exactly if the three inputs differ pairwise at its path, and it is the
  -- record of these three sides.
  pub merge-conflicts :
      (plan : MergePlan) (c : MergeConflict)
      → merge_three_way fold bs ls is ≡ ok plan
      → In c plan.conflicts ↔ Records (at c.path bs) (at c.path ls) (at c.path is) c
  merge-conflicts plan c h =
      let s = inputs plan h in
      (
        λ m.
            let (k, _, n) = (In-conflicts plan s c).0 m in
            let t =
              (conflicts_at-iff-Records (Map.get k s.b) (Map.get k s.l) (Map.get k s.i) c).0 n in
            let t' = (Records-read plan s k c).0 t in
            subst (λ x. Records (at x bs) (at x ls) (at x is) c) (Records-path k c t') t',
        λ t.
            let t' = (Records-read plan s c.path c).1 t in
            (In-conflicts plan s c).1 (
              c.path,
              (In-all_paths s.b s.l s.i c.path).1 (Records-some _ _ _ c t'),
              (conflicts_at-iff-Records (Map.get c.path s.b) (Map.get c.path s.l)
                    (Map.get c.path s.i) c).1
                  t',
            ),
      )
