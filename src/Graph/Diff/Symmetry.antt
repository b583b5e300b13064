-- ===== src/Graph/Diff/Symmetry.antt =====
-- A diff read backwards, hidden changes, and what hidden entries cannot influence.
use rethinking_git.Base.{
  Option, none, some, List, [], ◌∷◌, ◌++◌, ◌≡◌, ◌≢◌, ◌↔◌, ◌⊎◌, inl, inr, refl, sym, ap, ap₂, ◌∙◌,
  ok, arith, In, Option-cases, flat_map, ◌<◌, ◌^◌, option_eq_iff,
}
use rethinking_git.Base.Order.{nat_ord, list_ord}
use rethinking_git.Base.Map
use rethinking_git.Base.Map.{Map, keys, contains-keys}
use rethinking_git.Base.Set
use rethinking_git.Base.Set.{
  contains-from_list, contains-iff-In, contains-append, from_list-append_comm,
}
use rethinking_git.Graph.Tree.{
  TreeEntry, PathKey, ObjectId-discrete, TreeEntry-discrete, entries-cases,
}
use rethinking_git.Graph.Diff.{
  DiffInput, FileDiff, OpaqueEntryId, diff, diff_entry, diff_loop, count_changed,
}
use rethinking_git.Graph.Diff.Correct.{
  empty_diff, single, at, diff_loop-flat_map, IsKeyed, visible_paths, changed, diff-ok,
}

single-swap_added : (b a : Option TreeEntry) → (single a b).added ≡ (single b a).deleted
unfolding diff_entry
single-swap_added none none = refl
single-swap_added none (some a) = refl
single-swap_added (some b) none = refl
single-swap_added (some b) (some a) = elim (entries-cases (some b) (some a)) [
  | inl e ↦ rw (
    (option_eq_iff TreeEntry-discrete (some b) (some a)).1 e,
    (option_eq_iff TreeEntry-discrete (some a) (some b)).1 (sym e),
  )
  | inr n ↦ ground (arith, option_eq_iff TreeEntry-discrete (some b) (some a))
]

single-swap_modified :
    (b a : Option TreeEntry)
    → ((x y : TreeEntry) → b ≡ some x → a ≡ some y → x.path ≡ y.path)
    → (single a b).modified ≡ (single b a).modified
unfolding diff_entry
single-swap_modified none none h = refl
single-swap_modified none (some a) h = refl
single-swap_modified (some b) none h = refl
single-swap_modified (some b) (some a) h = ground (
  arith,
  h b a refl refl,
  option_eq_iff TreeEntry-discrete (some b) (some a),
  option_eq_iff TreeEntry-discrete (some a) (some b),
)

flat_map-ext :
    {A B : Type 0} (f g : A → List B) (xs : List A)
    → ((x : A) → f x ≡ g x)
    → flat_map f xs ≡ flat_map g xs
unfolding flat_map
flat_map-ext f g [] h = refl
flat_map-ext f g (x ∷ xs) h = ap₂ (λ s t. s ++ t) (h x) (flat_map-ext f g xs h)

count_changed-swap :
    (p c : DiffInput) (ids : List OpaqueEntryId) → count_changed c p ids ≡ count_changed p c ids
unfolding count_changed
count_changed-swap p c [] = refl
count_changed-swap p c (id ∷ ids) = ground (
  arith,
  option_eq_iff ObjectId-discrete (Map.get id p.opaque) (Map.get id c.opaque),
  option_eq_iff ObjectId-discrete (Map.get id c.opaque) (Map.get id p.opaque),
  count_changed-swap p c ids,
)

changed-swap : (p c : DiffInput) → changed c p ≡ changed p c
unfolding changed
changed-swap p c =
    rw (from_list-append_comm (keys c.opaque) (keys p.opaque)) (count_changed-swap p c _)

diff-made :
    (p c : DiffInput)
    → changed p c < 2 ^ 64
    → diff p c
      ≡ ok (record (diff_loop p c (visible_paths p c) empty_diff) { opaque_changed = changed p c })
unfolding diff visible_paths changed
diff-made p c h = ground arith

-- Comparing in the other direction swaps the added and the deleted paths and keeps the rest.
pub diff-swap :
    (p c : DiffInput) (r : FileDiff)
    → IsKeyed p
    → IsKeyed c
    → diff p c ≡ ok r
    → diff c p ≡ ok (record r { added = r.deleted; deleted = r.added })
diff-swap p c r kp kc done =
    let (whole, small) = diff-ok p c r done in
    let paths : visible_paths c p ≡ visible_paths p c =
      unfold visible_paths in from_list-append_comm (keys c.visible) (keys p.visible) in
    let count : changed c p ≡ changed p c = changed-swap p c in
    let loop = diff_loop-flat_map p c (visible_paths p c) empty_diff in
    let back = diff_loop-flat_map c p (visible_paths p c) empty_diff in
    let added =
      flat_map-ext (λ k. (at c p k).added) (λ k. (at p c k).deleted) (visible_paths p c)
        (λ k. single-swap_added (Map.get k p.visible) (Map.get k c.visible)) in
    let deleted =
      flat_map-ext (λ k. (at c p k).deleted) (λ k. (at p c k).added) (visible_paths p c)
        (λ k. sym (single-swap_added (Map.get k c.visible) (Map.get k p.visible))) in
    let modified =
      flat_map-ext (λ k. (at c p k).modified) (λ k. (at p c k).modified) (visible_paths p c)
        (λ k.
          single-swap_modified (Map.get k p.visible) (Map.get k c.visible)
            (λ x y ex ey. sym (kp.keyed k x ex) ∙ kc.keyed k y ey)) in
    diff-made c p (rw count small)
    ∙ (rw (paths, count) (ground (arith, whole, loop, back, added, deleted, modified)))

count_changed-zero :
    (p c : DiffInput) (ids : List OpaqueEntryId) (id : OpaqueEntryId)
    → count_changed p c ids ≡ 0
    → In id ids
    → Map.get id p.opaque ≡ Map.get id c.opaque
unfolding count_changed
count_changed-zero p c [] id z m = absurd m
count_changed-zero p c (x ∷ ids) id z m = ground (
  arith,
  option_eq_iff ObjectId-discrete (Map.get x p.opaque) (Map.get x c.opaque),
  count_changed-zero p c ids id,
)

count_changed-same :
    (p c : DiffInput) (ids : List OpaqueEntryId)
    → ((id : OpaqueEntryId) → Map.get id p.opaque ≡ Map.get id c.opaque)
    → count_changed p c ids ≡ 0
unfolding count_changed
count_changed-same p c [] h = refl
count_changed-same p c (x ∷ ids) h = ground (
  arith,
  option_eq_iff ObjectId-discrete (Map.get x p.opaque) (Map.get x c.opaque),
  h x,
  count_changed-same p c ids h,
)

In-opaque_ids :
    (p c : DiffInput) (k : OpaqueEntryId)
    → In k (Set.from_list (keys p.opaque ++ keys c.opaque))
      ↔ ((Map.get k p.opaque ≢ none) ⊎ (Map.get k c.opaque ≢ none))
In-opaque_ids p c k = ground (
  arith,
  contains-iff-In k (Set.from_list (keys p.opaque ++ keys c.opaque)),
  contains-from_list k (keys p.opaque ++ keys c.opaque),
  contains-append k (keys p.opaque) (keys c.opaque),
  contains-keys k p.opaque,
  contains-keys k c.opaque,
)

-- The count of hidden changes is 0 exactly if both views give every hidden identity the same
-- fingerprint, or give it none.
pub diff-opaque_zero :
    (p c : DiffInput) (r : FileDiff)
    → diff p c ≡ ok r
    → (r.opaque_changed ≡ 0) ↔ ((id : OpaqueEntryId) → Map.get id p.opaque ≡ Map.get id c.opaque)
unfolding changed
diff-opaque_zero p c r done =
    let count : r.opaque_changed ≡ changed p c =
      ap (λ d. d.opaque_changed) (diff-ok p c r done).0 in
    (
      λ z id. elim (Option-cases (Map.get id p.opaque)) [
        | inl a ↦ elim (Option-cases (Map.get id c.opaque)) [
          | inl b ↦ a ∙ sym b
          | inr (y, b) ↦
              count_changed-zero p c _ id (sym count ∙ z) ((In-opaque_ids p c id).1 (inr (λ q. cc)))
        ]
        | inr (x, a) ↦
            count_changed-zero p c _ id (sym count ∙ z) ((In-opaque_ids p c id).1 (inl (λ q. cc)))
      ],
      λ h. count ∙ count_changed-same p c _ h,
    )

diff_loop-visible :
    (p c p' c' : DiffInput)
    → p.visible ≡ p'.visible
    → c.visible ≡ c'.visible
    → (ks : List PathKey) (r : FileDiff) → diff_loop p c ks r ≡ diff_loop p' c' ks r
unfolding diff_loop
diff_loop-visible p c p' c' hp hc [] r = refl
diff_loop-visible p c p' c' hp hc (k ∷ ks) r = rw (hp, hc) (diff_loop-visible p c p' c' hp hc ks _)

-- Hidden entries do not show in the lists: views with the same visible entries give the same paths,
-- whatever their hidden entries are.
pub diff-hides :
    (p c p' c' : DiffInput) (r r' : FileDiff)
    → p.visible ≡ p'.visible
    → c.visible ≡ c'.visible
    → diff p c ≡ ok r
    → diff p' c' ≡ ok r'
    → (r.added ≡ r'.added) × (r.modified ≡ r'.modified) × (r.deleted ≡ r'.deleted)
diff-hides p c p' c' r r' hp hc done done' =
    let paths : visible_paths p c ≡ visible_paths p' c' =
      unfold visible_paths in ap₂ (λ a b. Set.from_list (keys a ++ keys b)) hp hc in
    let loops =
      diff_loop-visible p c p' c' hp hc (visible_paths p c) empty_diff
      ∙ ap (λ ks. diff_loop p' c' ks empty_diff) paths in
    let left = (diff-ok p c r done).0 in
    let right = (diff-ok p' c' r' done').0 in
    (
      ap (λ d. d.added) left ∙ ap (λ d. d.added) loops ∙ sym (ap (λ d. d.added) right),
      ap (λ d. d.modified) left ∙ ap (λ d. d.modified) loops ∙ sym (ap (λ d. d.modified) right),
      ap (λ d. d.deleted) left ∙ ap (λ d. d.deleted) loops ∙ sym (ap (λ d. d.deleted) right),
    )
