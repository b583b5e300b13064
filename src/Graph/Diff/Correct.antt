-- ===== src/Graph/Diff/Correct.antt =====
-- What a diff lists, and its symmetry.
use mathlib.Core.Logic.{⊎_elim}
use rethinking_git.Base.{
  Option, none, some, List, [], ◌∷◌, ◌++◌, ◌≡◌, ◌≢◌, ◌↔◌, ◌⊎◌, inl, inr, refl, sym, subst, ◌∙◌, ok,
  err, >>=-ok, ◌>>=◌, arith, append-nil, append_assoc, In, Option-cases, Bool-cases, flat_map,
  In-flat_map, ℕ, ◌<◌, ◌^◌, option_eq_iff,
}
use rethinking_git.Base.Order.{nat_ord, list_ord, eq_of_same}
use rethinking_git.Base.Map
use rethinking_git.Base.Map.{Map, keys, get-insert, contains-keys}
use rethinking_git.Base.Set
use rethinking_git.Base.Set.{
  contains-from_list, contains-iff-In, contains-append, from_list-append_comm,
}
use rethinking_git.Graph.Tree.{
  TreeEntry, PathKey, PortablePath, path_key, entries_eq, entries-cases, TreeEntry-discrete,
  first_portable_collision,
}
use rethinking_git.Graph.Diff.{
  DiffInput, FileDiff, diff, diff_entry, diff_loop, diff_input, count_changed, insert_visible,
  insert_opaque, OpaqueEntry, portable_path_collision,
}

abbrev pub empty_diff : FileDiff
empty_diff = record { added = []; modified = []; deleted = []; opaque_changed = 0 }

abbrev pub single : Option TreeEntry → Option TreeEntry → FileDiff
single before after = diff_entry before after empty_diff

diff_entry-append :
    (before after : Option TreeEntry) (r : FileDiff)
    → diff_entry before after r ≡ record r {
      added = r.added ++ (single before after).added;
      modified = r.modified ++ (single before after).modified;
      deleted = r.deleted ++ (single before after).deleted;
    }
unfolding diff_entry
diff_entry-append none none r =
    ground (arith, append-nil r.added, append-nil r.modified, append-nil r.deleted)
diff_entry-append none (some a) r = ground (arith, append-nil r.modified, append-nil r.deleted)
diff_entry-append (some b) none r = ground (arith, append-nil r.added, append-nil r.modified)
diff_entry-append (some b) (some a) r = elim (Bool-cases (entries_eq (some b) (some a))) [
  | inl e ↦ rw e (ground (arith, append-nil r.added, append-nil r.modified, append-nil r.deleted))
  | inr e ↦ rw e (ground (arith, append-nil r.added, append-nil r.deleted))
]

module _ (p c : DiffInput) where
  abbrev pub at : PathKey → FileDiff
  at k = single (Map.get k p.visible) (Map.get k c.visible)

  pub diff_loop-flat_map :
      (ks : List PathKey) (r : FileDiff)
      → diff_loop p c ks r ≡ record r {
        added = r.added ++ flat_map (λ k. (at k).added) ks;
        modified = r.modified ++ flat_map (λ k. (at k).modified) ks;
        deleted = r.deleted ++ flat_map (λ k. (at k).deleted) ks;
      }
  unfolding diff_loop flat_map
  diff_loop-flat_map [] r =
      ground (arith, append-nil r.added, append-nil r.modified, append-nil r.deleted)
  diff_loop-flat_map (k ∷ ks) r =
      let next = diff_entry (Map.get k p.visible) (Map.get k c.visible) r in
      ground (
        arith,
        diff_entry-append (Map.get k p.visible) (Map.get k c.visible) r,
        diff_loop-flat_map ks next,
        append_assoc r.added (at k).added (flat_map (λ x. (at x).added) ks),
        append_assoc r.modified (at k).modified (flat_map (λ x. (at x).modified) ks),
        append_assoc r.deleted (at k).deleted (flat_map (λ x. (at x).deleted) ks),
      )

-- Every entry of a view stands under its own path.
pub record IsKeyed (d : DiffInput) : Type 0 where
  pub keyed : (k : PathKey) (e : TreeEntry) → Map.get k d.visible ≡ some e → k ≡ e.path

insert_visible-keyed :
    (es : List TreeEntry) (m m' : Map PathKey TreeEntry)
    → ((k : PathKey) (e : TreeEntry) → Map.get k m ≡ some e → k ≡ e.path)
    → insert_visible es m ≡ ok m'
    → (k : PathKey) (e : TreeEntry) → Map.get k m' ≡ some e
    → k ≡ e.path
unfolding insert_visible
insert_visible-keyed [] m m' keyed h k e g = keyed k e (ground arith)
insert_visible-keyed (x ∷ es) m m' keyed h k e g = elim (Option-cases (Map.get (path_key x) m)) [
  | inl fresh ↦
      insert_visible-keyed es (Map.insert (path_key x) x m) m'
        (λ j y q.
          ground (arith, get-insert j (path_key x) x m, eq_of_same j (path_key x), keyed j y))
        (ground arith) k e g
  | inr (y, old) ↦ ground arith
]

visible_kept :
    (fold : List ℕ → List ℕ) (opaque : List OpaqueEntry) (m : Map PathKey TreeEntry) (d : DiffInput)
    → elim (first_portable_collision fold m) [
      | some (first, second) ↦ err (portable_path_collision first second)
      | none ↦ insert_opaque opaque [] >>= λ opaque_by_id.
          ok (record { visible = m; opaque = opaque_by_id })
    ]
      ≡ ok d
    → d.visible ≡ m
visible_kept fold opaque m d h = elim (Option-cases (first_portable_collision fold m)) [
  | inl e ↦
      let opened : (insert_opaque opaque [] >>= λ o. ok (record { visible = m; opaque = o }))
          ≡ ok d =
        ground arith in
      let (o, _, r) = >>=-ok (insert_opaque opaque []) _ opened in ground arith
  | inr (_, e) ↦ ground arith
]

-- The views that `DiffInput::new` returns are keyed.
pub diff_input-IsKeyed :
    (fold : List ℕ → List ℕ) (visible : List TreeEntry) (opaque : List OpaqueEntry) (d : DiffInput)
    → diff_input fold visible opaque ≡ ok d
    → IsKeyed d
unfolding diff_input
diff_input-IsKeyed fold visible opaque d h =
    let (m, e, r) = >>=-ok (insert_visible visible []) _ h in
    let same_map : d.visible ≡ m = visible_kept fold opaque m d r in
    record {
      keyed = λ k x g.
          insert_visible-keyed visible [] m (λ j y q. unfold Map.get in cc) e k x
            (rw (← same_map) g);
    }

unfoldable pub visible_paths : DiffInput → DiffInput → List PathKey
visible_paths p c = Set.from_list (keys p.visible ++ keys c.visible)

In-visible_paths :
    (p c : DiffInput) (k : PathKey)
    → In k (visible_paths p c) ↔ ((Map.get k p.visible ≢ none) ⊎ (Map.get k c.visible ≢ none))
unfolding visible_paths
In-visible_paths p c k = ground (
  arith,
  contains-iff-In k (Set.from_list (keys p.visible ++ keys c.visible)),
  contains-from_list k (keys p.visible ++ keys c.visible),
  contains-append k (keys p.visible) (keys c.visible),
  contains-keys k p.visible,
  contains-keys k c.visible,
)

unfoldable pub changed : DiffInput → DiffInput → ℕ
changed p c = count_changed p c (Set.from_list (keys p.opaque ++ keys c.opaque))

pub diff-ok :
    (p c : DiffInput) (r : FileDiff)
    → diff p c ≡ ok r
    → (r ≡ record (diff_loop p c (visible_paths p c) empty_diff) { opaque_changed = changed p c })
      × (changed p c < 2 ^ 64)
unfolding diff visible_paths changed
diff-ok p c r h = ground arith

-- What one path adds to the three lists. `Of` says which entries stand at the path.
abbrev Of : Option TreeEntry → Option TreeEntry → PortablePath → Type 0
Of b a x = (e : TreeEntry) × ((b ≡ some e) ⊎ (a ≡ some e)) × (x ≡ e.path)

abbrev Under : Option TreeEntry → Option TreeEntry → PortablePath → Type 0
Under b a x = (e : TreeEntry) → (b ≡ some e) ⊎ (a ≡ some e) → x ≡ e.path

abbrev pub Added : Option TreeEntry → Option TreeEntry → Type 0
Added b a = (b ≡ none) × (a ≢ none)

abbrev pub Deleted : Option TreeEntry → Option TreeEntry → Type 0
Deleted b a = (b ≢ none) × (a ≡ none)

abbrev pub Modified : Option TreeEntry → Option TreeEntry → Type 0
Modified b a = (b ≢ none) × (a ≢ none) × (b ≢ a)

single-added :
    (b a : Option TreeEntry) (x : PortablePath) → In x (single b a).added → Added b a × Of b a x
unfolding diff_entry
single-added none none x h = absurd h
single-added none (some a) x h = ((refl, λ q. cc), (a, inr refl, ground arith))
single-added (some b) none x h = absurd h
single-added (some b) (some a) x h = ground arith

added-single :
    (b a : Option TreeEntry) (x : PortablePath) → Added b a → Under b a x → In x (single b a).added
unfolding diff_entry
added-single none none x (_, n) u = absurd (n refl)
added-single none (some a) x h u = inl (u a (inr refl))
added-single (some b) a x h u = cc (h.0)

single-deleted :
    (b a : Option TreeEntry) (x : PortablePath) → In x (single b a).deleted → Deleted b a × Of b a x
unfolding diff_entry
single-deleted none none x h = absurd h
single-deleted none (some a) x h = absurd h
single-deleted (some b) none x h = ((λ q. cc, refl), (b, inl refl, ground arith))
single-deleted (some b) (some a) x h = ground arith

deleted-single :
    (b a : Option TreeEntry) (x : PortablePath)
    → Deleted b a
    → Under b a x
    → In x (single b a).deleted
unfolding diff_entry
deleted-single none a x (n, _) u = absurd (n refl)
deleted-single (some b) none x h u = inl (u b (inl refl))
deleted-single (some b) (some a) x h u = cc (h.1)

single-modified :
    (b a : Option TreeEntry) (x : PortablePath)
    → In x (single b a).modified
    → Modified b a × Of b a x
unfolding diff_entry
single-modified none none x h = absurd h
single-modified none (some a) x h = absurd h
single-modified (some b) none x h = absurd h
single-modified (some b) (some a) x h = elim (entries-cases (some b) (some a)) [
  | inl e ↦ absurd (rw ((option_eq_iff TreeEntry-discrete (some b) (some a)).1 e) at h)
  | inr n ↦ ((λ q. cc, λ q. cc, n), (a, inr refl, ground arith))
]

modified-single :
    (b a : Option TreeEntry) (x : PortablePath)
    → Modified b a
    → Under b a x
    → In x (single b a).modified
unfolding diff_entry
modified-single none a x (n, _, _) u = absurd (n refl)
modified-single (some b) none x (_, n, _) u = absurd (n refl)
modified-single (some b) (some a) x (_, _, n) u =
    ground (arith, option_eq_iff TreeEntry-discrete (some b) (some a), u a (inr refl))

module _ (p c : DiffInput) (kp : IsKeyed p) (kc : IsKeyed c) where
  -- A list of the diff holds the paths at which `P` holds of the two views.
  listed_iff :
      (list : FileDiff → List PortablePath) (P : Option TreeEntry → Option TreeEntry → Type 0)
      → ((b a : Option TreeEntry) (x : PortablePath) → In x (list (single b a)) → P b a × Of b a x)
      → ((b a : Option TreeEntry) (x : PortablePath)
          → P b a
          → Under b a x
          → In x (list (single b a)))
      → ((b a : Option TreeEntry) → P b a → (b ≢ none) ⊎ (a ≢ none))
      → (x : PortablePath)
      → In x (flat_map (λ k. list (at p c k)) (visible_paths p c))
        ↔ P (Map.get x p.visible) (Map.get x c.visible)
  listed_iff list P there back here x = (
    λ m.
        let (k, _, n) = (In-flat_map (λ k. list (at p c k)) x (visible_paths p c)).0 m in
        let (q, (e, found, path)) = there (Map.get k p.visible) (Map.get k c.visible) x n in
        let key : k ≡ e.path = ⊎_elim (kp.keyed k e) (kc.keyed k e) found in
        subst (λ t. P (Map.get t p.visible) (Map.get t c.visible)) (key ∙ sym path) q,
    λ q. (In-flat_map (λ k. list (at p c k)) x (visible_paths p c)).1 (
      x,
      (In-visible_paths p c x).1 (here _ _ q),
      back (Map.get x p.visible) (Map.get x c.visible) x q
          (λ e found. ⊎_elim (kp.keyed x e) (kc.keyed x e) found),
    ),
  )

  -- The lists of a diff hold exactly the paths that only the current view has, those at which both
  -- views have entries that differ, and those that only the previous view has.
  pub diff-lists :
      (r : FileDiff) (x : PortablePath)
      → diff p c ≡ ok r
      → (In x r.added ↔ Added (Map.get x p.visible) (Map.get x c.visible))
        × (In x r.modified ↔ Modified (Map.get x p.visible) (Map.get x c.visible))
        × (In x r.deleted ↔ Deleted (Map.get x p.visible) (Map.get x c.visible))
  diff-lists r x done =
      let loop = diff_loop-flat_map p c (visible_paths p c) empty_diff in
      let whole = (diff-ok p c r done).0 in
      let added : r.added ≡ flat_map (λ k. (at p c k).added) (visible_paths p c) = cc in
      let modified : r.modified ≡ flat_map (λ k. (at p c k).modified) (visible_paths p c) = cc in
      let deleted : r.deleted ≡ flat_map (λ k. (at p c k).deleted) (visible_paths p c) = cc in
      (
        rw added (listed_iff (λ d. d.added) Added single-added added-single (λ b a h. inr h.1) x),
        rw modified (
            listed_iff (λ d. d.modified) Modified single-modified modified-single (λ b a h. inl h.0)
              x),
        rw deleted (
            listed_iff (λ d. d.deleted) Deleted single-deleted deleted-single (λ b a h. inl h.0) x),
      )
