-- ===== src/Control/Transition/Selections/Laws.antt =====
-- What a resolved selection guarantees.
use go_patroni.Base.{
  ◌≡◌, refl, ap, ◌∙◌, sym, inl, inr, ◌⊎◌, Bool, true, false, ◌&&◌, ◌||◌, Option, none, some, List,
  [], ◌∷◌, arith, any, keep, find, Bool-cases, Option-cases, is_empty, subst, if◌then◌else◌,
}
use go_patroni.Base.Result.{ok, >>=-eq-ok}
use go_patroni.Texts.{Text, text, text_eq, eq_of_text_eq}
use go_patroni.Texts.Order.{text_lt, insert_by, sort_by}
use go_patroni.Dcs.Snapshots.{Member, ClusterState, Snapshot}
use go_patroni.Control.Types.{Category}
use go_patroni.Control.Platform.{Platform}
use go_patroni.Control.Transition.Intents.{Intent, is_failover, is_switchover}
use go_patroni.Control.Transition.Selections.{
  Selection, leader_name, is_option, candidates, names, check_leader, choose_candidate,
  selection_of, schedule_while_paused, resolve_transition, refuse,
}

module _ {ℓ} {A : Type ℓ} (p : A → Bool) where
  find-any : (xs : List A) (x : A) → find p xs ≡ some x → any p xs ≡ true
  unfolding find any
  find-any [] x h = ground arith
  find-any (y ∷ ys) x h = elim (Bool-cases (p y)) [
    | inl e ↦ rw (e, any) refl
    | inr e ↦ rw (e, any) (find-any ys x (rw (e, find) at h))
  ]

  module _ (key : A → Text) where
    any-insert_by : (x : A) (xs : List A) → any p (insert_by key x xs) ≡ (p x || any p xs)
    unfolding insert_by any
    any-insert_by x [] = refl
    any-insert_by x (y ∷ ys) = elim (Bool-cases (text_lt (key y) (key x))) [
      | inl e ↦ rw (e, insert_by) (ground (arith, any-insert_by x ys))
      | inr e ↦ rw (e, insert_by) refl
    ]

    -- Sorting keeps the elements.
    pub any-sort_by : (xs : List A) → any p (sort_by key xs) ≡ any p xs
    unfolding sort_by any
    any-sort_by [] = refl
    any-sort_by (x ∷ xs) = any-insert_by x (sort_by key xs) ∙ ap (λ b. p x || b) (any-sort_by xs)

  pub any-keep : (q : A → Bool) (xs : List A) → any p (keep q xs) ≡ any (λ x. p x && q x) xs
  unfolding keep any
  any-keep q [] = refl
  any-keep q (x ∷ xs) = elim (Bool-cases (q x)) [
    | inl e ↦ rw (e, keep, any) (ground (arith, any-keep q xs))
    | inr e ↦ rw (e, keep, any) (ground (arith, any-keep q xs))
  ]

-- Sorting members by name and sorting their names give the same names.
map-insert_by :
    (m : Member) (ms : List Member)
    → names (insert_by (λ m. m.name) m ms) ≡ insert_by (λ name. name) m.name (names ms)
unfolding insert_by
map-insert_by m [] = refl
map-insert_by m (n ∷ ms) = elim (Bool-cases (text_lt n.name m.name)) [
  | inl e ↦ rw (e, insert_by) (ap (λ l. n.name ∷ l) (map-insert_by m ms))
  | inr e ↦ rw (e, insert_by) refl
]

pub names-sort_by :
    (ms : List Member) → names (sort_by (λ m. m.name) ms) ≡ sort_by (λ name. name) (names ms)
unfolding sort_by
names-sort_by [] = refl
names-sort_by (m ∷ ms) =
    map-insert_by m (sort_by (λ m. m.name) ms)
    ∙ ap (insert_by (λ name. name) m.name) (names-sort_by ms)

-- The member of that name may take over from the leader.
abbrev pub can_lead : ClusterState → Text → Text → Bool
can_lead c leader candidate = any (λ m. text_eq m.name candidate && is_option leader m) c.members

-- The checks that a resolved transition passed.
pub record IsResolved (s : Snapshot) (i : Intent) (sel : Selection) : Type 0 where
  pub leader : sel.leader ≡ leader_name s.cluster.leader
  pub candidate_names : sel.candidate_names ≡ names (candidates s.cluster sel.leader)
  pub candidate : (is_empty i.candidate ≡ true) ⊎ (can_lead s.cluster sel.leader i.candidate ≡ true)
  pub not_leader : (is_empty i.candidate ≡ true) ⊎ (text_eq i.candidate sel.leader ≡ false)
  pub failover_names_candidate : is_failover i ≡ true → is_empty i.candidate ≡ false
  pub switchover_has_leader : is_switchover i ≡ true → is_empty sel.leader ≡ false
  pub leader_named : is_switchover i ≡ true → (is_empty i.leader ≡ true) ⊎ (i.leader ≡ sel.leader)
  pub confirmed :
      is_switchover i ≡ true
      → i.force ≡ false
      → (is_empty i.leader ≡ false) × (is_empty i.candidate ≡ false)
  pub not_paused : schedule_while_paused s.cluster i ≡ false

can_lead-find :
    (c : ClusterState) (leader candidate : Text) (m : Member)
    → find (λ m. text_eq m.name candidate) (candidates c leader) ≡ some m
    → can_lead c leader candidate ≡ true
unfolding candidates
can_lead-find c leader candidate m h =
    sym (
      any-sort_by (λ m. text_eq m.name candidate) (λ m. m.name) (keep (is_option leader) c.members)
      ∙ any-keep (λ m. text_eq m.name candidate) (is_option leader) c.members)
    ∙ find-any (λ m. text_eq m.name candidate) (candidates c leader) m h

choose_candidate-can_lead :
    (c : ClusterState) (i : Intent) (leader : Text) (chosen : Option Member)
    → choose_candidate i leader (candidates c leader) ≡ ok chosen
    → (is_empty i.candidate ≡ true) ⊎ (can_lead c leader i.candidate ≡ true)
unfolding choose_candidate
choose_candidate-can_lead c i leader chosen h =
    elim (Option-cases (find (λ m. text_eq m.name i.candidate) (candidates c leader))) [
      | inl missing ↦ ground arith
      | inr (m, seen) ↦ inr (can_lead-find c leader i.candidate m seen)
    ]

refuse-none : (o : Option Category) (a : Unit) → refuse o ≡ ok a → o ≡ none
refuse-none none a h = refl
refuse-none (some e) a h = cc

-- The three checks of `resolveTransition`, one by one.
pub record Passed (os : Platform) (s : Snapshot) (i : Intent) (sel : Selection) : Type 0 where
  pub chosen : Option Member
  pub leader_checked : check_leader i (leader_name s.cluster.leader) ≡ none
  pub candidate_chosen :
      choose_candidate i
        (leader_name s.cluster.leader)
        (candidates s.cluster (leader_name s.cluster.leader))
      ≡ ok chosen
  pub schedulable : schedule_while_paused s.cluster i ≡ false
  pub selected : selection_of os s i chosen ≡ sel

pub resolve_transition-Passed :
    (os : Platform) (s : Snapshot) (i : Intent) (sel : Selection)
    → resolve_transition os s i ≡ ok sel
    → Passed os s i sel
unfolding resolve_transition
resolve_transition-Passed os s i sel h =
    let (a, e, h') = >>=-eq-ok (refuse (check_leader i (leader_name s.cluster.leader))) _ h in
    let (chosen, e', h'') =
      >>=-eq-ok
        (choose_candidate i (leader_name s.cluster.leader)
          (candidates s.cluster (leader_name s.cluster.leader)))
        _ h' in
    let (b, e'', h''') =
      >>=-eq-ok
        (refuse (if schedule_while_paused s.cluster i then some Category.conflict else none)) _
        h'' in
    record {
      chosen = chosen;
      leader_checked = refuse-none _ a e;
      candidate_chosen = e';
      schedulable = ground (arith, refuse-none _ b e'');
      selected = ground arith;
    }

switchover_is_no_failover : (i : Intent) → is_switchover i ≡ true → is_failover i ≡ false
unfolding is_switchover is_failover text_eq text
switchover_is_no_failover i e = rw (eq_of_text_eq i.operation (text "switchover") e) refl

-- A resolved transition has passed every check: the selection shows the snapshot's leader and its
-- sorted candidates; a named candidate is a member of the snapshot without the tag `nofailover`, and
-- not the leader; a failover names its candidate; a switchover has a leader, and one that it names
-- is that leader; unless forced it names both; and no switchover is scheduled while paused.
pub resolve_transition-IsResolved :
    (os : Platform) (s : Snapshot) (i : Intent) (sel : Selection)
    → resolve_transition os s i ≡ ok sel
    → IsResolved s i sel
unfolding check_leader choose_candidate selection_of
resolve_transition-IsResolved os s i sel h =
    let p = resolve_transition-Passed os s i sel h in
    subst (IsResolved s i) p.selected (record {
      leader = refl;
      candidate_names = refl;
      candidate =
          choose_candidate-can_lead s.cluster i (leader_name s.cluster.leader) p.chosen
            p.candidate_chosen;
      not_leader = ground (arith, p.candidate_chosen);
      failover_names_candidate = λ e. ground (arith, p.candidate_chosen);
      switchover_has_leader = λ e. ground (arith, p.leader_checked);
      leader_named = λ e.
          ground (arith, p.leader_checked, eq_of_text_eq i.leader (leader_name s.cluster.leader));
      confirmed = λ e f. (
        ground (arith, p.leader_checked),
        ground (arith, p.candidate_chosen, switchover_is_no_failover i),
      );
      not_paused = p.schedulable;
    })
