-- ===== src/Control/Reload/Resolution/Laws.antt =====
-- What a resolved member is, and that resolving posts nothing.
use go_patroni.Base.{
  ◌≡◌, refl, ap₂, subst, ◌∙◌, inl, inr, Bool, true, some, List, [], ◌∷◌, map, arith, All,
  Bool-cases, Option-cases, find, is_empty, some_eq, ℕ, ◌+◌, none, Option,
}
use mathlib.Core.List.{Mem, mem-cons_self, mem-cons_of_mem}
use go_patroni.Texts.{Text, text_eq}
use go_patroni.Target.{Target, normalize, cluster_id}
use go_patroni.Dcs.Snapshots.{Member, Snapshot}
use go_patroni.Control.Platform.{Platform, patroni_base_url}
use go_patroni.Control.Service.{Service, Trace, Call, call, now}
use go_patroni.Control.Service.Runs.{Returns}
use go_patroni.Control.Service.Costs.{reloads, if_counted}
use go_patroni.Control.Reports.{observe}
use go_patroni.Control.Writes.Members.{Role, member_matches_role}
use go_patroni.Control.Reload.Resolution.{
  ResolvedMember, Resolved, snapshot_of, member_with_role, resolve_member, membership_changed,
  resolve_planned_members,
}

-- The member is one of a snapshot's members, with the planned name and role; the snapshot is one of the
-- given ones, and of the planned cluster.
pub record IsCurrent (os : Platform) (role : Role) (ss : List Snapshot) (m : ResolvedMember)
    : Type 0 where
  pub read : Mem m.snapshot ss
  pub listed : Mem m.member m.snapshot.cluster.members
  pub named : text_eq m.member.name m.target.member ≡ true
  pub has_role : member_matches_role os m.snapshot.cluster m.member role ≡ true
  pub same_cluster : text_eq (cluster_id (normalize m.snapshot.target)) (cluster_id m.target) ≡ true

find_holds {ℓ} :
    {A : Type ℓ} (p : A → Bool) (xs : List A) (x : A) → find p xs ≡ some x → (p x ≡ true) × Mem x xs
unfolding find
find_holds p [] x h = absurd (ground (arith, h))
find_holds p (y ∷ ys) x h = elim (Bool-cases (p y)) [
  | inl e ↦
      let same = some_eq (rw (e, find) at h) in
      subst (λ z. (p z ≡ true) × Mem z (y ∷ ys)) same (e, mem-cons_self)
  | inr e ↦
      let (holds, mem) = find_holds p ys x (rw (e, find) at h) in (holds, mem-cons_of_mem y mem)
]

snapshot_of-cluster_id :
    (ss : List Snapshot) (id : Text) (s : Snapshot)
    → snapshot_of ss id ≡ some s
    → (text_eq (cluster_id (normalize s.target)) id ≡ true) × Mem s ss
unfolding snapshot_of
snapshot_of-cluster_id [] id s h = absurd (ground (arith, h))
snapshot_of-cluster_id (x ∷ xs) id s h = elim (Option-cases (snapshot_of xs id)) [
  | inr (later, e) ↦
      let (same, mem) = snapshot_of-cluster_id xs id s (e ∙ (rw (e, snapshot_of) at h)) in
      (same, mem-cons_of_mem x mem)
  | inl e ↦ elim (Bool-cases (text_eq (cluster_id (normalize x.target)) id)) [
    | inl same ↦
        subst (λ y. (text_eq (cluster_id (normalize y.target)) id ≡ true) × Mem y (x ∷ xs))
          (some_eq (rw (e, same, snapshot_of) at h)) (same, mem-cons_self)
    | inr other ↦ absurd (ground (arith, rw (e, other, snapshot_of) at h))
  ]
]

module _ (os : Platform) (role : Role) where
  member_with_role_lem :
      (name : Text) (s : Snapshot) (m : Member)
      → member_with_role os role name s ≡ some m
      → (text_eq m.name name ≡ true)
        × (member_matches_role os s.cluster m role ≡ true)
        × Mem m s.cluster.members
  unfolding member_with_role
  member_with_role_lem name s m h =
      elim (Option-cases (find (λ m. text_eq m.name name) s.cluster.members)) [
        | inl e ↦ absurd (ground (arith, rw (e, member_with_role) at h))
        | inr (x, e) ↦ elim (Bool-cases (member_matches_role os s.cluster x role)) [
          | inr other ↦ absurd (ground (arith, rw (e, other, member_with_role) at h))
          | inl has ↦
              let same = some_eq (rw (e, has, member_with_role) at h) in
              let (named, listed) = find_holds (λ m. text_eq m.name name) s.cluster.members x e in
              subst
                (λ y.
                  (text_eq y.name name ≡ true)
                  × (member_matches_role os s.cluster y role ≡ true)
                  × Mem y s.cluster.members)
                same (named, has, listed)
        ]
      ]

  resolve_member-IsCurrent :
      (ss : List Snapshot) (target : Target) (m : ResolvedMember)
      → resolve_member os role ss target ≡ some m
      → (m.target ≡ target) × IsCurrent os role ss m
  unfolding resolve_member
  resolve_member-IsCurrent ss target m h =
      elim (Option-cases (snapshot_of ss (cluster_id target))) [
        | inl e ↦ absurd (ground (arith, rw (e, resolve_member) at h))
        | inr (s, e) ↦ elim (Option-cases (member_with_role os role target.member s)) [
          | inl f ↦ absurd (ground (arith, rw (e, f, resolve_member) at h))
          | inr (x, f) ↦
              let (same_cluster, read) = snapshot_of-cluster_id ss (cluster_id target) s e in
              let (named, has_role, listed) = member_with_role_lem target.member s x f in
              subst (λ y. (y.target ≡ target) × IsCurrent os role ss y)
                (some_eq (rw (e, f, resolve_member) at h))
                (
                  refl,
                  record {
                    read = read;
                    listed = listed;
                    named = named;
                    has_role = has_role;
                    same_cluster = same_cluster;
                  },
                )
        ]
      ]

-- How many members have an address that counts.
unfoldable pub found_posts : Platform → (Text → Bool) → List ResolvedMember → ℕ
unfolding patroni_base_url
found_posts os counted [] = 0
found_posts os counted (m ∷ ms) =
    if_counted counted (patroni_base_url os m.member.member_data.api_url)
    + found_posts os counted ms

abbrev pub resolved_posts : Platform → (Text → Bool) → Option ResolvedMember → ℕ
resolved_posts os counted none = 0
resolved_posts os counted (some m) =
    if_counted counted (patroni_base_url os m.member.member_data.api_url)

-- How many planned targets have a member in the snapshots, with an address that counts.
unfoldable pub planned_posts : Platform → Role → List Snapshot → (Text → Bool) → List Target → ℕ
unfolding resolve_member normalize patroni_base_url
planned_posts os role ss counted [] = 0
planned_posts os role ss counted (target ∷ ts) =
    resolved_posts os counted (resolve_member os role ss (normalize target))
    + planned_posts os role ss counted ts

-- The targets of resolved members.
abbrev pub targets_of : List ResolvedMember → List Target
targets_of ms = map (λ m. m.target) ms

-- Each planned target is resolved or in conflict.
record IsResolution (os : Platform) (role : Role) (ss : List Snapshot) (ts : List Target)
    (r : Resolved) : Type 0 where
  current : All (IsCurrent os role ss) r.members
  complete : is_empty r.conflicts ≡ true → targets_of r.members ≡ map normalize ts

module _ (service : Service) (operation : Text) (ss : List Snapshot) (role : Role) where
  resolve_planned_members-IsResolution :
      (ts : List Target)
      → Returns
          (IsResolution service.os role ss ts)
          (resolve_planned_members service operation ss ts role)
  unfolding resolve_planned_members
  resolve_planned_members-IsResolution [] t = record { current = tt; complete = λ _. refl }
  resolve_planned_members-IsResolution (target ∷ ts) t =
      elim (Option-cases (resolve_member service.os role ss (normalize target))) [
        | inr (m, e) ↦
            let (same, current) = resolve_member-IsCurrent service.os role ss _ m e in
            let ih = resolve_planned_members-IsResolution ts t in
            rw (e, resolve_planned_members)
              (record {
                current = (current, ih.current);
                complete = λ h. ap₂ (λ x xs. x ∷ xs) same (ih.complete h);
              })
        | inl e ↦
            let ih = resolve_planned_members-IsResolution ts _ in
            rw (e, resolve_planned_members) (record { current = ih.current; complete = λ h. cc })
      ]

  -- Every member that is resolved for a plan is listed in one of the given snapshots, that of the planned
  -- cluster, has the planned name, and still has the role that the request asks for; where there is no conflict, the resolved
  -- members are those of the plan's targets, in their order.
  pub resolve_planned_members-IsCurrent :
      (ts : List Target) (t : Trace)
      → All
          (IsCurrent service.os role ss)
          (resolve_planned_members service operation ss ts role t).0.members
        × (is_empty (resolve_planned_members service operation ss ts role t).0.conflicts ≡ true
            → targets_of (resolve_planned_members service operation ss ts role t).0.members
              ≡ map normalize ts)
  resolve_planned_members-IsCurrent ts t =
      let r = resolve_planned_members-IsResolution ts t in (r.current, r.complete)

  -- The members found for a plan have no more addresses that count than the planned targets.
  pub resolve_planned_members-found_posts :
      (counted : Text → Bool) (ts : List Target) (t : Trace)
      → found_posts service.os counted
          (resolve_planned_members service operation ss ts role t).0.members
        ≡ planned_posts service.os role ss counted ts
  unfolding resolve_planned_members found_posts planned_posts membership_changed observe now call
  resolve_planned_members-found_posts counted [] t = refl
  resolve_planned_members-found_posts counted (target ∷ ts) t =
      elim (Option-cases (resolve_member service.os role ss (normalize target))) [
        | inr (m, e) ↦
            let ih = resolve_planned_members-found_posts counted ts t in
            rw (e, resolve_planned_members, planned_posts) (omega (arith, ih))
        | inl e ↦
            let ih = resolve_planned_members-found_posts counted ts (Call.read_clock ∷ t) in
            rw (e, resolve_planned_members, planned_posts) (omega (arith, ih))
      ]

  pub resolve_planned_members-reloads :
      (counted : Text → Bool) (ts : List Target) (t : Trace)
      → reloads counted (resolve_planned_members service operation ss ts role t).1
        ≡ reloads counted t
  unfolding resolve_planned_members membership_changed observe now call reloads
  resolve_planned_members-reloads counted [] t = refl
  resolve_planned_members-reloads counted (target ∷ ts) t =
      elim (Option-cases (resolve_member service.os role ss (normalize target))) [
        | inr (m, e) ↦
            rw (e, resolve_planned_members) (resolve_planned_members-reloads counted ts t)
        | inl e ↦ rw (e, resolve_planned_members) (resolve_planned_members-reloads counted ts _)
      ]
