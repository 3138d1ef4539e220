-- ===== src/Control/Groups/Laws.antt =====
-- Every snapshot that an operation works on has passed its version check.
use go_patroni.Base.{
  ◌≡◌, refl, inl, inr, Bool, true, false, ◌||◌, Option, none, some, List, [], ◌∷◌, ◌++◌, Bool-cases,
  Option-cases, All, All-append, is_empty, is_some, not,
}
use go_patroni.Base.Result.{Result-cases}
use go_patroni.Texts.{Text, text, text_eq}
use go_patroni.Target.{Target, normalize, validate, cluster_id}
use go_patroni.Dcs.Snapshots.{Snapshot}
use go_patroni.Control.Types.{Evidence, Cause}
use go_patroni.Control.Errors.{classify_read_error}
use go_patroni.Control.Errors.Laws.{classify_read_error-known}
use go_patroni.Control.Outcomes.{category_unknown}
use go_patroni.Control.Writes.Fits.{not_unknown}
use go_patroni.Control.Service.{Service, Run, call, snapshot, DiscoveredCluster}
use go_patroni.Control.Service.Runs.{Returns}
use go_patroni.Control.Groups.{
  GroupRead, VersionCheck, single_snapshot, is_group_of, checked_group, group_snapshot,
  group_rounds, discovered_groups, citus_group_snapshots, operation_snapshots_with, sort_items,
}

-- Something was read, and all of it passed the check; or the failure is a definite one.
abbrev pub AllChecked : VersionCheck → Bool → GroupRead → Type 0
AllChecked check allow (GroupRead.read found evidence) =
    All (λ s. check s allow ≡ none) found × (is_empty found ≡ false)
AllChecked check allow (GroupRead.failed evidence f) = category_unknown f.category ≡ false

known_failure : (e : Cause) → category_unknown (classify_read_error (some e)).0 ≡ false
known_failure e = not_unknown _ (classify_read_error-known (some e))

module _ (service : Service) (operation : Text) (allow : Bool) (check : VersionCheck) where
  abbrev Checked : Run GroupRead → Type 0
  Checked m = Returns (AllChecked check allow) m

  single_snapshot-AllChecked :
      (unread summary : Text) (t : Target)
      → Checked (single_snapshot service operation unread summary t allow check)
  unfolding single_snapshot snapshot call
  single_snapshot-AllChecked unread summary target t =
      elim (Result-cases (service.on_snapshot t target)) [
        | inr (e, failed) ↦ rw (failed, single_snapshot) (known_failure e)
        | inl (s, answered) ↦ elim (Option-cases (check s allow)) [
          | inr (e, outside) ↦ rw (answered, outside, single_snapshot) refl
          | inl within ↦ rw (answered, within, single_snapshot) ((within, tt), refl)
        ]
      ]

  module _ (continue : Snapshot → List Evidence → Run GroupRead)
      (ih : (s : Snapshot)
        → check s allow ≡ none
        → (e : List Evidence) → Checked (continue s e)) where
    checked_group-AllChecked :
        (s : Snapshot) (evidence : List Evidence)
        → Checked (checked_group service operation allow check continue s evidence)
    unfolding checked_group
    checked_group-AllChecked s evidence t = elim (Option-cases (check s allow)) [
      | inr (e, outside) ↦ rw (outside, checked_group) refl
      | inl within ↦ rw (within, checked_group) (ih s within evidence t)
    ]

    group_snapshot-AllChecked :
        (item : Target) (given : Option Snapshot) (evidence : List Evidence)
        → Checked (group_snapshot service operation allow check continue item given evidence)
    unfolding group_snapshot snapshot call
    group_snapshot-AllChecked item (some s) evidence t =
        elim (Bool-cases (text_eq (cluster_id (normalize s.target)) (cluster_id item))) [
          | inl same ↦ rw (same, group_snapshot) (checked_group-AllChecked s evidence t)
          | inr other ↦ rw (other, group_snapshot) refl
        ]
    group_snapshot-AllChecked item none evidence t =
        elim (Result-cases (service.on_snapshot t item)) [
          | inr (e, failed) ↦ rw (failed, group_snapshot) (known_failure e)
          | inl (s, answered) ↦ rw (answered, group_snapshot) (checked_group-AllChecked s _ _)
        ]

  append_present : (found : List Snapshot) (s : Snapshot) → is_empty (found ++ s ∷ []) ≡ false
  append_present [] s = refl
  append_present (x ∷ xs) s = refl

  group_rounds-AllChecked :
      (target : Target) (items : List DiscoveredCluster) (found : List Snapshot)
      (evidence : List Evidence)
      → All (λ s. check s allow ≡ none) found
      → Checked (group_rounds service operation target allow check items found evidence)
  unfolding group_rounds
  group_rounds-AllChecked target [] found evidence h t = elim (Bool-cases (is_empty found)) [
    | inl nothing ↦ rw (nothing, group_rounds) refl
    | inr something ↦ rw (something, group_rounds) (h, something)
  ]
  group_rounds-AllChecked target (item ∷ items) found evidence h t =
      elim (Bool-cases (is_group_of target (normalize item.target))) [
        | inr elsewhere ↦
            rw (elsewhere, group_rounds) (group_rounds-AllChecked target items found evidence h t)
        | inl here ↦
            elim (Bool-cases (
              is_some (validate (normalize item.target) true)
              || not (is_empty (normalize item.target).member))) [
                | inl bad ↦ rw (here, bad, group_rounds) refl
                | inr good ↦
                    rw (here, good, group_rounds)
                      (group_snapshot-AllChecked
                        (λ s e.
                          group_rounds service operation target allow check items (found ++ s ∷ [])
                            e)
                        (λ s ok e.
                          group_rounds-AllChecked target items (found ++ s ∷ []) e
                            (All-append _ found (s ∷ []) h (ok, tt)))
                        (normalize item.target) item.snapshot evidence t)
              ]
      ]

  discovered_groups-AllChecked :
      (target : Target) → Checked (discovered_groups service operation target allow check)
  unfolding discovered_groups call
  discovered_groups-AllChecked target t = elim (Option-cases service.on_discover) [
    | inl missing ↦ rw (missing, discovered_groups) refl
    | inr (on_discover, able) ↦
        elim (Result-cases (on_discover t target.context target.namespace)) [
          | inr (e, failed) ↦ rw (able, failed, discovered_groups) (known_failure e)
          | inl (items, answered) ↦
              rw (able, answered, discovered_groups)
                (group_rounds-AllChecked target (sort_items items) [] _ tt _)
        ]
  ]

  -- Whatever the discovery and the reads answer: when an operation gets its snapshots, there is at least
  -- one, and each of them has passed the version check of the operation; when it does not, the failure
  -- has a category other than `unknown`.
  pub operation_snapshots_with-AllChecked :
      (target : Target) (citus : Bool)
      → Returns
          (AllChecked check allow)
          (operation_snapshots_with service operation target citus allow check)
  unfolding operation_snapshots_with citus_group_snapshots
  operation_snapshots_with-AllChecked target false t =
      single_snapshot-AllChecked (operation ++ text " cluster snapshot failed")
        (operation ++ text " cluster snapshot read") target t
  operation_snapshots_with-AllChecked target true t =
      elim (Bool-cases (is_some (normalize target).group)) [
        | inl grouped ↦
            rw (grouped, citus_group_snapshots)
              (single_snapshot-AllChecked (text "cluster snapshot failed")
                (text "cluster snapshot read") (normalize target) t)
        | inr whole ↦
            rw (whole, citus_group_snapshots) (discovered_groups-AllChecked (normalize target) t)
      ]
