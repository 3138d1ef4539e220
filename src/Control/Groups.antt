-- ===== src/Control/Groups.antt =====
-- The snapshots that an operation works on: control/citus.go, with `targetLess`, `discoveryTarget` and
-- `discoveryEvidence` of control/discover.go. A Citus cluster without a group stands for all its
-- groups, which one discovery of the namespace finds.
pub mod Laws
pub mod Coordinator
use go_patroni.Base.{
  Bool, true, false, ◌&&◌, ◌||◌, Option, none, some, List, [], ◌∷◌, ◌++◌, if◌then◌else◌, not,
  is_empty, is_some, ℤ, pos, negsuc, ltb_ℤ, length,
}
use go_patroni.Base.Result.{ok, err}
use go_patroni.Texts.{Text, text, text_eq, join}
use go_patroni.Texts.Order.{text_lt}
use go_patroni.Texts.Decimal.{itoa}
use go_patroni.Target.{Target, normalize, validate, cluster_id}
use go_patroni.Version.{VersionError}
use go_patroni.Version.Range.{range_text}
use go_patroni.Dcs.Snapshots.{Snapshot}
use go_patroni.Dcs.Keys.{namespace_prefix}
use go_patroni.Control.Types.{Category, SendState, EvidenceSource, Cause, plain, Evidence}
use go_patroni.Control.Errors.{classify_read_error}
use go_patroni.Control.Service.{
  ◌>>=◌, Service, Run, pure, snapshot, call, Call, DiscoveredCluster, patroni_version_range,
}
use go_patroni.Control.Reports.{observe, snapshot_evidence}
use go_patroni.Control.VersionGate.{check_snapshot_patroni_version}
use go_patroni.Control.Transition.Contract.{comma}

-- `discoveryFailure`
pub record DiscoveryFailure : Type 0 where
  pub category : Category
  pub retryable : Bool
  pub message : Text
  pub cause : Option Cause

-- The snapshots and the evidence, or a failure and the evidence.
pub data GroupRead : Type 0 where
  read : List Snapshot → List Evidence → GroupRead
  failed : List Evidence → DiscoveryFailure → GroupRead

abbrev pub VersionCheck : Type 0
VersionCheck = Snapshot → Bool → Option VersionError

abbrev pub failure : Category × Bool → Text → Option Cause → DiscoveryFailure
failure (category, retryable) message cause = record {
  category = category;
  retryable = retryable;
  message = message;
  cause = cause;
}

unfoldable pub unsupported_group : Service → Text → DiscoveryFailure
unfolding text
unsupported_group service operation =
    failure (Category.unsupported, false)
      (operation ++ (text " requires Patroni " ++ range_text (patroni_version_range service)))
      (some plain)

-- One snapshot that is read, checked, and is all there is.
unfoldable pub single_snapshot :
    Service → Text → Text → Text → Target → Bool → VersionCheck → Run GroupRead
unfolding snapshot snapshot_evidence unsupported_group classify_read_error text
single_snapshot service operation unread summary target allow check = do
  answer ← snapshot service target
  elim answer [
    | err e ↦ pure (GroupRead.failed [] (failure (classify_read_error (some e)) unread (some e)))
    | ok s ↦ elim (check s allow) [
      | some _ ↦ do
        e ←
            snapshot_evidence service s
              (text "Patroni compatibility range checked during " ++ operation)
        pure (GroupRead.failed (e ∷ []) (unsupported_group service operation))
      | none ↦ do e ← snapshot_evidence service s summary; pure (GroupRead.read (s ∷ []) (e ∷ []))
    ]
  ]

abbrev group_or_minus_one : Option ℤ → ℤ
group_or_minus_one none = negsuc 0
group_or_minus_one (some g) = g

unfoldable pub target_less : Target → Target → Bool
unfolding normalize text_lt text_eq
target_less left right =
    if not (text_eq (normalize left).scope (normalize right).scope)
    then text_lt (normalize left).scope (normalize right).scope
    else ltb_ℤ (group_or_minus_one (normalize left).group)
        (group_or_minus_one (normalize right).group)

-- `sort.SliceStable` with `targetLess`.
unfoldable pub insert_item : DiscoveredCluster → List DiscoveredCluster → List DiscoveredCluster
unfolding target_less
insert_item x [] = x ∷ []
insert_item x (y ∷ ys) = elim (target_less y.target x.target) [
  | true ↦ y ∷ insert_item x ys
  | false ↦ x ∷ y ∷ ys
]

unfoldable pub sort_items : List DiscoveredCluster → List DiscoveredCluster
unfolding insert_item
sort_items [] = []
sort_items (x ∷ xs) = insert_item x (sort_items xs)

unfoldable pub discovery_target : Text → Text → Target
unfolding normalize
discovery_target context namespace =
    normalize
      (record { context = context; namespace = namespace; scope = []; group = none; member = [] })

unfoldable pub newest_revision : ℤ → List DiscoveredCluster → ℤ
newest_revision revision [] = revision
newest_revision revision (item ∷ items) =
    newest_revision (if ltb_ℤ revision item.revision then item.revision else revision) items

unfoldable pub discovery_evidence : Service → Target → List DiscoveredCluster → Run Evidence
unfolding newest_revision observe namespace_prefix itoa text
discovery_evidence service target items =
    let revision = newest_revision (pos 0) items in
    observe service EvidenceSource.dcs
      (text "bounded namespace discovery returned "
        ++ (itoa (pos (length items)) ++ text " cluster(s)"))
      (if ltb_ℤ (pos 0) revision then itoa revision else []) (namespace_prefix target.namespace)
      SendState.unset

-- The item is a group of the cluster.
unfoldable pub is_group_of : Target → Target → Bool
unfolding text_eq
is_group_of t item =
    text_eq item.context t.context
    && (text_eq item.namespace t.namespace && (text_eq item.scope t.scope && is_some item.group))

-- The version check of one group, and the rest of the loop.
unfoldable pub checked_group :
    Service
    → Text
    → Bool
    → VersionCheck
    → (Snapshot → List Evidence → Run GroupRead)
    → Snapshot
    → List Evidence
    → Run GroupRead
unfolding snapshot_evidence unsupported_group text
checked_group service operation allow check continue s evidence = elim (check s allow) [
  | some _ ↦ do
    e ←
        snapshot_evidence service s
          (text "Patroni compatibility range checked during " ++ operation)
    pure (GroupRead.failed (evidence ++ e ∷ []) (unsupported_group service operation))
  | none ↦ continue s evidence
]

-- The snapshot that came with the discovery, or a new one.
unfoldable pub group_snapshot :
    Service
    → Text
    → Bool
    → VersionCheck
    → (Snapshot → List Evidence → Run GroupRead)
    → Target
    → Option Snapshot
    → List Evidence
    → Run GroupRead
unfolding checked_group snapshot snapshot_evidence classify_read_error cluster_id normalize text
group_snapshot service operation allow check continue item (some s) evidence =
    elim (text_eq (cluster_id (normalize s.target)) (cluster_id item)) [
      | true ↦ checked_group service operation allow check continue s evidence
      | false ↦ pure (
          GroupRead.failed evidence (
            failure (Category.failed, false)
              (text "DCS discoverer returned a mismatched Citus group snapshot") (some plain)))
    ]
group_snapshot service operation allow check continue item none evidence = do
  answer ← snapshot service item
  elim answer [
    | err e ↦ pure (
        GroupRead.failed evidence
          (failure (classify_read_error (some e)) (text "Citus group snapshot failed") (some e)))
    | ok s ↦ do
      e ← snapshot_evidence service s (text "legacy discoverer Citus group snapshot read")
      checked_group service operation allow check continue s (evidence ++ e ∷ [])
  ]

-- The loop over the discovered clusters, with the snapshots so far.
unfoldable pub group_rounds :
    Service
    → Text
    → Target
    → Bool
    → VersionCheck
    → List DiscoveredCluster
    → List Snapshot
    → List Evidence
    → Run GroupRead
unfolding is_group_of normalize validate group_snapshot text
group_rounds service operation t allow check [] found evidence = pure (
    if is_empty found
    then GroupRead.failed evidence
        (failure (Category.not_found, false) (text "Citus scope has no discovered groups") none)
    else GroupRead.read found evidence)
group_rounds service operation t allow check (item ∷ items) found evidence =
    elim (is_group_of t (normalize item.target)) [
      | false ↦ group_rounds service operation t allow check items found evidence
      | true ↦
          elim (is_some (validate (normalize item.target) true)
            || not (is_empty (normalize item.target).member)) [
              | true ↦ pure (
                  GroupRead.failed evidence (
                    failure (Category.failed, false)
                      (text "DCS discoverer returned an invalid Citus group target") (some plain)))
              | false ↦
                  group_snapshot service operation allow check
                    (λ s e. group_rounds service operation t allow check items (found ++ s ∷ []) e)
                    (normalize item.target) item.snapshot evidence
            ]
    ]

unfoldable pub discovered_groups : Service → Text → Target → Bool → VersionCheck → Run GroupRead
unfolding call classify_read_error discovery_evidence discovery_target sort_items group_rounds text
discovered_groups service operation t allow check = elim service.on_discover [
  | none ↦ pure (
      GroupRead.failed [] (
        failure (Category.config, false)
          (operation ++ text " across Citus groups requires a DCS discoverer") none))
  | some on_discover ↦ do
    answer ← call (Call.discover t.context t.namespace) (λ tr. on_discover tr t.context t.namespace)
    elim answer [
      | err e ↦ pure (
          GroupRead.failed []
            (failure (classify_read_error (some e)) (text "Citus group discovery failed") (some e)))
      | ok items ↦ do
        e ← discovery_evidence service (discovery_target t.context t.namespace) (sort_items items)
        group_rounds service operation t allow check (sort_items items) [] (e ∷ [])
    ]
]

-- `citusGroupSnapshotsWithVersionCheck`
unfoldable pub citus_group_snapshots : Service → Text → Target → Bool → VersionCheck → Run GroupRead
unfolding normalize single_snapshot discovered_groups text
citus_group_snapshots service operation t allow check = elim (is_some (normalize t).group) [
  | true ↦
      single_snapshot service operation (text "cluster snapshot failed")
        (text "cluster snapshot read") (normalize t) allow check
  | false ↦ discovered_groups service operation (normalize t) allow check
]

-- `operationSnapshotsWithVersionCheck`
unfoldable pub operation_snapshots_with :
    Service → Text → Target → Bool → Bool → VersionCheck → Run GroupRead
unfolding citus_group_snapshots single_snapshot text
operation_snapshots_with service operation t citus allow check = elim citus [
  | true ↦ citus_group_snapshots service operation t allow check
  | false ↦
      single_snapshot service operation (operation ++ text " cluster snapshot failed")
        (operation ++ text " cluster snapshot read") t allow check
]

unfoldable pub operation_snapshots : Service → Text → Target → Bool → Bool → Run GroupRead
unfolding operation_snapshots_with check_snapshot_patroni_version
operation_snapshots service operation t citus allow =
    operation_snapshots_with service operation t citus allow
      (check_snapshot_patroni_version service)

abbrev group_item : Option ℤ → List Text
group_item none = []
group_item (some g) = itoa g ∷ []

unfoldable pub group_texts : List Snapshot → List Text
group_texts [] = []
group_texts (s ∷ ss) = group_item s.target.group ++ group_texts ss

-- `snapshotGroupIDs`
unfoldable pub snapshot_group_ids : List Snapshot → Text
unfolding group_texts join
snapshot_group_ids ss = join comma (group_texts ss)
