-- ===== src/Control/Transition/Selections.antt =====
-- `resolveTransition` of control/failover.go and what it selects.
pub mod Laws
use go_patroni.Base.{
  Bool, true, ◌&&◌, ◌||◌, Option, none, some, List, [], ◌++◌, map, if◌then◌else◌, is_empty, not,
  any, keep, find, is_some, ℤ, pos,
}
use go_patroni.Base.Result.{Result, ok, err, ◌>>=◌}
use go_patroni.Texts.{Text, text, text_eq}
use go_patroni.Texts.Order.{sort_by}
use go_patroni.Dcs.Values.{value_at, bool_config, synchronous_mode}
use go_patroni.Dcs.Snapshots.{Member, Leader, Failover, ClusterState, Snapshot}
use go_patroni.Control.Types.{Category}
use go_patroni.Control.Platform.{Platform, rfc3339_nano}
use go_patroni.Control.Transition.Intents.{Intent, is_failover, is_switchover}

-- `transitionSelection`; the member pointers point to copies.
pub record Selection : Type 0 where
  pub leader : Text
  pub candidate : Text
  pub candidate_names : List Text
  pub candidate_member : Option Member
  pub rest_member : Option Member
  pub sync_eligible : Bool
  pub paused : Bool
  pub failover_version : ℤ

abbrev pub leader_name : Option Leader → Text
leader_name none = []
leader_name (some l) = l.name

abbrev pub failover_revision : Option Failover → ℤ
failover_revision none = pos 0
failover_revision (some f) = f.mod_revision

unfoldable pub is_paused : ClusterState → Bool
unfolding value_at bool_config
is_paused c = bool_config (value_at (text "pause") c.config)

unfoldable pub no_failover : Member → Bool
unfolding value_at bool_config
no_failover m = bool_config (value_at (text "nofailover") m.member_data.tags)

-- The members that may take over from the leader.
unfoldable pub is_option : Text → Member → Bool
unfolding no_failover
is_option leader m = not (text_eq m.name leader || no_failover m)

-- Member names are keys of the DCS, so they are distinct.
unfoldable pub candidates : ClusterState → Text → List Member
unfolding keep is_option sort_by
candidates c leader = sort_by (λ m. m.name) (keep (is_option leader) c.members)

abbrev pub names : List Member → List Text
names ms = map (λ m. m.name) ms

unfoldable pub sync_candidate_eligible : Platform → ClusterState → Text → Bool
unfolding any synchronous_mode
sync_candidate_eligible os c candidate =
    if is_empty candidate || (not (synchronous_mode c.config) || is_empty c.sync.leader)
    then true
    else if os.equal_fold c.sync.leader candidate
    then true
    else any (λ standby. os.equal_fold standby candidate) c.sync.standbys

-- The checks of a switchover's leader.
unfoldable pub check_leader : Intent → Text → Option Category
unfolding is_switchover
check_leader i leader =
    if is_switchover i
    then (if is_empty leader
        then some Category.not_found
        else if is_empty i.leader
        then (if not i.force then some Category.usage else none)
        else if not (text_eq i.leader leader)
        then some Category.conflict
        else none)
    else none

abbrev found : Option Member → Result Category (Option Member)
found none = err Category.not_found
found (some m) = ok (some m)

-- The candidate among the options; none when the request leaves the choice to Patroni.
unfoldable pub choose_candidate : Intent → Text → List Member → Result Category (Option Member)
unfolding is_failover find
choose_candidate i leader options =
    if is_empty options
    then err Category.not_found
    else if is_empty i.candidate
    then (if is_failover i
        then err Category.usage
        else if not i.force
        then err Category.usage
        else ok none)
    else if text_eq i.candidate leader
    then err Category.conflict
    else found (find (λ m. text_eq m.name i.candidate) options)

abbrev pub or_else_name : Text → Text → Text
or_else_name leader candidate = if is_empty leader then candidate else leader

-- The end of `resolveTransition`, after its checks.
unfoldable pub selection_of : Platform → Snapshot → Intent → Option Member → Selection
unfolding candidates sync_candidate_eligible is_paused find
selection_of os s i chosen =
    let leader = leader_name s.cluster.leader in
    record {
      leader = leader;
      candidate = i.candidate;
      candidate_names = names (candidates s.cluster leader);
      candidate_member = chosen;
      rest_member = find (λ m. text_eq m.name (or_else_name leader i.candidate)) s.cluster.members;
      sync_eligible = sync_candidate_eligible os s.cluster i.candidate;
      paused = is_paused s.cluster;
      failover_version = failover_revision s.cluster.failover;
    }

unfoldable pub schedule_while_paused : ClusterState → Intent → Bool
unfolding is_switchover is_paused
schedule_while_paused c i = is_switchover i && (is_some i.scheduled_at && is_paused c)

abbrev pub refuse : Option Category → Result {0, 0} Category Unit
refuse none = ok tt
refuse (some e) = err e

-- The category of the error, or the selection. The selection that accompanies an error is not used.
unfoldable pub resolve_transition : Platform → Snapshot → Intent → Result Category Selection
unfolding check_leader choose_candidate selection_of schedule_while_paused candidates
resolve_transition os s i = do
  let leader = leader_name s.cluster.leader
  _ ← refuse (check_leader i leader)
  chosen ← choose_candidate i leader (candidates s.cluster leader)
  _ ← refuse (if schedule_while_paused s.cluster i then some Category.conflict else none)
  ok (selection_of os s i chosen)

-- The summary of a plan.
abbrev from_text : Text → Text
from_text leader = if is_empty leader then [] else text " from " ++ leader

abbrev to_text : Text → Text
to_text candidate =
    if is_empty candidate
    then text " to a Patroni-selected eligible candidate"
    else text " to " ++ candidate

unfoldable pub transition_summary : Platform → Intent → Selection → Text
unfolding is_failover
transition_summary os i sel =
    i.operation
    ++ (text " cluster"
        ++ (from_text (if is_failover i then [] else sel.leader)
            ++ (to_text i.candidate ++ elim i.scheduled_at [
              | none ↦ []
              | some at ↦ text " at " ++ os.format_time rfc3339_nano at
            ])))
