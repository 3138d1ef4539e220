-- ===== src/Control/Transition/Fallback/Laws.antt =====
-- When the DCS fallback may write, and what a verified readback has seen.
use go_patroni.Base.{
  ◌≡◌, ap, ◌∙◌, sym, subst, ◌⊎◌, true, false, ◌&&◌, none, arith, is_empty, is_some, keep,
}
use go_patroni.Base.Result.{ok}
use go_patroni.Texts.{Text, eq_of_text_eq, text_eq_iff, join}
use go_patroni.Dcs.Snapshots.{ClusterState, Snapshot}
use go_patroni.Control.Platform.{Platform}
use go_patroni.Control.Service.{Service, Trace}
use go_patroni.Control.Transition.Intents.{Intent, is_switchover}
use go_patroni.Control.Transition.Selections.{
  Selection, leader_name, is_option, is_paused, candidates, names, resolve_transition,
  schedule_while_paused,
}
use go_patroni.Control.Transition.Selections.Laws.{
  can_lead, names-sort_by, resolve_transition-IsResolved,
}
use go_patroni.Control.Transition.Contract.{comma}
use go_patroni.Control.Transition.Fallback.{
  option_names, validate_fallback_transition, transition_completed, Verdict,
}

-- What the fallback asks of the cluster before it writes.
pub record StillHolds (c : ClusterState) (i : Intent) (planned : Selection) : Type 0 where
  pub leader : leader_name c.leader ≡ planned.leader
  pub schedulable : is_some i.scheduled_at && is_paused c ≡ false
  pub candidate :
      (is_empty i.candidate ≡ true) ⊎ (can_lead c (leader_name c.leader) i.candidate ≡ true)
  pub same_options :
      is_empty i.candidate ≡ true
      → join comma (option_names c (leader_name c.leader)) ≡ join comma planned.candidate_names

pub validate_fallback_transition-StillHolds :
    (c : ClusterState) (i : Intent) (planned : Selection)
    → validate_fallback_transition c i planned ≡ none
    → StillHolds c i planned
unfolding validate_fallback_transition
validate_fallback_transition-StillHolds c i planned h = record {
  leader = ground (arith, eq_of_text_eq (leader_name c.leader) planned.leader);
  schedulable = ground arith;
  candidate = ground arith;
  same_options = λ e. ground (
    arith,
    eq_of_text_eq (join comma (option_names c (leader_name c.leader)))
        (join comma planned.candidate_names),
  );
}

option_names-candidates :
    (c : ClusterState) (leader : Text) → option_names c leader ≡ names (candidates c leader)
unfolding option_names candidates
option_names-candidates c leader = sym (names-sort_by (keep (is_option leader) c.members))

holds_accepts :
    (c : ClusterState) (i : Intent) (planned : Selection)
    → StillHolds c i planned
    → validate_fallback_transition c i planned ≡ none
unfolding validate_fallback_transition
holds_accepts c i planned h = ground (
  arith,
  h.leader,
  h.schedulable,
  h.candidate,
  h.same_options,
  text_eq_iff (leader_name c.leader) planned.leader,
  text_eq_iff (join comma (option_names c (leader_name c.leader)))
      (join comma planned.candidate_names),
)

-- A cluster that has not changed since a switchover was resolved passes the fallback's checks: the
-- fallback is refused for a change only.
pub validate_fallback_transition-resolve_transition :
    (os : Platform) (s : Snapshot) (i : Intent) (sel : Selection)
    → resolve_transition os s i ≡ ok sel
    → is_switchover i ≡ true
    → validate_fallback_transition s.cluster i sel ≡ none
unfolding schedule_while_paused
validate_fallback_transition-resolve_transition os s i sel h switchover =
    let r = resolve_transition-IsResolved os s i sel h in
    holds_accepts s.cluster i sel (record {
      leader = sym r.leader;
      schedulable = ground (arith, r.not_paused);
      candidate =
          subst
            (λ name. (is_empty i.candidate ≡ true) ⊎ (can_lead s.cluster name i.candidate ≡ true))
            r.leader r.candidate;
      same_options = λ _. ap (join comma) (
          option_names-candidates s.cluster (leader_name s.cluster.leader)
          ∙ ap (λ name. names (candidates s.cluster name)) (sym r.leader)
          ∙ sym r.candidate_names);
    })

-- A readback that saw the request fulfilled.
pub record WasSeen (service : Service) (i : Intent) (planned_leader : Text) (v : Verdict)
    : Type 0 where
  pub state : Snapshot
  pub earlier : Trace
  pub answered : service.on_snapshot earlier i.target ≡ ok state
  pub complete : transition_completed service.os state.cluster i planned_leader ≡ true
  pub revision : v.revision ≡ state.revision
