-- ===== src/Control/Tests/Pausing.antt =====
-- Runs of a pause on the sample cluster: its members answer, and the cluster is paused once a member
-- took the configuration.
use go_patroni.Base.{
  ◌≡◌, refl, true, false, Option, none, some, [], ◌∷◌, pos, ℕ, ◌≤◌, ltb, if◌then◌else◌, arith,
  length, All, find, List,
}
use go_patroni.Base.Result.{ok, err}
use go_patroni.Texts.{Text, text, text_eq, join}
use go_patroni.Texts.Decimal.{format_bool}
use go_patroni.Texts.Escape.{path_escape}
use go_patroni.Target.{
  normalize, validate, invalid_identity_part, normalize_namespace, cluster_id, member_id,
}
use go_patroni.Version.{parse_version}
use go_patroni.Version.Precedence.{compare_version}
use go_patroni.Version.Range.{audited_patroni_range, contains}
use go_patroni.Dcs.Values.{Value, Fields}
use go_patroni.Dcs.Snapshots.{Member, ClusterState, Snapshot}
use go_patroni.Control.Types.{plain, Plan, Outcome}
use go_patroni.Control.Plans.{requires_member, precondition_incomplete, expected_in}
use go_patroni.Control.Platform.{Platform, patroni_base_url}
use go_patroni.Control.Service.{Service, PatroniClient, patroni_version_range}
use go_patroni.Control.Service.Costs.{patches, reads, Cost}
use go_patroni.Control.Transition.Selections.{is_paused}
use go_patroni.Control.Writes.Batches.{has_ambiguous_rest}
use go_patroni.Control.Doubts.{doubts}
use go_patroni.Control.Writes.Fits.{Fits}
use go_patroni.Control.Pause.{PauseRequest, PauseIntent, PauseRequestError, normalize_pause_request}
use go_patroni.Control.Pause.Contract.{validate_pause_plan}
use go_patroni.Control.Pause.Readbacks.{pause_matched, verify_pause_state, same_bool}
use go_patroni.Control.Pause.Readbacks.Laws.{Settles, verify_pause_state-Settles}
use go_patroni.Control.Pause.Soundness.{OnlyLastAnswered}
use go_patroni.Control.Pause.Preparation.{prepare_pause_or_resume, prepare_pause_from}
use go_patroni.Control.Pause.Execution.{
  execute_pause_from, execute_pause, same_rest_members, finish_noop,
}
use go_patroni.Control.Pause.Validity.{pause_data_valid, finish_noop-pause_data_valid}
use go_patroni.Control.Pause.Costs.Executions.{execute_pause_from-Costs}
use go_patroni.Control.Pause.Costs.{planned_patches}
use go_patroni.Control.Pause.Safety.{
  execute_pause-has_ambiguous_rest, execute_pause-OnlyLastAnswered,
  prepare_pause_from-validate_pause_plan,
}
use go_patroni.Control.Tests.Sample.{noon, target, state, racing}

abbrev pub reachable_os : Platform
reachable_os = record {
  format_time = λ layout at. layout;
  parse_time = λ layout value. none;
  utc = λ at. at;
  equal_fold = text_eq;
  sprint_float = λ bits. [];
  parse_float = λ value. none;
  parse_duration = λ value. none;
  decode_restart = λ raw. none;
  decode_schedule = λ raw. none;
  to_lower = λ value. value;
  parse_url = λ value. some (record {
    scheme = text "http";
    host = text "10.0.0.1:8008";
    with_user = false;
    raw_query = [];
    fragment = [];
    path = text "/patroni";
  });
  render_url = λ u. u.host;
  marshal = λ fields. ok (text "{}");
}

abbrev paused_member : Text → Member
paused_member name = record {
  name = name;
  mod_revision = pos 3;
  lease = pos 9;
  member_data = record {
    api_url = text "http://10.0.0.1:8008/patroni";
    conn_url = [];
    state = text "running";
    role = text "replica";
    pending_restart = none;
    scheduled_restart = [];
    tags = Fields.end;
    patroni_version = text "4.0.2";
    pause = some true;
  };
}

abbrev paused_cluster : ClusterState
paused_cluster = record {
  initialize = text "71";
  config = Fields.field (text "pause") (Value.boolean true) Fields.end;
  leader = some (record { name = text "pg1"; mod_revision = pos 4; lease = pos 9 });
  members = paused_member (text "pg1") ∷ paused_member (text "pg2") ∷ [];
  failover = none;
  sync = record { mod_revision = pos 0; leader = []; standbys = []; quorum = pos 0 };
}

abbrev paused_state : Snapshot
paused_state = record {
  target = target;
  prefix = text "/service/alpha";
  revision = pos 21;
  cluster = paused_cluster;
}

abbrev pub client : ℕ → PatroniClient
client status = record {
  on_failover = λ t base payload. (record { status_code = pos 0; body = [] }, some plain);
  on_switchover = λ t base payload. (record { status_code = pos 0; body = [] }, some plain);
  on_patch_config = λ t base payload. (pos status, none);
  on_reload = λ t base. (pos 202, none);
  on_restart = λ t base payload. (pos 202, none);
  on_delete_restart = λ t base. (pos 200, none);
}

-- A cluster whose members answer a patch with the status; it is paused after the first patch.
unfoldable pub service : ℕ → Service
unfolding patches
service status = record {
  os = reachable_os;
  on_snapshot = λ t at. ok (if ltb (patches (λ base. true) t) 1 then state else paused_state);
  on_discover = none;
  patroni = some (client status);
  failover_dcs = some racing;
  on_clock = λ t. noon;
  on_new_id = λ t. text "op-1";
  on_random_id = λ t. text "op-2";
  on_random_index = λ t n. (pos 0, none);
  on_wait = λ t. none;
  on_context = λ t. none;
  verification_attempts = 2;
  supported_patroni_range = audited_patroni_range;
}

abbrev request : PauseRequest
request = record { target = target; wait = true; citus = false }

abbrev intent : PauseIntent × Option PauseRequestError
intent = normalize_pause_request (text "pause") true request

abbrev plan : Plan
unfolding prepare_pause_or_resume
plan = (prepare_pause_or_resume (service 200) true true request []).0.payload

planned : length plan.targets ≡ 2
unfolding prepare_pause_or_resume normalize validate invalid_identity_part normalize_namespace join
    parse_version contains compare_version patroni_version_range requires_member
    precondition_incomplete service find cluster_id path_escape member_id
planned = refl

executed : (execute_pause (service 200) true intent plan []).0.outcome ≡ Outcome.succeeded
unfolding execute_pause prepare_pause_or_resume prepare_pause_from normalize_pause_request normalize
    validate invalid_identity_part normalize_namespace join parse_version contains compare_version
    patroni_version_range requires_member precondition_incomplete cluster_id path_escape expected_in
    format_bool patches find member_id patroni_base_url service
executed = refl

rejected : (execute_pause (service 403) true intent plan []).0.outcome ≡ Outcome.failed
unfolding execute_pause prepare_pause_or_resume prepare_pause_from normalize_pause_request normalize
    validate invalid_identity_part normalize_namespace join parse_version contains compare_version
    patroni_version_range requires_member precondition_incomplete cluster_id path_escape expected_in
    format_bool patches find member_id patroni_base_url service
rejected = refl

execute_pause-has_ambiguous_rest_example :
    (doubts (service 403) (execute_pause (service 403) true intent plan []).1
      ≡ doubts (service 403) [])
    × (has_ambiguous_rest (execute_pause (service 403) true intent plan []).0.payload.results
        ≡ false)
execute_pause-has_ambiguous_rest_example =
    execute_pause-has_ambiguous_rest (service 403) true intent plan [] rejected

execute_pause-OnlyLastAnswered_example :
    OnlyLastAnswered (execute_pause (service 200) true intent plan []).0.payload.results
    × All Fits (execute_pause (service 200) true intent plan []).0.payload.results
execute_pause-OnlyLastAnswered_example =
    execute_pause-OnlyLastAnswered (service 200) true intent plan []

execute_pause_from-Costs_example :
    Cost
      (text_eq (text "10.0.0.1:8008"))
      (planned_patches reachable_os (text_eq (text "10.0.0.1:8008")) state plan.targets)
      2
      []
      (execute_pause_from (service 200) (text "op-1") intent.0 plan state []).1
unfolding plan service execute_pause_from planned_patches
execute_pause_from-Costs_example =
    execute_pause_from-Costs (service 200) (text "op-1") intent.0 plan state []

prepared_from :
    (prepare_pause_from (service 200) (text "op-1") intent.0 state []).0.outcome ≡ Outcome.succeeded
unfolding execute_pause prepare_pause_or_resume prepare_pause_from normalize_pause_request normalize
    validate invalid_identity_part normalize_namespace join parse_version contains compare_version
    patroni_version_range requires_member precondition_incomplete cluster_id path_escape expected_in
    format_bool patches find member_id patroni_base_url service
prepared_from = refl

prepare_pause_from-validate_pause_plan_example :
    (validate_pause_plan
        (prepare_pause_from (service 200) (text "op-1") intent.0 state []).0.payload
        intent.0
      ≡ none)
    × (same_rest_members intent.0
          (prepare_pause_from (service 200) (text "op-1") intent.0 state []).0.payload
          state
        ≡ true)
    × (same_bool (is_paused state.cluster) intent.0.desired ≡ false)
prepare_pause_from-validate_pause_plan_example =
    prepare_pause_from-validate_pause_plan (service 200) (text "op-1") intent.0 state []
      prepared_from

-- The first read fails, the later ones show the cluster paused.
abbrev settling : Service
unfolding reads
settling = record {
  os = reachable_os;
  on_snapshot = λ t at. if ltb (reads t) 1 then err plain else ok paused_state;
  on_discover = none;
  patroni = none;
  failover_dcs = none;
  on_clock = λ t. noon;
  on_new_id = λ t. text "op-1";
  on_random_id = λ t. text "op-2";
  on_random_index = λ t n. (pos 0, none);
  on_wait = λ t. none;
  on_context = λ t. none;
  verification_attempts = 2;
  supported_patroni_range = audited_patroni_range;
}

abbrev both : List Text
both = text "pg1" ∷ text "pg2" ∷ []

late : (n : ℕ) → 1 ≤ n → ltb n 1 ≡ false
late n h = ground arith

converged : pause_matched paused_state.cluster intent.0 both ≡ true
unfolding pause_matched normalize_pause_request is_paused
converged = refl

settles : Settles settling intent.0 both 1
unfolding settling
settles = record {
  waits = λ t. refl;
  settled = λ t h. (paused_state, rw (late (reads t) h) refl, converged);
}

verify_pause_state-Settles_example :
    (verify_pause_state settling intent.0 both []).0.verified ≡ true
unfolding reads
verify_pause_state-Settles_example =
    verify_pause_state-Settles settling intent.0 both 1 settles [] (omega arith) (omega arith)

-- No later read answers.
abbrev unseen : Service
unseen = record {
  os = reachable_os;
  on_snapshot = λ t at. err plain;
  on_discover = none;
  patroni = none;
  failover_dcs = none;
  on_clock = λ t. noon;
  on_new_id = λ t. text "op-1";
  on_random_id = λ t. text "op-2";
  on_random_index = λ t n. (pos 0, none);
  on_wait = λ t. none;
  on_context = λ t. none;
  verification_attempts = 2;
  supported_patroni_range = audited_patroni_range;
}

undecided :
    (finish_noop unseen (text "op-1") intent.0 plan paused_state [] []).0.outcome ≡ Outcome.unknown
unfolding finish_noop normalize_pause_request
undecided = refl

finish_noop-pause_data_valid_example :
    pause_data_valid (finish_noop unseen (text "op-1") intent.0 plan paused_state [] []).0.payload
    ≡ false
finish_noop-pause_data_valid_example =
    finish_noop-pause_data_valid unseen (text "op-1") intent.0 plan paused_state [] [] undecided
