-- ===== src/Control/Tests/Sample.antt =====
-- A cluster of two members whose Patroni API is unreachable, and a DCS whose compare-and-swap loses
-- a race.
use go_patroni.Base.{true, false, Option, none, some, [], ◌∷◌, pos}
use go_patroni.Base.Result.{ok}
use go_patroni.Texts.{Text, text, text_eq}
use go_patroni.Target.{Target}
use go_patroni.Version.Range.{audited_patroni_range}
use go_patroni.Dcs.Values.{Fields}
use go_patroni.Dcs.Snapshots.{Member, ClusterState, Snapshot}
use go_patroni.Control.Types.{Time, Cause, Plan, Category, ControlError, Route, Risk, RetrySafety}
use go_patroni.Control.Platform.{Platform}
use go_patroni.Control.Service.{Service, FailoverWriter}
use go_patroni.Control.Transition.Intents.{
  Intent, RequestError, SwitchoverRequest, normalize_switchover_request,
}
use go_patroni.Control.Transition.Selections.{Selection, selection_of}
use go_patroni.Control.Transition.Preparation.{prepare_switchover}

abbrev pub noon : Time
noon = record { instant = pos 43200; zone = [] }

abbrev pub os : Platform
os = record {
  format_time = λ layout at. layout;
  parse_time = λ layout value. none;
  utc = λ at. at;
  sprint_float = λ bits. [];
  parse_float = λ value. none;
  parse_duration = λ value. none;
  decode_restart = λ raw. none;
  decode_schedule = λ raw. none;
  to_lower = λ value. value;
  equal_fold = text_eq;
  parse_url = λ value. none;
  render_url = λ u. u.path;
  marshal = λ fields. ok (text "{}");
}

abbrev pub member : Text → Member
member name = record {
  name = name;
  mod_revision = pos 3;
  lease = pos 9;
  member_data = record {
    api_url = text "http://10.0.0.1:8008/patroni";
    conn_url = [];
    state = text "running";
    role = text "replica";
    pending_restart = none;
    scheduled_restart = [];
    tags = Fields.end;
    patroni_version = text "4.0.2";
    pause = none;
  };
}

abbrev pub target : Target
target = record {
  context = text "default";
  namespace = text "/service";
  scope = text "alpha";
  group = none;
  member = [];
}

abbrev pub cluster : ClusterState
cluster = record {
  initialize = text "71";
  config = Fields.end;
  leader = some (record { name = text "pg1"; mod_revision = pos 4; lease = pos 9 });
  members = member (text "pg1") ∷ member (text "pg2") ∷ [];
  failover = none;
  sync = record { mod_revision = pos 0; leader = []; standbys = []; quorum = pos 0 };
}

abbrev pub state : Snapshot
state = record {
  target = target;
  prefix = text "/service/alpha";
  revision = pos 12;
  cluster = cluster;
}

abbrev pub lost_race : Cause
lost_race = record {
  canceled = false;
  deadline_exceeded = false;
  dcs = none;
  patroni = none;
  conflict =
      some
        (record { key = text "failover"; expected_revision = pos 0; observed_revision = pos 13 });
}

abbrev pub racing : FailoverWriter
racing = record {
  on_write =
      λ t at payload revision. (record { applied = false; revision = pos 0 }, some lost_race);
}

abbrev pub service : Service
service = record {
  os = os;
  on_snapshot = λ t at. ok state;
  on_discover = none;
  patroni = none;
  failover_dcs = some racing;
  on_clock = λ t. noon;
  on_new_id = λ t. text "op-1";
  on_random_id = λ t. text "op-2";
  on_random_index = λ t n. (pos 0, none);
  on_wait = λ t. none;
  on_context = λ t. none;
  verification_attempts = 2;
  supported_patroni_range = audited_patroni_range;
}

abbrev pub request : SwitchoverRequest
request = record {
  target = target;
  leader = text "pg1";
  candidate = text "pg2";
  scheduled_at = none;
  force = false;
  citus = false;
}

abbrev pub plan : Plan
unfolding prepare_switchover
plan = (prepare_switchover service true request []).0.payload

abbrev pub intent : Intent × Option RequestError
intent = normalize_switchover_request request

abbrev pub usage_error : ControlError
usage_error = record {
  category = Category.usage;
  operation = text "restart";
  target = target;
  retryable = false;
  message = text "no member";
  evidence = [];
  cause = none;
}

abbrev pub later_state : Snapshot
later_state = record {
  target = target;
  prefix = text "/service/alpha";
  revision = pos 14;
  cluster = record {
    initialize = text "71";
    config = Fields.end;
    leader = some (record { name = text "pg2"; mod_revision = pos 14; lease = pos 9 });
    members = member (text "pg1") ∷ member (text "pg2") ∷ [];
    failover = none;
    sync = record { mod_revision = pos 0; leader = []; standbys = []; quorum = pos 0 };
  };
}

-- A service whose snapshots show the switchover done.
abbrev pub later_service : Service
later_service = record {
  os = os;
  on_snapshot = λ t at. ok later_state;
  on_discover = none;
  patroni = none;
  failover_dcs = some racing;
  on_clock = λ t. noon;
  on_new_id = λ t. text "op-1";
  on_random_id = λ t. text "op-2";
  on_random_index = λ t n. (pos 0, none);
  on_wait = λ t. none;
  on_context = λ t. none;
  verification_attempts = 2;
  supported_patroni_range = audited_patroni_range;
}

abbrev pub selection : Selection
unfolding selection_of
selection = selection_of os state intent.0 (some (member (text "pg2")))

abbrev pub restart_plan : Plan
restart_plan = record {
  operation_id = text "op-3";
  operation = text "restart";
  target = target;
  targets =
      record {
        context = text "default";
        namespace = text "/service";
        scope = text "alpha";
        group = none;
        member = text "pg2";
      }
      ∷ [];
  path = Route.rest;
  risk = Risk.availability;
  retry_safety = RetrySafety.unsafe_after_send;
  summary = text "restart pg2";
  preconditions = [];
}
