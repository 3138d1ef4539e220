-- ===== src/Control/Tests/Restarting.antt =====
-- Runs of a restart: a plan for a member chosen at random, and a schedule that Patroni accepted for
-- later.
use go_patroni.Base.{
  ◌≡◌, refl, ◌⊎◌, true, false, Option, none, some, [], ◌∷◌, pos, eqb_ℤ, if◌then◌else◌,
}
use go_patroni.Base.Result.{ok}
use go_patroni.Texts.{text, text_eq}
use go_patroni.Texts.Order.{text_lt}
use go_patroni.Texts.Escape.{path_escape}
use go_patroni.Target.{invalid_identity_part, normalize_namespace, cluster_id, member_id}
use go_patroni.Version.Range.{audited_patroni_range}
use go_patroni.Dcs.Values.{Fields}
use go_patroni.Dcs.Snapshots.{Member, Snapshot}
use go_patroni.Control.Types.{Time, Outcome}
use go_patroni.Control.Plans.{requires_member, precondition_incomplete}
use go_patroni.Control.Platform.{Platform, rfc3339_nano}
use go_patroni.Control.Service.{Call, Service}
use go_patroni.Control.Groups.{GroupRead}
use go_patroni.Control.Writes.Members.{Role, with_member}
use go_patroni.Control.Reload.Resolution.{ResolvedMember}
use go_patroni.Control.Restart.{
  RestartRequest, RestartIntent, normalize_restart_request, validate_restart_timeout,
  validate_postgres_version, PostgresVersionError,
}
use go_patroni.Control.Restart.Preparation.{prepare_restart_from}
use go_patroni.Control.Restart.Contract.Laws.{IsAccepted, prepare_restart_from-IsAccepted}
use go_patroni.Control.Restart.Schedule.Laws.{WasScheduled}
use go_patroni.Control.Restart.Sending.{post_restart, restart_payload}
use go_patroni.Control.Restart.Scheduled.{post_restart-WasScheduled}
use go_patroni.Control.Tests.Sample.{target, state, noon}
use go_patroni.Control.Tests.Pausing.{service, client}

abbrev request : Option Time → RestartRequest
request at = record {
  target = target;
  members = [];
  role = Role.any;
  any_member = true;
  scheduled_at = at;
  postgres_version = [];
  pending = false;
  timeout = [];
  force = false;
  citus = false;
}

abbrev os : Platform
os = record {
  format_time = λ layout at. layout;
  parse_time = λ layout value. none;
  utc = λ at. at;
  equal_fold = text_eq;
  sprint_float = λ bits. [];
  parse_float = λ value. if text_eq value (text "30") then some 4629137466983448576 else none;
  parse_duration = λ value. if text_eq value (text "5m") then some (pos 300000000000) else none;
  decode_restart = λ raw. none;
  decode_schedule = λ raw. some rfc3339_nano;
  to_lower = λ value. value;
  parse_url = λ value. none;
  render_url = λ u. u.host;
  marshal = λ fields. ok [];
}

minutes : validate_restart_timeout os (text "5 min") ≡ none
unfolding validate_restart_timeout
minutes = refl

seconds : validate_restart_timeout os (text " 30") ≡ none
unfolding validate_restart_timeout
seconds = refl

early : validate_postgres_version (text "9.6") ≡ some PostgresVersionError.early_version
unfolding validate_postgres_version text
early = refl

abbrev intent : RestartIntent
intent = normalize_restart_request os (request none)

prepared :
    (prepare_restart_from
      (service 200)
      (text "op-5")
      (request none)
      intent
      (GroupRead.read (state ∷ []) [])
      []).0.outcome
    ≡ Outcome.succeeded
unfolding prepare_restart_from normalize_restart_request text_lt invalid_identity_part
    normalize_namespace requires_member cluster_id path_escape member_id precondition_incomplete
    service
prepared = refl

prepare_restart_from-IsAccepted_example :
    IsAccepted
      (service 200).os
      (request none)
      intent
      (state ∷ [])
      (prepare_restart_from
        (service 200)
        (text "op-5")
        (request none)
        intent
        (GroupRead.read (state ∷ []) [])
        []).0.payload
prepare_restart_from-IsAccepted_example =
    prepare_restart_from-IsAccepted (service 200) (text "op-5") (request none) intent (state ∷ [])
      [] [] prepared

abbrev scheduled_member : Member
scheduled_member = record {
  name = text "pg1";
  mod_revision = pos 3;
  lease = pos 9;
  member_data = record {
    api_url = text "http://10.0.0.1:8008/patroni";
    conn_url = [];
    state = text "running";
    role = text "replica";
    pending_restart = none;
    scheduled_restart = text "{}";
    tags = Fields.end;
    patroni_version = text "4.0.2";
    pause = none;
  };
}

abbrev scheduled_state : Snapshot
scheduled_state = record {
  target = target;
  prefix = text "/service/alpha";
  revision = pos 30;
  cluster = record {
    initialize = text "71";
    config = Fields.end;
    leader = none;
    members = scheduled_member ∷ [];
    failover = none;
    sync = record { mod_revision = pos 0; leader = []; standbys = []; quorum = pos 0 };
  };
}

abbrev accepting : Service
accepting = record {
  os = os;
  on_snapshot = λ t at. ok scheduled_state;
  on_discover = none;
  patroni = none;
  failover_dcs = none;
  on_clock = λ t. noon;
  on_new_id = λ t. text "op-1";
  on_random_id = λ t. text "op-2";
  on_random_index = λ t n. (pos 0, none);
  on_wait = λ t. none;
  on_context = λ t. none;
  verification_attempts = 2;
  supported_patroni_range = audited_patroni_range;
}

abbrev member : ResolvedMember
member = record {
  target = with_member target (text "pg1");
  member = scheduled_member;
  snapshot = state;
}

taken :
    (post_restart accepting
      (client 200)
      (request (some noon))
      member
      (text "http://10.0.0.1:8008")
      []
      []).0.outcome
    ≡ Outcome.succeeded
unfolding post_restart
taken = refl

post_restart-WasScheduled_example :
    (eqb_ℤ
        ((client 200).on_restart []
          (text "http://10.0.0.1:8008")
          (restart_payload accepting.os (request (some noon)))).0
        (pos 200)
      ≡ true)
    ⊎ WasScheduled accepting (with_member member.target []) member.member.name noon (
        Call.post_restart
          (text "http://10.0.0.1:8008")
          (restart_payload accepting.os (request (some noon)))
        ∷ [])
post_restart-WasScheduled_example =
    post_restart-WasScheduled accepting (client 200) (request (some noon)) member
      (text "http://10.0.0.1:8008") [] noon [] refl taken
