-- ===== src/Control/Restart/Schedule/Laws.antt =====
-- What a verified schedule has seen.
use go_patroni.Base.{
  ℕ, zero, suc, ◌≡◌, refl, ◌∙◌, ap, subst, ◌∷◌, ◌++◌, inl, inr, Bool, true, false, List, [], arith,
  Bool-cases, Option-cases,
}
use go_patroni.Base.Result.{ok, Result-cases}
use go_patroni.Texts.{Text}
use go_patroni.Target.{Target}
use go_patroni.Dcs.Snapshots.{Snapshot}
use go_patroni.Control.Types.{Time, Evidence}
use go_patroni.Control.Service.{Service, Trace, Call, now, call, snapshot, wait_interval}
use go_patroni.Control.Reports.{observe}
use go_patroni.Control.Writes.Members.{with_member}
use go_patroni.Control.Restart.Schedule.{
  is_scheduled, read_schedule, schedule_rounds, verify_scheduled_restart,
}

-- The later trace goes on from the earlier one.
abbrev pub Continues : Trace → Trace → Type 0
Continues t later = (calls : List Call) × (later ≡ calls ++ t)

append_one : (calls : List Call) (c : Call) (t : Trace) → calls ++ c ∷ t ≡ (calls ++ c ∷ []) ++ t
append_one [] c t = refl
append_one (d ∷ calls) c t = ap (λ rest. d ∷ rest) (append_one calls c t)

-- Some read of the cluster since the given calls showed the member with the schedule.
pub record WasScheduled (service : Service) (target : Target) (name : Text) (at : Time) (t : Trace)
    : Type 0 where
  pub state : Snapshot
  pub at_read : Trace
  pub since : Continues t at_read
  pub answered : service.on_snapshot at_read target ≡ ok state
  pub scheduled : is_scheduled service.os name at state ≡ true

module _ (service : Service) (target : Target) (name : Text) (at : Time) where
  -- Seen since a later call is seen since the earlier calls.
  pub WasScheduled-call :
      (c : Call) (t : Trace)
      → WasScheduled service target name at (c ∷ t)
      → WasScheduled service target name at t
  WasScheduled-call c t w = record {
    state = w.state;
    at_read = w.at_read;
    since = (w.since.0 ++ c ∷ [], w.since.1 ∙ append_one w.since.0 c t);
    answered = w.answered;
    scheduled = w.scheduled;
  }

  read_schedule-trace :
      (before : List Evidence) (t : Trace)
      → (read_schedule service target name at before t).1
        ≡ Call.read_clock ∷ Call.read_snapshot target ∷ t
  unfolding read_schedule snapshot call observe now
  read_schedule-trace before t = elim (Result-cases (service.on_snapshot t target)) [
    | inr (e, failed) ↦ rw (failed, read_schedule) refl
    | inl (s, answered) ↦ rw (answered, read_schedule) refl
  ]

  read_schedule-WasScheduled :
      (before : List Evidence) (t : Trace)
      → (read_schedule service target name at before t).0.0 ≡ true
      → WasScheduled service target name at t
  unfolding read_schedule snapshot call
  read_schedule-WasScheduled before t h = elim (Result-cases (service.on_snapshot t target)) [
    | inr (e, failed) ↦ absurd (ground (arith, rw (failed, read_schedule) at h))
    | inl (s, answered) ↦ record {
      state = s;
      at_read = t;
      since = ([], refl);
      answered = answered;
      scheduled = rw (answered, read_schedule) at h;
    }
  ]

  -- Seen since a read that showed nothing.
  after_read_call :
      (before : List Evidence) (t : Trace)
      → WasScheduled service target name at (read_schedule service target name at before t).1
      → WasScheduled service target name at t
  after_read_call before t w = WasScheduled-call (Call.read_snapshot target) t (
      WasScheduled-call Call.read_clock (Call.read_snapshot target ∷ t)
        (subst (WasScheduled service target name at) (read_schedule-trace before t) w))

  after_read-WasScheduled :
      (rounds : ℕ) (before : List Evidence)
      → ((after : List Evidence) (t : Trace)
          → (schedule_rounds service target name at rounds false after t).0.0 ≡ true
          → WasScheduled service target name at t)
      → (t : Trace) → (schedule_rounds service target name at (suc rounds) true before t).0.0 ≡ true
      → WasScheduled service target name at t
  unfolding schedule_rounds
  after_read-WasScheduled rounds before ih t h =
      let (r, t') = read_schedule service target name at before t in
      elim (Bool-cases r.0) [
        | inl seen ↦ read_schedule-WasScheduled before t seen
        | inr unseen ↦ after_read_call before t (ih r.1 t' (rw (schedule_rounds, unseen) at h))
      ]

  schedule_rounds-WasScheduled :
      (rounds : ℕ) (first : Bool) (before : List Evidence) (t : Trace)
      → (schedule_rounds service target name at rounds first before t).0.0 ≡ true
      → WasScheduled service target name at t
  unfolding schedule_rounds wait_interval call
  schedule_rounds-WasScheduled zero first before t h = absurd (ground (arith, h))
  schedule_rounds-WasScheduled (suc rounds) true before t h =
      after_read-WasScheduled rounds before (schedule_rounds-WasScheduled rounds false) t h
  schedule_rounds-WasScheduled (suc rounds) false before t h =
      elim (Option-cases (service.on_wait t)) [
        | inr (e, ended) ↦ absurd (ground (arith, rw (ended, schedule_rounds) at h))
        | inl running ↦ WasScheduled-call Call.wait t (
            after_read-WasScheduled rounds before (schedule_rounds-WasScheduled rounds false) _
              (rw (running, schedule_rounds) at h))
      ]

-- A scheduled restart is reported as verified only if the snapshot reader, asked after the calls made
-- before the verification, gives a snapshot with a member of that name whose scheduled restart is at
-- that time.
pub verify_scheduled_restart-WasScheduled :
    (service : Service) (target : Target) (name : Text) (at : Time) (t : Trace)
    → (verify_scheduled_restart service target name at t).0.0 ≡ true
    → WasScheduled service (with_member target []) name at t
unfolding verify_scheduled_restart
verify_scheduled_restart-WasScheduled service target name at t h =
    schedule_rounds-WasScheduled service (with_member target []) name at
      service.verification_attempts true [] t h
