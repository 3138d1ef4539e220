-- ===== src/Control/Restart/Scheduled.antt =====
-- When a scheduled restart of a member counts as a success.
use go_patroni.Base.{
  ◌≡◌, refl, subst, ◌⊎◌, inl, inr, Bool, true, false, Option, some, List, ◌∷◌, ◌++◌, arith,
  Bool-cases, ℤ, pos, eqb_ℤ, [],
}
use go_patroni.Texts.{Text, text}
use go_patroni.Target.{Target}
use go_patroni.Control.Types.{Time, Evidence, Cause, Outcome, SendState}
use go_patroni.Control.Reports.{observe}
use go_patroni.Control.Service.{now, Service, PatroniClient, Trace, call, Call}
use go_patroni.Control.Errors.{patroni_send_state}
use go_patroni.Control.Writes.{MemberWrite, unsent_write, failed_write}
use go_patroni.Control.Writes.Members.{with_member}
use go_patroni.Control.Writes.Responses.{
  restart_endpoint, classify_restart_response, classify_response, may_be_sent, unknown_write,
  without_response, ok_or_accepted,
}
use go_patroni.Control.Reload.Resolution.{ResolvedMember}
use go_patroni.Control.Restart.{RestartRequest}
use go_patroni.Control.Restart.Schedule.{verify_scheduled_restart}
use go_patroni.Control.Restart.Schedule.Laws.{
  WasScheduled, WasScheduled-call, verify_scheduled_restart-WasScheduled,
}
use go_patroni.Control.Restart.Sending.{
  with_evidence, schedule_verified, schedule_unverified, after_readback, confirm_schedule,
  needs_readback, is_failed, post_restart, restart_payload,
}

after_readback_succeeded :
    (target : Target) (cause : Option Cause) (r : MemberWrite) (v : Bool × List Evidence)
    → (after_readback target cause r v).outcome ≡ Outcome.succeeded
    → v.0 ≡ true
unfolding after_readback schedule_verified schedule_unverified with_evidence
after_readback_succeeded target cause r (true, seen) h = refl
after_readback_succeeded target cause r (false, seen) h = elim (Bool-cases (is_failed r.outcome)) [
  | inl failed ↦ absurd (ground (arith, failed, rw (failed, after_readback) at h))
  | inr other ↦ absurd (ground (arith, rw (other, after_readback) at h))
]

without_response_not_succeeded :
    (target : Target) (send : SendState) (cause : Option Cause) (e : Evidence)
    → (without_response (text "restart") restart_endpoint target send cause e).outcome
      ≡ Outcome.succeeded
    → false ≡ true
unfolding without_response unknown_write unsent_write failed_write
without_response_not_succeeded target send cause e h = elim (Bool-cases (may_be_sent send)) [
  | inl maybe ↦ absurd (ground (arith, rw (maybe, without_response) at h))
  | inr never ↦ absurd (ground (arith, rw (never, without_response) at h))
]

module _ (service : Service) where
  classify_restart_succeeded :
      (target : Target) (answer : ℤ × Option Cause) (t : Trace)
      → (classify_restart_response service target answer t).0.outcome ≡ Outcome.succeeded
      → ok_or_accepted answer.0 ≡ true
  unfolding classify_restart_response classify_response failed_write
  classify_restart_succeeded target (status, cause) t h =
      elim (Bool-cases (ok_or_accepted status)) [
        | inl accepted ↦ accepted
        | inr other ↦ elim (Bool-cases (eqb_ℤ status (pos 0))) [
          | inl silent ↦ absurd (
              ground (
                arith,
                without_response_not_succeeded target (patroni_send_state cause status) cause _
                    (rw (other, silent, classify_response) at h),
              ))
          | inr answered ↦ absurd (ground (arith, rw (other, answered, classify_response) at h))
        ]
      ]

  confirm_schedule-WasScheduled :
      (m : ResolvedMember) (at : Time) (answer : ℤ × Option Cause) (r : MemberWrite) (t : Trace)
      → (confirm_schedule service m (some at) answer r t).0.outcome ≡ Outcome.succeeded
      → (needs_readback r.send_state answer.0 ≡ false) × (r.outcome ≡ Outcome.succeeded)
        ⊎ WasScheduled service (with_member m.target []) m.member.name at t
  unfolding confirm_schedule
  confirm_schedule-WasScheduled m at (status, cause) r t h =
      elim (Bool-cases (needs_readback r.send_state status)) [
        | inr settled ↦ inl (settled, rw (settled, confirm_schedule) at h)
        | inl unsettled ↦
            let (v, t') = verify_scheduled_restart service m.target m.member.name at t in
            inr (
              verify_scheduled_restart-WasScheduled service m.target m.member.name at t (
                after_readback_succeeded m.target cause r v
                  (rw (unsettled, confirm_schedule) at h)))
      ]

  confirm_if-WasScheduled :
      (m : ResolvedMember) (at : Time) (asked : Option Time) (answer : ℤ × Option Cause)
      (r : MemberWrite) (t : Trace)
      → asked ≡ some at
      → (confirm_schedule service m asked answer r t).0.outcome ≡ Outcome.succeeded
      → (needs_readback r.send_state answer.0 ≡ false) × (r.outcome ≡ Outcome.succeeded)
        ⊎ WasScheduled service (with_member m.target []) m.member.name at t
  confirm_if-WasScheduled m at asked answer r t scheduled h =
      confirm_schedule-WasScheduled m at answer r t (rw scheduled at h)

settled_status :
    (send : SendState) (status : ℤ)
    → ok_or_accepted status ≡ true
    → needs_readback send status ≡ false
    → eqb_ℤ status (pos 200) ≡ true
settled_status send status h k = ground (arith, h, k)

classify_restart-trace :
    (service : Service) (target : Target) (answer : ℤ × Option Cause) (t : Trace)
    → (classify_restart_response service target answer t).1 ≡ Call.read_clock ∷ t
unfolding classify_restart_response classify_response observe now call
classify_restart-trace service target (status, cause) t =
    elim (Bool-cases (ok_or_accepted status)) [
      | inl accepted ↦ rw (accepted, classify_response) refl
      | inr other ↦ elim (Bool-cases (eqb_ℤ status (pos 0))) [
        | inl silent ↦ rw (other, silent, classify_response) refl
        | inr answered ↦ rw (other, answered, classify_response) refl
      ]
    ]

-- The restart of a member for a request with a schedule succeeds only if Patroni answered 200, or if a
-- snapshot read after the restart was posted shows the member with that schedule: an answer 202, a lost
-- answer and a transport error alone are not taken as a success.
pub post_restart-WasScheduled :
    (service : Service) (client : PatroniClient) (request : RestartRequest) (m : ResolvedMember)
    (base : Text) (flushed : List Evidence) (at : Time) (t : Trace)
    → request.scheduled_at ≡ some at
    → (post_restart service client request m base flushed t).0.outcome ≡ Outcome.succeeded
    → (eqb_ℤ (client.on_restart t base (restart_payload service.os request)).0 (pos 200) ≡ true)
      ⊎ WasScheduled service
          (with_member m.target [])
          m.member.name
          at
          (Call.post_restart base (restart_payload service.os request) ∷ t)
unfolding post_restart call with_evidence
post_restart-WasScheduled service client request m base flushed at t scheduled h =
    let payload = restart_payload service.os request in
    let answer = client.on_restart t base payload in
    let t' = Call.post_restart base payload ∷ t in
    let (r, t'') = classify_restart_response service m.target answer t' in
    let seen =
      confirm_if-WasScheduled service m at request.scheduled_at answer
        (with_evidence r (flushed ++ r.evidence)) t'' scheduled h in
    elim seen [
      | inr was ↦ inr (
          WasScheduled-call service (with_member m.target []) m.member.name at Call.read_clock t' (
            subst (WasScheduled service (with_member m.target []) m.member.name at)
              (classify_restart-trace service m.target answer t') was))
      | inl (settled, succeeded) ↦ inl (
          settled_status r.send_state answer.0
            (classify_restart_succeeded service m.target answer t' succeeded) settled)
    ]
