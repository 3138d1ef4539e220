-- ===== src/Control/Restart/Sending/Laws.antt =====
-- What every member's result says after a restart, and after the readback of a schedule.
use go_patroni.Base.{
  refl, inl, inr, Bool, true, false, Option, none, some, List, [], ◌∷◌, ◌++◌, Bool-cases,
  Option-cases, All, ℤ, pos, eqb_ℤ,
}
use go_patroni.Texts.{Text, text}
use go_patroni.Target.{Target}
use go_patroni.Control.Types.{Time, SendState, EvidenceSource, Evidence, Cause}
use go_patroni.Control.Errors.{new_error, patroni_send_state, classify_read_error}
use go_patroni.Control.Errors.Laws.{classify_read_error-known}
use go_patroni.Control.Platform.{patroni_base_url}
use go_patroni.Control.Service.{Service, PatroniClient, call, Call, context_error}
use go_patroni.Control.Service.Runs.{Returns}
use go_patroni.Control.Reports.{observe}
use go_patroni.Control.Writes.{
  MemberWrite, write_fits, unsent_write, failed_write, skipped_write_after_cancellation,
  invalid_rest_address_write,
}
use go_patroni.Control.Writes.Fits.{Fits, classify_response-Fits, failed_write-Fits}
use go_patroni.Control.Writes.Responses.{
  restart_endpoint, classify_restart_response, may_be_sent, unknown_write,
}
use go_patroni.Control.Reload.Resolution.{ResolvedMember}
use go_patroni.Control.Restart.{RestartRequest}
use go_patroni.Control.Restart.Schedule.{
  Flushed, goes_on, stops, classify_forced_restart_flush, verify_scheduled_restart,
}
use go_patroni.Control.Restart.Sending.{
  with_evidence, schedule_verified, schedule_unverified, after_readback, confirm_schedule,
  needs_readback, is_failed, post_restart, after_flush, replaces_schedule, restart_at,
  restart_member, restart_members, restart_payload,
}

after_readback-Fits :
    (target : Target) (cause : Option Cause) (r : MemberWrite) (v : Bool × List Evidence)
    → Fits r
    → Fits (after_readback target cause r v)
unfolding after_readback schedule_verified schedule_unverified with_evidence new_error write_fits
after_readback-Fits target cause r (true, seen) h = refl
after_readback-Fits target cause r (false, seen) h = elim (Bool-cases (is_failed r.outcome)) [
  | inl failed ↦ rw (failed, after_readback) h
  | inr pending ↦ rw (pending, after_readback) refl
]

-- A flush that stops the restart leaves a result that fits.
abbrev FlushFits : Flushed → Type 0
FlushFits (goes_on e) = Unit
FlushFits (stops r) = Fits r

flush-FlushFits :
    (service : Service) (target : Target) (answer : ℤ × Option Cause)
    → Returns FlushFits (classify_forced_restart_flush service target answer)
unfolding classify_forced_restart_flush unsent_write unknown_write new_error write_fits
flush-FlushFits service target (status, cause) t =
    let send = patroni_send_state cause status in
    let summary = text "scheduled restart replacement flush completed" in
    let e = (observe service EvidenceSource.patroni summary [] (text "/restart") send t).0 in
    elim (Bool-cases (eqb_ℤ status (pos 0))) [
      | inr answered ↦ rw (answered, classify_forced_restart_flush) tt
      | inl silent ↦ elim (Bool-cases (may_be_sent (patroni_send_state cause status))) [
        | inl maybe ↦ rw (silent, maybe, classify_forced_restart_flush) refl
        | inr never ↦
            rw (silent, never, classify_forced_restart_flush)
              (failed_write-Fits (text "restart") target SendState.not_sent (pos 0)
                (classify_read_error cause) (text "scheduled restart flush was not sent") cause e
                (classify_read_error-known cause))
      ]
    ]

module _ (service : Service) (client : PatroniClient) (request : RestartRequest) where
  confirm_schedule-Fits :
      (m : ResolvedMember) (at : Option Time) (answer : ℤ × Option Cause) (r : MemberWrite)
      → Fits r
      → Returns Fits (confirm_schedule service m at answer r)
  unfolding confirm_schedule
  confirm_schedule-Fits m none answer r h t = h
  confirm_schedule-Fits m (some at) (status, cause) r h t =
      elim (Bool-cases (needs_readback r.send_state status)) [
        | inr settled ↦ rw (settled, confirm_schedule) h
        | inl unsettled ↦
            rw (unsettled, confirm_schedule)
              (after_readback-Fits m.target cause r
                (verify_scheduled_restart service m.target m.member.name at t).0 h)
      ]

  post_restart-Fits :
      (m : ResolvedMember) (base : Text) (flushed : List Evidence)
      → Returns Fits (post_restart service client request m base flushed)
  unfolding post_restart call with_evidence classify_restart_response
  post_restart-Fits m base flushed t =
      let payload = restart_payload service.os request in
      let answer = client.on_restart t base payload in
      let t' = Call.post_restart base payload ∷ t in
      let (r, t'') = classify_restart_response service m.target answer t' in
      confirm_schedule-Fits m request.scheduled_at answer (with_evidence r (flushed ++ r.evidence))
        (classify_response-Fits service (text "restart") restart_endpoint m.target answer t') t''

  after_flush-Fits :
      (m : ResolvedMember) (base : Text) (f : Flushed)
      → FlushFits f
      → Returns Fits (after_flush service client request m base f)
  unfolding after_flush
  after_flush-Fits m base (goes_on evidence) h t = post_restart-Fits m base evidence t
  after_flush-Fits m base (stops r) h t = h

  restart_at-Fits :
      (m : ResolvedMember) (address : Option Text)
      → Returns Fits (restart_at service client request m address)
  unfolding restart_at invalid_rest_address_write unsent_write failed_write new_error write_fits
      call
  restart_at-Fits m none t = refl
  restart_at-Fits m (some base) t = elim (Bool-cases (replaces_schedule service.os request m)) [
    | inr kept ↦ rw (kept, restart_at) (post_restart-Fits m base [] t)
    | inl replaced ↦
        let answer = client.on_delete_restart t base in
        let t' = Call.delete_restart base ∷ t in
        let (f, t'') = classify_forced_restart_flush service m.target answer t' in
        rw (replaced, restart_at)
          (after_flush-Fits m base f (flush-FlushFits service m.target answer t') t'')
  ]

  restart_member-Fits :
      (m : ResolvedMember) → Returns Fits (restart_member service client request m)
  unfolding restart_member context_error call skipped_write_after_cancellation unsent_write
      failed_write new_error write_fits
  restart_member-Fits m t = elim (Option-cases (service.on_context t)) [
    | inr (e, ended) ↦ rw (ended, restart_member) refl
    | inl running ↦
        rw (running, restart_member)
          (restart_at-Fits m (patroni_base_url service.os m.member.member_data.api_url)
            (Call.check_context ∷ t))
  ]

  -- The result for each member of a restart has the error and the verification that its outcome asks
  -- for, whatever the members, the DCS and the context answer: a success is verified and has no error,
  -- a failure is a verified one with an error that is not unknown, and an unknown outcome has an
  -- unknown error.
  pub restart_members-Fits :
      (ms : List ResolvedMember) → Returns (All Fits) (restart_members service client request ms)
  unfolding restart_members
  restart_members-Fits [] t = tt
  restart_members-Fits (m ∷ ms) t =
      let (r, t') = restart_member service client request m t in
      (restart_member-Fits m t, restart_members-Fits ms t')
