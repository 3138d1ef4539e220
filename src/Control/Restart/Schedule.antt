-- ===== src/Control/Restart/Schedule.antt =====
-- A scheduled restart: its recognition in the DCS and its verification (`verifyScheduledRestart`,
-- `scheduledRestartMatches` of control/restart.go, `decodeScheduledRestart` of control/read.go), and the
-- flush that a forced one sends first (`classifyForcedRestartFlush`).
pub mod Laws
use go_patroni.Base.{
  ℕ, zero, suc, Bool, true, false, ◌&&◌, ◌||◌, Option, none, some, List, [], ◌∷◌, ◌++◌, is_empty,
  not, ℤ, pos, any, eqb_ℤ,
}
use go_patroni.Base.Result.{ok, err}
use go_patroni.Texts.{Text, text, text_eq}
use go_patroni.Texts.Space.{trim_space}
use go_patroni.Texts.Decimal.{itoa}
use go_patroni.Target.{Target}
use go_patroni.Dcs.Snapshots.{Snapshot}
use go_patroni.Control.Types.{Time, SendState, EvidenceSource, Evidence, Route, route_text, Cause}
use go_patroni.Control.Errors.{classify_read_error, patroni_send_state}
use go_patroni.Control.Platform.{Platform, rfc3339_nano}
use go_patroni.Control.Service.{◌>>=◌, Service, Run, pure, snapshot, wait_interval}
use go_patroni.Control.Reports.{observe}
use go_patroni.Control.Writes.{MemberWrite, unsent_write}
use go_patroni.Control.Writes.Members.{with_member}
use go_patroni.Control.Writes.Responses.{unknown_write, may_be_sent}

abbrev schedule_present : Option (Text × Text) → Bool
schedule_present none = false
schedule_present (some (schedule, version)) = not (is_empty schedule)

-- `decodeScheduledRestart(raw) != nil`
unfoldable pub has_scheduled_restart : Platform → Text → Bool
unfolding trim_space text_eq text
has_scheduled_restart os raw =
    not (is_empty (trim_space raw) || text_eq (trim_space raw) (text "null"))
    && schedule_present (os.decode_restart raw)

abbrev rfc3339 : Text
rfc3339 = text "2006-01-02T15:04:05Z07:00"

schedule_is : Platform → Time → Text → Bool
schedule_is os expected schedule = elim (os.parse_time rfc3339_nano schedule) [
  | some observed ↦ eqb_ℤ observed.instant expected.instant
  | none ↦
      text_eq schedule (os.format_time rfc3339_nano expected)
      || text_eq schedule (os.format_time rfc3339 expected)
]

abbrev decoded_matches : Platform → Time → Option Text → Bool
decoded_matches os expected none = false
decoded_matches os expected (some schedule) =
    not (is_empty schedule) && schedule_is os expected schedule

-- `scheduledRestartMatches`
unfoldable pub scheduled_restart_matches : Platform → Text → Time → Bool
unfolding trim_space schedule_is
scheduled_restart_matches os raw expected =
    not (is_empty (trim_space raw)) && decoded_matches os expected (os.decode_schedule raw)

unfoldable pub is_scheduled : Platform → Text → Time → Snapshot → Bool
unfolding any scheduled_restart_matches text_eq
is_scheduled os name at s =
    any
      (λ m. text_eq m.name name && scheduled_restart_matches os m.member_data.scheduled_restart at)
      s.cluster.members

abbrev scheduled_summary : Bool → Text
scheduled_summary true = text "scheduled restart observed in DCS"
scheduled_summary false = text "scheduled restart not yet observed in DCS"

-- One round after the wait.
unfoldable pub read_schedule :
    Service → Target → Text → Time → List Evidence → Run (Bool × List Evidence)
unfolding snapshot observe is_scheduled itoa route_text text
read_schedule service target name at before = do
  answer ← snapshot service target
  elim answer [
    | err _ ↦ do
      e ←
          observe service EvidenceSource.dcs (text "scheduled restart verification snapshot failed")
            [] (route_text Route.dcs) SendState.unset
      pure (false, before ++ e ∷ [])
    | ok s ↦ do
      let seen = is_scheduled service.os name at s
      e ←
          observe service EvidenceSource.dcs (scheduled_summary seen) (itoa s.revision) s.prefix
            SendState.unset
      pure (seen, before ++ e ∷ [])
  ]

-- The rounds that are left; the first one does not wait.
unfoldable pub schedule_rounds :
    Service → Target → Text → Time → ℕ → Bool → List Evidence → Run (Bool × List Evidence)
unfolding wait_interval read_schedule observe route_text text
schedule_rounds service target name at zero first before = pure (false, before)
schedule_rounds service target name at (suc rounds) true before = do
  r ← read_schedule service target name at before
  elim r.0 [ true ↦ pure r | false ↦ schedule_rounds service target name at rounds false r.1 ]
schedule_rounds service target name at (suc rounds) false before = do
  ended ← wait_interval service
  elim ended [
    | some _ ↦ do
      e ←
          observe service EvidenceSource.control (text "scheduled restart verification canceled") []
            (route_text Route.dcs) SendState.unset
      pure (false, before ++ e ∷ [])
    | none ↦ do
      r ← read_schedule service target name at before
      elim r.0 [ true ↦ pure r | false ↦ schedule_rounds service target name at rounds false r.1 ]
  ]

-- `verifyScheduledRestart`
unfoldable pub verify_scheduled_restart :
    Service → Target → Text → Time → Run (Bool × List Evidence)
unfolding schedule_rounds with_member
verify_scheduled_restart service target name at =
    schedule_rounds service (with_member target []) name at service.verification_attempts true []

-- What the flush leaves: the evidence to go on with, or the result for the member.
pub data Flushed : Type 0 where
  goes_on : List Evidence → Flushed
  stops : MemberWrite → Flushed

-- `classifyForcedRestartFlush`; of a result that lets the restart go on, the loop reads the evidence only.
unfoldable pub classify_forced_restart_flush : Service → Target → ℤ × Option Cause → Run Flushed
unfolding observe patroni_send_state unknown_write unsent_write classify_read_error text
classify_forced_restart_flush service target (status, cause) = do
  let send = patroni_send_state cause status
  e ←
      observe service EvidenceSource.patroni (text "scheduled restart replacement flush completed")
        [] (text "/restart") send
  elim (eqb_ℤ status (pos 0)) [
    | false ↦ pure (goes_on (e ∷ []))
    | true ↦ elim (may_be_sent send) [
      | true ↦ pure (
          stops (
            unknown_write (text "restart") target send
              (text "scheduled restart flush may have been sent; verify before retrying") cause e))
      | false ↦ pure (
          stops (
            unsent_write (text "restart") target (classify_read_error cause)
              (text "scheduled restart flush was not sent") cause e))
    ]
  ]
