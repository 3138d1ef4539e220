-- ===== src/Control/Doubts.antt =====
-- Which of the calls that were made are in doubt: by the answers, Patroni or the DCS may have taken the
-- request, and did not say.
use go_patroni.Base.{
  ℕ, suc, ◌≡◌, refl, Bool, true, false, ◌&&◌, ◌||◌, Option, none, some, [], ◌∷◌, not, ℤ, pos, eqb_ℤ,
  if◌then◌else◌,
}
use go_patroni.Texts.{Text}
use go_patroni.Target.{Target}
use go_patroni.Control.Types.{Cause}
use go_patroni.Control.Errors.{patroni_send_state}
use go_patroni.Control.Service.{
  Service, PatroniClient, FailoverWriter, WriteResult, Response, Trace, Call,
}
use go_patroni.Control.Writes.Responses.{may_be_sent}
use go_patroni.Control.Transition.Fallback.{has_conflict, dcs_send_state}
use go_patroni.Control.Transition.Recovery.{is_not_sent}

-- No HTTP response, and the client does not know that the request was not sent.
unfoldable pub is_lost : ℤ × Option Cause → Bool
unfolding patroni_send_state
is_lost (status, cause) = eqb_ℤ status (pos 0) && may_be_sent (patroni_send_state cause status)

abbrev pub status_of : Response × Option Cause → ℤ × Option Cause
status_of (response, cause) = (response.status_code, cause)

-- The write may have taken place: it may have been sent, and no compare-and-swap refused it.
unfoldable pub is_pending_write : WriteResult × Option Cause → Bool
unfolding dcs_send_state
is_pending_write (result, cause) =
    not (is_not_sent (dcs_send_state cause result.applied) || has_conflict cause)

-- A call without the dependency that it is made of would be in doubt.
unfoldable pub rest_in_doubt : Option PatroniClient → Call → Trace → Bool
unfolding is_lost
rest_in_doubt none c t = true
rest_in_doubt (some client) (Call.post_failover base payload) t =
    is_lost (status_of (client.on_failover t base payload))
rest_in_doubt (some client) (Call.post_switchover base payload) t =
    is_lost (status_of (client.on_switchover t base payload))
rest_in_doubt (some client) (Call.patch_config base payload) t =
    is_lost (client.on_patch_config t base payload)
rest_in_doubt (some client) (Call.post_reload base) t = is_lost (client.on_reload t base)
rest_in_doubt (some client) (Call.delete_restart base) t = is_lost (client.on_delete_restart t base)
rest_in_doubt (some client) (Call.post_restart base payload) t =
    is_lost (client.on_restart t base payload)
rest_in_doubt (some client) _ t = false

unfoldable pub write_in_doubt : Option FailoverWriter → Target → Text → ℤ → Trace → Bool
unfolding is_pending_write
write_in_doubt none target payload revision t = true
write_in_doubt (some writer) target payload revision t =
    is_pending_write (writer.on_write t target payload revision)

-- The call, made after the trace; reads, the clock and the like are never in doubt.
unfoldable pub in_doubt : Service → Call → Trace → Bool
unfolding rest_in_doubt write_in_doubt
in_doubt service (Call.post_failover base payload) t =
    rest_in_doubt service.patroni (Call.post_failover base payload) t
in_doubt service (Call.post_switchover base payload) t =
    rest_in_doubt service.patroni (Call.post_switchover base payload) t
in_doubt service (Call.patch_config base payload) t =
    rest_in_doubt service.patroni (Call.patch_config base payload) t
in_doubt service (Call.post_reload base) t = rest_in_doubt service.patroni (Call.post_reload base) t
in_doubt service (Call.delete_restart base) t =
    rest_in_doubt service.patroni (Call.delete_restart base) t
in_doubt service (Call.post_restart base payload) t =
    rest_in_doubt service.patroni (Call.post_restart base payload) t
in_doubt service (Call.write_failover target payload revision) t =
    write_in_doubt service.failover_dcs target payload revision t
in_doubt service _ t = false

-- How many calls are in doubt.
unfoldable pub doubts : Service → Trace → ℕ
unfolding in_doubt
doubts service [] = 0
doubts service (c ∷ t) =
    let earlier = doubts service t in if in_doubt service c t then suc earlier else earlier

-- A call that is not in doubt adds none.
pub doubts-settled :
    (service : Service) (c : Call) (t : Trace)
    → in_doubt service c t ≡ false
    → doubts service (c ∷ t) ≡ doubts service t
unfolding doubts
doubts-settled service c t h = rw (h, doubts) refl
