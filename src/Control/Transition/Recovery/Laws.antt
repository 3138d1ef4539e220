-- ===== src/Control/Transition/Recovery/Laws.antt =====
-- When the fallback writes to the DCS.
use go_patroni.Base.{◌≡◌, refl, ◌≢◌, inl, inr, false, Option, List, Bool-cases, Option-cases}
use go_patroni.Dcs.Snapshots.{Snapshot}
use go_patroni.Texts.{Text}
use go_patroni.Control.Types.{Cause, Evidence}
use go_patroni.Control.Service.{Service, Trace}
use go_patroni.Control.Service.Runs.{dcs_writes}
use go_patroni.Control.Transition.Intents.{Intent, ClusterWriteData}
use go_patroni.Control.Transition.Selections.{Selection}
use go_patroni.Control.Transition.Fallback.{
  validate_fallback_transition, transition_leader_completed,
}
use go_patroni.Control.Transition.Fallback.Laws.{
  StillHolds, validate_fallback_transition-StillHolds,
}
use go_patroni.Control.Transition.Recovery.{fallback_from}

-- The fallback writes to the DCS only when the fresh snapshot shows the transition not yet done, the
-- planned leader still leading, the candidate still able to take over (or, without a named candidate,
-- the same eligible names), and no pause before a scheduled one.
pub fallback_from-StillHolds :
    (service : Service) (id : Text) (i : Intent) (planned : Selection) (d : ClusterWriteData)
    (rest_error : Option Cause) (fresh : Snapshot) (evidence : List Evidence) (t : Trace)
    → dcs_writes (fallback_from service id i planned d rest_error fresh evidence t).1 ≢ dcs_writes t
    → (transition_leader_completed fresh.cluster i planned.leader ≡ false)
      × StillHolds fresh.cluster i planned
unfolding fallback_from
fallback_from-StillHolds service id i planned d rest_error fresh evidence t wrote =
    elim (Bool-cases (transition_leader_completed fresh.cluster i planned.leader)) [
      | inl complete ↦ absurd (wrote (rw (complete, fallback_from) refl))
      | inr incomplete ↦
          elim (Option-cases (validate_fallback_transition fresh.cluster i planned)) [
            | inr (e, changed) ↦ absurd (wrote (rw (incomplete, changed, fallback_from) refl))
            | inl same ↦
                (incomplete, validate_fallback_transition-StillHolds fresh.cluster i planned same)
          ]
    ]
