-- ===== src/Control/Reports/Spending.antt =====
-- Building evidence and refusals makes no write.
use go_patroni.Base.{Bool, Option, List, [], ◌∷◌}
use go_patroni.Texts.{Text}
use go_patroni.Target.{Target}
use go_patroni.Dcs.Snapshots.{Snapshot}
use go_patroni.Control.Types.{Category, EvidenceSource, Route, SendState, Cause, Evidence}
use go_patroni.Control.Service.{Service}
use go_patroni.Control.Service.Runs.{Spends, now-Spends, Spent-any}
use go_patroni.Control.Reports.{observe, snapshot_evidence, evidence_or_message, failed_read}

module _ (service : Service) where
  pub observe-Spends :
      (source : EvidenceSource) (summary revision path : Text) (send : SendState)
      → Spends 0 0 (observe service source summary revision path send)
  unfolding observe
  observe-Spends source summary revision path send t = now-Spends service t

  pub snapshot_evidence-Spends :
      (s : Snapshot) (summary : Text) → Spends 0 0 (snapshot_evidence service s summary)
  unfolding snapshot_evidence observe
  snapshot_evidence-Spends s summary t = now-Spends service t

  evidence_or_message-Spends :
      (path : Route) (message : Text) (evidence : List Evidence)
      → Spends 0 0 (evidence_or_message service path message evidence)
  unfolding evidence_or_message observe
  evidence_or_message-Spends path message [] t = now-Spends service t
  evidence_or_message-Spends path message (e ∷ es) t = Spent-any 0 0 t

  pub failed_read-Spends :
      {T : Type 0} (zero_value : T) (id operation : Text) (target : Target) (path : Route)
      (category : Category) (retryable : Bool) (message : Text) (cause : Option Cause)
      (evidence : List Evidence)
      → Spends 0 0 (
          failed_read zero_value service id operation target path category retryable message cause
            evidence)
  unfolding failed_read
  failed_read-Spends zero_value id operation target path category retryable message cause evidence
        t =
      evidence_or_message-Spends path message evidence t
