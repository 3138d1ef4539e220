-- ===== src/Control/Reports.antt =====
-- The building of evidence and of results: `snapshotEvidence`, `failedRead` and
-- `evidenceSourceForPath` of control/read.go, and `unsupportedVersionResult` of
-- control/version_gate.go.
pub mod Spending
use go_patroni.Base.{Bool, false, Option, some, List, [], ◌∷◌, ◌++◌}
use go_patroni.Texts.{Text, text}
use go_patroni.Texts.Decimal.{itoa}
use go_patroni.Target.{Target, normalize}
use go_patroni.Dcs.Snapshots.{Snapshot}
use go_patroni.Control.Types.{
  Category, Outcome, SendState, EvidenceSource, Route, Cause, plain, Evidence, OperationResult,
  route_text,
}
use go_patroni.Control.Errors.{new_error}
use go_patroni.Version.Range.{range_text}
use go_patroni.Control.Service.{Service, Run, ◌>>=◌, pure, now, patroni_version_range}

-- Evidence observed now.
unfoldable pub observe : Service → EvidenceSource → Text → Text → Text → SendState → Run Evidence
unfolding now
observe service source summary revision path send = do
  at ← now service
  pure (record {
    source = source;
    observed_at = at;
    summary = summary;
    revision = revision;
    path = path;
    send_state = send;
  })

unfoldable pub snapshot_evidence : Service → Snapshot → Text → Run Evidence
unfolding observe itoa
snapshot_evidence service s summary =
    observe service EvidenceSource.dcs summary (itoa s.revision) s.prefix SendState.unset

abbrev pub evidence_source_for_path : Route → EvidenceSource
evidence_source_for_path Route.rest = EvidenceSource.patroni
evidence_source_for_path Route.postgres = EvidenceSource.postgres
evidence_source_for_path Route.local = EvidenceSource.local
evidence_source_for_path _ = EvidenceSource.dcs

-- The evidence given, or one entry that carries the message.
unfoldable pub evidence_or_message : Service → Route → Text → List Evidence → Run (List Evidence)
unfolding observe route_text
evidence_or_message service path message [] = do
  e ← observe service (evidence_source_for_path path) message [] (route_text path) SendState.unset
  pure (e ∷ [])
evidence_or_message service path message (e ∷ es) = pure (e ∷ es)

-- `failedRead`; the payload is the zero value of its type.
unfoldable pub failed_read :
    {T : Type 0}
    → T
    → Service
    → Text
    → Text
    → Target
    → Route
    → Category
    → Bool
    → Text
    → Option Cause
    → List Evidence
    → Run (OperationResult T)
unfolding evidence_or_message new_error
failed_read zero_value service id operation target path category retryable message cause evidence =
    do
      es ← evidence_or_message service path message evidence
      pure (record {
        operation_id = id;
        outcome = Outcome.failed;
        target = normalize target;
        path = path;
        payload = zero_value;
        evidence = es;
        error = some (new_error category operation target retryable message cause es);
      })

-- `unsupportedVersionResult`
unfoldable pub unsupported_version_result :
    {T : Type 0} → T → Service → Text → Text → Target → Route → Snapshot → Run (OperationResult T)
unfolding failed_read snapshot_evidence
unsupported_version_result zero_value service id operation target path s = do
  e ← snapshot_evidence service s (text "Patroni compatibility range checked before operation")
  failed_read zero_value service id operation target path Category.unsupported false
      (operation ++ (text " requires Patroni " ++ range_text (patroni_version_range service)))
      (some plain) (e ∷ [])
