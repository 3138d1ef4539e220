-- ===== src/Control/Types.antt =====
-- The records and string enumerations of control/errors.go, control/result.go and control/plan.go.
-- A Go string type with constants is a data type with a constructor for each constant and `other`
-- for any other string.
use go_patroni.Base.{Bool, false, Option, none, List, ℤ, pos, eqb_ℤ}
use go_patroni.Texts.{Text, text}
use go_patroni.Target.{Target}

pub data Category : Type 0 where
  usage config unsupported auth tls not_found conflict unreachable failed unknown internal :
      Category
  other : Text → Category

pub data Outcome : Type 0 where
  succeeded failed unknown : Outcome
  other : Text → Outcome

-- `unset` is the empty string.
pub data SendState : Type 0 where
  unset not_sent maybe_sent accepted : SendState
  other : Text → SendState

pub data Verification : Type 0 where
  unset unverified verified_succeeded verified_failed : Verification
  other : Text → Verification

pub data EvidenceSource : Type 0 where
  unset local dcs patroni postgres control : EvidenceSource
  other : Text → EvidenceSource

-- `Path` of control/result.go.
pub data Route : Type 0 where
  local dcs rest postgres rest_to_dcs : Route
  other : Text → Route

pub data Risk : Type 0 where
  read admin_write configuration availability destructive sql : Risk
  other : Text → Risk

pub data RetrySafety : Type 0 where
  read_only safe_before_send unsafe_after_send : RetrySafety
  other : Text → RetrySafety

-- `time.Time`: nanoseconds since the zero time, and the zone that formatting uses.
pub record Time : Type 0 where
  pub instant : ℤ
  pub zone : Text

abbrev pub is_zero : Time → Bool
is_zero t = eqb_ℤ t.instant (pos 0)

pub data DcsErrorKind : Type 0 where
  configuration authentication transport conflict compacted limit decode canceled deadline :
      DcsErrorKind
  other : Text → DcsErrorKind

pub data Delivery : Type 0 where
  unknown not_sent maybe_sent response_received : Delivery
  other : Text → Delivery

pub record DcsError : Type 0 where
  pub kind : DcsErrorKind
  pub operation : Text
  pub key : Text
  pub delivery : Delivery

pub data PatroniErrorKind : Type 0 where
  request authentication transport response_body decode : PatroniErrorKind
  other : Text → PatroniErrorKind

pub record PatroniError : Type 0 where
  pub kind : PatroniErrorKind
  pub delivery : Delivery
  pub status_code : ℤ

pub record ConflictError : Type 0 where
  pub key : Text
  pub expected_revision : ℤ
  pub observed_revision : ℤ

-- A Go `error`: what `errors.Is` and `errors.As` find in its chain.
pub record Cause : Type 0 where
  pub canceled : Bool
  pub deadline_exceeded : Bool
  pub dcs : Option DcsError
  pub patroni : Option PatroniError
  pub conflict : Option ConflictError

-- An error of `errors.New` or `fmt.Errorf`, with nothing in its chain that the program looks for.
abbrev pub plain : Cause
plain = record {
  canceled = false;
  deadline_exceeded = false;
  dcs = none;
  patroni = none;
  conflict = none;
}

pub record Evidence : Type 0 where
  pub source : EvidenceSource
  pub observed_at : Time
  pub summary : Text
  pub revision : Text
  pub path : Text
  pub send_state : SendState

pub record ControlError : Type 0 where
  pub category : Category
  pub operation : Text
  pub target : Target
  pub retryable : Bool
  pub message : Text
  pub evidence : List Evidence
  pub cause : Option Cause

pub record Precondition : Type 0 where
  pub field : Text
  pub expected : Text
  pub source : EvidenceSource

pub record Plan : Type 0 where
  pub operation_id : Text
  pub operation : Text
  pub target : Target
  pub targets : List Target
  pub path : Route
  pub risk : Risk
  pub retry_safety : RetrySafety
  pub summary : Text
  pub preconditions : List Precondition

-- `Result[T]` of control/result.go.
pub record OperationResult (T : Type 0) : Type 0 where
  pub operation_id : Text
  pub outcome : Outcome
  pub target : Target
  pub path : Route
  pub payload : T
  pub evidence : List Evidence
  pub error : Option ControlError

-- `string(path)`
unfoldable pub route_text : Route → Text
route_text Route.local = text "local"
route_text Route.dcs = text "dcs"
route_text Route.rest = text "rest"
route_text Route.postgres = text "postgres"
route_text Route.rest_to_dcs = text "rest->dcs"
route_text (Route.other s) = s
