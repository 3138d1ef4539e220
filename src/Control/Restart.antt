-- ===== src/Control/Restart.antt =====
-- Restarting members, control/restart.go: the request, `normalizeRestartRequest`, and what it checks.
pub mod Contract
pub mod Schedule
pub mod Preparation
pub mod Sending
pub mod Execution
pub mod Scheduled
use go_patroni.Base.{
  ℕ, zero, suc, Bool, true, false, ◌&&◌, ◌||◌, Option, none, some, List, [], ◌∷◌, if◌then◌else◌,
  is_empty, is_some, not, ℤ, pos, ltb, leb, ltb_ℤ, is_negative, length, any, keep,
}
use go_patroni.Texts.{Text, text, text_eq, strip_prefix, split}
use go_patroni.Texts.Decimal.{atoi}
use go_patroni.Texts.Space.{trim_space}
use go_patroni.Target.{Target, TargetError, normalize, validate}
use go_patroni.Dcs.Snapshots.{Member}
use go_patroni.Control.Types.{Time, is_zero}
use go_patroni.Control.Platform.{Platform, trim_suffix}
use go_patroni.Control.Writes.Members.{
  Role, role_valid_or_empty, normalize_member_names, with_member,
}
use go_patroni.Control.Reload.{conflicts_with}

pub record RestartRequest : Type 0 where
  pub target : Target
  pub members : List Text
  pub role : Role
  pub any_member : Bool
  pub scheduled_at : Option Time
  pub postgres_version : Text
  pub pending : Bool
  pub timeout : Text
  pub force : Bool
  pub citus : Bool

pub data PostgresVersionError : Type 0 where
  wrong_parts wrong_component early_version : PostgresVersionError

pub data TimeoutError : Type 0 where
  not_positive not_a_duration : TimeoutError

pub data RestartRequestError : Type 0 where
  conflicting_members bad_role zero_schedule : RestartRequestError
  bad_target : TargetError → RestartRequestError
  bad_postgres_version : PostgresVersionError → RestartRequestError
  bad_timeout : TimeoutError → RestartRequestError

abbrev bad_component : Option ℤ → Bool
bad_component none = true
bad_component (some n) = is_negative n

abbrev below_ten : Option ℤ → Bool
below_ten none = false
below_ten (some n) = ltb_ℤ n (pos 10)

abbrev first_component : List (Option ℤ) → Option ℤ
first_component [] = none
first_component (c ∷ cs) = c

components : List Text → List (Option ℤ)
unfolding atoi
components [] = []
components (part ∷ parts) = atoi part ∷ components parts

checked_components : ℕ → List (Option ℤ) → Option PostgresVersionError
unfolding any
checked_components n cs =
    if ltb n 2 || ltb 3 n
    then some wrong_parts
    else if any bad_component cs
    then some wrong_component
    else if leb n 2 && below_ten (first_component cs)
    then some early_version
    else none

-- `validatePostgresVersion`
unfoldable pub validate_postgres_version : Text → Option PostgresVersionError
unfolding split components checked_components
validate_postgres_version value =
    let parts = split b'.' value in checked_components (length parts) (components parts)

-- A `float64` above 0, by its bits; a NaN is not.
abbrev float_positive : ℕ → Bool
float_positive bits = ltb 0 bits && leb bits 9218868437227405312

abbrev is_positive_float : Option ℕ → Bool
is_positive_float none = false
is_positive_float (some bits) = float_positive bits

abbrev is_positive_duration : Option ℤ → Bool
is_positive_duration none = false
is_positive_duration (some n) = ltb_ℤ (pos 0) n

-- `strings.ReplaceAll(s, " ", "")`
without_blanks : Text → Text
without_blanks [] = []
without_blanks (c ∷ s) =
    let rest = without_blanks s in if text_eq (c ∷ []) (text " ") then rest else c ∷ rest

-- `strings.ReplaceAll(s, "min", "m")`, past the given number of bytes.
minutes_from : ℕ → Text → Text
unfolding strip_prefix text
minutes_from skipped [] = []
minutes_from (suc skipped) (c ∷ s) = minutes_from skipped s
minutes_from zero (c ∷ s) = elim (is_some (strip_prefix (text "min") (c ∷ s))) [
  | true ↦ b'm' ∷ minutes_from 2 s
  | false ↦ c ∷ minutes_from 0 s
]

-- `strings.HasSuffix(s, "d")` with a positive number of days before it.
positive_days : Platform → Text → Bool
unfolding trim_suffix text
positive_days os compact =
    let days = trim_suffix (text "d") compact in
    not (text_eq days compact) && is_positive_float (os.parse_float days)

compact_timeout : Platform → Text → Option TimeoutError
unfolding positive_days
compact_timeout os compact =
    if positive_days os compact || is_positive_duration (os.parse_duration compact)
    then none
    else some not_a_duration

-- `validateRestartTimeout`
unfoldable pub validate_restart_timeout : Platform → Text → Option TimeoutError
unfolding trim_space without_blanks minutes_from compact_timeout
validate_restart_timeout os value = elim (os.parse_float (trim_space value)) [
  | some bits ↦ if float_positive bits then none else some not_positive
  | none ↦ compact_timeout os (minutes_from 0 (without_blanks (trim_space value)))
]

-- The normalised request: the target, the requested names, and the error.
pub record RestartIntent : Type 0 where
  pub target : Target
  pub members : List Text
  pub error : Option RestartRequestError

abbrev zero_time : Option Time → Bool
zero_time none = false
zero_time (some at) = is_zero at

abbrev version_error :
    Option PostgresVersionError → Option RestartRequestError → Option RestartRequestError
version_error (some e) rest = some (bad_postgres_version e)
version_error none rest = rest

abbrev timeout_error : Option TimeoutError → Option RestartRequestError
timeout_error (some e) = some (bad_timeout e)
timeout_error none = none

restart_timeout_error : Platform → Text → Option RestartRequestError
unfolding validate_restart_timeout
restart_timeout_error os [] = none
restart_timeout_error os (c ∷ value) = timeout_error (validate_restart_timeout os (c ∷ value))

restart_version_error : Text → Option RestartRequestError → Option RestartRequestError
unfolding validate_postgres_version
restart_version_error [] rest = rest
restart_version_error (c ∷ value) rest = version_error (validate_postgres_version (c ∷ value)) rest

abbrev after_target : Platform → RestartRequest → Option TargetError → Option RestartRequestError
after_target os request (some e) = some (bad_target e)
after_target os request none =
    if not (role_valid_or_empty request.role)
    then some bad_role
    else if zero_time request.scheduled_at
    then some zero_schedule
    else restart_version_error request.postgres_version (restart_timeout_error os request.timeout)

checked_restart : Platform → RestartRequest → Target → List Text → RestartIntent
unfolding validate role_valid_or_empty restart_version_error restart_timeout_error
checked_restart os request target members = record {
  target = target;
  members = members;
  error = after_target os request (validate target true);
}

restart_intent : Platform → RestartRequest → Target → List Text → RestartIntent
unfolding conflicts_with with_member checked_restart
restart_intent os request target members =
    if is_empty target.member
    then checked_restart os request target members
    else if conflicts_with target.member members
    then record { target = target; members = members; error = some conflicting_members }
    else checked_restart os request (with_member target []) (target.member ∷ [])

-- `normalizeRestartRequest`
unfoldable pub normalize_restart_request : Platform → RestartRequest → RestartIntent
unfolding normalize normalize_member_names restart_intent
normalize_restart_request os request =
    restart_intent os request (normalize request.target) (normalize_member_names request.members)

abbrev pub says_pending : Option Bool → Bool
says_pending none = false
says_pending (some b) = b

-- `pendingRestartMembers`
unfoldable pub pending_restart_members : List Member → List Member
unfolding keep
pending_restart_members members = keep (λ m. says_pending m.member_data.pending_restart) members

-- `request.Pending && request.ScheduledAt == nil`
abbrev pub pending_now : RestartRequest → Bool
pending_now request = request.pending && not (is_some request.scheduled_at)
