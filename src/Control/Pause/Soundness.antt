-- ===== src/Control/Pause/Soundness.antt =====
-- What a result of a pause says of its own data.
use go_patroni.Base.{
  ◌≡◌, refl, inl, inr, Bool, true, false, Option, some, List, [], ◌∷◌, ◌++◌, arith, Bool-cases,
  Option-cases, All,
}
use go_patroni.Texts.{Text}
use go_patroni.Dcs.Snapshots.{Snapshot}
use go_patroni.Control.Types.{Category, Outcome, Verification, Evidence, Cause, Route, ControlError}
use go_patroni.Control.Errors.{new_error}
use go_patroni.Control.Outcomes.{outcome_fits, category_unknown}
use go_patroni.Control.Service.{Service}
use go_patroni.Control.Service.Runs.{Returns}
use go_patroni.Control.Reports.{failed_read, unsupported_version_result}
use go_patroni.Control.Writes.{MemberWrite, write_fits}
use go_patroni.Control.Writes.Batches.{has_ambiguous_rest, is_unknown}
use go_patroni.Control.Pause.{
  PauseIntent, PauseData, PauseResult, set_pause_verification, pause_success, pause_failure,
  pause_unknown,
}
use go_patroni.Control.Pause.Sending.{last_error, terminal_pause_failure, has_answered}
use go_patroni.Control.Pause.Preparation.{refuse_pause}
use go_patroni.Control.Pause.Execution.{zero_pause_data}
use go_patroni.Control.Writes.Fits.{Fits}

-- All members but the last have given no HTTP response.
abbrev pub OnlyLastAnswered : List MemberWrite → Type 0
OnlyLastAnswered [] = Unit
OnlyLastAnswered (r ∷ []) = Unit
OnlyLastAnswered (r ∷ s ∷ rs) = (has_answered r ≡ false) × OnlyLastAnswered (s ∷ rs)

pub record IsSound (r : PauseResult) : Type 0 where
  pub fits : outcome_fits r.outcome r.error ≡ true
  pub verified :
      r.outcome ≡ Outcome.succeeded → r.payload.verification ≡ Verification.verified_succeeded
  pub unambiguous : r.outcome ≡ Outcome.failed → has_ambiguous_rest r.payload.results ≡ false
  pub results : All Fits r.payload.results
  pub only_last : OnlyLastAnswered r.payload.results

-- The results of the sending loop before its next member.
pub record IsSilent (d : PauseData) : Type 0 where
  pub fits : All Fits d.results
  pub silent : All (λ r. has_answered r ≡ false) d.results

pub only_last_append :
    (rs : List MemberWrite) (r : MemberWrite)
    → All (λ r. has_answered r ≡ false) rs
    → OnlyLastAnswered (rs ++ r ∷ [])
only_last_append [] r _ = tt
only_last_append (s ∷ []) r (h, _) = (h, tt)
only_last_append (s ∷ s' ∷ rs) r (h, hs) = (h, only_last_append (s' ∷ rs) r hs)

pub silent_only_last :
    (rs : List MemberWrite) → All (λ r. has_answered r ≡ false) rs → OnlyLastAnswered rs
silent_only_last [] _ = tt
silent_only_last (r ∷ []) _ = tt
silent_only_last (r ∷ s ∷ rs) (h, hs) = (h, silent_only_last (s ∷ rs) hs)

-- Without an unknown result, no result has an error of the category `unknown`.
fit_category :
    (r : MemberWrite) (e : ControlError)
    → Fits r
    → is_unknown r.outcome ≡ false
    → r.error ≡ some e
    → category_unknown e.category ≡ false
unfolding write_fits
fit_category r e h k eq = ground arith

pub last_error-known :
    (rs : List MemberWrite)
    → All Fits rs
    → has_ambiguous_rest rs ≡ false
    → category_unknown (terminal_pause_failure (last_error rs)).0 ≡ false
unfolding has_ambiguous_rest last_error
last_error-known [] _ h = refl
last_error-known (r ∷ rs) (f, fs) h = elim (Bool-cases (is_unknown r.outcome)) [
  | inl unknown ↦ absurd (ground (arith, rw (unknown, has_ambiguous_rest) at h))
  | inr known ↦
      let ih = last_error-known rs fs (rw (known, has_ambiguous_rest) at h) in
      elim (Option-cases (last_error rs)) [
        | inr (e, later) ↦ rw (later, last_error) (rw (later, last_error) at ih)
        | inl none_later ↦ elim (Option-cases r.error) [
          | inl clean ↦ rw (none_later, clean, last_error) refl
          | inr (e, failed) ↦ rw (none_later, failed, last_error) (fit_category r e f known failed)
        ]
      ]
]

pub success-IsSound :
    (id : Text) (i : PauseIntent) (d : PauseData) (evidence : List Evidence)
    → All Fits d.results
    → OnlyLastAnswered d.results
    → IsSound
        (pause_success id i (set_pause_verification d Verification.verified_succeeded) evidence)
unfolding pause_success set_pause_verification outcome_fits
success-IsSound id i d evidence f o = record {
  fits = refl;
  verified = λ _. refl;
  unambiguous = λ e. cc;
  results = f;
  only_last = o;
}

pub unknown-IsSound :
    (id : Text) (i : PauseIntent) (d : PauseData) (message : Text) (cause : Option Cause)
    (evidence : List Evidence)
    → All Fits d.results
    → OnlyLastAnswered d.results
    → IsSound (pause_unknown id i d message cause evidence)
unfolding pause_unknown set_pause_verification outcome_fits new_error
unknown-IsSound id i d message cause evidence f o = record {
  fits = refl;
  verified = λ e. cc;
  unambiguous = λ e. cc;
  results = f;
  only_last = o;
}

pub failure-IsSound :
    (id : Text) (i : PauseIntent) (d : PauseData) (c : Category × Bool) (message : Text)
    (cause : Option Cause) (evidence : List Evidence)
    → category_unknown c.0 ≡ false
    → has_ambiguous_rest d.results ≡ false
    → All Fits d.results
    → OnlyLastAnswered d.results
    → IsSound (pause_failure id i d c message cause evidence)
unfolding pause_failure set_pause_verification outcome_fits new_error
failure-IsSound id i d c message cause evidence k a f o = record {
  fits = ground (arith, k);
  verified = λ e. cc;
  unambiguous = λ _. a;
  results = f;
  only_last = o;
}

pub refuse_pause-IsSound :
    (service : Service) (id : Text) (i : PauseIntent) (c : Category × Bool) (message : Text)
    (cause : Option Cause) (evidence : List Evidence)
    → category_unknown c.0 ≡ false
    → Returns IsSound (refuse_pause zero_pause_data service id i c message cause evidence)
unfolding refuse_pause failed_read new_error outcome_fits has_ambiguous_rest
refuse_pause-IsSound service id i c message cause evidence k t = record {
  fits = ground (arith, k);
  verified = λ e. cc;
  unambiguous = λ _. refl;
  results = tt;
  only_last = tt;
}

pub unsupported-IsSound :
    (service : Service) (id : Text) (i : PauseIntent) (s : Snapshot)
    → Returns IsSound
        (unsupported_version_result zero_pause_data service id i.operation i.target Route.rest s)
unfolding unsupported_version_result failed_read new_error outcome_fits has_ambiguous_rest
unsupported-IsSound service id i s t = record {
  fits = refl;
  verified = λ e. cc;
  unambiguous = λ _. refl;
  results = tt;
  only_last = tt;
}
