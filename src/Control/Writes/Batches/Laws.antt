-- ===== src/Control/Writes/Batches/Laws.antt =====
-- The outcome and the send state of several member writes, by what occurs among them.
use go_patroni.Base.{
  ◌≡◌, refl, ◌∙◌, sym, ap, Bool, true, false, ◌||◌, List, [], ◌∷◌, arith, if◌then◌else◌, any,
}
use go_patroni.Texts.{Text}
use go_patroni.Target.{Target}
use go_patroni.Control.Types.{Outcome, SendState, Route, Evidence}
use go_patroni.Control.Errors.{new_error}
use go_patroni.Control.Outcomes.{outcome_fits}
use go_patroni.Control.Writes.{MemberWrite}
use go_patroni.Control.Writes.Batches.{
  add_outcome, batch_outcome_from, batch_error, finalize_batch_write, send_state_from,
  append_evidence, aggregate_rest_send_state, is_unknown, add_state, stop_at_maybe,
}
use mathlib.Core.List.{Permᴰ}

abbrev pub is_failed : Outcome → Bool
is_failed Outcome.failed = true
is_failed _ = false

abbrev pub any_unknown : List MemberWrite → Bool
any_unknown rs = any (λ r. is_unknown r.outcome) rs

abbrev pub any_failed : List MemberWrite → Bool
any_failed rs = any (λ r. is_failed r.outcome) rs

-- The worst outcome: unknown before failed before succeeded.
abbrev pub worst : Bool → Bool → Outcome
worst unknown failed =
    if unknown then Outcome.unknown else if failed then Outcome.failed else Outcome.succeeded

worst-add_outcome :
    (u f : Bool) (o : Outcome)
    → add_outcome (worst u f) o ≡ worst (u || is_unknown o) (f || is_failed o)
unfolding add_outcome
worst-add_outcome true f o = ground arith
worst-add_outcome false true o = ground arith
worst-add_outcome false false o = ground arith

batch_outcome_from-worst :
    (u f : Bool) (rs : List MemberWrite)
    → batch_outcome_from (worst u f) rs ≡ worst (u || any_unknown rs) (f || any_failed rs)
unfolding batch_outcome_from any
batch_outcome_from-worst u f [] = ground arith
batch_outcome_from-worst u f (r ∷ rs) =
    ap (λ o. batch_outcome_from o rs) (worst-add_outcome u f r.outcome)
    ∙ batch_outcome_from-worst (u || is_unknown r.outcome) (f || is_failed r.outcome) rs
    ∙ ground arith

any-Permᴰ {ℓ} : {A : Type ℓ} (p : A → Bool) {xs ys : List A} → Permᴰ xs ys → any p xs ≡ any p ys
unfolding any
any-Permᴰ p Permᴰ.nil = refl
any-Permᴰ p (Permᴰ.cons e h) = ground (arith, ap p e, any-Permᴰ p h)
any-Permᴰ p (Permᴰ.swap e f) = ground (arith, ap p e, ap p f)
any-Permᴰ p (Permᴰ.trans h k) = any-Permᴰ p h ∙ any-Permᴰ p k

batch_error-fits :
    (u f : Bool) (operation : Text) (target : Target) (evidence : List Evidence)
    → outcome_fits (worst u f) (batch_error (worst u f) operation target evidence) ≡ true
unfolding batch_error outcome_fits new_error
batch_error-fits true f operation target evidence = refl
batch_error-fits false true operation target evidence = refl
batch_error-fits false false operation target evidence = refl

module _ (id operation : Text) (target : Target) (path : Route) (base : List Evidence) where
  -- A batch is unknown when the outcome of some member is; otherwise it failed when some member
  -- failed; otherwise it succeeded.
  pub finalize_batch_write-worst :
      (rs : List MemberWrite)
      → (finalize_batch_write id operation target path rs base).outcome
        ≡ worst (any_unknown rs) (any_failed rs)
  unfolding finalize_batch_write
  finalize_batch_write-worst rs = batch_outcome_from-worst false false rs

  -- The outcome of a batch does not depend on the order of its members.
  pub finalize_batch_write-Permᴰ :
      {rs rs' : List MemberWrite}
      → Permᴰ rs rs'
      → (finalize_batch_write id operation target path rs base).outcome
        ≡ (finalize_batch_write id operation target path rs' base).outcome
  finalize_batch_write-Permᴰ {rs} {rs'} h =
      finalize_batch_write-worst rs
      ∙ ap (λ u. worst u (any_failed rs)) (any-Permᴰ _ h)
      ∙ ap (worst (any_unknown rs')) (any-Permᴰ _ h)
      ∙ sym (finalize_batch_write-worst rs')

  -- The result of a batch has the error that its outcome asks for.
  pub finalize_batch_write-outcome_fits :
      (rs : List MemberWrite)
      → outcome_fits
          (finalize_batch_write id operation target path rs base).outcome
          (finalize_batch_write id operation target path rs base).error
        ≡ true
  unfolding finalize_batch_write
  finalize_batch_write-outcome_fits rs =
      rw (batch_outcome_from-worst false false rs) (
        batch_error-fits (any_unknown rs) (any_failed rs) operation target
          (append_evidence base rs))

abbrev is_maybe_sent : SendState → Bool
is_maybe_sent SendState.maybe_sent = true
is_maybe_sent _ = false

abbrev is_accepted : SendState → Bool
is_accepted SendState.accepted = true
is_accepted _ = false

-- `accepted` when it was reached.
abbrev pub strongest : Bool → Bool → SendState
strongest maybe accepted =
    if maybe
    then SendState.maybe_sent
    else if accepted
    then SendState.accepted
    else SendState.not_sent

add_state-strongest :
    (s : SendState) (a : Bool)
    → add_state s (strongest false a) ≡ strongest false (a || is_accepted s)
add_state-strongest s true = ground arith
add_state-strongest s false = ground arith

stop_at_maybe-strongest :
    (s : SendState) (a m b : Bool)
    → stop_at_maybe s (strongest m ((a || is_accepted s) || b))
      ≡ strongest (is_maybe_sent s || m) (a || (is_accepted s || b))
stop_at_maybe-strongest s a m b = ground arith

send_state_from-strongest :
    (a : Bool) (rs : List MemberWrite)
    → send_state_from (strongest false a) rs
      ≡ strongest
          (any (λ r. is_maybe_sent r.send_state) rs)
          (a || any (λ r. is_accepted r.send_state) rs)
unfolding send_state_from any
send_state_from-strongest a [] = ground arith
send_state_from-strongest a (r ∷ rs) =
    ap (stop_at_maybe r.send_state) (
      ap (λ state. send_state_from state rs) (add_state-strongest r.send_state a)
      ∙ send_state_from-strongest (a || is_accepted r.send_state) rs)
    ∙ stop_at_maybe-strongest r.send_state a (any (λ x. is_maybe_sent x.send_state) rs)
        (any (λ x. is_accepted x.send_state) rs)

-- The send state of several writes is `maybe_sent` when that of some write is; otherwise it is
-- `accepted` when that of some write is; otherwise `not_sent`.
pub aggregate_rest_send_state-strongest :
    (rs : List MemberWrite)
    → aggregate_rest_send_state rs
      ≡ strongest
          (any (λ r. is_maybe_sent r.send_state) rs)
          (any (λ r. is_accepted r.send_state) rs)
unfolding aggregate_rest_send_state
aggregate_rest_send_state-strongest rs = send_state_from-strongest false rs
