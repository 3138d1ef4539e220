-- ===== src/Control/Service/Costs.antt =====
-- Counts of calls, and rules for the calls of Patroni's configuration endpoint and of the snapshot
-- reader that code makes.
use go_patroni.Base.{Option, none, some, Bool, if◌then◌else◌, ℕ, suc, ◌+◌, ◌≤◌, [], ◌∷◌, arith}
use go_patroni.Texts.{Text}
use go_patroni.Texts.Space.{trim_space}
use go_patroni.Target.{Target}
use go_patroni.Control.Service.{
  Trace, Run, call, Call, Service, new_id, or_random_id, random_operation_id, now, snapshot,
  context_error, wait_interval, operation_id,
}

-- One, where the address is there and counts.
abbrev pub if_counted : (Text → Bool) → Option Text → ℕ
if_counted counted none = 0
if_counted counted (some base) = if counted base then 1 else 0

-- The configuration patches at the addresses that count.
unfoldable pub patches : (Text → Bool) → Trace → ℕ
patches counted [] = 0
patches counted (Call.patch_config base _ ∷ t) =
    let rest = patches counted t in if counted base then suc rest else rest
patches counted (_ ∷ t) = patches counted t

unfoldable pub reads : Trace → ℕ
reads [] = 0
reads (Call.read_snapshot _ ∷ t) = suc (reads t)
reads (_ ∷ t) = reads t

-- The posts of the reload endpoint at the addresses that count.
unfoldable pub reloads : (Text → Bool) → Trace → ℕ
reloads counted [] = 0
reloads counted (Call.post_reload base ∷ t) =
    let rest = reloads counted t in if counted base then suc rest else rest
reloads counted (_ ∷ t) = reloads counted t

-- At most `p` configuration patches at the addresses that count, and `r` snapshot reads.
pub record Cost (counted : Text → Bool) (p r : ℕ) (before after : Trace) : Type 0 where
  pub patched : patches counted after ≤ patches counted before + p
  pub seen : reads after ≤ reads before + r

-- Whatever the dependencies answer.
abbrev pub Costs {ℓ} : {A : Type ℓ} → (Text → Bool) → ℕ → ℕ → Run A → Type 0
Costs counted p r m = (t : Trace) → Cost counted p r t (m t).1

pub Cost-trans :
    {counted : Text → Bool} (p r q s : ℕ) {t t' t'' : Trace}
    → Cost counted p r t t'
    → Cost counted q s t' t''
    → Cost counted (p + q) (r + s) t t''
Cost-trans p r q s {t} {t'} {t''} a b = record {
  patched = omega (arith, a.patched, b.patched);
  seen = omega (arith, a.seen, b.seen);
}

pub Cost-any : {counted : Text → Bool} (p r : ℕ) (t : Trace) → Cost counted p r t t
Cost-any p r t = record { patched = omega arith; seen = omega arith }

pub Cost-weaken :
    {counted : Text → Bool} (p r q s : ℕ) {t t' : Trace}
    → p ≤ q
    → r ≤ s
    → Cost counted p r t t'
    → Cost counted q s t t'
Cost-weaken p r q s {t} {t'} a b h = record {
  patched = omega (arith, h.patched);
  seen = omega (arith, h.seen);
}

-- One after the other, within a bound.
pub Cost-then :
    {counted : Text → Bool} (p r q s n m : ℕ) {t t' t'' : Trace}
    → p + q ≤ n
    → r + s ≤ m
    → Cost counted p r t t'
    → Cost counted q s t' t''
    → Cost counted n m t t''
Cost-then p r q s n m a b h k = Cost-weaken (p + q) (r + s) n m a b (Cost-trans p r q s h k)

module _ {counted : Text → Bool} (service : Service) where
  pub now-Costs : Costs counted 0 0 (now service)
  unfolding now call patches reads
  now-Costs t = record { patched = omega arith; seen = omega arith }

  pub snapshot-Costs : (target : Target) → Costs counted 0 1 (snapshot service target)
  unfolding snapshot call patches reads
  snapshot-Costs target t = record { patched = omega arith; seen = omega arith }

  pub context_error-Costs : Costs counted 0 0 (context_error service)
  unfolding context_error call patches reads
  context_error-Costs t = record { patched = omega arith; seen = omega arith }

  pub wait_interval-Costs : Costs counted 0 0 (wait_interval service)
  unfolding wait_interval call patches reads
  wait_interval-Costs t = record { patched = omega arith; seen = omega arith }

  or_random_id-Costs : (value : Text) → Costs counted 0 0 (or_random_id service value)
  unfolding random_operation_id call patches reads
  or_random_id-Costs [] t = record { patched = omega arith; seen = omega arith }
  or_random_id-Costs (c ∷ value) t = Cost-any 0 0 t

  pub operation_id-Costs : Costs counted 0 0 (operation_id service)
  unfolding operation_id call patches reads
  operation_id-Costs t =
      Cost-trans 0 0 0 0 {t = t} {t' = new_id ∷ t}
        (record { patched = omega arith; seen = omega arith })
        (or_random_id-Costs (trim_space (service.on_new_id t)) (new_id ∷ t))
