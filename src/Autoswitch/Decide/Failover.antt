-- ===== src/Autoswitch/Decide/Failover.antt =====
-- When a tick has a trigger, over the ticks before it.
use cswap.Base.{
  ℕ, suc, ◌≡◌, ◌≤◌, refl, Bool, true, false, Option, none, some, ltb, Bool-cases, inl, inr, arith,
}
use cswap.Numbers.{Numbers}
use cswap.Autoswitch.{Settings, proactive, at_limit, failover}
use cswap.Autoswitch.Decide.{
  Memory, fresh_memory, Verdict, stop, act, known_trigger, hold_start, count_unhealthy,
  unknown_trigger, decide, gate, in_cooldown,
}

module _ (N : Numbers) where
  open N use {Num, less, sub, ratio}

  -- The memory after some ticks of an engine, of which the last `k` did not know the headroom of
  -- the active account. The settings may change between the ticks.
  pub data Reached : ℕ → Memory N → Type 0 where
    start : Reached 0 (fresh_memory N)
    known :
        {k : ℕ} {m : Memory N} (s : Settings N) (now h : Num) (expired : Bool)
        → Reached k m
        → Reached 0 (decide N s now (some h) expired m).0
    unknown :
        {k : ℕ} {m : Memory N} (s : Settings N) (now : Num) (expired : Bool)
        → Reached k m
        → Reached (suc k) (decide N s now none expired m).0

  count-unhealthy_ticks :
      (s : Settings N) (now : Num) (expired : Bool) (m : Memory N)
      → (decide N s now none expired m).0.unhealthy_ticks ≤ suc m.unhealthy_ticks
  unfolding decide unknown_trigger count_unhealthy
  count-unhealthy_ticks s now false m = omega arith
  count-unhealthy_ticks s now true m =
      elim (Bool-cases (less (ratio 1800 1) (sub now (hold_start N now m.idle_hold_since)))) [
        | inl t ↦ simp t (omega arith)
        | inr f ↦ simp f (omega arith)
      ]

  -- The count of unhealthy ticks is at most the number of ticks in a row that did not know it.
  pub Reached-unhealthy_ticks : {k : ℕ} {m : Memory N} → Reached k m → m.unhealthy_ticks ≤ k
  unfolding decide
  Reached-unhealthy_ticks start = omega arith
  Reached-unhealthy_ticks (known s now h expired r) = omega arith
  Reached-unhealthy_ticks (unknown {k = k} {m = m} s now expired r) =
      omega (arith, count-unhealthy_ticks s now expired m, Reached-unhealthy_ticks r)

  count_unhealthy-failover :
      (s : Settings N) (m : Memory N)
      → (count_unhealthy N s m).1 ≡ act failover
      → s.unhealthy_ticks ≤ suc m.unhealthy_ticks
  unfolding count_unhealthy
  count_unhealthy-failover s m e =
      elim (Bool-cases (ltb (suc m.unhealthy_ticks) s.unhealthy_ticks)) [
        | inl t ↦ cc (rw t at e)
        | inr f ↦ ground (arith, f)
      ]

  failover-count :
      (s : Settings N) (now : Num) (expired : Bool) (m : Memory N)
      → (decide N s now none expired m).1 ≡ act failover
      → s.unhealthy_ticks ≤ suc m.unhealthy_ticks
  unfolding decide unknown_trigger
  failover-count s now false m e =
      count_unhealthy-failover s (record m { idle_hold_since = none; idle_hold_slow = false }) e
  failover-count s now true m e =
      elim (Bool-cases (less (ratio 1800 1) (sub now (hold_start N now m.idle_hold_since)))) [
        | inl t ↦
            count_unhealthy-failover s
              (record m {
                idle_hold_since = some (hold_start N now m.idle_hold_since);
                idle_hold_slow = false;
              })
              (simp t at e)
        | inr f ↦ cc (simp f at e)
      ]

  known_trigger-failover : (s : Settings N) (h : Num) → known_trigger N s h ≡ act failover → ⊥
  unfolding known_trigger
  known_trigger-failover s h e = elim (Bool-cases (less (sub (ratio 100 1) h) s.threshold)) [
    | inl t ↦ cc (rw t at e)
    | inr f ↦ elim (Bool-cases (less (ratio 0 1) h)) [
      | inl t ↦ cc (rw (f, t) at e)
      | inr g ↦ cc (rw (f, g) at e)
    ]
  ]

  -- A tick of an engine has the failover trigger only if the headroom of the active account is
  -- unknown to it and to the ticks just before it, at least as many in a row as the settings say.
  pub decide-failover :
      {k : ℕ} {m : Memory N} (s : Settings N) (now : Num) (headroom : Option Num) (expired : Bool)
      → Reached k m
      → (decide N s now headroom expired m).1 ≡ act failover
      → (headroom ≡ none) × (s.unhealthy_ticks ≤ suc k)
  unfolding decide
  decide-failover {k = k} {m = m} s now none expired r e =
      (refl, omega (arith, failover-count s now expired m e, Reached-unhealthy_ticks r))
  decide-failover s now (some h) expired r e = absurd (known_trigger-failover s h e)

  gate-decided :
      (s : Settings N) (now : Num) (last : Option Num) (v : Verdict)
      → gate N s now last v ≡ act proactive
      → (v ≡ act proactive) × (in_cooldown N s now last ≡ false)
  unfolding gate
  gate-decided s now last (stop reason) e = cc
  gate-decided s now last (act at_limit) e = cc
  gate-decided s now last (act failover) e = cc
  gate-decided s now last (act proactive) e = elim (Bool-cases (in_cooldown N s now last)) [
    | inl t ↦ cc (rw t at e)
    | inr f ↦ (refl, f)
  ]

  count_unhealthy-proactive :
      (s : Settings N) (m : Memory N) → (count_unhealthy N s m).1 ≡ act proactive → ⊥
  unfolding count_unhealthy
  count_unhealthy-proactive s m e =
      elim (Bool-cases (ltb (suc m.unhealthy_ticks) s.unhealthy_ticks)) [
        | inl t ↦ cc (rw t at e)
        | inr f ↦ cc (rw f at e)
      ]

  unknown_trigger-proactive :
      (s : Settings N) (now : Num) (expired : Bool) (m : Memory N)
      → (unknown_trigger N s now expired m).1 ≡ act proactive
      → ⊥
  unfolding unknown_trigger
  unknown_trigger-proactive s now false m e =
      count_unhealthy-proactive s (record m { idle_hold_since = none }) e
  unknown_trigger-proactive s now true m e =
      elim (Bool-cases (less (ratio 1800 1) (sub now (hold_start N now m.idle_hold_since)))) [
        | inl t ↦
            count_unhealthy-proactive s
              (record m { idle_hold_since = some (hold_start N now m.idle_hold_since) })
              (simp t at e)
        | inr f ↦ cc (simp f at e)
      ]

  known_trigger-proactive :
      (s : Settings N) (h : Num)
      → known_trigger N s h ≡ act proactive
      → (less (ratio 0 1) h ≡ true) × (less (sub (ratio 100 1) h) s.threshold ≡ false)
  unfolding known_trigger
  known_trigger-proactive s h e = elim (Bool-cases (less (sub (ratio 100 1) h) s.threshold)) [
    | inl t ↦ cc (rw t at e)
    | inr f ↦ elim (Bool-cases (less (ratio 0 1) h)) [
      | inl t ↦ (t, f)
      | inr g ↦ cc (rw (f, g) at e)
    ]
  ]

  -- A proactive trigger that passes the gate: the active account's headroom is known and positive,
  -- its utilization is not below the threshold, and the last switch is not in the cooldown.
  pub gate-proactive :
      (s : Settings N) (now : Num) (headroom last : Option Num) (expired : Bool) (m : Memory N)
      → gate N s now last (decide N s now headroom expired m).1 ≡ act proactive
      → (h : Num) × (headroom ≡ some h)
        × (less (ratio 0 1) h ≡ true)
        × (less (sub (ratio 100 1) h) s.threshold ≡ false)
        × (in_cooldown N s now last ≡ false)
  unfolding decide
  gate-proactive s now none last expired m e = absurd (
      unknown_trigger-proactive s now expired (record m { idle_hold_slow = false })
        (gate-decided s now last _ e).0)
  gate-proactive s now (some h) last expired m e =
      let (d, cool) = gate-decided s now last _ e in
      let (positive, high) = known_trigger-proactive s h d in (h, refl, positive, high, cool)
