-- ===== src/Autoswitch/Recovery/Earliest.antt =====
-- The earliest recovery is the minimum over the exhausted accounts of their limiting resets.
use cswap.Base.{String, ◌≡◌, true, Option, some, List, All, Any, ◌⊎◌}
use cswap.Numbers.{Numbers}
use cswap.Numbers.Order.{AtMost}
use cswap.Usage.{RawUsage}
use cswap.Autoswitch.Recovery.{is_exhausted, usable_at}

module _ (N : Numbers) (models : List String) where
  open N use {Num, less}

  -- An exhausted account that can be used again at `r`.
  abbrev pub RecoversAt : Num → Option (RawUsage N) → Type 0
  RecoversAt r o =
      (u : RawUsage N) × (o ≡ some u)
      × (is_exhausted N models u ≡ true)
      × (usable_at N models u ≡ some r)

  -- If the account is exhausted, it recovers at a known time, not before `t`.
  abbrev pub NotBefore : Num → Option (RawUsage N) → Type 0
  NotBefore t o =
      (u : RawUsage N)
      → o ≡ some u
      → is_exhausted N models u ≡ true
      → (r : Num) × (usable_at N models u ≡ some r) × AtMost N t r

  record Found (old : Option Num) (us : List (Option (RawUsage N))) (t : Num) : Type 0 where
    pub from : (old ≡ some t) ⊎ Any (RecoversAt t) us
    pub below_old : (s : Num) → old ≡ some s → AtMost N t s
    pub below_all : All (NotBefore t) us
