-- ===== src/Autoswitch/Select/Order.antt =====
-- The order in which the strategies' comparisons put the targets.
use cswap.Base.{
  ◌≡◌, refl, Bool, true, false, Option, none, some, sort, sort-Ordered, sort-perm, Ordered-Pairwise,
  Pairwise, List, arith, str_eq, Bool-cases, inl, inr, some-injective,
}
use mathlib.Core.List.{Perm}
use mathlib.Core.Path.{subst}
use cswap.Numbers.{Numbers}
use cswap.Numbers.Order.{AtMost, AtMost-refl}
use cswap.Autoswitch.{Settings}
use cswap.Autoswitch.Select.{
  Qual, below_threshold, renews_first, more_headroom, sooner_reset, goes_first, sort_qualifying,
}

module _ (N : Numbers) where
  open N use {Num, less, sub, ratio, asymmetric, transitive}

  renews_first-asymmetric :
      (a b : Option Num) (x y : Bool)
      → (x ≡ true → y ≡ false)
      → renews_first N a b x ≡ true
      → renews_first N b a y ≡ false
  unfolding renews_first
  renews_first-asymmetric none none x y f h = f h
  renews_first-asymmetric none (some b) x y f h = cc
  renews_first-asymmetric (some a) none x y f h = refl
  renews_first-asymmetric (some a) (some b) x y f h = ground (arith, asymmetric a b, f)

  renews_first-transitive :
      (a b c : Option Num) (x y z : Bool)
      → (x ≡ false → y ≡ false → z ≡ false)
      → renews_first N a b x ≡ false
      → renews_first N b c y ≡ false
      → renews_first N a c z ≡ false
  unfolding renews_first
  renews_first-transitive none none none x y z f h k = f h k
  renews_first-transitive none none (some c) x y z f h k = refl
  renews_first-transitive none (some b) none x y z f h k = cc
  renews_first-transitive none (some b) (some c) x y z f h k = refl
  renews_first-transitive (some a) none c x y z f h k = cc
  renews_first-transitive (some a) (some b) none x y z f h k = cc
  renews_first-transitive (some a) (some b) (some c) x y z f h k =
      ground (arith, transitive a b c, transitive b c a, transitive c a b, f)

  goes_first-asymmetric :
      (s : Settings N) (a b : Qual N) → goes_first N s a b ≡ true → goes_first N s b a ≡ false
  unfolding goes_first sooner_reset more_headroom
  goes_first-asymmetric s a b h = ground (
    arith,
    asymmetric b.h a.h,
    renews_first-asymmetric a.renewal b.renewal (less b.h a.h) (less a.h b.h) (asymmetric b.h a.h),
  )

  goes_first-transitive :
      (s : Settings N) (a b c : Qual N)
      → goes_first N s a b ≡ false
      → goes_first N s b c ≡ false
      → goes_first N s a c ≡ false
  unfolding goes_first sooner_reset more_headroom
  goes_first-transitive s a b c h k = ground (
    arith,
    transitive c.h b.h a.h,
    renews_first-transitive a.renewal b.renewal c.renewal (less b.h a.h) (less c.h b.h)
        (less c.h a.h) (λ p q. transitive c.h b.h a.h q p),
  )

  -- The account's utilization is below the threshold.
  abbrev Below : Settings N → Qual N → Type 0
  Below s q = less (sub (ratio 100 1) q.h) s.threshold ≡ true

  -- What "soonest-reset" promises of an account `a` that stands before `b`.
  pub record SoonestReset (s : Settings N) (a b : Qual N) : Type 0 where
    -- no account below the threshold stands behind one that is not
    pub below_first : Below s b → Below s a
    -- below it, a known renewal stands before an unknown one, and an earlier before a later one
    pub renewal :
        Below s b → (u : Num) → b.renewal ≡ some u → (t : Num) × (a.renewal ≡ some t) × AtMost N t u
    -- accounts of one renewal, and those that are not below, stand by their headroom
    pub tie : Below s b → a.renewal ≡ b.renewal → AtMost N b.h a.h
    pub last_resort : (Below s a → ⊥) → AtMost N b.h a.h

  -- What "best" promises: the account before has no less headroom.
  abbrev pub MoreHeadroom : Qual N → Qual N → Type 0
  MoreHeadroom a b = AtMost N b.h a.h

  renews_first-back :
      (a b : Option Num) (more : Bool)
      → renews_first N b a more ≡ false
      → ((u : Num) → b ≡ some u → (t : Num) × (a ≡ some t) × AtMost N t u) × (a ≡ b → more ≡ false)
  unfolding renews_first
  renews_first-back none none more h = (λ u e. cc, λ e. h)
  renews_first-back none (some u) more h = cc
  renews_first-back (some t) none more h = (λ u e. cc, λ e. cc)
  renews_first-back (some t) (some u) more h = elim (Bool-cases (less u t)) [
    | inl e ↦ cc (rw e at h)
    | inr e ↦ elim (Bool-cases (less t u)) [
      | inl d ↦ (
        λ v same. (t, refl, subst (λ z. AtMost N t z) (some-injective _ _ same) e),
        λ same.
            let d' : less u u ≡ true = subst (λ z. less z u ≡ true) (some-injective _ _ same) d in
            let never = AtMost-refl N u in cc,
      )
      | inr d ↦ (
        λ v same. (t, refl, subst (λ z. AtMost N t z) (some-injective _ _ same) e),
        λ same. rw (e, d) at h,
      )
    ]
  ]

  sooner_reset-SoonestReset :
      (s : Settings N) (a b : Qual N) → sooner_reset N s.threshold b a ≡ false → SoonestReset s a b
  unfolding sooner_reset below_threshold more_headroom
  sooner_reset-SoonestReset s a b h = elim (Bool-cases (less (sub (ratio 100 1) b.h) s.threshold)) [
    | inl low ↦ elim (Bool-cases (less (sub (ratio 100 1) a.h) s.threshold)) [
      | inr high ↦ cc (rw (low, high) at h)
      | inl low' ↦
          let (renewal, tie) =
            renews_first-back a.renewal b.renewal (less a.h b.h) (rw (low, low') at h) in
          record {
            below_first = λ d. low';
            renewal = λ d. renewal;
            tie = λ d. tie;
            last_resort = λ not_low. absurd (not_low low');
          }
    ]
    | inr high ↦ record {
      below_first = λ d. cc;
      renewal = λ d. cc;
      tie = λ d. cc;
      last_resort = λ not_low. elim (Bool-cases (less (sub (ratio 100 1) a.h) s.threshold)) [
        | inl low ↦ absurd (not_low low)
        | inr high' ↦ rw (high, high') at h
      ];
    }
  ]

  -- sortQualifying rearranges the qualifying targets. With the strategy "soonest-reset", those below
  -- the threshold come first, by their renewals with the unknown ones last, those of one renewal by
  -- their headrooms, and after them the others, by their headrooms; with any other strategy all come
  -- by their headrooms, the most first.
  pub sort_qualifying-Ordered :
      (s : Settings N) (quals : List (Qual N))
      → (str_eq s.strategy "soonest-reset" ≡ true
          → Pairwise (SoonestReset s) (sort_qualifying N s quals))
        × (str_eq s.strategy "soonest-reset" ≡ false
            → Pairwise MoreHeadroom (sort_qualifying N s quals))
        × Perm (sort_qualifying N s quals) quals
  unfolding sort_qualifying goes_first more_headroom
  sort_qualifying-Ordered s quals =
      let order =
        sort-Ordered (goes_first N s) (goes_first-asymmetric s) (goes_first-transitive s) quals in
      (
        λ soonest.
            Ordered-Pairwise (goes_first N s) (SoonestReset s)
              (λ a b h. sooner_reset-SoonestReset s a b (rw soonest at h))
              (sort (goes_first N s) quals) order,
        λ best.
            Ordered-Pairwise (goes_first N s) MoreHeadroom (λ a b h. rw best at h)
              (sort (goes_first N s) quals) order,
        sort-perm (goes_first N s) quals,
      )
