-- ===== src/Autoswitch/Select/Targets.antt =====
-- Every target that a tick may switch to is justified.
use cswap.Base.{
  String, ◌≡◌, refl, true, false, not, ◌&&◌, Option, none, some, List, [], ◌∷◌, All, All-map,
  All-keep, keep-All, All-both, All-append, Bool-cases, inl, inr, ◌⊎◌, sort-All, str_eq, arith,
}
use cswap.Numbers.{Numbers}
use cswap.Autoswitch.{Settings, Trigger, proactive}
use cswap.Autoswitch.Select.{
  Accounts, Qual, candidates, oauth_candidates, api_key_candidates, passes_gates, qualifies,
  is_proactive, quals_of, qualifying, goes_first, sort_qualifying, nums_of, or_last_resort,
  no_candidates, select_candidates,
}

module _ (N : Numbers) (s : Settings N) (a : Accounts N) (cur : String) (trigger : Trigger) where
  open N use {Num, less, sub, ratio}

  -- Another slot than the current one, which is not quarantined.
  abbrev pub Available : String → Type 0
  Available n = (str_eq n cur ≡ false) × (a.quarantined n ≡ false)

  -- Headroom `h` is left, and a proactive switch passes both gates.
  abbrev pub Justified : Num → Type 0
  Justified h =
      (less (ratio 0 1) h ≡ true)
      × ((active : Num)
          → trigger ≡ proactive
          → a.headroom cur ≡ some active
          → (less (sub (ratio 100 1) h) s.threshold ≡ true)
            × (less (sub h active) s.hysteresis_pct ≡ false))

  -- An OAuth account with known headroom, or an API key that the settings include.
  abbrev pub IsTarget : String → Type 0
  IsTarget n =
      Available n
      × (((a.is_api_key n ≡ false) × ((h : Num) × (a.headroom n ≡ some h) × Justified h))
          ⊎ ((a.is_api_key n ≡ true) × (s.include_api_key_accounts ≡ true)))

  candidates-All : All Available (candidates N a cur)
  unfolding candidates
  candidates-All =
      All-map (λ n. not (str_eq n cur) && not (a.quarantined n) ≡ true) Available
        (λ n h. (ground (arith, h), ground (arith, h))) (candidates N a cur)
        (keep-All (λ n. not (str_eq n cur) && not (a.quarantined n)) a.switchable)

  oauth_candidates-All :
      All (λ n. Available n × (a.is_api_key n ≡ false)) (oauth_candidates N a cur)
  unfolding oauth_candidates
  oauth_candidates-All =
      All-both Available (λ n. a.is_api_key n ≡ false) (oauth_candidates N a cur)
        (All-keep (λ n. not (a.is_api_key n)) Available (candidates N a cur) candidates-All)
        (All-map (λ n. not (a.is_api_key n) ≡ true) (λ n. a.is_api_key n ≡ false)
          (λ n h. ground (arith, h)) (oauth_candidates N a cur)
          (keep-All (λ n. not (a.is_api_key n)) (candidates N a cur)))

  api_key_candidates-All : All IsTarget (api_key_candidates N s a cur)
  unfolding api_key_candidates
  api_key_candidates-All =
      let test = λ (n : String). a.is_api_key n && s.include_api_key_accounts in
      All-map (λ n. Available n × (test n ≡ true)) IsTarget
        (λ n h. (h.0, inr (ground (arith, h.1), ground (arith, h.1))))
        (api_key_candidates N s a cur)
        (All-both Available (λ n. test n ≡ true) (api_key_candidates N s a cur)
          (All-keep test Available (candidates N a cur) candidates-All)
          (keep-All test (candidates N a cur)))

  qualifies-Justified : (h : Num) → qualifies N s trigger (a.headroom cur) h ≡ true → Justified h
  unfolding qualifies is_proactive passes_gates
  qualifies-Justified h q = (
    ground (arith, q),
    λ active p e.
        let q' : less (ratio 0 1) h
              && (less (sub (ratio 100 1) h) s.threshold
                  && not (less (sub h active) s.hysteresis_pct))
            ≡ true =
          rw (p, e) at q in
        (ground (arith, q'), ground (arith, q')),
  )

  quals_of-All :
      (n : String)
      → Available n × (a.is_api_key n ≡ false)
      → All (λ q. IsTarget q.num) (quals_of N s a trigger (a.headroom cur) n (a.headroom n))
  unfolding quals_of
  quals_of-All n h = go (a.headroom n) refl
    where
      go :
          (o : Option Num)
          → a.headroom n ≡ o
          → All (λ q. IsTarget q.num) (quals_of N s a trigger (a.headroom cur) n o)
      go none e = tt
      go (some x) e = elim (Bool-cases (qualifies N s trigger (a.headroom cur) x)) [
        | inl t ↦ simp t ((h.0, inl (h.1, (x, e, qualifies-Justified x t))), tt)
        | inr f ↦ simp f tt
      ]

  quals-All :
      (ns : List String)
      → All (λ n. Available n × (a.is_api_key n ≡ false)) ns
      → All (λ q. IsTarget q.num) (qualifying N s a trigger (a.headroom cur) ns)
  unfolding qualifying
  quals-All [] h = tt
  quals-All (n ∷ ns) h =
      All-append (λ q. IsTarget q.num) (quals_of N s a trigger (a.headroom cur) n (a.headroom n))
        (qualifying N s a trigger (a.headroom cur) ns) (quals_of-All n h.0) (quals-All ns h.1)

  or_last_resort-All :
      (ns ks : List String)
      → All IsTarget ns
      → All IsTarget ks
      → All IsTarget (or_last_resort N ns ks)
  unfolding or_last_resort
  or_last_resort-All [] ks h k = k
  or_last_resort-All (n ∷ ns) ks h k = h

  nums_of-All : (qs : List (Qual N)) → All (λ q. IsTarget q.num) qs → All IsTarget (nums_of N qs)
  unfolding nums_of
  nums_of-All [] h = tt
  nums_of-All (q ∷ qs) h = (h.0, nums_of-All qs h.1)

  -- Every target of a tick is another slot than the current one and not quarantined; it is an OAuth
  -- account with headroom left that, for a proactive switch, lands below the threshold and is better
  -- than the active account by the hysteresis margin, or an API key that the settings include.
  pub select_candidates-IsTarget : All IsTarget (select_candidates N s a cur trigger).ordered
  unfolding select_candidates sort_qualifying
  select_candidates-IsTarget =
      elim (Bool-cases
        (no_candidates N (oauth_candidates N a cur) (api_key_candidates N s a cur))) [
          | inl t ↦ simp t tt
          | inr f ↦
              let quals = qualifying N s a trigger (a.headroom cur) (oauth_candidates N a cur) in
              simp f (
                or_last_resort-All (nums_of N (sort_qualifying N s quals))
                  (api_key_candidates N s a cur)
                  (nums_of-All (sort_qualifying N s quals) (
                    sort-All (goes_first N s) (λ q. IsTarget q.num) quals
                      (quals-All (oauth_candidates N a cur) oauth_candidates-All)))
                  api_key_candidates-All)
        ]
