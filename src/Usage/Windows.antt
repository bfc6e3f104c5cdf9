-- ===== src/Usage/Windows.antt =====
-- What the headroom and the resets say of an account's windows.
use mathlib.Core.Path.{subst}
use cswap.Base.{
  String, ◌≡◌, refl, sym, ◌∙◌, Bool, true, Option, none, some, List, [], ◌∷◌, if◌then◌else◌, All,
  Any, Any-map, inl, inr, ◌⊎◌, Bool-cases, Option-cases,
}
use cswap.Numbers.{Numbers}
use cswap.Numbers.Order.{AtMost, AtMost-refl, AtMost-trans, AtMost-less}
use cswap.Usage.{
  Usage, RelevantWindow, relevant_windows, max_pct, headroom_from, account_headroom, later_of,
  latest_reset, parse_reset_ts,
}

module _ (N : Numbers) where
  open N use {Num, less, sub, ratio}

  max_pct-ge : (m : Num) (ws : List (RelevantWindow N)) → AtMost N m (max_pct N m ws)
  unfolding max_pct
  max_pct-ge m [] = AtMost-refl N m
  max_pct-ge m (w ∷ ws) = elim (Bool-cases (less m w.pct)) [
    | inl t ↦ rw t (AtMost-trans N m w.pct _ (AtMost-less N m w.pct t) (max_pct-ge w.pct ws))
    | inr f ↦ rw f (max_pct-ge m ws)
  ]

  max_pct-All :
      (m : Num) (ws : List (RelevantWindow N))
      → All (λ (v : RelevantWindow N). AtMost N v.pct (max_pct N m ws)) ws
  unfolding max_pct
  max_pct-All m [] = tt
  max_pct-All m (w ∷ ws) =
      let m' = if less m w.pct then w.pct else m in
      (AtMost-trans N w.pct m' _ (larger m w.pct) (max_pct-ge m' ws), max_pct-All m' ws)
    where
      larger : (a b : Num) → AtMost N b (if less a b then b else a)
      larger a b = elim (Bool-cases (less a b)) [ inl t ↦ rw t (AtMost-refl N b) | inr f ↦ rw f f ]

  max_pct-Any :
      (m : Num) (ws : List (RelevantWindow N))
      → (max_pct N m ws ≡ m) ⊎ Any (λ (v : RelevantWindow N). max_pct N m ws ≡ v.pct) ws
  unfolding max_pct
  max_pct-Any m [] = inl refl
  max_pct-Any m (w ∷ ws) =
      let m' = if less m w.pct then w.pct else m in place (max_pct-Any m' ws) (either m w.pct)
    where
      either : (a b : Num) → ((if less a b then b else a) ≡ a) ⊎ ((if less a b then b else a) ≡ b)
      either a b = elim (Bool-cases (less a b)) [
        | inl t ↦ rw t (inr refl)
        | inr f ↦ rw f (inl refl)
      ]

      place :
          {x m' : Num} {P : Type 0}
          → (x ≡ m') ⊎ P
          → (m' ≡ m) ⊎ (m' ≡ w.pct)
          → (x ≡ m) ⊎ ((x ≡ w.pct) ⊎ P)
      place (inl e) (inl d) = inl (e ∙ d)
      place (inl e) (inr d) = inr (inl (e ∙ d))
      place (inr p) _ = inr (inr p)

  -- The window that binds: headroom `h` is what its pct leaves, and no other pct is larger.
  abbrev pub Binds : List (RelevantWindow N) → Num → RelevantWindow N → Type 0
  Binds ws h w =
      (h ≡ sub (ratio 100 1) w.pct) × All (λ (v : RelevantWindow N). AtMost N v.pct w.pct) ws

  headroom_from-Binds :
      (ws : List (RelevantWindow N)) (h : Num) → headroom_from N ws ≡ some h → Any (Binds ws h) ws
  unfolding headroom_from
  headroom_from-Binds [] h e = cc
  headroom_from-Binds (w ∷ ws) h e = place (max_pct-Any w.pct ws)
    where
      bound :
          (p : Num)
          → max_pct N w.pct ws ≡ p
          → (h ≡ sub (ratio 100 1) p) × All (λ (v : RelevantWindow N). AtMost N v.pct p) (w ∷ ws)
      bound p same =
          subst
            (λ p.
              (h ≡ sub (ratio 100 1) p) × All (λ (v : RelevantWindow N). AtMost N v.pct p) (w ∷ ws))
            same (cc, (max_pct-ge w.pct ws, max_pct-All w.pct ws))

      place :
          (max_pct N w.pct ws ≡ w.pct)
            ⊎ Any (λ (v : RelevantWindow N). max_pct N w.pct ws ≡ v.pct) ws
          → Any (Binds (w ∷ ws) h) (w ∷ ws)
      place (inl s) = inl (bound w.pct s)
      place (inr a) = inr (
          Any-map (λ (v : RelevantWindow N). max_pct N w.pct ws ≡ v.pct) (Binds (w ∷ ws) h)
            (λ v s. bound v.pct s) ws a)

  -- The headroom of an account is what its fullest relevant window leaves of 100, and it is unknown
  -- exactly when no window is relevant.
  pub account_headroom-Binds :
      (models : List String) (u : Usage N)
      → ((h : Num)
          → account_headroom N models u ≡ some h
          → Any (Binds (relevant_windows N models u) h) (relevant_windows N models u))
        × (account_headroom N models u ≡ none → relevant_windows N models u ≡ [])
        × (relevant_windows N models u ≡ [] → account_headroom N models u ≡ none)
  unfolding account_headroom headroom_from
  account_headroom-Binds models u = (
    λ h e. headroom_from-Binds (relevant_windows N models u) h e,
    only_empty (relevant_windows N models u),
    λ e. rw e refl,
  )
    where
      only_empty : (ws : List (RelevantWindow N)) → headroom_from N ws ≡ none → ws ≡ []
      only_empty [] e = refl
      only_empty (w ∷ ws) e = cc

  module _ (test : RelevantWindow N → Bool) where
    -- The window passes the test and resets at `t`.
    abbrev pub ResetsAt : Num → RelevantWindow N → Type 0
    ResetsAt t w = (test w ≡ true) × (parse_reset_ts N w.resets_at ≡ some t)

    -- Whenever it passes the test and resets at a known time, that is not after `t`.
    abbrev pub NotAfter : Num → RelevantWindow N → Type 0
    NotAfter t w = (s : Num) → ResetsAt s w → AtMost N s t

    -- What a scan of `ws` that starts with `old` ends with.
    record Scanned (old : Option Num) (ws : List (RelevantWindow N)) (t : Num) : Type 0 where
      pub from : (old ≡ some t) ⊎ Any (ResetsAt t) ws
      pub after_old : (s : Num) → old ≡ some s → AtMost N s t
      pub after_all : All (NotAfter t) ws

    -- One window that resets at `t`, and one that says nothing.
    later_of-AtMost :
        (old : Option Num) (t : Num)
        → AtMost N t (later_of N old t)
          × ((s : Num) → old ≡ some s → AtMost N s (later_of N old t))
          × ((old ≡ some (later_of N old t)) ⊎ (t ≡ later_of N old t))
    unfolding later_of
    later_of-AtMost none t = (AtMost-refl N t, λ s e. cc, inr refl)
    later_of-AtMost (some l) t = elim (Bool-cases (less l t)) [
      | inl b ↦ rw b (
        AtMost-refl N t,
        λ s e. let same : l ≡ s = cc in rw (sym same) (AtMost-less N l t b),
        inr refl,
      )
      | inr b ↦ rw b (b, λ s e. let same : l ≡ s = cc in rw (sym same) (AtMost-refl N l), inl refl)
    ]

    skip :
        (old : Option Num) (w : RelevantWindow N) (ws : List (RelevantWindow N)) (t : Num)
        → ((s : Num) → ResetsAt s w → ⊥)
        → Scanned old ws t
        → Scanned old (w ∷ ws) t
    skip old w ws t n h = record {
      from = elim h.from [ inl e ↦ inl e | inr a ↦ inr (inr a) ];
      after_old = h.after_old;
      after_all = (λ s r. absurd (n s r), h.after_all);
    }

    take_in :
        (old : Option Num) (w : RelevantWindow N) (ws : List (RelevantWindow N)) (r t : Num)
        → ResetsAt r w
        → Scanned (some (later_of N old r)) ws t
        → Scanned old (w ∷ ws) t
    take_in old w ws r t at h =
        let (above, above_old, which) = later_of-AtMost old r in
        let low = h.after_old (later_of N old r) refl in
        record {
          from = place h.from which;
          after_old = λ s e. AtMost-trans N s _ t (above_old s e) low;
          after_all = (
            λ s k.
                let same : r ≡ s = cc (at.1, k.1) in rw (sym same) (AtMost-trans N r _ t above low),
            h.after_all,
          );
        }
      where
        place :
            (some (later_of N old r) ≡ some t) ⊎ Any (ResetsAt t) ws
            → (old ≡ some (later_of N old r)) ⊎ (r ≡ later_of N old r)
            → (old ≡ some t) ⊎ Any (ResetsAt t) (w ∷ ws)
        place (inr a) _ = inr (inr a)
        place (inl e) (inl d) = inl (d ∙ e)
        place (inl e) (inr d) = let same : r ≡ t = cc in inr (inl (at.0, rw (← same) at.1))

    latest_reset-Scanned :
        (old : Option Num) (ws : List (RelevantWindow N)) (t : Num)
        → latest_reset N test old ws ≡ some t
        → Scanned old ws t
    unfolding latest_reset
    latest_reset-Scanned old [] t e = record {
      from = inl e;
      after_old = λ s d. let same : s ≡ t = cc in rw same (AtMost-refl N t);
      after_all = tt;
    }
    latest_reset-Scanned old (w ∷ ws) t e = elim (Bool-cases (test w)) [
      | inr f ↦ skip old w ws t (λ s r. cc (f, r.0)) (latest_reset-Scanned old ws t (rw f at e))
      | inl y ↦ elim (Option-cases (parse_reset_ts N w.resets_at)) [
        | inl n ↦
            skip old w ws t (λ s r. cc (n, r.1)) (latest_reset-Scanned old ws t (rw (y, n) at e))
        | inr (r, p) ↦
            take_in old w ws r t (y, p)
              (latest_reset-Scanned (some (later_of N old r)) ws t (rw (y, p) at e))
      ]
    ]

    -- The windows that are scanned for a known time.
    pub latest_reset-Latest :
        (ws : List (RelevantWindow N)) (t : Num)
        → latest_reset N test none ws ≡ some t
        → Any (ResetsAt t) ws × All (NotAfter t) ws
    latest_reset-Latest ws t e =
        let h = latest_reset-Scanned none ws t e in (start h.from, h.after_all)
      where
        start : (◌≡◌ {A = Option Num} none (some t)) ⊎ Any (ResetsAt t) ws → Any (ResetsAt t) ws
        start (inl d) = cc
        start (inr a) = a
