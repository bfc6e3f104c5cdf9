-- ===== src/Usage/Entry/Due.antt =====
-- The candidate to poll is due, and no due candidate goes before it.
use cswap.Base.{String, ◌≡◌, Bool, true, false, Option, none, some, List, All, Any, ◌⊎◌}
use cswap.Numbers.{Numbers}
use cswap.Usage.Entry.Stalest.{MayPoll, FirstOf, row_of}
use cswap.Usage.Entry.{UsageEntry, DueRow, due_row}

module _ (N : Numbers) (string_less : String → String → Bool)
    (string_asymmetric : (a b : String) → string_less a b ≡ true → string_less b a ≡ false)
    (string_transitive : (a b c : String)
      → string_less a b ≡ false
      → string_less b c ≡ false
      → string_less a c ≡ false) where
  open N use {Num, less, ratio, asymmetric, transitive}

  module _ (entries : String → Option (UsageEntry N)) (now : Num) where
    -- The candidate has no entry, or one that may be polled.
    abbrev pub Due : String → Type 0
    Due num = (entries num ≡ none) ⊎ ((e : UsageEntry N) × (entries num ≡ some e) × MayPoll N now e)

    abbrev pub fetched_of : Option (UsageEntry N) → Option Num
    fetched_of none = none
    fetched_of (some e) = e.fetched_at

    -- The time of the candidate's last fetch.
    abbrev pub fetched_at : String → Option Num
    fetched_at num = fetched_of (entries num)

    -- The candidate is due with the row.
    abbrev HasRow : String → DueRow N → Type 0
    HasRow num r = due_row N num (entries num) now ≡ some r

    -- A due candidate of the list, which no other due candidate of the list goes before.
    pub record Stalest (nums : List String) (num : String) : Type 0 where
      pub is_due : Due num
      pub listed : Any (λ c. c ≡ num) nums
      pub first :
          All (λ c. Due c → FirstOf N now string_less num (fetched_at num) c (fetched_at c)) nums

    abbrev RowOf : String → Option (UsageEntry N) → Type 0
    RowOf num o = due_row N num o now ≡ some (row_of N now string_less num (fetched_of o))

    abbrev Own : List String → DueRow N → Type 0
    Own cs r = HasRow r.num r × Any (λ c. c ≡ r.num) cs
