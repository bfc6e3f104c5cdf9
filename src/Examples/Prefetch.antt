-- ===== src/Examples/Prefetch.antt =====
-- The identity behind a live login whose slot has an older lineage.
use cswap.Base.{String, ◌≡◌, refl, Option, none, some, [], if◌then◌else◌, str_eq}
use cswap.Roster.{find_account_slot}
use cswap.Files.{World, read_sequence, read_account_credentials}
use cswap.Files.Active.{read_active, get_current_account}
use cswap.Switching.Provenance.{
  Identity, prefetch_live_identity, fingerprint_equal, same_fingerprint,
}
use cswap.Switching.Provenance.Resolution.{Resolved, prefetch_live_identity-Resolved}
use cswap.Examples.Tree.{tree_runtime}
use cswap.Examples.Machine.{first_live, login}

-- The login of the second account, written by hand over that of the first.
abbrev foreign_live : World tree_runtime
foreign_live = record (first_live []) { credentials_file = some (login "c0" "rc") }

abbrev owner : Identity
owner = record { uuid = "b"; email = "b"; org_uuid = "" }

abbrev answers : String → Option Identity
answers access = if str_eq access "c0" then some owner else none

prefetch_live_identity-owner :
    (prefetch_live_identity tree_runtime answers foreign_live).0.resolved ≡ some owner
unfolding prefetch_live_identity read_active get_current_account find_account_slot read_sequence
    read_account_credentials fingerprint_equal same_fingerprint
prefetch_live_identity-owner = refl

prefetch_live_identity-Resolved_example :
    Resolved tree_runtime answers (prefetch_live_identity tree_runtime answers foreign_live).0 owner
prefetch_live_identity-Resolved_example =
    prefetch_live_identity-Resolved tree_runtime answers foreign_live owner
      prefetch_live_identity-owner
