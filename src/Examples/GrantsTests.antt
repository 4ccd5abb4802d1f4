-- ===== src/Examples/GrantsTests.antt =====
-- The reload of the LPs in eibc/lp.go
use eibc_client.Base.{◌≡◌, refl, false, [], ◌∷◌, none, some, String, List, Option}
use eibc_client.Base.Map.{Map, lookup}
use eibc_client.Examples.Bank.{one_coin, of_total}
use eibc_client.Examples.Samples.{tracker, sample_lp, terms}
use eibc_client.Lp.{Lp, RollappCriteria}
use eibc_client.Sdk.{Coins}
use eibc_client.Tracker.State.{is_rollapp_supported}
use eibc_client.Tracker.Grants.{
  Grant, GrantedCriteria, read_rollapps, loaded, load_grant, any_limit_raised, Loaded, drop_revoked,
}
use eibc_client.Tracker.Grants.Reload.{HasGrant, lookup-drop_revoked}

abbrev granted : GrantedCriteria
granted = record {
  rollapp_id = "ra1";
  denoms = "adym" ∷ [];
  max_price = of_total 90;
  min_fee_percentage = 10;
  operator_fee_share = 20;
  settlement_validated = false;
  spend_limit = of_total 500;
}

abbrev pub unmarshal : Option String → Option (List GrantedCriteria)
unmarshal v = some (granted ∷ [])

abbrev pub get_balances : String → Option Coins
get_balances address = some (of_total 300)

abbrev pub rollapps_hash : Map RollappCriteria → String
rollapps_hash m = ""

abbrev pub grant : Grant
grant = record { granter = "fair"; grantee = "policy"; authorization = some (some "bytes") }

abbrev reloaded : Lp
reloaded = sample_lp "fair" 20 300

abbrev busy_fair : Lp
busy_fair = record (sample_lp "fair" 20 100) { reserved_funds = of_total 80 }

abbrev after_load : Loaded unmarshal get_balances rollapps_hash
after_load = loaded (("fair", reloaded) ∷ []) false

load_again :
    load_grant unmarshal get_balances rollapps_hash tracker grant (("fair", busy_fair) ∷ []) false
    ≡ after_load
unfolding load_grant read_rollapps is_rollapp_supported any_limit_raised
load_again = refl

wanted_granted : read_rollapps tracker (granted ∷ []) [] ≡ ("ra1", terms 20) ∷ []
unfolding read_rollapps is_rollapp_supported
wanted_granted = refl

-- the second criteria for the rollapp ask for too low a share for the operator
abbrev twice : List GrantedCriteria
twice = granted ∷ record granted { operator_fee_share = 0 } ∷ []

-- "gone" has no grant any more.
abbrev gone_and_fair : Map Lp
gone_and_fair = ("gone", sample_lp "gone" 20 50) ∷ ("fair", busy_fair) ∷ []

lookup-drop_revoked_example :
    (HasGrant "gone" (grant ∷ [])
      → lookup "gone" (drop_revoked (grant ∷ []) gone_and_fair) ≡ some (sample_lp "gone" 20 50))
    × ((¬ HasGrant "gone" (grant ∷ []))
        → lookup "gone" (drop_revoked (grant ∷ []) gone_and_fair) ≡ none)
lookup-drop_revoked_example =
    lookup-drop_revoked "gone" (grant ∷ []) gone_and_fair (sample_lp "gone" 20 50)
      (refl, (refl, tt)) refl
