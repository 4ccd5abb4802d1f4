-- ===== src/Tracker/Grants.antt =====
-- eibc/lp.go: `loadLPs` reads the grants of the LPs, and `refreshBalances` their balances. What the
-- authz and bank modules answer is taken as it comes: the list of grants, the decoded
-- authorization of a grant, and the balances of an address.
pub mod Reload
pub mod Books
pub mod Criteria
use eibc_client.Base.{
  ℕ, Bool, true, false, not, ◌&&◌, ◌||◌, List, [], ◌∷◌, Option, none, some, String, str_eq, ltb,
  length, if◌then◌else◌, is_empty,
}
use eibc_client.Base.Map.{Map, lookup, insert, erase}
use eibc_client.Lp.{Lp, RollappCriteria, set_balance}
use eibc_client.Sdk.{Sdk, Coins, Decimal}
use eibc_client.Tracker.State.{OrderTracker, is_rollapp_supported}

-- `authz.GrantAuthorization`: the authorization may be missing, and so may its bytes.
pub record Grant : Type 0 where
  pub granter : String
  pub grantee : String
  pub authorization : Option (Option String)

-- `grant.Authorization == nil || grant.Authorization.Value == nil`
abbrev pub has_no_value : Grant → Bool
has_no_value g = elim g.authorization [
  | none ↦ true
  | some v ↦ elim v [ none ↦ true | some _ ↦ false ]
]

-- whether the first grant of an address makes it lose its place, or there is none
unfoldable pub is_revoked : String → List Grant → Bool
is_revoked address [] = true
is_revoked address (g ∷ gs) =
    let rest = is_revoked address gs in if str_eq g.granter address then has_no_value g else rest

module _ ⦃S : Sdk⦄ where
  -- `types.RollappCriteria`
  pub record GrantedCriteria : Type 0 where
    pub rollapp_id : String
    pub denoms : List String
    pub max_price : Coins
    pub min_fee_percentage : Decimal
    pub operator_fee_share : Decimal
    pub settlement_validated : Bool
    pub spend_limit : Coins

  abbrev pub denom_set : List String → Map Bool → Map Bool
  denom_set [] m = m
  denom_set (d ∷ ds) m = denom_set ds (insert d true m)

  abbrev pub to_criteria : GrantedCriteria → RollappCriteria
  to_criteria g = record {
    rollapp_id = g.rollapp_id;
    denoms = denom_set g.denoms [];
    max_price = g.max_price;
    min_fee_percentage = g.min_fee_percentage;
    operator_fee_share = g.operator_fee_share;
    settlement_validated = g.settlement_validated;
    spend_limit = g.spend_limit;
  }

  -- the two tests that pass over a rollapp
  abbrev pub is_wanted : OrderTracker → GrantedCriteria → Bool
  is_wanted t g =
      is_rollapp_supported g.rollapp_id t
      && not (S.dec_lt g.operator_fee_share t.min_operator_fee_share)

  -- the loop over the rollapps of a grant
  unfoldable pub read_rollapps :
      OrderTracker → List GrantedCriteria → Map RollappCriteria → Map RollappCriteria
  read_rollapps t [] m = m
  read_rollapps t (g ∷ gs) m =
      read_rollapps t gs (if is_wanted t g then insert g.rollapp_id (to_criteria g) m else m)

  -- `rollapp.SpendLimit.IsAnyGT(r.spendLimit)` for a rollapp that the LP had
  abbrev pub limit_raised : Map RollappCriteria → GrantedCriteria → Bool
  limit_raised old g = elim (lookup g.rollapp_id old) [
    | none ↦ false
    | some r ↦ S.is_any_gt g.spend_limit r.spend_limit
  ]

  unfoldable pub any_limit_raised : OrderTracker → List GrantedCriteria → Map RollappCriteria → Bool
  any_limit_raised t [] old = false
  any_limit_raised t (g ∷ gs) old = is_wanted t g && limit_raised old g || any_limit_raised t gs old

  delete_all : List String → Map Lp → Map Lp
  delete_all [] m = m
  delete_all (a ∷ as_) m = delete_all as_ (erase a m)

  -- `toDelete`
  to_delete : List Grant → Map Lp → List String
  to_delete gs [] = []
  to_delete gs ((_, l) ∷ m) =
      let rest = to_delete gs m in if is_revoked l.address gs then l.address ∷ rest else rest

  unfoldable pub drop_revoked : List Grant → Map Lp → Map Lp
  unfolding delete_all to_delete
  drop_revoked gs m = delete_all (to_delete gs m) m

-- The codec of the authorization, the balances, and the hash of an LP's criteria
module _ ⦃S : Sdk⦄ (unmarshal : Option String → Option (List GrantedCriteria))
    (get_balances : String → Option Coins) (rollapps_hash : Map RollappCriteria → String) where
  -- how one grant ends: the LPs as they are then, and whether one was added or changed
  pub data Loaded : Type 0 where
    loaded : Map Lp → Bool → Loaded
    failed : String → Loaded

  fresh_lp : String → Map RollappCriteria → Coins → Lp
  fresh_lp address rollapps balance = record {
    address = address;
    rollapps = rollapps;
    balance = balance;
    reserved_funds = [];
    hash = rollapps_hash rollapps;
  }

  -- whether the LP is new, or its criteria changed, or a spend limit was raised
  is_updated : OrderTracker → Option Lp → List GrantedCriteria → Map RollappCriteria → Bool
  is_updated t none gs rollapps = true
  is_updated t (some l) gs rollapps =
      any_limit_raised t gs l.rollapps || not (str_eq l.hash (rollapps_hash rollapps))

  store_lp :
      OrderTracker
      → String
      → List GrantedCriteria
      → Coins
      → Map RollappCriteria
      → Map Lp
      → Bool
      → Loaded
  unfolding fresh_lp is_updated
  store_lp t granter gs balance rollapps m updated =
      if is_empty rollapps
      then loaded m updated
      else loaded (insert granter (fresh_lp granter rollapps balance) m)
          (updated || is_updated t (lookup granter m) gs rollapps)

  -- from the decoded authorization on
  load_decoded : OrderTracker → String → List GrantedCriteria → Map Lp → Bool → Loaded
  unfolding store_lp
  load_decoded t granter gs m updated = elim (get_balances granter) [
    | none ↦ failed "failed to get LP balances"
    | some balance ↦ store_lp t granter gs balance (read_rollapps t gs []) m updated
  ]

  -- the body of the loop over the grants
  unfoldable pub load_grant : OrderTracker → Grant → Map Lp → Bool → Loaded
  unfolding load_decoded
  load_grant t g m updated = elim g.authorization [
    | none ↦ loaded m updated
    | some value ↦
        if str_eq g.granter "" || str_eq g.grantee ""
        then loaded m updated
        else elim (unmarshal value) [
          | none ↦ failed "failed to unmarshal grant"
          | some gs ↦ load_decoded t g.granter gs m updated
        ]
  ]

  -- The loop over the grants: an error ends it, and what was stored before stays.
  unfoldable pub load_grants :
      OrderTracker → List Grant → Map Lp → Bool → Map Lp × Bool × Option String
  load_grants t [] m updated = (m, updated, none)
  load_grants t (g ∷ gs) m updated = elim (load_grant t g m updated) [
    | failed e ↦ (m, updated, some e)
    | loaded m' updated' ↦ load_grants t gs m' updated'
  ]

  -- `loadLPs`: the tracker afterwards, whether the poller is reset, and the error
  unfoldable pub load_lps : Option (List Grant) → OrderTracker → OrderTracker × Bool × Option String
  unfolding load_grants drop_revoked
  load_lps none t = (t, false, some "failed to get LP grants")
  load_lps (some gs) t =
      let (m, updated, failure) = load_grants t gs (drop_revoked gs t.lps) false in
      (
        record t { lps = m },
        (elim failure [
          | some _ ↦ false
          | none ↦ updated || ltb 0 (length t.lps) && ltb (length t.lps) (length m)
        ]),
        failure,
      )

module _ ⦃S : Sdk⦄ (get_balances : String → Option Coins) where
  -- `refreshBalances`
  unfoldable pub refresh_balances : Map Lp → Map Lp
  refresh_balances [] = []
  refresh_balances ((k, l) ∷ m) =
      (k, elim (get_balances l.address) [ none ↦ l | some b ↦ set_balance b l ])
      ∷ refresh_balances m
