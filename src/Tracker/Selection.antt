-- ===== src/Tracker/Selection.antt =====
-- Which LP pays for an order: `filterLPsForOrder`, `selectBestLP` and `findLPForOrder`. The text of
-- the reasons for which LPs are passed over only goes to the log, and is left out.
pub mod Choice
pub mod Found
pub mod Solvency
use eibc_client.Base.{
  ℕ, Bool, true, false, not, ◌&&◌, List, [], ◌∷◌, Option, none, some, String, str_eq, if◌then◌else◌,
  Result, ok, err, ◌>>=◌, is_empty, head?,
}
use eibc_client.Base.Map.{Map, lookup, adjust}
use eibc_client.Base.Sort.{sort_slice}
use eibc_client.Lp.{
  Lp, RollappCriteria, has_balance, reserve_funds, release_funds, debit_reserved_funds,
}
use eibc_client.Sdk.{Sdk, Coins, Amount}
use eibc_client.Tracker.State.{OrderTracker}
use eibc_client.Types.{DemandOrder}

-- `rollapp.Denoms[denom]`, `false` for a missing key
abbrev pub denom_allowed : Option Bool → Bool
denom_allowed none = false
denom_allowed (some b) = b

module _ ⦃S : Sdk⦄ where
  -- The panics of `LegacyDec.Mul` and `TruncateInt` on overflow are not modelled.
  abbrev pub min_fee : DemandOrder → RollappCriteria → Amount
  min_fee o c = S.dec_truncate_int (S.dec_mul (S.dec_of_int o.amount) c.min_fee_percentage)

  -- the tests of one LP, in the order of the source
  unfoldable pub admits : DemandOrder → Lp → Result Bool
  admits o l = elim (lookup o.rollapp_id l.rollapps) [
    | none ↦ ok false
    | some c ↦
        if not (is_empty c.denoms) && not (denom_allowed (lookup o.fee.denom c.denoms))
        then ok false
        else if S.is_all_positive c.max_price && S.is_any_gt o.price c.max_price
        then ok false
        else if not (S.is_all_gte c.spend_limit o.price)
        then ok false
        else if S.int_lt o.fee.amount (min_fee o c)
        then ok false
        else has_balance o.price l
  ]

  -- `filterLPsForOrder`
  unfoldable pub filter_lps : DemandOrder → Map Lp → Result (List Lp)
  unfolding admits
  filter_lps o [] = ok []
  filter_lps o ((_, l) ∷ rest) =
      let others = filter_lps o rest in
      do b ← admits o l; ls ← others; ok (if b then l ∷ ls else ls)

  -- `lp.Rollapps[rollappID]`, the zero value for a missing key
  abbrev pub criteria_of : Option RollappCriteria → RollappCriteria
  criteria_of (some c) = c
  criteria_of none = record {
    rollapp_id = "";
    denoms = [];
    max_price = [];
    min_fee_percentage = S.dec_nil;
    operator_fee_share = S.dec_nil;
    settlement_validated = false;
    spend_limit = [];
  }

  abbrev pub criteria : String → Lp → RollappCriteria
  criteria id l = criteria_of (lookup id l.rollapps)

  -- the order of `selectBestLP`: first no settlement validation, then the higher operator fee share
  unfoldable pub better : String → Lp → Lp → Bool
  better id a b =
      let x = criteria id a in
      let y = criteria id b in
      if x.settlement_validated && not y.settlement_validated
      then false
      else if not x.settlement_validated && y.settlement_validated
      then true
      else S.dec_gt x.operator_fee_share y.operator_fee_share

  unfoldable pub select_best_lp : String → List Lp → Option Lp
  unfolding better
  select_best_lp id ls = head? (sort_slice (better id) ls)

  -- an order that has an LP keeps it, if that LP still passes
  find_address : String → List Lp → Option Lp
  find_address a [] = none
  find_address a (l ∷ ls) = if str_eq l.address a then some l else find_address a ls

  current_lp : DemandOrder → List Lp → Option Lp
  unfolding find_address
  current_lp o ls = if str_eq o.lp_address "" then none else find_address o.lp_address ls

  keep_lp : DemandOrder → Lp → DemandOrder
  keep_lp o l = record o { settlement_validated = (criteria o.rollapp_id l).settlement_validated }

  assign_lp : DemandOrder → Lp → DemandOrder
  assign_lp o l = record o {
    lp_address = l.address;
    settlement_validated = (criteria o.rollapp_id l).settlement_validated;
    operator_fee_part = (criteria o.rollapp_id l).operator_fee_share;
  }

  -- `findLPForOrder`: the order as it is afterwards, and the LPs. `shuffle` is `rand.Shuffle`.
  unfoldable pub find_lp_for_order :
      (List Lp → List Lp) → DemandOrder → Map Lp → Result (DemandOrder × Map Lp)
  unfolding filter_lps current_lp keep_lp assign_lp select_best_lp
  find_lp_for_order shuffle o lps = do
    ls ← filter_lps o lps
    if is_empty ls then err "no LPs found for order" else elim (current_lp o ls) [
      | some l ↦ ok (keep_lp o l, lps)
      | none ↦ elim (select_best_lp o.rollapp_id (shuffle ls)) [
        | none ↦ err "LP not found"
        | some best ↦ ok (assign_lp o best, adjust best.address (reserve_funds o.price) lps)
      ]
    ]

  -- `releaseAllReservedOrdersFunds` and `debitAllReservedOrdersFunds`
  unfoldable pub release_all : List DemandOrder → Map Lp → Map Lp
  release_all [] lps = lps
  release_all (o ∷ os) lps = release_all os (adjust o.lp_address (release_funds o.price) lps)

  unfoldable pub debit_all : List DemandOrder → Map Lp → Map Lp
  debit_all [] lps = lps
  debit_all (o ∷ os) lps = debit_all os (adjust o.lp_address (debit_reserved_funds o.price) lps)
