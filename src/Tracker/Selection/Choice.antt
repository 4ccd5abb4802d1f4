-- ===== src/Tracker/Selection/Choice.antt =====
-- The LP that is chosen for an order accepts it, and none that does is better.
use mathlib.Core.Option.{some-injective}
use eibc_client.Base.{
  ◌≡◌, subst, ◌↔◌, ◌⊎◌, Bool, true, false, List, [], ◌∷◌, none, some, String, ok, All, arith,
  Bool-cases, Option-cases, inl, inr, is_empty, head?,
}
use eibc_client.Base.Map.{lookup}
use eibc_client.Base.Sort.{
  sort_slice, IsStrict, IsSorted, sort_slice-IsSorted, All-sort_slice, All-sort_slice_back,
  head?-sort_slice,
}
use eibc_client.Lp.{Lp, RollappCriteria, has_balance}
use eibc_client.Sdk.{Sdk}
use eibc_client.Sdk.Laws.{DecLaws}
use eibc_client.Tracker.Selection.{admits, better, select_best_lp, criteria, min_fee}
use eibc_client.Types.{DemandOrder}

-- `rand.Shuffle` moves the elements of a list, and neither adds nor drops one.
pub record IsShuffle ⦃S : Sdk⦄ (shuffle : List Lp → List Lp) : Type 1 where
  pub into : (P : Lp → Type 0) (ls : List Lp) → All P ls → All P (shuffle ls)
  pub back : (P : Lp → Type 0) (ls : List Lp) → All P (shuffle ls) → All P ls

module _ ⦃S : Sdk⦄ where
  -- Why an LP may pay for an order, criterion by criterion.
  pub record Accepts (o : DemandOrder) (l : Lp) : Type 0 where
    pub terms : RollappCriteria
    pub for_rollapp : lookup o.rollapp_id l.rollapps ≡ some terms
    pub for_denom : (is_empty terms.denoms ≡ true) ⊎ (lookup o.fee.denom terms.denoms ≡ some true)
    pub for_price :
        (S.is_all_positive terms.max_price ≡ false) ⊎ (S.is_any_gt o.price terms.max_price ≡ false)
    pub for_limit : S.is_all_gte terms.spend_limit o.price ≡ true
    pub for_fee : S.int_lt o.fee.amount (min_fee o terms) ≡ false
    pub for_balance : has_balance o.price l ≡ ok true

  -- An LP passes the tests exactly if it accepts the order.
  pub admits_iff : (o : DemandOrder) (l : Lp) → (admits o l ≡ ok true) ↔ Accepts o l
  unfolding admits
  admits_iff o l = (
    λ h. elim (Option-cases (lookup o.rollapp_id l.rollapps)) [
      | inl e ↦ absurd (ground arith)
      | inr (c, e) ↦ record {
        terms = c;
        for_rollapp = e;
        for_denom = elim (Bool-cases (is_empty c.denoms)) [
          | inl i ↦ inl i
          | inr i ↦ inr (ground arith)
        ];
        for_price = elim (Bool-cases (S.is_all_positive c.max_price)) [
          | inl i ↦ inr (ground arith)
          | inr i ↦ inl i
        ];
        for_limit = ground arith;
        for_fee = ground arith;
        for_balance = ground arith;
      }
    ],
    λ a. ground arith,
  )

  best_first :
      (less : Lp → Lp → Bool) (ls : List Lp) (b : Lp)
      → IsSorted less ls
      → head? ls ≡ some b
      → less b b ≡ false
      → All (λ l. less l b ≡ false) ls
  best_first less [] b s e i = tt
  best_first less (l ∷ ls) b s e i = (
    rw (some-injective l b e) i,
    subst (λ x. All (λ y. less y x ≡ false) ls) (some-injective l b e) s.0,
  )

  better-IsStrict : DecLaws → (id : String) → IsStrict (better id)
  unfolding better
  better-IsStrict L id = record {
    asym = λ a b h.
        ground
          (arith, L.gt_asym (criteria id a).operator_fee_share (criteria id b).operator_fee_share);
    negative = λ a b c h k. ground (
      arith,
      L.gt_negative (criteria id a).operator_fee_share (criteria id b).operator_fee_share
          (criteria id c).operator_fee_share,
    );
  }

  better_irrefl : DecLaws → (id : String) (l : Lp) → better id l l ≡ false
  better_irrefl L id l = elim (Bool-cases (better id l l)) [
    | inl e ↦ (better-IsStrict L id).asym l l e
    | inr e ↦ e
  ]

  head?-All : (P : Lp → Type 0) (ls : List Lp) (b : Lp) → All P ls → head? ls ≡ some b → P b
  head?-All P [] b h e = absurd (cc)
  head?-All P (l ∷ ls) b h e = subst P (some-injective l b e) h.0

  -- What the selected LP is one of
  pub select_best_lp_All :
      (P : Lp → Type 0) (id : String) (ls : List Lp) (b : Lp)
      → All P ls
      → select_best_lp id ls ≡ some b
      → P b
  unfolding select_best_lp
  select_best_lp_All P id ls b h e =
      head?-All P (sort_slice (better id) ls) b (All-sort_slice (better id) P ls h) e

  -- Of the LPs that may pay, none is better than the selected one: none goes without settlement
  -- validation where the selected one asks for it, and none that asks for the same gives the
  -- operator a higher share of the fee. One is selected unless there is none.
  pub select_best_lp_best :
      DecLaws
      → (id : String) (ls : List Lp)
      → ((select_best_lp id ls ≡ none) ↔ (ls ≡ []))
        × ((b : Lp) → select_best_lp id ls ≡ some b → All (λ l. better id l b ≡ false) ls)
  unfolding select_best_lp sort_slice
  select_best_lp_best L id ls = (
    (head?-sort_slice (better id) ls, λ e. rw e),
    λ b e.
        All-sort_slice_back (better id) (λ l. better id l b ≡ false) ls
          (best_first (better id) (sort_slice (better id) ls) b
            (sort_slice-IsSorted (better id) (better-IsStrict L id) ls) e (better_irrefl L id b)),
  )
