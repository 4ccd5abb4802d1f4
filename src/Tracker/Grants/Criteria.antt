-- ===== src/Tracker/Grants/Criteria.antt =====
-- Which criteria of a grant a reload keeps.
use eibc_client.Base.{◌≡◌, false, ◌⊎◌, List, [], ◌∷◌, some, String}
use eibc_client.Base.Map.{Map, lookup}
use eibc_client.Lp.{RollappCriteria}
use eibc_client.Sdk.{Sdk}
use eibc_client.Tracker.State.{OrderTracker}
use eibc_client.Config.{RollappConfig}
use eibc_client.Tracker.Grants.{GrantedCriteria, to_criteria}

module _ ⦃S : Sdk⦄ where
  -- a rollapp that the client supports, with a share for the operator that is high enough
  abbrev pub IsWanted : OrderTracker → GrantedCriteria → Type 0
  IsWanted t g =
      ((c : RollappConfig) × (lookup g.rollapp_id t.full_node_client.rollapps ≡ some c))
      × (S.dec_lt g.operator_fee_share t.min_operator_fee_share ≡ false)

  -- whether a list has wanted criteria of a rollapp
  pub Names : OrderTracker → List GrantedCriteria → String → Type 0
  Names t [] id = ⊥
  Names t (g ∷ gs) id = (IsWanted t g × (g.rollapp_id ≡ id)) ⊎ Names t gs id

  -- The criteria are the last wanted ones of the list for the rollapp.
  pub IsGranted : OrderTracker → List GrantedCriteria → String → RollappCriteria → Type 0
  IsGranted t [] id c = ⊥
  IsGranted t (g ∷ gs) id c =
      IsGranted t gs id c
      ⊎ (IsWanted t g × (g.rollapp_id ≡ id) × (¬ Names t gs id) × (c ≡ to_criteria g))
