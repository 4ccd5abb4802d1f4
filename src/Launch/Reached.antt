-- ===== src/Launch/Reached.antt =====
-- What a launched client reaches.
use eibc_client.Base.{ℕ, List, Option, none, some, String}
use eibc_client.Config.{Config}
use eibc_client.Lp.{Lp}
use eibc_client.Sdk.{Sdk}
use eibc_client.Sdk.Laws.{CoinLaws, DecLaws}
use eibc_client.System.{OrderClient, Step, Run}
use eibc_client.System.Solvency.{StepKeeps, RefreshesKeep}

module _ ⦃S : Sdk⦄ (L : CoinLaws) (D : DecLaws) (shuffle : ℕ → String → List Lp → List Lp) where
  -- a step that is no refresh which leaves an LP with less than it has reserved
  abbrev SafeStep : OrderClient → OrderClient → Type 0
  SafeStep c d = (s : Step shuffle c d) × StepKeeps L D shuffle c d s

  abbrev SafeRun : OrderClient → OrderClient → Type 0
  SafeRun c d = (r : Run shuffle c d) × RefreshesKeep L D shuffle c d r

abbrev from_some : {A : Type 0} → A → Option A → A
from_some a none = a
from_some a (some b) = b
