-- ===== src/System/Started.antt =====
-- The runs of a client that `NewOrderClient` built.
use eibc_client.Base.{arith, ℕ, ◌≡◌, List, String, ok, subst, sym, some}
use eibc_client.Client.{World, NewClient, new_order_client}
use eibc_client.Client.Start.{IsFresh, new_order_client-IsFresh}
use eibc_client.Config.{Config}
use eibc_client.Lp.{Lp}
use eibc_client.Poller.{OrderPoller}
use eibc_client.Sdk.{Sdk}
use eibc_client.Sdk.Laws.{CoinLaws, DecLaws}
use eibc_client.System.{OrderClient, initial, Run, tracker_of}
use eibc_client.System.Exclusive.{Run-IsExclusive}
use eibc_client.System.Solvency.{IsSolventClient, Run-AreSolvent, RefreshesKeep}
use eibc_client.Tracker.Selection.Choice.{IsShuffle}
use eibc_client.Tracker.Selection.Solvency.{AreSolvent}
use eibc_client.Tracker.State.{OrderTracker}
use eibc_client.Tracker.State.Exclusive.{IsExclusive}

pub fresh-IsExclusive : ⦃S : Sdk⦄ (t : OrderTracker) → IsFresh t → IsExclusive t
fresh-IsExclusive t (_, pool, checks, outputs) = record {
  once = λ q. rw (checks, outputs) (omega arith);
  known = λ q b. rw (checks, outputs) (omega arith);
  stored = rw pool (λ k r e. absurd (cc));
}

-- What a client that `NewOrderClient` returned does from its start: in every state that its
-- goroutines reach, every LP has at least what it has reserved, unless a refresh of the balances left
-- one with less; and each order stands at most once in the batches that wait, and then only while it
-- is being checked or is valid.
pub new_order_client-Run :
    ⦃S : Sdk⦄ (L : CoinLaws) (D : DecLaws) (w : World) (cfg : Config) (k k' : w.keyring.State)
    (c : NewClient) (p : OrderPoller) (d : OrderClient) (shuffle : ℕ → String → List Lp → List Lp)
    → ((draw : ℕ) (id : String) → IsShuffle (shuffle draw id))
    → new_order_client w cfg k ≡ ok (k', c)
    → c.order_poller ≡ some p
    → (run : Run shuffle (initial p) d) → RefreshesKeep L D shuffle (initial p) d run
    → IsSolventClient L D d × IsExclusive (tracker_of d)
new_order_client-Run L D w cfg k k' c p d shuffle mixes made has run keeps =
    let (fresh, _) = new_order_client-IsFresh w cfg k k' c p made has in
    (
      Run-AreSolvent L D shuffle mixes (initial p) d run keeps
          (subst (AreSolvent L) (sym fresh.0) tt),
      Run-IsExclusive shuffle (initial p) d run (fresh-IsExclusive p.order_tracker fresh),
    )
