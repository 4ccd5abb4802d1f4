-- ===== src/Examples/SystemTests.antt =====
-- Runs of the client: a round of polling and a pop, and the check of a batch that waits.
use eibc_client.Base.{ℕ, refl, [], ◌∷◌, arith, String, ok, List, ◌⊎◌}
use eibc_client.Examples.Bank.{one_coin, one_coin_laws, one_coin_order}
use eibc_client.Examples.Samples.{all_p2p}
use eibc_client.Examples.SelectionTests.{unshuffled, unshuffled-IsShuffle, sample_lps-AreSolvent}
use eibc_client.Examples.SourcesTests.{poller, tracking, listed, poll_listed}
use eibc_client.Examples.TrackerTests.{clock, popped as has_been_popped, settled, enqueue_settled}
use eibc_client.Lp.{Lp}
use eibc_client.System.{
  OrderClient, with_tracker, tracker_of, Run, stay, step, polled, popped, checked, Step,
}
use eibc_client.System.Confirmed.{IsReady, RunConfirms, Run-RunConfirms}
use eibc_client.System.Exclusive.{Run-IsExclusive}
use eibc_client.System.Protocol.{Move, place, Step-Move}
use eibc_client.System.Solvency.{IsSolventClient, Run-AreSolvent}
use eibc_client.Tracker.State.{OrderTracker, check_orders}
use eibc_client.Tracker.State.Exclusive.{IsExclusive}

abbrev draws : ℕ → String → List Lp → List Lp
draws n id = unshuffled

abbrev started : OrderClient
started = record { poller = poller; processed_orders = [] }

abbrev has_polled : OrderClient
has_polled = record started { poller = tracking }

abbrev has_popped : OrderClient
has_popped = with_tracker has_polled (check_orders ("a" ∷ "new" ∷ []) tracking.order_tracker)

abbrev first_steps : Run draws started has_popped
first_steps =
    step started has_polled has_popped
      (step started started has_polled (stay started)
        (polled 0 clock (ok (listed ∷ [])) started tracking poll_listed))
      (popped ("a" ∷ "new" ∷ []) has_polled)

Run-AreSolvent_example : IsSolventClient one_coin_laws one_coin_order has_popped
Run-AreSolvent_example =
    Run-AreSolvent one_coin_laws one_coin_order draws (λ n id. unshuffled-IsShuffle) started
      has_popped first_steps ((tt, tt), tt) sample_lps-AreSolvent

-- At the start nothing waits, and the two orders of the pool are stored.
started-IsExclusive : IsExclusive (tracker_of started)
started-IsExclusive = record {
  once = λ q. omega arith;
  known = λ q b. refl;
  stored = λ k r e. ground arith;
}

Run-IsExclusive_example : IsExclusive (tracker_of has_popped)
Run-IsExclusive_example = Run-IsExclusive draws started has_popped first_steps started-IsExclusive

-- Both orders of the pool wait to be checked, and then to be fulfilled.
abbrev waiting_tracker : OrderTracker
waiting_tracker = record has_been_popped { to_check_orders = (0 ∷ 1 ∷ []) ∷ [] }

abbrev waiting_client : OrderClient
waiting_client = record started { poller = record poller { order_tracker = waiting_tracker } }

abbrev settled_client : OrderClient
settled_client = with_tracker waiting_client settled

abbrev check_both : Step draws waiting_client settled_client
check_both = checked all_p2p 0 clock (0 ∷ 1 ∷ []) [] waiting_client settled refl enqueue_settled

waiting-IsExclusive : IsExclusive waiting_tracker
waiting-IsExclusive = record {
  once = λ q. ground arith;
  known = λ q b. ground arith;
  stored = λ k r e. ground arith;
}

Step-Move_example : Move (place 0 waiting_tracker) (place 0 settled)
Step-Move_example = Step-Move draws waiting_client settled_client 0 waiting-IsExclusive check_both

abbrev check_run : Run draws waiting_client settled_client
check_run = step waiting_client waiting_client settled_client (stay waiting_client) check_both

Run-RunConfirms_example :
    IsReady draws 1 waiting_client ⊎ RunConfirms draws 1 waiting_client settled_client check_run
Run-RunConfirms_example =
    Run-RunConfirms draws waiting_client settled_client 1 check_run (omega arith)
