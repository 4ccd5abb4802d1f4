-- ===== src/Startup/Modes.antt =====
-- The node client of each mode.
use eibc_client.Base.{◌≡◌, refl, sym, ap, List, [], ok, ok-injective}
use eibc_client.Config.{Config, validation_mode_sequencer}
use eibc_client.Lp.{Lp}
use eibc_client.Node.{NodeClient}
use eibc_client.Sdk.{Sdk}
use eibc_client.Startup.{get_full_node_clients}
use eibc_client.Tracker.Intake.{refused, offer}
use eibc_client.Tracker.State.{OrderTracker, can_fulfill_order, is_rollapp_supported}
use eibc_client.Types.{DemandOrder}

-- In sequencer mode the client takes no order: its node client knows no rollapp, so that every
-- order is refused, whatever it is, and nothing of the tracker changes.
pub sequencer_mode_refuses :
    ⦃S : Sdk⦄ (cfg : Config) (c : NodeClient) (shuffle : List Lp → List Lp) (o : DemandOrder)
    (t : OrderTracker)
    → cfg.validation.fallback_level ≡ validation_mode_sequencer
    → get_full_node_clients cfg ≡ ok c
    → t.full_node_client ≡ c
    → offer shuffle o t ≡ ok (t, refused)
unfolding get_full_node_clients offer can_fulfill_order is_rollapp_supported
sequencer_mode_refuses cfg c shuffle o t mode e own =
    let rollapps : c.rollapps ≡ [] = ap (λ x. x.rollapps) (sym (ok-injective (rw mode at e))) in
    rw (own, offer, can_fulfill_order, is_rollapp_supported, rollapps) refl
