-- ===== src/Examples/NodeTests.antt =====
-- eibc/node_client.go
use eibc_client.Base.{◌≡◌, ◌≢◌, refl, true, false, [], ◌∷◌, some, arith, ok, Bool, All}
use eibc_client.Base.Int.{pos, ◌≤ℤ◌}
use eibc_client.Base.Map.{lookup}
use eibc_client.Examples.Samples.{node_client, two_nodes, all_p2p, none_answers}
use eibc_client.Node.{
  NodeClient, block_validated, validation_level_p2p, validation_level_settlement,
}
use eibc_client.Node.Votes.{Answers, confirmations, block_validated_sound, block_validated-All}
use eibc_client.Node.Cache.{block_validated_any_level}

abbrev confirmed_7 : NodeClient
confirmed_7 = record node_client {
  last_valid_height = ("ra1", record { height = pos 7; confirmations = pos 2 }) ∷ [];
}

confirm_7 :
    block_validated all_p2p "ra1" (pos 7) validation_level_p2p node_client ≡ (ok true, confirmed_7)
unfolding block_validated
confirm_7 = refl

settlement_refused :
    (block_validated all_p2p "ra1" (pos 7) validation_level_settlement node_client).0 ≡ ok false
unfolding block_validated
settlement_refused = refl

block_validated_sound_example :
    All (Answers all_p2p "ra1" (pos 7) validation_level_p2p) two_nodes.full_nodes
    × (pos 2 ≤ℤ pos (confirmations all_p2p "ra1" (pos 7) validation_level_p2p two_nodes.full_nodes))
    × (lookup "ra1" confirmed_7.last_valid_height
        ≡ some (record {
          height = pos 7;
          confirmations =
              pos (confirmations all_p2p "ra1" (pos 7) validation_level_p2p two_nodes.full_nodes);
        }))
block_validated_sound_example =
    block_validated_sound all_p2p "ra1" (pos 7) validation_level_p2p node_client confirmed_7
      two_nodes refl refl confirm_7

block_validated-All_example :
    ((b : Bool)
      → (block_validated none_answers "ra1" (pos 7) validation_level_p2p node_client).0 ≢ ok b)
    × ((block_validated none_answers "ra1" (pos 7) validation_level_p2p node_client).1
        ≡ node_client)
block_validated-All_example =
    block_validated-All none_answers "ra1" (pos 7) validation_level_p2p node_client two_nodes refl
      refl (λ h. cc (h.0.1))

block_validated_any_level_example :
    block_validated none_answers "ra1" (pos 3) validation_level_settlement confirmed_7
    ≡ (ok true, confirmed_7)
block_validated_any_level_example =
    block_validated_any_level all_p2p none_answers "ra1" (pos 7) (pos 3) validation_level_p2p
      validation_level_settlement node_client confirmed_7 confirm_7 (omega arith)
