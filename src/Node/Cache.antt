-- ===== src/Node/Cache.antt =====
-- What the cache of the node client remembers, and what it forgets.
use eibc_client.Base.{
  ◌≡◌, true, String, Result, ok, arith, eq_refl, Result-cases, inl, inr, Bool-cases,
}
use eibc_client.Base.Int.{ℤ, pos, ◌≤ℤ◌}
use eibc_client.Base.Map.{lookup, lookup-insert}
use eibc_client.Node.{
  NodeClient, BlockValidatedResponse, ValidationLevel, block_validated, count_votes, config_of,
}
use eibc_client.Node.Votes.{cache_hits}

cache_hits_answer :
    (get : String → Result BlockValidatedResponse) (id : String) (height : ℤ)
    (level : ValidationLevel) (c : NodeClient)
    → cache_hits id height c ≡ true
    → block_validated get id height level c ≡ (ok true, c)
unfolding block_validated
cache_hits_answer get id height level c hit = ground arith

cache_hits_lower :
    (id : String) (height lower : ℤ) (c : NodeClient)
    → cache_hits id height c ≡ true
    → lower ≤ℤ height
    → cache_hits id lower c ≡ true
cache_hits_lower id height lower c hit le = ground arith

cache_hits_after :
    (get : String → Result BlockValidatedResponse) (id : String) (height : ℤ)
    (level : ValidationLevel) (c c' : NodeClient)
    → block_validated get id height level c ≡ (ok true, c')
    → cache_hits id height c' ≡ true
unfolding block_validated
cache_hits_after get id height level c c' e = elim (Bool-cases (cache_hits id height c)) [
  | inl hit ↦ ground arith
  | inr miss ↦
      elim (Result-cases
        (count_votes get id (config_of (lookup id c.rollapps)).full_nodes height level)) [
          | inl (n, a) ↦ ground (
            arith,
            eq_refl id,
            lookup-insert id id (record { height = height; confirmations = pos n })
                c.last_valid_height,
          )
          | inr a ↦ absurd (ground arith)
        ]
]

-- A verdict that was given once is given again for every height up to it, at whatever level it is
-- asked for and whatever the nodes say by then: the cache does not remember the level, so a height
-- that was validated at the p2p level passes for one validated at the settlement level.
pub block_validated_any_level :
    (get later : String → Result BlockValidatedResponse) (rollapp_id : String) (height lower : ℤ)
    (level wanted : ValidationLevel) (c c' : NodeClient)
    → block_validated get rollapp_id height level c ≡ (ok true, c')
    → lower ≤ℤ height
    → block_validated later rollapp_id lower wanted c' ≡ (ok true, c')
unfolding block_validated
block_validated_any_level get later rollapp_id height lower level wanted c c' e le =
    cache_hits_answer later rollapp_id lower wanted c' (
      cache_hits_lower rollapp_id height lower c'
        (cache_hits_after get rollapp_id height level c c' e) le)
