-- ===== src/Node/Votes.antt =====
-- What a verdict on a block rests on.
use eibc_client.Base.{
  ℕ, ◌+◌, ◌≤◌, ◌≡◌, ◌≢◌, Bool, true, false, ◌&&◌, List, [], ◌∷◌, none, some, String, Result, ok,
  length, if◌then◌else◌, arith, str_eq, eq_iff, All, Result-cases, >>=-eq-ok, eq_refl, inl, inr,
}
use eibc_client.Base.Int.{ℤ, pos, leb_ℤ, ◌≤ℤ◌}
use eibc_client.Base.Map.{Map, lookup, lookup-insert}
use eibc_client.Base.Text.{concat, format_ℤ}
use eibc_client.Config.{RollappConfig}
use eibc_client.Node.{
  NodeClient, BlockValidatedResponse, ValidationLevel, check_rollapps, new_node_client,
  node_block_validated, count_votes, block_validated, config_of, cached,
}

-- What `newNodeClient` demands of the settings of a rollapp
pub record IsVotable (cfg : RollappConfig) : Type 0 where
  pub asks_some : cfg.min_confirmations ≢ pos 0
  pub enough : cfg.min_confirmations ≤ℤ pos (length cfg.full_nodes)

abbrev pub AreVotable : Map RollappConfig → Type 0
AreVotable rollapps = All (λ e. IsVotable e.1) rollapps

check_rollapps-AreVotable : (m : Map RollappConfig) → check_rollapps m ≡ none → AreVotable m
unfolding check_rollapps
check_rollapps-AreVotable [] e = tt
check_rollapps-AreVotable ((id, cfg) ∷ m) e = ground (arith, check_rollapps-AreVotable m)

-- A node client that is made has only settings that a vote can satisfy: every rollapp asks for
-- some confirmations, not 0, and names at least that many nodes. It starts with nothing cached.
pub new_node_client-AreVotable :
    (m : Map RollappConfig) (c : NodeClient)
    → new_node_client m ≡ ok c
    → AreVotable c.rollapps × (c.rollapps ≡ m) × (c.last_valid_height ≡ [])
unfolding new_node_client
new_node_client-AreVotable m c e = ground (arith, check_rollapps-AreVotable m)

-- The height was confirmed before, or a higher one was.
abbrev pub cache_hits : String → ℤ → NodeClient → Bool
cache_hits rollapp_id height c =
    let lv = cached (lookup rollapp_id c.last_valid_height) in
    leb_ℤ height lv.height
    && leb_ℤ (config_of (lookup rollapp_id c.rollapps)).min_confirmations lv.confirmations

module _ (get : String → Result BlockValidatedResponse) (rollapp_id : String) (height : ℤ)
    (expected : ValidationLevel) where
  abbrev pub asked : String → Result BlockValidatedResponse
  asked location =
      get (concat (concat (concat location "/block_validated") "?height=") (format_ℤ height))

  -- The node answers for this rollapp.
  abbrev pub Answers : String → Type 0
  Answers location =
      (r : BlockValidatedResponse) × (asked location ≡ ok r) × (r.chain_id ≡ rollapp_id)

  -- The node answers for this rollapp, and its level is high enough.
  abbrev pub confirms : String → Bool
  confirms location = elim (asked location) [
    | ok r ↦ str_eq r.chain_id rollapp_id && leb_ℤ expected r.result
    | _ ↦ false
  ]

  abbrev pub confirmations : List String → ℕ
  confirmations [] = 0
  confirmations (l ∷ ls) = (if confirms l then 1 else 0) + confirmations ls

  node_block_validated_ok :
      (l : String) (b : Bool)
      → node_block_validated get rollapp_id l height expected ≡ ok b
      → Answers l × (confirms l ≡ b)
  unfolding node_block_validated
  node_block_validated_ok l b e =
      let (r, a, f) = >>=-eq-ok (asked l) _ e in
      (
        (r, a, ground (arith, eq_iff r.chain_id rollapp_id)),
        ground (arith, eq_iff r.chain_id rollapp_id),
      )

  -- When all votes were counted, every node answered for this rollapp, and the count is the number
  -- of the nodes that confirm.
  pub count_votes_ok :
      (ls : List String) (n : ℕ)
      → count_votes get rollapp_id ls height expected ≡ ok n
      → All Answers ls × (confirmations ls ≡ n)
  unfolding count_votes
  count_votes_ok [] n e = (tt, ground arith)
  count_votes_ok (l ∷ ls) n e =
      let (b, a, f) = >>=-eq-ok (node_block_validated get rollapp_id l height expected) _ e in
      let (k, c, g) = >>=-eq-ok (count_votes get rollapp_id ls height expected) _ f in
      (
        ((node_block_validated_ok l b a).0, (count_votes_ok ls k c).0),
        ground (arith, node_block_validated_ok l b a, count_votes_ok ls k c),
      )

  confirmations-le-length : (ls : List String) → confirmations ls ≤ length ls
  confirmations-le-length [] = omega arith
  confirmations-le-length (l ∷ ls) = ground (arith, confirmations-le-length ls)

  -- A block that is reported valid without the help of the cache was voted on: every full node of
  -- the rollapp answered for it, and at least the configured number confirmed the height at the
  -- expected level; the client then remembers the height with that number.
  pub block_validated_sound :
      (c c' : NodeClient) (v : RollappConfig)
      → lookup rollapp_id c.rollapps ≡ some v
      → cache_hits rollapp_id height c ≡ false
      → block_validated get rollapp_id height expected c ≡ (ok true, c')
      → All Answers v.full_nodes
        × (v.min_confirmations ≤ℤ pos (confirmations v.full_nodes))
        × (lookup rollapp_id c'.last_valid_height
            ≡ some (record { height = height; confirmations = pos (confirmations v.full_nodes) }))
  unfolding block_validated
  block_validated_sound c c' v known miss e =
      elim (Result-cases (count_votes get rollapp_id v.full_nodes height expected)) [
        | inl (n, a) ↦ (
          (count_votes_ok v.full_nodes n a).0,
          ground (arith, count_votes_ok v.full_nodes n a),
          ground (
            arith,
            count_votes_ok v.full_nodes n a,
            lookup-insert rollapp_id rollapp_id (record { height = height; confirmations = pos n })
                c.last_valid_height,
            eq_refl rollapp_id,
          ),
        )
        | inr a ↦ absurd (ground arith)
      ]

  -- One node that fails to answer for the rollapp spoils the vote: without the help of the cache
  -- there is then no verdict, and nothing is remembered.
  pub block_validated-All :
      (c : NodeClient) (v : RollappConfig)
      → lookup rollapp_id c.rollapps ≡ some v
      → cache_hits rollapp_id height c ≡ false
      → ¬ All Answers v.full_nodes
      → ((b : Bool) → (block_validated get rollapp_id height expected c).0 ≢ ok b)
        × ((block_validated get rollapp_id height expected c).1 ≡ c)
  unfolding block_validated
  block_validated-All c v known miss silent =
      elim (Result-cases (count_votes get rollapp_id v.full_nodes height expected)) [
        | inl (n, a) ↦ absurd (silent (count_votes_ok v.full_nodes n a).0)
        | inr a ↦ (λ b e. ground arith, ground arith)
      ]
