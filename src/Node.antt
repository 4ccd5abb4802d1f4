-- ===== src/Node.antt =====
-- eibc/node_client.go: the full nodes of each rollapp vote on whether a block is validated. The
-- goroutines of one call share only a counter and a channel; their answers are taken in the order
-- in which they arrive.
pub mod Votes
pub mod Cache
use eibc_client.Base.{
  ℕ, zero, suc, ◌+◌, Bool, true, false, ◌&&◌, List, [], ◌∷◌, map, Option, none, some, String,
  Result, ok, err, length, ◌>>=◌, if◌then◌else◌, ltb, str_eq, or_err,
}
use eibc_client.Base.Int.{ℤ, pos, leb_ℤ, ltb_ℤ}
use eibc_client.Base.Map.{Map, lookup, insert}
use eibc_client.Base.Text.{concat, format_ℤ, parse_int}
use eibc_client.Config.{RollappConfig}

-- `validationLevel`, an `int`
abbrev pub ValidationLevel : Type 0
ValidationLevel = ℤ

abbrev pub validation_level_none : ValidationLevel
validation_level_none = pos 0

abbrev pub validation_level_p2p : ValidationLevel
validation_level_p2p = pos 1

abbrev pub validation_level_settlement : ValidationLevel
validation_level_settlement = pos 2

pub record Valid : Type 0 where
  pub height : ℤ
  pub confirmations : ℤ

pub record BlockValidatedResponse : Type 0 where
  pub chain_id : String
  pub result : ValidationLevel

-- `JSONResponse`: the fields that are read of a decoded body
pub record JsonResponse : Type 0 where
  pub chain_id : String
  pub result : String

pub record NodeClient : Type 0 where
  pub rollapps : Map RollappConfig
  pub last_valid_height : Map Valid

abbrev is_zero : ℤ → Bool
is_zero (pos zero) = true
is_zero _ = false

-- the loop of `newNodeClient`
unfoldable pub check_rollapps : Map RollappConfig → Option String
check_rollapps [] = none
check_rollapps ((id, cfg) ∷ rest) =
    let others = check_rollapps rest in
    if is_zero cfg.min_confirmations
    then some (concat (concat "rollapp ID " id) ": minimum validated nodes must be greater than 0")
    else if ltb_ℤ (pos (length cfg.full_nodes)) cfg.min_confirmations
    then some (concat (concat "rollapp ID " id) ": not enough locations to validate blocks")
    else others

unfoldable pub new_node_client : Map RollappConfig → Result NodeClient
unfolding check_rollapps
new_node_client rollapps = elim (check_rollapps rollapps) [
  | some e ↦ err e
  | none ↦ ok (record { rollapps = rollapps; last_valid_height = [] })
]

-- `parseInt` of the JSON text, at 32 bits
in_int32 : Option ℤ → Option ℤ
in_int32 none = none
in_int32 (some n) =
    if leb_ℤ n (pos 2147483647) && leb_ℤ (ℤ.negsuc 2147483647) n then some n else none

-- `getHttp`, on what the request and the JSON decoder give
unfoldable pub get_http : (String → Result JsonResponse) → String → Result BlockValidatedResponse
unfolding in_int32
get_http fetch url = do
  resp ← fetch url
  result ← or_err (in_int32 (parse_int resp.result)) "failed to parse result"
  ok (record { chain_id = resp.chain_id; result = result })

-- `rollappConfig := c.rollapps[rollappID]`, which is the zero value for an unknown key
abbrev pub config_of : Option RollappConfig → RollappConfig
config_of none = record { full_nodes = []; min_confirmations = pos 0 }
config_of (some cfg) = cfg

abbrev pub cached : Option Valid → Valid
cached none = record { height = pos 0; confirmations = pos 0 }
cached (some v) = v

module _ (get : String → Result BlockValidatedResponse) where
  unfoldable pub node_block_validated : String → String → ℤ → ValidationLevel → Result Bool
  node_block_validated rollapp_id location height expected = do
    validated ←
        get (concat (concat (concat location "/block_validated") "?height=") (format_ℤ height))
    if str_eq validated.chain_id rollapp_id
        then ok (leb_ℤ expected validated.result)
        else err "invalid chain ID!"

  -- The answers of all nodes: an error if one of them failed, or the number of confirmations.
  unfoldable pub count_votes : String → List String → ℤ → ValidationLevel → Result ℕ
  unfolding node_block_validated
  count_votes rollapp_id [] height expected = ok 0
  count_votes rollapp_id (location ∷ rest) height expected =
      let others = count_votes rollapp_id rest height expected in
      do
        vote ← node_block_validated rollapp_id location height expected
        n ← others
        ok (if vote then suc n else n)

  unfoldable pub block_validated :
      String → ℤ → ValidationLevel → NodeClient → Result Bool × NodeClient
  unfolding count_votes
  block_validated rollapp_id height expected c =
      let cfg = config_of (lookup rollapp_id c.rollapps) in
      let lv = cached (lookup rollapp_id c.last_valid_height) in
      if leb_ℤ height lv.height && leb_ℤ cfg.min_confirmations lv.confirmations
      then (ok true, c)
      else elim (count_votes rollapp_id cfg.full_nodes height expected) [
        | err e ↦ (err e, c)
        | Result.panic ↦ (Result.panic, c)
        | ok n ↦ (
          ok (leb_ℤ cfg.min_confirmations (pos n)),
          record c {
            last_valid_height =
                insert rollapp_id (record { height = height; confirmations = pos n })
                  c.last_valid_height;
          },
        )
      ]
