-- ===== src/Poller/Indexer.antt =====
-- eibc/order_poller.go: the query to the indexer. Its answers and the decoder of their JSON body are
-- arguments.
use eibc_client.Base.{
  ℕ, ◌≡◌, ◌↔◌, refl, sym, List, [], ◌∷◌, ◌++◌, Option, some, String, Result, ok, err, ◌>>=◌, or_err,
  or_err-ok, ok-injective, >>=-eq-ok, ◌==◌, if◌then◌else◌, Bool-cases, inl, inr, arith,
}
use eibc_client.Base.Text.{concat, format_ℕ}
use eibc_client.Fulfiller.{wrapped, wrapped-ok}
use eibc_client.Poller.{Order, OrderPoller, Hub, or_zero}
use eibc_client.Sdk.{Sdk}

-- `rollappOrdersQuery` with its four texts
unfoldable pub rollapp_orders_query : String → String → String → String → String
rollapp_orders_query network block_height rollapp_id proof_height =
    concat "{\"query\": \"{ibcTransferDetails(orderBy: TIME_ASC filter: {network: {equalTo: \\\"" (
      concat network (
        concat "\\\"} status: { in: [EibcPending, Refunding] }, blockHeight: { greaterThan: \\\"" (
          concat block_height (
            concat "\\\" }, rollappId: { equalTo: \\\"" (
              concat rollapp_id (
                concat "\\\"}, proofHeight: {greaterThan: \\\"" (
                  concat proof_height (
                    concat "\\\"}}) {nodes { eibcOrderId amount proofHeight blockHeight "
                      "price rollappId eibcFee }}}\"}"))))))))

-- What a request gives back, and the nodes in the body of an answer
pub record HttpReply : Type 0 where
  pub status_code : ℕ
  pub status : String
  pub body : String

pub record Indexer : Type 0 where
  pub post : String → String → String → Option HttpReply
  pub nodes : String → Option (List Order)

module _ ⦃S : Sdk⦄ (hub : Hub) (ix : Indexer) (p : OrderPoller) where
  -- what is asked for a rollapp; a last finalized height that is not known is 0
  abbrev pub query_for : String → String
  query_for rollapp =
      rollapp_orders_query p.chain_id (format_ℕ p.last_block_height) rollapp
        (format_ℕ (or_zero (hub.latest_height rollapp)))

  -- `getRollappDemandOrdersFromIndexer`
  unfoldable pub get_rollapp_demand_orders_from_indexer : String → Result (List Order)
  unfolding rollapp_orders_query
  get_rollapp_demand_orders_from_indexer rollapp = do
    reply ←
        or_err (ix.post p.indexer_url "application/json" (query_for rollapp))
          "failed to get demand orders"
    if reply.status_code == 200
        then or_err (ix.nodes reply.body) "failed to decode response"
        else err (concat "failed to get demand orders: " reply.status)

  -- the loop of `getDemandOrdersFromIndexer` over the rollapps
  unfoldable pub each_rollapp : List String → Result (List Order)
  unfolding get_rollapp_demand_orders_from_indexer
  each_rollapp [] = ok []
  each_rollapp (rollapp ∷ rollapps) = do
    orders ←
        wrapped "failed to get demand orders: " (get_rollapp_demand_orders_from_indexer rollapp)
    rest ← each_rollapp rollapps
    ok (orders ++ rest)

  -- `getDemandOrdersFromIndexer`
  unfoldable pub get_demand_orders_from_indexer : Result (List Order)
  unfolding each_rollapp
  get_demand_orders_from_indexer = each_rollapp p.rollapps

  -- The indexer answers with these orders when it is asked for the open orders of the rollapp that
  -- are above the last height that was seen.
  pub record Answers (rollapp : String) (orders : List Order) : Type 0 where
    pub reply : HttpReply
    pub posted : ix.post p.indexer_url "application/json" (query_for rollapp) ≡ some reply
    pub accepted : reply.status_code ≡ 200
    pub decoded : ix.nodes reply.body ≡ some orders

  -- the orders of all rollapps, one after another
  abbrev pub AllAnswer : List String → List Order → Type 0
  AllAnswer [] xs = xs ≡ []
  AllAnswer (rollapp ∷ rollapps) xs =
      (ys : List Order) × (zs : List Order) × Answers rollapp ys
      × AllAnswer rollapps zs
      × (xs ≡ ys ++ zs)

  got-Answers :
      (rollapp : String) (ys : List Order)
      → get_rollapp_demand_orders_from_indexer rollapp ≡ ok ys
      → Answers rollapp ys
  unfolding get_rollapp_demand_orders_from_indexer
  got-Answers rollapp ys e =
      let (reply, a, r) =
        >>=-eq-ok
          (or_err (ix.post p.indexer_url "application/json" (query_for rollapp))
            "failed to get demand orders")
          _ e in
      elim (Bool-cases (reply.status_code == 200)) [
        | inr z ↦ absurd (cc (rw z at r))
        | inl z ↦ record {
          reply = reply;
          posted = or_err-ok _ _ reply a;
          accepted = ground arith;
          decoded = or_err-ok (ix.nodes reply.body) _ ys (rw z at r);
        }
      ]

  given :
      (rollapp : String) (ys : List Order)
      → Answers rollapp ys
      → get_rollapp_demand_orders_from_indexer rollapp ≡ ok ys
  unfolding get_rollapp_demand_orders_from_indexer
  given rollapp ys a = rw (a.posted, a.accepted, a.decoded) refl

  got-AllAnswer : (rs : List String) (xs : List Order) → each_rollapp rs ≡ ok xs → AllAnswer rs xs
  unfolding each_rollapp
  got-AllAnswer [] xs e = sym (ok-injective e)
  got-AllAnswer (r ∷ rs) xs e =
      let (ys, a, e1) =
        >>=-eq-ok
          (wrapped "failed to get demand orders: " (get_rollapp_demand_orders_from_indexer r)) _
          e in
      let (zs, b, e2) = >>=-eq-ok (each_rollapp rs) _ e1 in
      (
        ys,
        zs,
        got-Answers r ys (wrapped-ok "failed to get demand orders: " _ ys a),
        got-AllAnswer rs zs b,
        sym (ok-injective e2),
      )

  all_given : (rs : List String) (xs : List Order) → AllAnswer rs xs → each_rollapp rs ≡ ok xs
  unfolding each_rollapp
  all_given [] xs e = rw e refl
  all_given (r ∷ rs) xs (ys, zs, a, b, e) = rw (given r ys a, all_given rs zs b, e) refl

  -- The indexer's orders are got exactly if it answers for every rollapp with status 200 and a body
  -- that can be decoded, and then they are all of its orders, rollapp by rollapp.
  pub get_demand_orders_from_indexer_iff :
      (xs : List Order) → (get_demand_orders_from_indexer ≡ ok xs) ↔ AllAnswer p.rollapps xs
  unfolding get_demand_orders_from_indexer
  get_demand_orders_from_indexer_iff xs = (got-AllAnswer p.rollapps xs, all_given p.rollapps xs)
