-- ===== src/Examples/IndexerTests.antt =====
-- A query to an indexer that knows one order of one rollapp.
use eibc_client.Base.{◌≡◌, ◌↔◌, refl, [], ◌∷◌, some, ok, str_eq, if◌then◌else◌}
use eibc_client.Base.Text.{format_ℕ}
use eibc_client.Examples.Bank.{one_coin}
use eibc_client.Examples.SourcesTests.{hub, listed, poller}
use eibc_client.Poller.Indexer.{
  Indexer, get_demand_orders_from_indexer, get_demand_orders_from_indexer_iff, AllAnswer,
}

-- It answers the request that asks for the orders of "ra1" above the block 0 and the height 5.
abbrev indexer : Indexer
indexer = record {
  post = λ url kind body.
      if str_eq body
        "{\"query\": \"{ibcTransferDetails(orderBy: TIME_ASC filter: {network: {equalTo: \\\"hub\\\"} status: { in: [EibcPending, Refunding] }, blockHeight: { greaterThan: \\\"0\\\" }, rollappId: { equalTo: \\\"ra1\\\"}, proofHeight: {greaterThan: \\\"5\\\"}}) {nodes { eibcOrderId amount proofHeight blockHeight price rollappId eibcFee }}}\"}"
      then some (record { status_code = 200; status = "200 OK"; body = "nodes" })
      else some (record { status_code = 400; status = "400 Bad Request"; body = "" });
  nodes = λ body. some (listed ∷ []);
}

indexed : get_demand_orders_from_indexer hub indexer poller ≡ ok (listed ∷ [])
unfolding get_demand_orders_from_indexer format_ℕ
indexed = refl

get_demand_orders_from_indexer_iff_example :
    get_demand_orders_from_indexer hub indexer poller ≡ ok (listed ∷ [])
    ↔ AllAnswer hub indexer poller ("ra1" ∷ []) (listed ∷ [])
get_demand_orders_from_indexer_iff_example =
    get_demand_orders_from_indexer_iff hub indexer poller (listed ∷ [])
