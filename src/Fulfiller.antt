-- ===== src/Fulfiller.antt =====
-- eibc/order_fulfiller.go, and `waitForTx` of eibc/account.go. What the chain answers to a broadcast
-- message and to the queries for a transaction is an argument.
pub mod Batch
pub mod Authorized
pub mod Signers
use eibc_client.Base.{
  ℕ, ◌≡◌, ◌≢◌, refl, Bool, true, false, not, ◌&&◌, ◌||◌, List, [], ◌∷◌, ◌++◌, Option, none, some,
  String, str_eq, map, ◌==◌, if◌then◌else◌, Result, ok, err, panic, ◌>>=◌, or_err,
}
use eibc_client.Base.Chunk.{chunk}
use eibc_client.Base.Map.{Map}
use eibc_client.Base.Text.{concat, str_contains, format_ℕ, split}
use eibc_client.Lp.{Lp}
use eibc_client.Msgs.{MsgFulfillOrderAuthorized, new_msg_fulfill_order_authorized, validate_basic}
use eibc_client.Sdk.{Sdk}
use eibc_client.Tracker.Selection.{release_all, debit_all}
use eibc_client.Types.{DemandOrder, OrderFulfillResult, Account}

unfoldable pub is_rpc_error : String → Bool
is_rpc_error e = str_contains e "RPC error"

unfoldable pub is_gas_error : String → Bool
is_gas_error e = str_contains e "out of gas" || str_contains e "insufficient funds"

pub record TxResponse : Type 0 where
  pub code : ℕ
  pub raw_log : String

-- `fmt.Errorf` with the text of the error that is wrapped
abbrev pub wrapped {ℓ} : {A : Type ℓ} → String → Result A → Result A
wrapped text panic = panic
wrapped text (err e) = err (concat text e)
wrapped text (ok a) = ok a

pub wrapped-ok {ℓ} :
    {A : Type ℓ} (text : String) (r : Result A) (a : A) → wrapped text r ≡ ok a → r ≡ ok a
wrapped-ok text panic a e = absurd (cc)
wrapped-ok text (err m) a e = absurd (cc)
wrapped-ok text (ok b) a e = e

pub wrapped_returns {ℓ} :
    {A : Type ℓ} (text : String) (r : Result A) → r ≢ panic → wrapped text r ≢ panic
wrapped_returns text panic h e = h refl
wrapped_returns text (err m) h e = cc
wrapped_returns text (ok b) h e = cc

-- `waitForTx`, with the answers to its queries, one for each second until the timeout; `none` is an
-- answer with an error.
unfoldable pub wait_for_tx : String → List (Option TxResponse) → Result TxResponse
wait_for_tx hash [] = err (concat "timed out waiting for tx " hash)
wait_for_tx hash (none ∷ later) = wait_for_tx hash later
wait_for_tx hash (some resp ∷ later) =
    if resp.code == 0
    then ok resp
    else err
        (concat (concat (concat "tx failed with code " (format_ℕ resp.code)) ": ") resp.raw_log)

pub record Attribute : Type 0 where
  pub key : String
  pub value : String

pub record Event : Type 0 where
  pub kind : String
  pub attributes : List Attribute

-- whether an attribute tells of a failed proposal
abbrev pub is_failure : Event → Attribute → Bool
is_failure ev a =
    str_eq ev.kind "cosmos.group.v1.EventExec"
    && (str_eq a.key "logs" && str_contains a.value "proposal execution failed")

unfoldable pub failure_in : Event → List Attribute → Option String
failure_in ev [] = none
failure_in ev (a ∷ as_) = if is_failure ev a then some a.value else failure_in ev as_

unfoldable pub failure_of : List Event → Option String
unfolding failure_in
failure_of [] = none
failure_of (ev ∷ evs) = elim (failure_in ev ev.attributes) [
  | some e ↦ some e
  | none ↦ failure_of evs
]

-- the events of all messages of the transaction, one list for each
unfoldable pub failure_of_all : List (List Event) → Option String
unfolding failure_of
failure_of_all [] = none
failure_of_all (evs ∷ rest) = elim (failure_of evs) [ some e ↦ some e | none ↦ failure_of_all rest ]

-- `parts[1]` of the text split at " : ", or all of it
abbrev pub the_error : List String → String → String
the_error (_ ∷ second ∷ _) text = second
the_error _ text = text

-- an error that the events of a transaction tell
unfoldable pub told : Option String → Result (Unit {0})
unfolding split
told none = ok tt
told (some text) = err (the_error (split text " : ") text)

module _ ⦃S : Sdk⦄ where
  pub record OrderFulfiller : Type 0 where
    pub account : Account
    pub policy_address : String
    pub operator_address : String
    pub max_orders_per_tx : ℕ

  -- `newOrderFulfiller`
  abbrev pub new_order_fulfiller : Account → String → String → ℕ → OrderFulfiller
  new_order_fulfiller acc operator_address policy_address max_orders_per_tx = record {
    account = acc;
    policy_address = policy_address;
    operator_address = operator_address;
    max_orders_per_tx = max_orders_per_tx;
  }

  abbrev pub message_of : OrderFulfiller → DemandOrder → MsgFulfillOrderAuthorized
  message_of f o =
      new_msg_fulfill_order_authorized o.id o.rollapp_id o.lp_address f.operator_address
        (S.int_string o.fee.amount) o.price o.amount o.operator_fee_part o.settlement_validated

  -- the loop that builds the messages
  unfoldable pub fulfill_msgs :
      (String → Bool) → OrderFulfiller → List DemandOrder → Result (List MsgFulfillOrderAuthorized)
  fulfill_msgs is_address f [] = ok []
  fulfill_msgs is_address f (o ∷ os) =
      let rest = fulfill_msgs is_address f os in
      elim (validate_basic is_address (message_of f o)) [
        | some e ↦ err (concat "failed to validate message: " e)
        | none ↦ do msgs ← rest; ok (message_of f o ∷ msgs)
      ]

  -- `MsgSubmitProposal`, with the messages of its one `authz.MsgExec`; `exec_try` is `EXEC_TRY`
  pub record Proposal : Type 0 where
    pub group_policy_address : String
    pub proposers : List String
    pub exec_msgs : List MsgFulfillOrderAuthorized
    pub metadata : String
    pub exec_try : Bool
    pub title : String
    pub summary : String

  -- `NewMsgSubmitProposal`. That it packs the messages, which fails only for what is no protobuf
  -- message, is left out.
  abbrev pub proposal_of : OrderFulfiller → List MsgFulfillOrderAuthorized → Proposal
  proposal_of f msgs = record {
    group_policy_address = f.policy_address;
    proposers = f.account.address ∷ [];
    exec_msgs = msgs;
    metadata = "== Fulfill Order ==";
    exec_try = true;
    title = "fulfill-order-authorized";
    summary = "fulfill-order-authorized";
  }

  -- What a fulfiller asks of the chain and its libraries: whether a text is an address of the
  -- chain (`sdk.AccAddressFromBech32`), or bech32 at all (`bech32.DecodeAndConvert`), the broadcast
  -- of a proposal, which gives the hash of the transaction, the answers to the queries for it, and
  -- the events in a log
  pub record Chain : Type 0 where
    pub is_address : String → Bool
    pub is_bech32 : String → Bool
    pub broadcast_tx : String → Proposal → Result String
    pub get_tx : String → List (Option TxResponse)
    pub events_of : String → Option (List (List Event))

  -- the broadcast of the proposal with the messages
  unfoldable pub submit : Chain → OrderFulfiller → List MsgFulfillOrderAuthorized → Result String
  submit c f msgs =
      if c.is_bech32 f.policy_address
      then wrapped "failed to broadcast tx: " (c.broadcast_tx f.account.name (proposal_of f msgs))
      else err "failed to decode policy address"

  -- from the broadcast on
  unfoldable pub await : Chain → String → Result (Unit {0})
  unfolding wait_for_tx failure_of_all told
  await c hash = do
    resp ← wrapped "failed to wait for tx: " (wait_for_tx hash (c.get_tx hash))
    events ← or_err (c.events_of resp.raw_log) "failed to unmarshal tx response"
    told (failure_of_all events)

  -- `fulfillAuthorizedDemandOrders`: `ok tt` is `nil`
  unfoldable pub fulfill_authorized : Chain → OrderFulfiller → List DemandOrder → Result (Unit {0})
  unfolding fulfill_msgs submit await
  fulfill_authorized c f orders = do
    msgs ← fulfill_msgs c.is_address f orders
    hash ← submit c f msgs
    await c hash

  abbrev pub succeeded : List DemandOrder → List OrderFulfillResult
  succeeded [] = []
  succeeded (o ∷ os) = record { order_id = o.id; failed_order_hash = "" } ∷ succeeded os

  abbrev pub failed : List DemandOrder → List OrderFulfillResult
  failed [] = []
  failed (o ∷ os) =
      record { order_id = o.id; failed_order_hash = S.order_hash o.id o.fee } ∷ failed os

  -- the two messages of results, and the LPs
  pub record Processed : Type 0 where
    pub success_results : List OrderFulfillResult
    pub fail_results : List OrderFulfillResult
    pub lps : Map Lp

  -- the results of a batch in front of those of the later ones
  abbrev pub and_then : List DemandOrder → Result Processed → Result Processed
  and_then batch r = do
    p ← r
    ok (record p { success_results = succeeded batch ++ p.success_results })

  -- The loop of `processBatch`. An error is what `logger.Fatal` ends the program with.
  unfoldable pub process_chunks :
      (List DemandOrder → Result (Unit {0})) → List (List DemandOrder) → Map Lp → Result Processed
  process_chunks fulfill [] lps = ok (record { success_results = []; fail_results = []; lps = lps })
  process_chunks fulfill (batch ∷ batches) lps =
      let later = process_chunks fulfill batches (debit_all batch lps) in
      elim (fulfill batch) [
        | panic ↦ panic
        | err e ↦
            if is_gas_error e
            then err e
            else ok (record {
              success_results = [];
              fail_results = if is_rpc_error e then [] else failed batch;
              lps = release_all batch lps;
            })
        | ok _ ↦ and_then batch later
      ]

  -- `processBatch`: `none` if there is nothing to fulfil, and `slices.Chunk` panics below size 1
  unfoldable pub process_batch :
      (List DemandOrder → Result (Unit {0}))
      → ℕ
      → List DemandOrder
      → Map Lp
      → Result (Option Processed)
  unfolding process_chunks
  process_batch fulfill size [] lps = ok none
  process_batch fulfill size (o ∷ os) lps =
      if size == 0
      then panic
      else do p ← process_chunks fulfill (chunk size (o ∷ os)) lps; ok (some p)
