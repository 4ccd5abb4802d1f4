-- ===== src/Fulfiller/Authorized.antt =====
-- What it takes for a batch to be fulfilled, and what a failed order is told by.
use eibc_client.Base.{
  ◌≡◌, refl, sym, ap, ◌∙◌, false, List, [], ◌∷◌, Option, none, some, String, ◌==◌, ok, or_err,
  or_err-ok, >>=-eq-ok, ok-injective, All, Bool-cases, Option-cases, inl, inr, arith,
}
use eibc_client.Fulfiller.{
  Chain, OrderFulfiller, Proposal, proposal_of, TxResponse, Event, Attribute, is_failure,
  failure_in, failure_of, failure_of_all, fulfill_msgs, fulfill_authorized, message_of, wait_for_tx,
  wrapped, wrapped-ok, submit, told, await,
}
use eibc_client.Msgs.{MsgFulfillOrderAuthorized, validate_basic}
use eibc_client.Msgs.Checks.{IsSendable, validate_basic_iff}
use eibc_client.Sdk.{Sdk}
use eibc_client.Types.{DemandOrder}

-- The first answer that is no error is one of success, and `resp`.
abbrev pub Confirms : List (Option TxResponse) → TxResponse → Type 0
Confirms [] resp = ⊥
Confirms (none ∷ later) resp = Confirms later resp
Confirms (some r ∷ later) resp = (r ≡ resp) × (r.code ≡ 0)

-- Waiting for a transaction succeeds exactly with the first answer that is no error, if its code
-- is 0; a later success of a failed transaction does not count, and neither does silence.
pub wait_for_tx_ok :
    (hash : String) (answers : List (Option TxResponse)) (resp : TxResponse)
    → wait_for_tx hash answers ≡ ok resp
    → Confirms answers resp
unfolding wait_for_tx
wait_for_tx_ok hash [] resp e = absurd (cc)
wait_for_tx_ok hash (none ∷ later) resp e = wait_for_tx_ok hash later resp e
wait_for_tx_ok hash (some r ∷ later) resp e = elim (Bool-cases (r.code == 0)) [
  | inl z ↦ (ok-injective (rw (z, wait_for_tx) at e), ground arith)
  | inr z ↦ absurd (cc (rw (z, wait_for_tx) at e))
]

-- No attribute of the event tells of a failed proposal.
abbrev pub IsQuiet : Event → Type 0
IsQuiet ev = All (λ a. is_failure ev a ≡ false) ev.attributes

failure_in-none :
    (ev : Event) (as_ : List Attribute)
    → failure_in ev as_ ≡ none
    → All (λ a. is_failure ev a ≡ false) as_
unfolding failure_in
failure_in-none ev [] e = tt
failure_in-none ev (a ∷ as_) e = elim (Bool-cases (is_failure ev a)) [
  | inl f ↦ absurd (cc (rw (f, failure_in) at e))
  | inr f ↦ (f, failure_in-none ev as_ (rw (f, failure_in) at e))
]

failure_of-none : (evs : List Event) → failure_of evs ≡ none → All IsQuiet evs
unfolding failure_of
failure_of-none [] e = tt
failure_of-none (ev ∷ evs) e = elim (Option-cases (failure_in ev ev.attributes)) [
  | inl f ↦ (failure_in-none ev ev.attributes f, failure_of-none evs (rw (f, failure_of) at e))
  | inr (x, f) ↦ absurd (cc (rw (f, failure_of) at e))
]

failure_of_all-none : (es : List (List Event)) → failure_of_all es ≡ none → All (All IsQuiet) es
unfolding failure_of_all
failure_of_all-none [] e = tt
failure_of_all-none (evs ∷ es) e = elim (Option-cases (failure_of evs)) [
  | inl f ↦ (failure_of-none evs f, failure_of_all-none es (rw (f, failure_of_all) at e))
  | inr (x, f) ↦ absurd (cc (rw (f, failure_of_all) at e))
]

module _ ⦃S : Sdk⦄ (c : Chain) (f : OrderFulfiller) where
  abbrev messages : List DemandOrder → List MsgFulfillOrderAuthorized
  messages [] = []
  messages (o ∷ os) = message_of f o ∷ messages os

  fulfill_msgs-ok :
      (os : List DemandOrder) (msgs : List MsgFulfillOrderAuthorized)
      → fulfill_msgs c.is_address f os ≡ ok msgs
      → (msgs ≡ messages os) × All (λ o. IsSendable c.is_address (message_of f o)) os
  unfolding fulfill_msgs
  fulfill_msgs-ok [] msgs e = (sym (ok-injective e), tt)
  fulfill_msgs-ok (o ∷ os) msgs e =
      elim (Option-cases (validate_basic c.is_address (message_of f o))) [
        | inr (m, v) ↦ absurd (cc (rw (v, fulfill_msgs) at e))
        | inl v ↦
            let (rest, a, b) =
              >>=-eq-ok (fulfill_msgs c.is_address f os) _ (rw (v, fulfill_msgs) at e) in
            let (same, sendable) = fulfill_msgs-ok os rest a in
            (
              sym (ok-injective b) ∙ ap (λ ms. message_of f o ∷ ms) same,
              ((validate_basic_iff c.is_address (message_of f o)).0 v, sendable),
            )
      ]

  -- the proposal of a batch
  abbrev pub proposal : List DemandOrder → Proposal
  proposal os = proposal_of f (messages os)

  submit-ok :
      (msgs : List MsgFulfillOrderAuthorized) (hash : String)
      → submit c f msgs ≡ ok hash
      → c.broadcast_tx f.account.name (proposal_of f msgs) ≡ ok hash
  unfolding submit
  submit-ok msgs hash e = elim (Bool-cases (c.is_bech32 f.policy_address)) [
    | inl x ↦ wrapped-ok "failed to broadcast tx: " _ hash (rw (x, submit) at e)
    | inr x ↦ absurd (cc (rw (x, submit) at e))
  ]

  told-ok : (failure : Option String) → told failure ≡ ok tt → failure ≡ none
  unfolding told
  told-ok none e = refl
  told-ok (some text) e = absurd (cc)

  await-ok :
      (hash : String)
      → await c hash ≡ ok tt
      → (resp : TxResponse) × Confirms (c.get_tx hash) resp
        × ((es : List (List Event)) × (c.events_of resp.raw_log ≡ some es) × All (All IsQuiet) es)
  unfolding await
  await-ok hash e =
      let (resp, a, e1) =
        >>=-eq-ok (wrapped "failed to wait for tx: " (wait_for_tx hash (c.get_tx hash))) _ e in
      let (es, b, e2) =
        >>=-eq-ok (or_err (c.events_of resp.raw_log) "failed to unmarshal tx response") _ e1 in
      (
        resp,
        wait_for_tx_ok hash (c.get_tx hash) resp (wrapped-ok "failed to wait for tx: " _ resp a),
        (
          es,
          or_err-ok (c.events_of resp.raw_log) _ es b,
          failure_of_all-none es (told-ok (failure_of_all es) e2),
        ),
      )

  -- A batch counts as fulfilled only if every order gives a message that may be sent, one proposal
  -- with those messages, in the order of the batch, was broadcast for the policy, the transaction
  -- was confirmed with code 0, and no event in its log tells of a failed proposal.
  pub fulfill_authorized_ok :
      (os : List DemandOrder)
      → fulfill_authorized c f os ≡ ok tt
      → All (λ o. IsSendable c.is_address (message_of f o)) os
        × ((hash : String) × (c.broadcast_tx f.account.name (proposal os) ≡ ok hash)
            × ((resp : TxResponse) × Confirms (c.get_tx hash) resp
                × ((es : List (List Event)) × (c.events_of resp.raw_log ≡ some es)
                    × All (All IsQuiet) es)))
  unfolding fulfill_authorized
  fulfill_authorized_ok os e =
      let (msgs, a, e1) = >>=-eq-ok (fulfill_msgs c.is_address f os) _ e in
      let (hash, b, e2) = >>=-eq-ok (submit c f msgs) _ e1 in
      let (same, sendable) = fulfill_msgs-ok os msgs a in
      (sendable, (hash, rw (sym same) (submit-ok msgs hash b), await-ok hash e2))
