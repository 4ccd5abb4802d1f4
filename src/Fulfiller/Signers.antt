-- ===== src/Fulfiller/Signers.antt =====
-- Who signs what a fulfiller sends.
use eibc_client.Base.{
  ◌≡◌, refl, Bool, List, [], ◌∷◌, none, String, ok, ok-injective, >>=-eq-ok, subst, Option-cases,
  inl, inr,
}
use eibc_client.Fulfiller.{OrderFulfiller, fulfill_msgs, message_of}
use eibc_client.Msgs.{
  MsgFulfillOrderAuthorized, validate_basic, get_signers, get_lp_bech32_address,
  get_operator_fee_bech32_address,
}
use eibc_client.Msgs.Checks.{validate_basic_iff}
use eibc_client.Sdk.{Sdk}
use eibc_client.Types.{DemandOrder}

module _ ⦃S : Sdk⦄ (is_address : String → Bool) (f : OrderFulfiller) where
  -- The message of an order needs the signature of the order's LP alone, and its two addresses are
  -- the LP of the order and the operator of the fulfiller.
  pub record IsSignedBy (o : DemandOrder) (m : MsgFulfillOrderAuthorized) : Type 0 where
    pub signers : get_signers is_address m ≡ ok (o.lp_address ∷ [])
    pub lp : get_lp_bech32_address is_address m ≡ ok o.lp_address
    pub operator : get_operator_fee_bech32_address is_address m ≡ ok f.operator_address

  abbrev pub AreSigned : List DemandOrder → List MsgFulfillOrderAuthorized → Type 0
  AreSigned [] [] = Unit {0}
  AreSigned [] (m ∷ ms) = ⊥
  AreSigned (o ∷ os) [] = ⊥
  AreSigned (o ∷ os) (m ∷ ms) = IsSignedBy o m × AreSigned os ms

  message_of-IsSignedBy :
      (o : DemandOrder)
      → validate_basic is_address (message_of f o) ≡ none
      → IsSignedBy o (message_of f o)
  unfolding get_signers get_lp_bech32_address get_operator_fee_bech32_address
  message_of-IsSignedBy o e =
      let (operator, lp) = ((validate_basic_iff is_address (message_of f o)).0 e).addressed in
      record { signers = rw lp refl; lp = rw lp refl; operator = rw operator refl }

  -- When the messages of a batch are built, there is one for each order, in their order; each needs
  -- the signature of the LP of its order and of nobody else, and none of them panics when its
  -- addresses are read.
  pub fulfill_msgs-AreSigned :
      (os : List DemandOrder) (ms : List MsgFulfillOrderAuthorized)
      → fulfill_msgs is_address f os ≡ ok ms
      → AreSigned os ms
  unfolding fulfill_msgs
  fulfill_msgs-AreSigned [] ms e = subst (AreSigned []) (ok-injective e) tt
  fulfill_msgs-AreSigned (o ∷ os) ms e =
      elim (Option-cases (validate_basic is_address (message_of f o))) [
        | inr (t, z) ↦ absurd (cc (rw (z, fulfill_msgs) at e))
        | inl z ↦
            let (rest, a, r) =
              >>=-eq-ok (fulfill_msgs is_address f os) _ (rw (z, fulfill_msgs) at e) in
            subst (AreSigned (o ∷ os)) (ok-injective r)
              (message_of-IsSignedBy o z, fulfill_msgs-AreSigned os rest a)
      ]
