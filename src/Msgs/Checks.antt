-- ===== src/Msgs/Checks.antt =====
-- Which messages pass the checks.
use eibc_client.Base.{
  ℕ, ◌≡◌, ◌≢◌, ◌↔◌, refl, Bool, true, false, List, [], ◌∷◌, none, some, String, ◌==◌, length, All,
  arith, ◌*◌, eq_iff, Option-cases, inl, inr, suc,
}
use eibc_client.Base.Text.{codes}
use eibc_client.Msgs.{
  is_hex, decoded_length, is_valid_order_id, all_addresses, MsgFulfillOrderAuthorized,
  validate_common, validate_basic,
}
use eibc_client.Sdk.{Sdk}

abbrev IsHex : ℕ → Type 0
IsHex c = is_hex c ≡ true

decoded_length-ok :
    (cs : List ℕ) (n : ℕ) → decoded_length cs ≡ some n → (length cs ≡ 2 * n) × All IsHex cs
unfolding decoded_length
decoded_length-ok [] n e = (ground arith, tt)
decoded_length-ok (a ∷ []) n e = absurd (cc)
decoded_length-ok (a ∷ b ∷ cs) n e = elim (Option-cases (decoded_length cs)) [
  | inl d ↦ absurd (ground arith)
  | inr (k, d) ↦
      let (l, h) = decoded_length-ok cs k d in (ground arith, (ground arith, (ground arith, h)))
]

decoded_length_back :
    (cs : List ℕ) (n : ℕ) → length cs ≡ 2 * n → All IsHex cs → decoded_length cs ≡ some n
unfolding decoded_length
decoded_length_back [] n e h = ground arith
decoded_length_back (a ∷ []) n e h = absurd (omega arith)
decoded_length_back (a ∷ b ∷ cs) ℕ.zero e h = absurd (omega arith)
decoded_length_back (a ∷ b ∷ cs) (suc n) e h =
    ground (arith, decoded_length_back cs n (omega arith) h.1.1, h.0, h.1.0)

-- An identifier of an order is accepted exactly if it is 64 hexadecimal digits.
pub is_valid_order_id_iff :
    (id : String)
    → (is_valid_order_id id ≡ true) ↔ ((length (codes id) ≡ 64) × All IsHex (codes id))
unfolding is_valid_order_id
is_valid_order_id_iff id = (
  λ e. elim (Option-cases (decoded_length (codes id))) [
    | inl d ↦ absurd (cc (rw (d, is_valid_order_id) at e))
    | inr (n, d) ↦
        let (l, h) = decoded_length-ok (codes id) n d in
        (half (length (codes id)) n l (rw (d, is_valid_order_id) at e), h)
  ],
  λ h. rw (decoded_length_back (codes id) 32 h.0 h.1, is_valid_order_id) refl,
)
  where
    half : (l n : ℕ) → l ≡ 2 * n → (n == 32) ≡ true → l ≡ 64
    half l n e k = ground arith

all_addresses_All :
    (is_address : String → Bool) (as_ : List String)
    → (all_addresses is_address as_ ≡ true) ↔ All (λ a. is_address a ≡ true) as_
unfolding all_addresses
all_addresses_All f [] = (λ e. tt, λ h. refl)
all_addresses_All f (a ∷ as_) =
    let (to, back) = all_addresses_All f as_ in
    (λ e. (ground arith, to (ground arith)), λ h. ground (arith, back h.1, h.0))

module _ ⦃S : Sdk⦄ (is_address : String → Bool) where
  -- What a message must say to be sent.
  pub record IsSendable (m : MsgFulfillOrderAuthorized) : Type 0 where
    pub for_rollapp : m.rollapp_id ≢ ""
    pub order_is_hash : (length (codes m.order_id) ≡ 64) × All IsHex (codes m.order_id)
    pub addressed : (is_address m.operator_fee_address ≡ true) × (is_address m.lp_address ≡ true)
    pub fee : S.Int
    pub fee_is_int : S.new_int_from_string m.expected_fee ≡ some fee
    pub fee_not_negative : S.int_is_negative fee ≡ false
    pub price_is_valid : S.is_valid m.price ≡ true
    pub amount_is_set : S.int_is_nil m.amount ≡ false
    pub amount_not_negative : S.int_is_negative m.amount ≡ false
    pub share_is_set : S.dec_is_nil m.operator_fee_share ≡ false
    pub share_not_negative : S.dec_is_negative m.operator_fee_share ≡ false
    pub share_at_most_one : S.dec_gt m.operator_fee_share S.dec_one ≡ false

  -- The checks of a message find no error exactly if it names a rollapp, an order identifier of 64
  -- hexadecimal digits and two addresses, a fee that is an integer and not negative, a valid
  -- price, an amount that is set and not negative, and a share between 0 and 1.
  pub validate_basic_iff :
      (m : MsgFulfillOrderAuthorized) → (validate_basic is_address m ≡ none) ↔ IsSendable m
  unfolding validate_basic validate_common all_addresses
  validate_basic_iff m = (
    λ e. elim (Option-cases (S.new_int_from_string m.expected_fee)) [
      | inl f ↦ absurd (ground arith)
      | inr (n, f) ↦ record {
        for_rollapp = λ z. absurd (ground (arith, (eq_iff m.rollapp_id "").1 z));
        order_is_hash = (is_valid_order_id_iff m.order_id).0 (ground arith);
        addressed = (ground arith, ground arith);
        fee = n;
        fee_is_int = f;
        fee_not_negative = ground arith;
        price_is_valid = ground arith;
        amount_is_set = ground arith;
        amount_not_negative = ground arith;
        share_is_set = ground arith;
        share_not_negative = ground arith;
        share_at_most_one = ground arith;
      }
    ],
    λ h.
        let id_ok = (is_valid_order_id_iff m.order_id).1 h.order_is_hash in
        ground (
          arith,
          id_ok,
          eq_iff m.rollapp_id "",
          h.for_rollapp,
          h.addressed,
          h.fee_is_int,
          h.fee_not_negative,
          h.price_is_valid,
          h.amount_is_set,
          h.amount_not_negative,
          h.share_is_set,
          h.share_not_negative,
          h.share_at_most_one,
        ),
  )
