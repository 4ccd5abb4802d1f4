-- ===== src/Finalizer/Messages.antt =====
-- Which orders the finalizer sends, and what the hub reads of them.
use eibc_client.Base.{
  ℕ, ◌≡◌, ◌≢◌, refl, Bool, true, false, List, [], ◌∷◌, some, ok, String, is_empty, All, map, ap,
}
use eibc_client.Base.Base64.{AreBytes, encode_to_string, decode_string-encode_to_string}
use eibc_client.Finalizer.{
  OrderFinalizer, finalize_msg, finalize_msgs, validate_finalize, decode_packet_key,
  must_decode_packet_key, finalize_signers, trim_zeros,
}
use eibc_client.Poller.{Order}

-- A tracking key that is sent in base64 is read back as it was, without zero bytes at its end.
pub decode_packet_key-encode_to_string :
    (key : List ℕ) → AreBytes key → decode_packet_key (encode_to_string key) ≡ some (trim_zeros key)
unfolding decode_packet_key
decode_packet_key-encode_to_string key h =
    rw (decode_string-encode_to_string key h, decode_packet_key) refl

encode_to_string_filled : (key : List ℕ) → key ≢ [] → is_empty (encode_to_string key) ≡ false
unfolding encode_to_string
encode_to_string_filled [] h = absurd (h refl)
encode_to_string_filled (a ∷ []) h = refl
encode_to_string_filled (a ∷ b ∷ []) h = refl
encode_to_string_filled (a ∷ b ∷ c ∷ rest) h = refl

-- Bytes, and at least one
abbrev pub IsKey : Order → Type 0
IsKey o = (o.tracking_packet_key ≢ []) × AreBytes o.tracking_packet_key

-- With an account that has an address, the finalizer sends one message for every order that has a
-- tracking key, in their order; the hub reads each key as it was, without zero bytes at its end, so
-- that nothing panics on it, and the account is the signer.
pub finalize_msgs-All :
    (is_address : String → Bool) (f : OrderFinalizer) (os : List Order)
    → is_address f.account_addr ≡ true
    → All IsKey os
    → (finalize_msgs is_address f os ≡ map (finalize_msg f) os)
      × All
          (λ o.
            (must_decode_packet_key (finalize_msg f o) ≡ ok (trim_zeros o.tracking_packet_key))
            × (finalize_signers is_address (finalize_msg f o) ≡ f.account_addr ∷ []))
          os
unfolding finalize_msgs validate_finalize must_decode_packet_key finalize_signers
finalize_msgs-All is_address f [] a h = (refl, tt)
finalize_msgs-All is_address f (o ∷ os) a ((filled, bytes), h) =
    let (sent, read) = finalize_msgs-All is_address f os a h in
    let back = decode_packet_key-encode_to_string o.tracking_packet_key bytes in
    (
      rw
          (
            a,
            finalize_msgs,
            validate_finalize,
            encode_to_string_filled o.tracking_packet_key filled,
            back,
          )
          (ap (λ ms. finalize_msg f o ∷ ms) sent),
      ((rw back refl, rw a refl), read),
    )
