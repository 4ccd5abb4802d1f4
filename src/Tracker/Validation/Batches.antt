-- ===== src/Tracker/Validation/Batches.antt =====
-- How valid orders are split over the fulfillers.
use eibc_client.Base.{
  ℕ, ◌/◌, ◌≡◌, ◌↔◌, ◌⊎◌, max, false, List, length, arith, ok, panic, ◌==◌, ok-injective, All,
  Bool-cases, inl, inr, subst,
}
use eibc_client.Base.Chunk.{join, join-chunk, IsPiece, chunk-IsPiece}
use eibc_client.Tracker.Validation.{batches}

-- The batches of a split that returns hold the valid orders, all of them and in their order; none
-- is empty, and none is longer than the limit of a transaction or an even share of the fulfillers,
-- whichever is more.
pub batches_partition :
    (limit fulfillers : ℕ) (valid : List ℕ) (bs : List (List ℕ))
    → batches limit fulfillers valid ≡ ok bs
    → (join bs ≡ valid) × All (IsPiece (max limit (length valid / fulfillers))) bs
unfolding batches
batches_partition limit fulfillers valid bs e =
    let (p, q) = guards in
    let same = ok-injective (rw (p, q) at e) in
    (
      subst (λ b. join b ≡ valid) same (join-chunk size valid),
      subst (All (IsPiece size)) same (chunk-IsPiece size valid (ground arith)),
    )
  where
    size : ℕ
    size = max limit (length valid / fulfillers)

    guards : ((fulfillers == 0) ≡ false) × ((max limit (length valid / fulfillers) == 0) ≡ false)
    guards = (ground arith, ground arith)

-- The split fails, by a division by zero or an empty piece, exactly if there is no fulfiller or
-- nothing keeps the pieces from being empty.
pub batches_panics :
    (limit fulfillers : ℕ) (valid : List ℕ)
    → (batches limit fulfillers valid ≡ panic)
      ↔ ((fulfillers ≡ 0) ⊎ ((limit ≡ 0) × (length valid / fulfillers ≡ 0)))
unfolding batches
batches_panics limit fulfillers valid = (
  λ e. elim (Bool-cases (fulfillers == 0)) [
    | inl z ↦ inl (ground arith)
    | inr z ↦ inr (ground arith, ground arith)
  ],
  λ e. ground arith,
)
