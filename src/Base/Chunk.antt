-- ===== src/Base/Chunk.antt =====
-- `slices.Chunk`: consecutive pieces of a given size, the last of which may be shorter.
use eibc_client.Base.{
  ℕ, ◌≤◌, ◌<◌, ◌≡◌, refl, ap, ◌∙◌, true, false, List, [], ◌∷◌, ◌++◌, arith, leb, length, All,
  Bool-cases, inl, inr, length-append,
}
use mathlib.Core.List.{append_assoc}

module _ {A : Type 0} where
  -- `piece` is the piece that is being filled.
  chunk_from : ℕ → List A → List A → List (List A)
  chunk_from n [] [] = []
  chunk_from n (a ∷ piece) [] = (a ∷ piece) ∷ []
  chunk_from n piece (x ∷ xs) = elim (leb n (length (piece ++ x ∷ []))) [
    | true ↦ (piece ++ x ∷ []) ∷ chunk_from n [] xs
    | false ↦ chunk_from n (piece ++ x ∷ []) xs
  ]

  -- `slices.Chunk` panics below size 1, which the callers test.
  unfoldable pub chunk : ℕ → List A → List (List A)
  unfolding chunk_from
  chunk n xs = chunk_from n [] xs

  abbrev pub join : List (List A) → List A
  join [] = []
  join (xs ∷ xss) = xs ++ join xss

  join-chunk_from : (n : ℕ) (piece xs : List A) → join (chunk_from n piece xs) ≡ piece ++ xs
  unfolding chunk_from
  join-chunk_from n [] [] = refl
  join-chunk_from n (a ∷ piece) [] = refl
  join-chunk_from n piece (x ∷ xs) = elim (Bool-cases (leb n (length (piece ++ x ∷ [])))) [
    | inl e ↦
        rw (e, join)
          (ap (◌++◌ (piece ++ x ∷ [])) (join-chunk_from n [] xs) ∙ append_assoc piece (x ∷ []) xs)
    | inr e ↦ rw (e, join) (join-chunk_from n (piece ++ x ∷ []) xs ∙ append_assoc piece (x ∷ []) xs)
  ]

  -- The pieces put together are the list.
  pub join-chunk : (n : ℕ) (xs : List A) → join (chunk n xs) ≡ xs
  unfolding chunk
  join-chunk n xs = join-chunk_from n [] xs

  abbrev pub IsPiece : ℕ → List A → Type 0
  IsPiece n xs = (0 < length xs) × (length xs ≤ n)

  chunk_from-IsPiece :
      (n : ℕ) (piece xs : List A) → length piece < n → All (IsPiece n) (chunk_from n piece xs)
  unfolding chunk_from
  chunk_from-IsPiece n [] [] h = tt
  chunk_from-IsPiece n (a ∷ piece) [] h = ((omega arith, omega arith), tt)
  chunk_from-IsPiece n piece (x ∷ xs) h = elim (Bool-cases (leb n (length (piece ++ x ∷ [])))) [
    | inl e ↦
        rw (e, All)
          (
            (
              omega (arith, length-append piece (x ∷ [])),
              omega (arith, length-append piece (x ∷ [])),
            ),
            chunk_from-IsPiece n [] xs (omega arith),
          )
    | inr e ↦
        rw (e, All)
          (chunk_from-IsPiece n (piece ++ x ∷ []) xs (ground (arith, length-append piece (x ∷ []))))
  ]

  -- No piece is empty, and none exceeds the size.
  pub chunk-IsPiece : (n : ℕ) (xs : List A) → 0 < n → All (IsPiece n) (chunk n xs)
  unfolding chunk
  chunk-IsPiece n xs h = chunk_from-IsPiece n [] xs h
