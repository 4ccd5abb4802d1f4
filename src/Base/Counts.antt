-- ===== src/Base/Counts.antt =====
-- How often a number occurs in a list.
use mathlib.Core.List.{append_assoc}
use eibc_client.Base.Chunk.{join}
use eibc_client.Base.Sort.{sort_slice, insert_sorted}
use eibc_client.Base.{
  ℕ, ◌+◌, ◌≤◌, ◌<◌, ◌≡◌, refl, sym, ap, ◌∙◌, Bool, true, false, List, [], ◌∷◌, ◌++◌, arith,
  Bool-cases, inl, inr, ◌==◌, All,
}

-- 1 for `true`
abbrev pub flag : Bool → ℕ
flag true = 1
flag false = 0

abbrev pub count : ℕ → List ℕ → ℕ
count q [] = 0
count q (r ∷ rs) = flag (r == q) + count q rs

pub count-append : (q : ℕ) (xs ys : List ℕ) → count q (xs ++ ys) ≡ count q xs + count q ys
count-append q [] ys = omega arith
count-append q (x ∷ xs) ys = omega (arith, count-append q xs ys)

join-append : (xs ys : List (List ℕ)) → join (xs ++ ys) ≡ join xs ++ join ys
join-append [] ys = refl
join-append (x ∷ xs) ys =
    ap (λ zs. x ++ zs) (join-append xs ys) ∙ sym (append_assoc x (join xs) (join ys))

module _ (less : ℕ → ℕ → Bool) where
  count-insert_sorted :
      (q x : ℕ) (xs : List ℕ) → count q (insert_sorted less x xs) ≡ flag (x == q) + count q xs
  unfolding insert_sorted
  count-insert_sorted q x [] = refl
  count-insert_sorted q x (y ∷ ys) = elim (Bool-cases (less y x)) [
    | inl e ↦ rw (e, count) (omega (arith, count-insert_sorted q x ys))
    | inr e ↦ rw (e, count) refl
  ]

  pub count-sort_slice : (q : ℕ) (xs : List ℕ) → count q (sort_slice less xs) ≡ count q xs
  unfolding sort_slice
  count-sort_slice q [] = refl
  count-sort_slice q (x ∷ xs) =
      count-insert_sorted q x (sort_slice less xs)
      ∙ ap (λ n. flag (x == q) + n) (count-sort_slice q xs)

-- Where no number from `n` on occurs, all are below it.
pub count-All : (n : ℕ) (xs : List ℕ) → ((q : ℕ) → n ≤ q → count q xs ≡ 0) → All (λ r. r < n) xs
count-All n [] h = tt
count-All n (x ∷ xs) h = (ground (arith, h x), count-All n xs (λ q b. omega (arith, h q b)))

-- And where all are below it, no number from `n` on occurs.
pub All-count : (n : ℕ) (xs : List ℕ) → All (λ r. r < n) xs → (q : ℕ) → n ≤ q → count q xs ≡ 0
All-count n [] h q b = refl
All-count n (x ∷ xs) h q b = ground (arith, All-count n xs h.1 q b, h.0)

pub count-join :
    (q : ℕ) (xs ys : List (List ℕ))
    → count q (join (xs ++ ys)) ≡ count q (join xs) + count q (join ys)
count-join q xs ys = rw (join-append xs ys) (count-append q (join xs) (join ys))

-- one more batch
pub count-join_last :
    (q : ℕ) (xs : List (List ℕ)) (b : List ℕ)
    → count q (join (xs ++ b ∷ [])) ≡ count q (join xs) + count q b
count-join_last q xs b = omega (arith, count-join q xs (b ∷ []), count-append q b [])

pub flag_le : (b : Bool) → flag b ≤ 1
flag_le true = omega arith
flag_le false = omega arith
