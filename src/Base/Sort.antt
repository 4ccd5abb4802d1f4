-- ===== src/Base/Sort.antt =====
-- `sort.Slice` and `slices.SortFunc`: a sort by a strict order `less`. Which of two elements that
-- neither precedes the other comes first is left open by Go; here it is the one that came first.
use mathlib.Core.List.{Perm}
use mathlib.Core.List.Perm
use eibc_client.Base.{
  ◌≡◌, refl, Bool, true, false, List, [], ◌∷◌, none, arith, if◌then◌else◌, All, head?, ◌≢◌,
  Bool-cases, inl, inr,
}

module _ {A : Type 0} (less : A → A → Bool) where
  unfoldable pub insert_sorted : A → List A → List A
  insert_sorted x [] = x ∷ []
  insert_sorted x (y ∷ ys) = if less y x then y ∷ insert_sorted x ys else x ∷ y ∷ ys

  unfoldable pub sort_slice : List A → List A
  unfolding insert_sorted
  sort_slice [] = []
  sort_slice (x ∷ xs) = insert_sorted x (sort_slice xs)

  insert_sorted-perm : (x : A) (xs : List A) → Perm (insert_sorted x xs) (x ∷ xs)
  unfolding insert_sorted
  insert_sorted-perm x [] = Perm.refl _
  insert_sorted-perm x (y ∷ ys) = elim (Bool-cases (less y x)) [
    | inl e ↦ rw e (Perm.trans (Perm.cons y (insert_sorted-perm x ys)) (Perm.swap x y ys))
    | inr e ↦ rw e (Perm.refl _)
  ]

  -- The sorted list has the same elements, as often.
  pub sort_slice-perm : (xs : List A) → Perm (sort_slice xs) xs
  unfolding sort_slice
  sort_slice-perm [] = Perm.refl _
  sort_slice-perm (x ∷ xs) =
      Perm.trans (insert_sorted-perm x (sort_slice xs)) (Perm.cons x (sort_slice-perm xs))

  All-insert_sorted {κ} :
      (P : A → Type κ) (x : A) (xs : List A) → P x → All P xs → All P (insert_sorted x xs)
  unfolding insert_sorted
  All-insert_sorted P x [] p h = (p, tt)
  All-insert_sorted P x (y ∷ ys) p h = elim (Bool-cases (less y x)) [
    | inl e ↦ rw e (h.0, All-insert_sorted P x ys p h.1)
    | inr e ↦ rw e (p, h)
  ]

  -- What holds of every element holds of every sorted element.
  pub All-sort_slice {κ} : (P : A → Type κ) (xs : List A) → All P xs → All P (sort_slice xs)
  unfolding sort_slice
  All-sort_slice P [] h = tt
  All-sort_slice P (x ∷ xs) h = All-insert_sorted P x (sort_slice xs) h.0 (All-sort_slice P xs h.1)

  All-insert_sorted_back {κ} :
      (P : A → Type κ) (x : A) (xs : List A) → All P (insert_sorted x xs) → P x × All P xs
  unfolding insert_sorted
  All-insert_sorted_back P x [] h = h
  All-insert_sorted_back P x (y ∷ ys) h = elim (Bool-cases (less y x)) [
    | inl e ↦ let h' = rw e at h in let r = All-insert_sorted_back P x ys h'.1 in (r.0, (h'.0, r.1))
    | inr e ↦ let h' = rw e at h in (h'.0, h'.1)
  ]

  -- What holds of every sorted element holds of every element.
  pub All-sort_slice_back {κ} : (P : A → Type κ) (xs : List A) → All P (sort_slice xs) → All P xs
  unfolding sort_slice
  All-sort_slice_back P [] h = tt
  All-sort_slice_back P (x ∷ xs) h =
      let r = All-insert_sorted_back P x (sort_slice xs) h in (r.0, All-sort_slice_back P xs r.1)

  -- No element precedes an earlier one.
  abbrev pub IsSorted : List A → Type 0
  IsSorted [] = Unit {0}
  IsSorted (x ∷ xs) = All (λ y. less y x ≡ false) xs × IsSorted xs

  -- `less` is a strict weak order.
  pub record IsStrict : Type 0 where
    pub asym : (a b : A) → less a b ≡ true → less b a ≡ false
    pub negative : (a b c : A) → less a b ≡ false → less b c ≡ false → less a c ≡ false

  All-negative :
      IsStrict
      → (x y : A) (ys : List A) → less y x ≡ false
      → All (λ z. less z y ≡ false) ys
      → All (λ z. less z x ≡ false) ys
  All-negative s x y [] e h = tt
  All-negative s x y (z ∷ ys) e h = (s.negative z y x h.0 e, All-negative s x y ys e h.1)

  insert_sorted-IsSorted :
      IsStrict → (x : A) (xs : List A) → IsSorted xs → IsSorted (insert_sorted x xs)
  unfolding insert_sorted
  insert_sorted-IsSorted s x [] h = (tt, tt)
  insert_sorted-IsSorted s x (y ∷ ys) h = elim (Bool-cases (less y x)) [
    | inl e ↦ rw e (
      All-insert_sorted (λ z. less z y ≡ false) x ys (s.asym y x e) h.0,
      insert_sorted-IsSorted s x ys h.1,
    )
    | inr e ↦ rw e ((e, All-negative s x y ys e h.0), h)
  ]

  pub sort_slice-IsSorted : IsStrict → (xs : List A) → IsSorted (sort_slice xs)
  unfolding sort_slice
  sort_slice-IsSorted s [] = tt
  sort_slice-IsSorted s (x ∷ xs) =
      insert_sorted-IsSorted s x (sort_slice xs) (sort_slice-IsSorted s xs)

  insert_sorted-cons : (x : A) (xs : List A) → head? (insert_sorted x xs) ≢ none
  unfolding insert_sorted
  insert_sorted-cons x [] = ground arith
  insert_sorted-cons x (y ∷ ys) = ground arith

  -- A sorted list has a first element unless the list is empty.
  pub head?-sort_slice : (xs : List A) → head? (sort_slice xs) ≡ none → xs ≡ []
  unfolding sort_slice
  head?-sort_slice [] e = refl
  head?-sort_slice (x ∷ xs) e = absurd (insert_sorted-cons x (sort_slice xs) e)
