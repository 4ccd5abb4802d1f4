-- ===== src/Base/Text.antt =====
-- Texts as the code uses them: `+`, `strings.Contains`, `fmt.Sprint` of an integer, and the parsers
-- `strconv.ParseUint` and `strconv.ParseInt` at base 10 and 64 bits.
use Prim.Native.Char.{Char, code}
use Prim.Native.String.{String, ◌++◌}
use text.Mathlib.Text.{find?, starts_with}
use text.Mathlib.TextBridge.{of_list}
use eibc_client.Base.{
  ℕ, zero, suc, ◌+◌, ◌-◌, ◌*◌, ◌/◌, ◌%◌, ◌^◌, ◌<◌, ◌≡◌, ◌≢◌, refl, ap, ◌∙◌, Bool, true, false, ◌&&◌,
  List, [], ◌∷◌, map, Option, none, some, arith, ltb, leb, ◌==◌, if◌then◌else◌, length, Bool-cases,
  inl, inr,
}
use eibc_client.Base.Int.{ℤ, pos, negsuc}

abbrev pub concat : String → String → String
concat s t = s ++ t

-- `strings.Contains`
abbrev pub str_contains : String → String → Bool
str_contains s t = elim (find? s t) [ none ↦ false | some _ ↦ true ]

-- The code points of a text.
abbrev pub codes : String → List ℕ
codes String.[] = []
codes (String.◌∷◌ c s) = code c ∷ codes s

-- the parts between separators; `skip` is what is left of a separator, and `part` the part so far
split_from : String → ℕ → String → String → List String
split_from sep skip part String.[] = part ∷ []
split_from sep (suc skip) part (String.◌∷◌ c s) = split_from sep skip part s
split_from sep zero part (String.◌∷◌ c s) = elim (starts_with (String.◌∷◌ c s) sep) [
  | true ↦ part ∷ split_from sep (length (codes sep) - 1) String.[] s
  | false ↦ split_from sep zero (concat part (String.◌∷◌ c String.[])) s
]

-- `strings.Split`, for a separator that is not empty
unfoldable pub split : String → String → List String
unfolding split_from
split s sep = split_from sep 0 String.[] s

abbrev digit_char : ℕ → Char
digit_char d =
    if d == 0
    then "0"
    else if d == 1
    then "1"
    else if d == 2
    then "2"
    else if d == 3
    then "3"
    else if d == 4
    then "4"
    else if d == 5
    then "5"
    else if d == 6
    then "6"
    else if d == 7
    then "7"
    else if d == 8
    then "8"
    else "9"

-- The digits of `n`, in front of `ds`.
digits_from : ℕ → ℕ → List ℕ → List ℕ
digits_from zero n ds = ds
digits_from (suc f) n ds =
    let rest = digits_from f (n / 10) ((n % 10) ∷ ds) in if ltb n 10 then n ∷ ds else rest

-- `fmt.Sprint` of an unsigned integer
unfoldable pub format_ℕ : ℕ → String
unfolding digits_from
format_ℕ n = of_list (map digit_char (digits_from (suc n) n []))

-- `%d` of a signed integer
unfoldable pub format_ℤ : ℤ → String
unfolding format_ℕ
format_ℤ (pos n) = format_ℕ n
format_ℤ (negsuc n) = concat "-" (format_ℕ (suc n))

abbrev is_digit : ℕ → Bool
is_digit c = leb 48 c && leb c 57

parse_digits : ℕ → List ℕ → Option ℕ
parse_digits a [] = some a
parse_digits a (c ∷ cs) =
    let rest = parse_digits (a * 10 + (c - 48)) cs in if is_digit c then rest else none

abbrev below : ℕ → Option ℕ → Option ℕ
below bound none = none
below bound (some n) = if ltb n bound then some n else none

parse_uint_codes : List ℕ → Option ℕ
unfolding parse_digits
parse_uint_codes [] = none
parse_uint_codes (c ∷ cs) = below (2 ^ 64) (parse_digits 0 (c ∷ cs))

unfoldable pub parse_uint : String → Option ℕ
unfolding parse_uint_codes
parse_uint s = parse_uint_codes (codes s)

below-lt : (bound n : ℕ) (o : Option ℕ) → below bound o ≡ some n → n < bound
below-lt bound n none e = absurd (cc)
below-lt bound n (some m) e = ground arith

parse_uint_codes-lt : (cs : List ℕ) (n : ℕ) → parse_uint_codes cs ≡ some n → n < 2 ^ 64
unfolding parse_uint_codes
parse_uint_codes-lt [] n e = absurd (cc)
parse_uint_codes-lt (c ∷ cs) n e = below-lt (2 ^ 64) n (parse_digits 0 (c ∷ cs)) e

-- What is parsed fits 64 bits.
pub parse_uint_bound : (s : String) (n : ℕ) → parse_uint s ≡ some n → n < 2 ^ 64
unfolding parse_uint
parse_uint_bound s n e = parse_uint_codes-lt (codes s) n e

abbrev signed : Bool → Option ℕ → Option ℤ
signed negative none = none
signed false (some n) = if ltb n (2 ^ 63) then some (pos n) else none
signed true (some zero) = some (pos 0)
signed true (some (suc n)) = if leb (suc n) (2 ^ 63) then some (negsuc n) else none

parse_int_codes : List ℕ → Option ℤ
unfolding parse_uint_codes
parse_int_codes [] = none
parse_int_codes (c ∷ cs) =
    if c == 43
    then signed false (parse_uint_codes cs)
    else if c == 45
    then signed true (parse_uint_codes cs)
    else signed false (parse_uint_codes (c ∷ cs))

unfoldable pub parse_int : String → Option ℤ
unfolding parse_int_codes
parse_int s = parse_int_codes (codes s)

codes-of_list : (cs : List Char) → codes (of_list cs) ≡ map code cs
codes-of_list [] = refl
codes-of_list (c ∷ cs) = λ i. code c ∷ codes-of_list cs i

code-digit_char : (d : ℕ) → d < 10 → code (digit_char d) ≡ 48 + d
code-digit_char zero h = refl
code-digit_char (suc zero) h = refl
code-digit_char (suc (suc zero)) h = refl
code-digit_char (suc (suc (suc zero))) h = refl
code-digit_char (suc (suc (suc (suc zero)))) h = refl
code-digit_char (suc (suc (suc (suc (suc zero))))) h = refl
code-digit_char (suc (suc (suc (suc (suc (suc zero)))))) h = refl
code-digit_char (suc (suc (suc (suc (suc (suc (suc zero))))))) h = refl
code-digit_char (suc (suc (suc (suc (suc (suc (suc (suc zero)))))))) h = refl
code-digit_char (suc (suc (suc (suc (suc (suc (suc (suc (suc zero))))))))) h = refl
code-digit_char (suc (suc (suc (suc (suc (suc (suc (suc (suc (suc d)))))))))) h =
    absurd (omega arith)

abbrev AreDigits : List ℕ → Type 0
AreDigits [] = Unit {0}
AreDigits (d ∷ ds) = (d < 10) × AreDigits ds

horner : ℕ → List ℕ → ℕ
horner a [] = a
horner a (d ∷ ds) = horner (a * 10 + d) ds

offset : (d : ℕ) → 48 + d - 48 ≡ d
offset d = omega arith

is_digit_offset : (d : ℕ) → d < 10 → is_digit (48 + d) ≡ true
is_digit_offset d h = ground arith

parse_digits-map :
    (a : ℕ) (ds : List ℕ)
    → AreDigits ds
    → parse_digits a (map code (map digit_char ds)) ≡ some (horner a ds)
unfolding parse_digits horner
parse_digits-map a [] h = refl
parse_digits-map a (d ∷ ds) h =
    rw (code-digit_char d h.0, offset d, is_digit_offset d h.0)
      (parse_digits-map (a * 10 + d) ds h.1)

digits_from-AreDigits :
    (f n : ℕ) (ds : List ℕ) → n < f → AreDigits ds → AreDigits (digits_from f n ds)
unfolding digits_from
digits_from-AreDigits zero n ds b h = h
digits_from-AreDigits (suc f) n ds b h =
    ground (arith, digits_from-AreDigits f (n / 10) ((n % 10) ∷ ds))

zero_plus : (n : ℕ) → 0 + n ≡ n
zero_plus n = omega arith

horner-digits_from : (f n : ℕ) (ds : List ℕ) → n < f → horner 0 (digits_from f n ds) ≡ horner n ds
unfolding digits_from horner
horner-digits_from zero n ds b = absurd (omega arith)
horner-digits_from (suc f) n ds b = elim (Bool-cases (ltb n 10)) [
  | inl small ↦ rw small (ap (λ m. horner m ds) (zero_plus n))
  | inr large ↦ rw large (
      horner-digits_from f (n / 10) ((n % 10) ∷ ds) (ground arith)
      ∙ ap (λ m. horner m ds) (omega arith))
]

digits_from-cons : (f n : ℕ) (ds : List ℕ) → n < f → digits_from f n ds ≢ []
unfolding digits_from
digits_from-cons zero n ds b = absurd (omega arith)
digits_from-cons (suc f) n ds b = ground (arith, digits_from-cons f (n / 10) ((n % 10) ∷ ds))

parse_uint_codes-map :
    (ds : List ℕ)
    → ds ≢ []
    → AreDigits ds
    → parse_uint_codes (map code (map digit_char ds)) ≡ below (2 ^ 64) (some (horner 0 ds))
unfolding parse_uint_codes
parse_uint_codes-map [] n h = absurd (n refl)
parse_uint_codes-map (d ∷ ds) n h = ap (below (2 ^ 64)) (parse_digits-map 0 (d ∷ ds) h)

first_digit :
    (ds : List ℕ)
    → ds ≢ []
    → AreDigits ds
    → parse_int_codes (map code (map digit_char ds))
      ≡ signed false (parse_uint_codes (map code (map digit_char ds)))
unfolding parse_int_codes
first_digit [] n h = absurd (n refl)
first_digit (d ∷ ds) n h = rw (code-digit_char d h.0) (ground arith)

-- The digits of a number, as `format_ℕ` has them.
module _ (n : ℕ) where
  shown : List ℕ
  shown = digits_from (suc n) n []

  shown-cons : shown ≢ []
  unfolding shown
  shown-cons = digits_from-cons (suc n) n [] (omega arith)

  shown-AreDigits : AreDigits shown
  unfolding shown
  shown-AreDigits = digits_from-AreDigits (suc n) n [] (omega arith) tt

  horner-shown : horner 0 shown ≡ n
  unfolding shown horner
  horner-shown = horner-digits_from (suc n) n [] (omega arith)

  -- A printed number is read back, unless 64 bits do not hold it.
  pub parse_uint-format_ℕ : parse_uint (format_ℕ n) ≡ (if ltb n (2 ^ 64) then some n else none)
  unfolding parse_uint format_ℕ shown
  parse_uint-format_ℕ =
      rw (codes-of_list, parse_uint_codes-map shown shown-cons shown-AreDigits, horner-shown)

  -- An unsigned number that is printed and read as a signed one comes back below 2 ^ 63, and is an
  -- error from there on.
  pub parse_int-format_ℕ : parse_int (format_ℕ n) ≡ (if ltb n (2 ^ 63) then some (pos n) else none)
  unfolding parse_int format_ℕ shown
  parse_int-format_ℕ =
      rw
        (
          codes-of_list,
          first_digit shown shown-cons shown-AreDigits,
          parse_uint_codes-map shown shown-cons shown-AreDigits,
          horner-shown,
        )
        (ground arith)
