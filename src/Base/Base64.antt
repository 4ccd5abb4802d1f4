-- ===== src/Base/Base64.antt =====
-- `base64.StdEncoding` on the bytes of texts.
use eibc_client.Base.{
  ℕ, ◌+◌, ◌-◌, ◌*◌, ◌/◌, ◌%◌, ◌<◌, ◌≡◌, refl, ap, false, ◌&&◌, ◌||◌, List, [], ◌∷◌, Option, none,
  some, ltb, leb, ◌==◌, if◌then◌else◌, arith, All,
}

-- the letter of six bits
abbrev pub letter : ℕ → ℕ
letter n =
    if ltb n 26
    then n + 65
    else if ltb n 52
    then n + 71
    else if ltb n 62
    then n - 4
    else if n == 62
    then 43
    else 47

-- the six bits of a letter
abbrev pub six_bits : ℕ → Option ℕ
six_bits c =
    if leb 65 c && leb c 90
    then some (c - 65)
    else if leb 97 c && leb c 122
    then some (c - 71)
    else if leb 48 c && leb c 57
    then some (c + 4)
    else if c == 43
    then some 62
    else if c == 47
    then some 63
    else none

-- `EncodeToString`, with `=` for padding
unfoldable pub encode_to_string : List ℕ → List ℕ
encode_to_string [] = []
encode_to_string (a ∷ []) = letter (a / 4) ∷ letter (a % 4 * 16) ∷ 61 ∷ 61 ∷ []
encode_to_string (a ∷ b ∷ []) =
    letter (a / 4) ∷ letter (a % 4 * 16 + b / 16) ∷ letter (b % 16 * 4) ∷ 61 ∷ []
encode_to_string (a ∷ b ∷ c ∷ rest) =
    letter (a / 4)
    ∷ letter (a % 4 * 16 + b / 16)
    ∷ letter (b % 16 * 4 + c / 64)
    ∷ letter (c % 64)
    ∷ encode_to_string rest

-- the bytes of a group with two, one or no signs of padding; bits that are left over are dropped
abbrev pub one_byte : Option ℕ → Option ℕ → Option (List ℕ)
one_byte (some w) (some x) = some ((w * 4 + x / 16) ∷ [])
one_byte _ _ = none

abbrev pub two_bytes : Option ℕ → Option ℕ → Option ℕ → Option (List ℕ)
two_bytes (some w) (some x) (some y) = some ((w * 4 + x / 16) ∷ (x % 16 * 16 + y / 4) ∷ [])
two_bytes _ _ _ = none

abbrev pub three_bytes :
    Option ℕ → Option ℕ → Option ℕ → Option ℕ → Option (List ℕ) → Option (List ℕ)
three_bytes (some w) (some x) (some y) (some z) (some rest) =
    some ((w * 4 + x / 16) ∷ (x % 16 * 16 + y / 4) ∷ (y % 4 * 64 + z) ∷ rest)
three_bytes _ _ _ _ _ = none

-- what stands after the padding must be nothing
abbrev pub if_last : List ℕ → Option (List ℕ) → Option (List ℕ)
if_last [] bytes = bytes
if_last (_ ∷ _) bytes = none

unfoldable pub decode_groups : List ℕ → Option (List ℕ)
decode_groups [] = some []
decode_groups (w ∷ x ∷ y ∷ z ∷ rest) =
    let later = decode_groups rest in
    if z == 61
    then if_last rest (
        if y == 61
        then one_byte (six_bits w) (six_bits x)
        else two_bytes (six_bits w) (six_bits x) (six_bits y))
    else three_bytes (six_bits w) (six_bits x) (six_bits y) (six_bits z) later
decode_groups _ = none

-- line breaks are skipped
unfoldable pub drop_breaks : List ℕ → List ℕ
drop_breaks [] = []
drop_breaks (c ∷ cs) = let rest = drop_breaks cs in if c == 10 || c == 13 then rest else c ∷ rest

unfoldable pub decode_string : List ℕ → Option (List ℕ)
unfolding decode_groups drop_breaks
decode_string cs = decode_groups (drop_breaks cs)

six_bits-letter : (n : ℕ) → n < 64 → six_bits (letter n) ≡ some n
six_bits-letter n h = ground arith

letter_plain : (n : ℕ) → ((letter n == 61) ≡ false) × ((letter n == 10 || letter n == 13) ≡ false)
letter_plain n = (ground arith, ground arith)

drop_breaks-encode_to_string :
    (bs : List ℕ) → drop_breaks (encode_to_string bs) ≡ encode_to_string bs
unfolding encode_to_string drop_breaks
drop_breaks-encode_to_string [] = refl
drop_breaks-encode_to_string (a ∷ []) =
    rw ((letter_plain (a / 4)).1, (letter_plain (a % 4 * 16)).1) refl
drop_breaks-encode_to_string (a ∷ b ∷ []) =
    rw
      (
        (letter_plain (a / 4)).1,
        (letter_plain (a % 4 * 16 + b / 16)).1,
        (letter_plain (b % 16 * 4)).1,
      )
      refl
drop_breaks-encode_to_string (a ∷ b ∷ c ∷ rest) =
    rw
      (
        (letter_plain (a / 4)).1,
        (letter_plain (a % 4 * 16 + b / 16)).1,
        (letter_plain (b % 16 * 4 + c / 64)).1,
        (letter_plain (c % 64)).1,
        drop_breaks-encode_to_string rest,
      )
      refl

-- Bytes
abbrev pub AreBytes : List ℕ → Type 0
AreBytes = All (λ b. b < 256)

first_byte : (a x : ℕ) → x < 16 → a / 4 * 4 + (a % 4 * 16 + x) / 16 ≡ a
first_byte a x h = omega arith

second_byte :
    (a b x : ℕ) → x < 4 → b < 256 → (a % 4 * 16 + b / 16) % 16 * 16 + (b % 16 * 4 + x) / 4 ≡ b
second_byte a b x h k = omega arith

third_byte : (b c : ℕ) → c < 256 → (b % 16 * 4 + c / 64) % 4 * 64 + c % 64 ≡ c
third_byte b c h = omega arith

-- What is encoded is decoded to the same bytes.
pub decode_groups-encode_to_string :
    (bs : List ℕ) → AreBytes bs → decode_groups (encode_to_string bs) ≡ some bs
unfolding encode_to_string decode_groups
decode_groups-encode_to_string [] h = refl
decode_groups-encode_to_string (a ∷ []) h =
    rw (six_bits-letter (a / 4) (omega (arith, h.0)), six_bits-letter (a % 4 * 16) (omega arith))
      (ap (λ x. some (x ∷ [])) (single a))
  where
    single : (a : ℕ) → a / 4 * 4 + a % 4 * 16 / 16 ≡ a
    single a = omega arith
decode_groups-encode_to_string (a ∷ b ∷ []) h =
    rw
      (
        (letter_plain (b % 16 * 4)).0,
        six_bits-letter (a / 4) (omega (arith, h.0)),
        six_bits-letter (a % 4 * 16 + b / 16) (omega (arith, h.1.0)),
        six_bits-letter (b % 16 * 4) (omega arith),
        first_byte a (b / 16) (omega (arith, h.1.0)),
      )
      (ap (λ x. some (a ∷ x ∷ [])) (double a b h.1.0))
  where
    double : (a b : ℕ) → b < 256 → (a % 4 * 16 + b / 16) % 16 * 16 + b % 16 * 4 / 4 ≡ b
    double a b h = omega arith
decode_groups-encode_to_string (a ∷ b ∷ c ∷ rest) h =
    rw
      (
        (letter_plain (c % 64)).0,
        six_bits-letter (a / 4) (omega (arith, h.0)),
        six_bits-letter (a % 4 * 16 + b / 16) (omega (arith, h.1.0)),
        six_bits-letter (b % 16 * 4 + c / 64) (omega (arith, h.1.1.0)),
        six_bits-letter (c % 64) (omega arith),
        decode_groups-encode_to_string rest h.1.1.1,
        first_byte a (b / 16) (omega (arith, h.1.0)),
        second_byte a b (c / 64) (omega (arith, h.1.1.0)) h.1.0,
        third_byte b c h.1.1.0,
      )
      refl

pub decode_string-encode_to_string :
    (bs : List ℕ) → AreBytes bs → decode_string (encode_to_string bs) ≡ some bs
unfolding decode_string
decode_string-encode_to_string bs h =
    rw (drop_breaks-encode_to_string bs) (decode_groups-encode_to_string bs h)
