-- ===== src/Endpoint/Number.antt =====
-- std::stoi of the standard library, as the endpoint parser calls it.
use o_walkie.Base.{
  ℕ, ℤ, pos, negsuc, ◌+◌, ◌-◌, ◌*◌, ◌^◌, ◌<◌, ◌≡◌, ◌≢◌, refl, Bool, true, false, ◌&&◌, ◌||◌, List,
  [], ◌∷◌, Option, none, some, All, ltb, leb, ◌==◌, if◌then◌else◌, arith,
}

-- isspace of the C locale
abbrev pub is_space : ℕ → Bool
is_space c = c == 32 || (leb 9 c && leb c 13)

abbrev pub is_digit : ℕ → Bool
is_digit c = leb b'0' c && leb c b'9'

skip_spaces : List ℕ → List ℕ
skip_spaces [] = []
skip_spaces (c ∷ s) = if is_space c then skip_spaces s else c ∷ s

-- The value of the digits that stand first, from a value read so far.
digits_value : ℕ → List ℕ → ℕ
digits_value acc [] = acc
digits_value acc (c ∷ s) = elim (is_digit c) [
  | true ↦ digits_value (acc * 10 + (c - b'0')) s
  | false ↦ acc
]

-- At least one digit, or std::invalid_argument.
magnitude : List ℕ → Option ℕ
magnitude [] = none
magnitude (c ∷ s) = if is_digit c then some (digits_value 0 (c ∷ s)) else none

-- Outside int, std::out_of_range.
negative : ℕ → Option ℤ
negative n = if n == 0 then some (pos 0) else if leb n (2 ^ 31) then some (negsuc (n - 1)) else none

positive : ℕ → Option ℤ
positive n = if ltb n (2 ^ 31) then some (pos n) else none

signed : List ℕ → Option ℤ
signed [] = none
signed (c ∷ s) =
    if c == b'-'
    then elim (magnitude s) [ none ↦ none | some n ↦ negative n ]
    else elim (magnitude (if c == b'+' then s else c ∷ s)) [ none ↦ none | some n ↦ positive n ]

-- std::stoi(s), none where it throws
pub stoi : List ℕ → Option ℤ
stoi s = signed (skip_spaces s)

-- The value of a text of digits, most significant first.
abbrev pub decimal_from : ℕ → List ℕ → ℕ
decimal_from acc [] = acc
decimal_from acc (c ∷ s) = decimal_from (acc * 10 + (c - b'0')) s

abbrev pub decimal : List ℕ → ℕ
decimal = decimal_from 0

abbrev pub IsDigits : List ℕ → Type 0
IsDigits = All (λ c. is_digit c ≡ true)

digits_value_lem : (acc : ℕ) (s : List ℕ) → IsDigits s → digits_value acc s ≡ decimal_from acc s
unfolding digits_value
digits_value_lem acc [] h = refl
digits_value_lem acc (c ∷ s) h = ground (arith, digits_value_lem (acc * 10 + (c - b'0')) s h.1)

magnitude_digits :
    (c : ℕ) (s : List ℕ) → IsDigits (c ∷ s) → magnitude (c ∷ s) ≡ some (decimal (c ∷ s))
unfolding magnitude
magnitude_digits c s h = ground (arith, digits_value_lem 0 (c ∷ s) h)

skip_spaces_digits : (c : ℕ) (s : List ℕ) → is_digit c ≡ true → skip_spaces (c ∷ s) ≡ c ∷ s
unfolding skip_spaces
skip_spaces_digits c s h = ground arith

signed_digits :
    (c : ℕ) (s : List ℕ)
    → IsDigits (c ∷ s)
    → decimal (c ∷ s) < 2 ^ 31
    → signed (c ∷ s) ≡ some (pos (decimal (c ∷ s)))
unfolding signed positive
signed_digits c s h lt = ground (arith, magnitude_digits c s h)

-- A text of digits whose value fits an int is read as that value.
pub stoi-decimal :
    (c : ℕ) (s : List ℕ)
    → IsDigits (c ∷ s)
    → decimal (c ∷ s) < 2 ^ 31
    → stoi (c ∷ s) ≡ some (pos (decimal (c ∷ s)))
unfolding stoi
stoi-decimal c s h lt = rw (skip_spaces_digits c s h.0) (signed_digits c s h lt)

-- A text that starts with neither a space nor a sign nor a digit is no number.
pub stoi-none :
    (c : ℕ) (s : List ℕ)
    → is_space c ≡ false
    → is_digit c ≡ false
    → c ≢ b'-'
    → c ≢ b'+'
    → stoi (c ∷ s) ≡ none
unfolding stoi skip_spaces signed magnitude
stoi-none c s h k m n = ground arith
