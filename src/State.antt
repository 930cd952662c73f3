-- ===== src/State.antt =====
-- Binary data in the serialised state: state_data_to_hex and state_hex_to_data of init/state.c.
-- Allocation is taken to succeed; a char is its value as an unsigned one.
mod Tests
use startup.Base.{
  ℕ, zero, suc, ◌+◌, ◌-◌, ◌*◌, ◌/◌, ◌%◌, ◌≤◌, ◌<◌, Bool, true, false, Option, none, some, List, [],
  ◌∷◌, ◌==◌, ◌&&◌, ◌||◌, ltb, leb, if◌then◌else◌, Str, length, ◌≡◌, refl, sym, ap, ◌∙◌, arith,
  Option-cases, Bool-cases, inl, inr,
}

-- What the functions return, or the failed assertion.
pub data Converted : Type 0 where
  converted : Str → Converted
  failure assertion_failed : Converted

-- The digits of "%02x".
unfoldable pub hex_digit : ℕ → ℕ
hex_digit n = if ltb n 10 then 48 + n else 87 + n

unfoldable pub to_hex : Str → Str
unfolding hex_digit
to_hex [] = []
to_hex (b ∷ bs) = hex_digit (b / 16) ∷ hex_digit (b % 16) ∷ to_hex bs

unfoldable pub state_data_to_hex : Str → Converted
unfolding to_hex
state_data_to_hex [] = assertion_failed
state_data_to_hex (b ∷ bs) = converted (to_hex (b ∷ bs))

-- The value of a digit of base 16, as strtol reads it.
unfoldable pub digit_value : ℕ → Option ℕ
digit_value c =
    if leb 48 c && leb c 57
    then some (c - 48)
    else if leb 97 c && leb c 102
    then some (c - 87)
    else if leb 65 c && leb c 70
    then some (c - 55)
    else none

abbrev is_space : ℕ → Bool
is_space c = c == 32 || (leb 9 c && leb c 13)

-- `strtol (str, &endptr, 16)` for the string of these two bytes, as a char; `none` where `*endptr` is
-- not NUL. A leading NUL ends the string at once; "0x" is the number 0 followed by an 'x'.
unfoldable pub read_pair : ℕ → ℕ → Option ℕ
unfolding digit_value
read_pair a b = if a == 0 then some 0 else elim (digit_value a) [
  | some high ↦
      if b == 0
      then some high
      else elim (digit_value b) [ some low ↦ some (16 * high + low) | none ↦ none ]
  | none ↦
      if is_space a || a == b'+'
      then digit_value b
      else if a == b'-'
      then elim (digit_value b) [ some low ↦ some ((256 - low) % 256) | none ↦ none ]
      else none
]

abbrev prepend : Option ℕ → Converted → Converted
prepend none rest = failure
prepend (some b) (converted bs) = converted (b ∷ bs)
prepend (some b) failure = failure
prepend (some b) assertion_failed = assertion_failed

-- The loop; a text of odd length is refused by an assertion before it.
unfoldable pub from_hex : Str → Converted
unfolding read_pair
from_hex [] = converted []
from_hex (a ∷ []) = assertion_failed
from_hex (a ∷ b ∷ hex) = prepend (read_pair a b) (from_hex hex)

unfoldable pub state_hex_to_data : Str → Converted
unfolding from_hex
state_hex_to_data [] = assertion_failed
state_hex_to_data (a ∷ hex) =
    if length (a ∷ hex) % 2 == 0 then from_hex (a ∷ hex) else assertion_failed

-- Every entry is a byte.
abbrev pub AreBytes : Str → Type 0
AreBytes [] = Unit {0}
AreBytes (b ∷ bs) = (b < 256) × AreBytes bs

digit_value-hex_digit : (n : ℕ) → n < 16 → digit_value (hex_digit n) ≡ some n
unfolding digit_value hex_digit
digit_value-hex_digit n h = ground arith

hex_digit-nonzero : (n : ℕ) → (hex_digit n == 0) ≡ false
unfolding hex_digit
hex_digit-nonzero n = ground arith

read_pair-hex_digit :
    (b : ℕ) → b < 256 → read_pair (hex_digit (b / 16)) (hex_digit (b % 16)) ≡ some b
unfolding read_pair
read_pair-hex_digit b h =
    let high = digit_value-hex_digit (b / 16) (omega arith) in
    let low = digit_value-hex_digit (b % 16) (omega arith) in
    let sum : 16 * (b / 16) + b % 16 ≡ b = omega arith in
    rw (hex_digit-nonzero (b / 16), high, hex_digit-nonzero (b % 16), low)
      (ap (λ (n : ℕ). some n) sum)

from_hex-to_hex : (bs : Str) → AreBytes bs → from_hex (to_hex bs) ≡ converted bs
unfolding from_hex to_hex
from_hex-to_hex [] h = refl
from_hex-to_hex (b ∷ bs) h = rw (read_pair-hex_digit b h.0, from_hex-to_hex bs h.1) refl

length-to_hex : (bs : Str) → length (to_hex bs) ≡ 2 * length bs
unfolding to_hex
length-to_hex [] = omega arith
length-to_hex (b ∷ bs) = omega (arith, length-to_hex bs)

-- Data that is not empty turns into hexadecimal text, from which the same bytes are read back.
pub state_hex_to_data-data_to_hex :
    (b : ℕ) (bs : Str)
    → AreBytes (b ∷ bs)
    → (hex : Str) × (state_data_to_hex (b ∷ bs) ≡ converted hex)
      × (state_hex_to_data hex ≡ converted (b ∷ bs))
unfolding state_hex_to_data state_data_to_hex to_hex
state_hex_to_data-data_to_hex b bs h =
    let even : (length (to_hex (b ∷ bs)) % 2 == 0) ≡ true =
      ground (arith, length-to_hex (b ∷ bs)) in
    (to_hex (b ∷ bs), refl, rw even (from_hex-to_hex (b ∷ bs) h))

converted-injective : (a b : Str) → converted a ≡ converted b → a ≡ b
converted-injective a b e = ap (λ (x : Converted). text_of x) e
  where
    text_of : Converted → Str
    text_of (converted s) = s
    text_of failure = []
    text_of assertion_failed = []

digit_value_bound : (c v : ℕ) → digit_value c ≡ some v → v < 16
unfolding digit_value
digit_value_bound c v h = ground arith

read_pair_bound : (a b v : ℕ) → read_pair a b ≡ some v → v < 256
unfolding read_pair
read_pair_bound a b v h = elim (Option-cases (digit_value a)) [
  | inr (x, ea) ↦ elim (Option-cases (digit_value b)) [
    | inr (y, eb) ↦
        ground
          (arith, rw (ea, eb, read_pair) at h, digit_value_bound a x ea, digit_value_bound b y eb)
    | inl eb ↦ ground (arith, rw (ea, eb, read_pair) at h, digit_value_bound a x ea)
  ]
  | inl ea ↦ elim (Option-cases (digit_value b)) [
    | inr (y, eb) ↦ ground (arith, rw (ea, eb, read_pair) at h, digit_value_bound b y eb)
    | inl eb ↦ ground (arith, rw (ea, eb, read_pair) at h)
  ]
]

prepend_inv :
    (v : Option ℕ) (r : Converted) (bytes : Str)
    → prepend v r ≡ converted bytes
    → (b : ℕ) × (bs : Str) × (v ≡ some b) × (r ≡ converted bs) × (bytes ≡ b ∷ bs)
prepend_inv none r bytes h = cc
prepend_inv (some b) (converted bs) bytes h =
    (b, bs, refl, refl, sym (converted-injective (b ∷ bs) bytes h))
prepend_inv (some b) failure bytes h = cc
prepend_inv (some b) assertion_failed bytes h = cc

from_hex_bounds :
    (hex bytes : Str)
    → from_hex hex ≡ converted bytes
    → AreBytes bytes × (length hex ≡ 2 * length bytes)
unfolding from_hex
from_hex_bounds [] bytes h = rw (sym (converted-injective [] bytes h)) (tt, refl)
from_hex_bounds (a ∷ []) bytes h = cc
from_hex_bounds (a ∷ b ∷ hex) bytes h =
    let (v, bs, e, r, q) = prepend_inv (read_pair a b) (from_hex hex) bytes h in
    let (all, len) = from_hex_bounds hex bs r in rw q ((read_pair_bound a b v e, all), omega arith)

-- Whatever text state_hex_to_data accepts, even where it is not made of digits alone, gives one
-- byte for every two of its characters, each within the bounds of a byte.
pub state_hex_to_data_bounds :
    (hex bytes : Str)
    → state_hex_to_data hex ≡ converted bytes
    → AreBytes bytes × (length hex ≡ 2 * length bytes)
unfolding state_hex_to_data
state_hex_to_data_bounds [] bytes h = cc
state_hex_to_data_bounds (a ∷ hex) bytes h = elim (Bool-cases (length (a ∷ hex) % 2 == 0)) [
  | inl y ↦ from_hex_bounds (a ∷ hex) bytes (rw y at h)
  | inr n ↦ cc (rw n at h)
]
