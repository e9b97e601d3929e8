-- ===== src/Text/Decimal.antt =====
-- fmt's %d, strconv.Itoa, strconv.FormatInt and strconv.Atoi with its 64-bit int.
pub mod RoundTrip
use xray_vless_ws_go.Base.{
  ℕ, zero, suc, ◌+◌, ◌-◌, ◌*◌, ◌/◌, ◌%◌, ◌^◌, Bool, true, false, ◌||◌, [], ◌∷◌, Option, none, some,
  Bytes, codes, ◌≡◌, refl, ltb, ◌==◌, if◌then◌else◌,
}

-- `negsuc n` is -(n + 1).
pub data ℤ : Type 0 where
  pos : ℕ → ℤ
  negsuc : ℕ → ℤ

-- The digits of `n` in front of `out`; n + 1 rounds are enough, since n / 10 < n.
unfoldable pub put_digits : ℕ → ℕ → Bytes → Bytes
put_digits zero n out = out
put_digits (suc f) n out =
    let last = (b'0' + n % 10) ∷ out in
    let rest = put_digits f (n / 10) last in if ltb n 10 then last else rest

unfoldable pub itoa : ℕ → Bytes
unfolding put_digits
itoa n = put_digits (suc n) n []

unfoldable pub format_int : ℤ → Bytes
unfolding itoa
format_int (pos n) = itoa n
format_int (negsuc n) = b'-' ∷ itoa (suc n)

-- The number that digits spell behind `n`; `none` at a byte that is no digit.
unfoldable pub read_digits : Bytes → ℕ → Option ℕ
read_digits [] n = some n
read_digits (c ∷ s) n =
    if ltb c b'0' || ltb b'9' c then none else read_digits s (n * 10 + (c - b'0'))

-- At least one digit.
unfoldable pub read_unsigned : Bytes → Option ℕ
unfolding read_digits
read_unsigned [] = none
read_unsigned (c ∷ s) = read_digits (c ∷ s) 0

abbrev pub int_limit : ℕ
int_limit = 2 ^ 63

abbrev positive : Option ℕ → Option ℤ
positive none = none
positive (some n) = if ltb n int_limit then some (pos n) else none

abbrev negative : Option ℕ → Option ℤ
negative none = none
negative (some n) =
    if n == 0 then some (pos 0) else if ltb int_limit n then none else some (negsuc (n - 1))

-- strconv.Atoi and strconv.ParseInt(_, 10, 64): an optional sign, digits, and a range check. The
-- kind of the error is not told apart.
unfoldable pub atoi : Bytes → Option ℤ
unfolding read_unsigned
atoi [] = none
atoi (c ∷ s) =
    if c == b'-'
    then negative (read_unsigned s)
    else if c == b'+'
    then positive (read_unsigned s)
    else positive (read_unsigned (c ∷ s))

reads_signed : atoi (codes "-42") ≡ some (negsuc 41)
unfolding atoi
reads_signed = refl

refuses_overflow : atoi (codes "9223372036854775808") ≡ none
unfolding atoi
refuses_overflow = refl

prints : itoa 8080 ≡ codes "8080"
unfolding itoa
prints = refl
