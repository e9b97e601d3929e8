-- ===== src/Text/Decimal/RoundTrip.antt =====
-- Printing a number and reading it back.
use xray_vless_ws_go.Base.{
  ℕ, zero, suc, ◌+◌, ◌/◌, ◌%◌, ◌≤◌, ◌<◌, ◌≡◌, ◌≢◌, refl, [], ◌∷◌, some, arith, Bytes, All,
}
use xray_vless_ws_go.Text.Decimal.{
  ℤ, pos, negsuc, put_digits, itoa, format_int, read_digits, read_unsigned, int_limit, atoi,
}

abbrev pub IsDigit : ℕ → Type 0
IsDigit c = (b'0' ≤ c) × (c ≤ b'9')

All-put_digits : (f n : ℕ) (out : Bytes) → All IsDigit out → All IsDigit (put_digits f n out)
unfolding put_digits
All-put_digits zero n out h = h
All-put_digits (suc f) n out h =
    ground (arith, h, All-put_digits f (n / 10) ((b'0' + n % 10) ∷ out))

-- A printed number is digits only.
pub itoa-IsDigit : (n : ℕ) → All IsDigit (itoa n)
unfolding itoa
itoa-IsDigit n = All-put_digits (suc n) n [] tt

read_last : (n : ℕ) (out : Bytes) → read_digits ((b'0' + n % 10) ∷ out) (n / 10) ≡ read_digits out n
unfolding read_digits
read_last n out = ground arith

read_single :
    (n : ℕ) (out : Bytes) → n < 10 → read_digits ((b'0' + n % 10) ∷ out) 0 ≡ read_digits out n
unfolding read_digits
read_single n out h = ground arith

read_digits-put_digits :
    (f n : ℕ) (out : Bytes) → n < f → read_digits (put_digits f n out) 0 ≡ read_digits out n
unfolding put_digits
read_digits-put_digits zero n out h = absurd (omega arith)
read_digits-put_digits (suc f) n out h = ground (
  arith,
  read_last n out,
  read_single n out,
  read_digits-put_digits f (n / 10) ((b'0' + n % 10) ∷ out),
)

put_digits-ne-nil : (f n : ℕ) (c : ℕ) (out : Bytes) → put_digits f n (c ∷ out) ≢ []
unfolding put_digits
put_digits-ne-nil zero n c out = cc
put_digits-ne-nil (suc f) n c out =
    ground (arith, put_digits-ne-nil f (n / 10) (b'0' + n % 10) (c ∷ out))

itoa-ne-nil : (n : ℕ) → itoa n ≢ []
unfolding itoa put_digits
itoa-ne-nil n = ground (arith, put_digits-ne-nil n (n / 10) (b'0' + n % 10) [])

read_unsigned-digits : (s : Bytes) → s ≢ [] → read_unsigned s ≡ read_digits s 0
unfolding read_unsigned
read_unsigned-digits [] h = absurd (h refl)
read_unsigned-digits (c ∷ s) h = refl

read_unsigned-itoa : (n : ℕ) → read_unsigned (itoa n) ≡ some n
unfolding itoa read_digits
read_unsigned-itoa n =
    rw (read_unsigned-digits _ (itoa-ne-nil n))
      (ground (arith, read_digits-put_digits (suc n) n []))

-- A text that starts with a digit is read without a sign.
atoi-digits :
    (s : Bytes) (n : ℕ)
    → All IsDigit s
    → read_unsigned s ≡ some n
    → n < int_limit
    → atoi s ≡ some (pos n)
unfolding atoi
atoi-digits [] n d r h = unfold read_unsigned in cc
atoi-digits (c ∷ s) n d r h = ground arith

-- A printed integer in the range of a 64-bit int is read back as itself.
pub atoi-itoa : (n : ℕ) → n < int_limit → atoi (itoa n) ≡ some (pos n)
atoi-itoa n h = atoi-digits (itoa n) n (itoa-IsDigit n) (read_unsigned-itoa n) h

pub atoi-format_int-negsuc :
    (n : ℕ) → n < int_limit → atoi (format_int (negsuc n)) ≡ some (negsuc n)
unfolding atoi format_int
atoi-format_int-negsuc n h = ground (arith, read_unsigned-itoa (suc n))

-- Whatever `Atoi` accepts lies in the range of a 64-bit int.
abbrev pub IsInt64 : ℤ → Type 0
IsInt64 (pos n) = n < int_limit
IsInt64 (negsuc n) = n < int_limit

pub atoi-IsInt64 : (s : Bytes) {z : ℤ} → atoi s ≡ some z → IsInt64 z
unfolding atoi
atoi-IsInt64 [] h = cc
atoi-IsInt64 (c ∷ s) {z = pos n} h = ground arith
atoi-IsInt64 (c ∷ s) {z = negsuc n} h = ground arith
