-- ===== src/Numerals.antt =====
-- Reading back a decimal text (`strconv.ParseInt` of `strconv.Itoa`), with the trimming and splitting of texts without
-- white space or separators.
use mathlib.Core.List.{reverse-cons, reverse-reverse}
use hive_mind_fusion.Prelude.{
  ℕ, zero, suc, ◌+◌, ◌-◌, ◌*◌, ◌/◌, ◌%◌, ◌^◌, ◌≤◌, ◌<◌, ltb, Text, is_empty, spaces, trim_left,
  trim_right, trim_space, digits_before, decimal, digits_value, in_int64, parse_int, pos, false, [],
  ◌∷◌, some, reverse, All, All-append, ◌≡◌, refl, sym, ap, ◌∙◌, arith, Bool-cases, inl, inr,
}

abbrev pub IsDigit : ℕ → Type 0
IsDigit c = (48 ≤ c) × (c ≤ 57)

All-digits_before : (fuel n : ℕ) (s : Text) → All IsDigit s → All IsDigit (digits_before fuel n s)
unfolding digits_before
All-digits_before zero n s h = h
All-digits_before (suc fuel) n s h =
    let more =
      All-digits_before fuel (n / 10) ((b'0' + n % 10) ∷ s) ((omega arith, omega arith), h) in
    elim (Bool-cases (ltb n 10)) [
      | inl y ↦ rw y ((omega arith, ground (arith, y)), h)
      | inr m ↦ rw m more
    ]

pub All-decimal : (n : ℕ) → All IsDigit (decimal n)
unfolding decimal
All-decimal n = All-digits_before (suc n) n [] tt

is_empty-digits_before : (fuel n c : ℕ) (s : Text) → is_empty (digits_before fuel n (c ∷ s)) ≡ false
unfolding digits_before
is_empty-digits_before zero n c s = refl
is_empty-digits_before (suc fuel) n c s =
    let more = is_empty-digits_before fuel (n / 10) (b'0' + n % 10) (c ∷ s) in
    elim (Bool-cases (ltb n 10)) [ inl y ↦ rw y refl | inr m ↦ rw m more ]

pub is_empty-decimal : (n : ℕ) → is_empty (decimal n) ≡ false
unfolding decimal digits_before
is_empty-decimal n = elim (Bool-cases (ltb n 10)) [
  | inl y ↦ rw y refl
  | inr m ↦ rw m (is_empty-digits_before n (n / 10) (b'0' + n % 10) [])
]

digits_value-step :
    (n c : ℕ) (s : Text) → IsDigit c → digits_value n (c ∷ s) ≡ digits_value (10 * n + (c - 48)) s
unfolding digits_value
digits_value-step n c s h = ground (arith, h)

digits_value-digits_before :
    (fuel n : ℕ) (s : Text) → n < fuel → digits_value 0 (digits_before fuel n s) ≡ digits_value n s
unfolding digits_before
digits_value-digits_before zero n s h = absurd (omega arith)
digits_value-digits_before (suc fuel) n s h = elim (Bool-cases (ltb n 10)) [
  | inl y ↦ rw y (
      digits_value-step 0 (b'0' + n) s (omega arith, ground (arith, y))
      ∙ ap (λ k. digits_value k s) (omega arith))
  | inr m ↦ rw m (
      digits_value-digits_before fuel (n / 10) ((b'0' + n % 10) ∷ s) (ground (arith, m, h))
      ∙ (digits_value-step (n / 10) (b'0' + n % 10) s (omega arith, omega arith)
          ∙ ap (λ k. digits_value k s) (omega arith)))
]

digits_value-decimal : (n : ℕ) → digits_value 0 (decimal n) ≡ some n
unfolding decimal digits_value
digits_value-decimal n = digits_value-digits_before (suc n) n [] (omega arith)

parse_int-digits :
    (t : Text) → All IsDigit t → is_empty t ≡ false → parse_int t ≡ in_int64 (digits_value 0 t)
unfolding parse_int
parse_int-digits [] h e = absurd (ground arith)
parse_int-digits (c ∷ s) (h, hs) e = ground (arith, h)

-- A number below 2^63 is read back.
pub parse_int-decimal : (n : ℕ) → n < 2 ^ 63 → parse_int (decimal n) ≡ some (pos n)
parse_int-decimal n h =
    parse_int-digits (decimal n) (All-decimal n) (is_empty-decimal n)
    ∙ (ap in_int64 (digits_value-decimal n) ∙ ground (arith, h))

pub All-reverse : (s : Text) → All IsDigit s → All IsDigit (reverse s)
All-reverse [] h = tt
All-reverse (c ∷ s) (h, hs) =
    rw (reverse-cons c s) (All-append IsDigit (reverse s) (c ∷ []) (All-reverse s hs) (h, tt))

trim_left-digits : (s : Text) → All IsDigit s → trim_left spaces s ≡ s
unfolding trim_left
trim_left-digits [] h = refl
trim_left-digits (c ∷ s) (h, hs) = ground (arith, h)

pub trim_space-digits : (s : Text) → All IsDigit s → trim_space s ≡ s
unfolding trim_space trim_right
trim_space-digits s h =
    let right : trim_right spaces s ≡ s =
      ap reverse (trim_left-digits (reverse s) (All-reverse s h)) ∙ reverse-reverse s in
    ap (trim_left spaces) right ∙ trim_left-digits s h

-- Numbers with the same text are equal.
pub decimal-injective : (m n : ℕ) → decimal m ≡ decimal n → m ≡ n
decimal-injective m n e =
    let both : some m ≡ some n =
      sym (digits_value-decimal m) ∙ (ap (digits_value 0) e ∙ digits_value-decimal n) in
    cc
