-- ===== src/Strings/Decimal.antt =====
-- Numbers that are written and read again: strconv.Itoa and strconv.Atoi, as src/joebot uses them.
use joebot.Prelude.{
  ℕ, zero, suc, ◌+◌, ◌-◌, ◌*◌, ◌/◌, ◌%◌, ◌≡◌, ◌≤◌, refl, sym, ap, ◌∙◌, inl, inr, true, false,
  Bool-cases, ltb, le→leb, ==_iff, [], ◌∷◌, ◌==◌, arith, All, has, some, GoString,
}
use joebot.Strings.{pos, is_digit, digits_value, max_int, atoi_digits, atoi, itoa_digits, itoa}

-- The number has at most as many digits.
abbrev Fits : ℕ → ℕ → Type 0
Fits zero n = n ≡ 0
Fits (suc fuel) n = Fits fuel (n / 10)

last_digit : (n : ℕ) → is_digit (48 + n % 10) ≡ true
last_digit n = ground arith

digits_value-step :
    (acc c : ℕ) (s : GoString)
    → is_digit c ≡ true
    → digits_value acc (c ∷ s) ≡ digits_value (acc * 10 + (c - 48)) s
unfolding digits_value
digits_value-step acc c s h = rw h refl

digits_value-itoa_digits :
    (fuel n : ℕ) (text : GoString)
    → Fits fuel n
    → digits_value 0 (itoa_digits fuel n text) ≡ digits_value n text
unfolding itoa_digits
digits_value-itoa_digits zero n text h = ap (λ k. digits_value k text) (sym h)
digits_value-itoa_digits (suc fuel) n text h = elim (Bool-cases (ltb n 10)) [
  | inl small ↦ rw small (
      digits_value-step 0 (48 + n) text (ground (arith, small))
      ∙ ap (λ k. digits_value k text) (omega arith))
  | inr large ↦ rw large (
      digits_value-itoa_digits fuel (n / 10) ((48 + n % 10) ∷ text) h
      ∙ digits_value-step (n / 10) (48 + n % 10) text (last_digit n)
      ∙ ap (λ k. digits_value k text) (omega arith))
]

abbrev AllDigits : GoString → Type 0
AllDigits s = All (λ c. is_digit c ≡ true) s

itoa_digits-AllDigits :
    (fuel n : ℕ) (text : GoString) → AllDigits text → AllDigits (itoa_digits fuel n text)
unfolding itoa_digits
itoa_digits-AllDigits zero n text h = h
itoa_digits-AllDigits (suc fuel) n text h = elim (Bool-cases (ltb n 10)) [
  | inl small ↦ rw small (ground (arith, small), h)
  | inr large ↦
      rw large (itoa_digits-AllDigits fuel (n / 10) ((48 + n % 10) ∷ text) (last_digit n, h))
]

-- What is written is not empty.
itoa_digits-cons :
    (fuel n d : ℕ) (text : GoString)
    → (c : ℕ) × (s : GoString) × (itoa_digits fuel n (d ∷ text) ≡ c ∷ s)
unfolding itoa_digits
itoa_digits-cons zero n d text = (d, text, refl)
itoa_digits-cons (suc fuel) n d text = elim (Bool-cases (ltb n 10)) [
  | inl small ↦ rw small (48 + n, d ∷ text, refl)
  | inr large ↦ rw large (itoa_digits-cons fuel (n / 10) (48 + n % 10) (d ∷ text))
]

itoa-cons : (n : ℕ) → (c : ℕ) × (s : GoString) × (itoa n ≡ c ∷ s)
unfolding itoa itoa_digits
itoa-cons n = elim (Bool-cases (ltb n 10)) [
  | inl small ↦ rw small (48 + n, [], refl)
  | inr large ↦ rw large (itoa_digits-cons 19 (n / 10) (48 + n % 10) [])
]

itoa-AllDigits : (n : ℕ) → AllDigits (itoa n)
unfolding itoa
itoa-AllDigits n = itoa_digits-AllDigits 20 n [] tt

AllDigits-has : (sep : ℕ) (s : GoString) → is_digit sep ≡ false → AllDigits s → has sep s ≡ false
AllDigits-has sep [] no_digit h = refl
AllDigits-has sep (c ∷ s) no_digit h =
    ground (arith, no_digit, h.0, AllDigits-has sep s no_digit h.1)

-- What is written has digits only.
pub has-itoa : (sep n : ℕ) → is_digit sep ≡ false → has sep (itoa n) ≡ false
has-itoa sep n no_digit = AllDigits-has sep (itoa n) no_digit (itoa-AllDigits n)

digit_first : (d sign : ℕ) → is_digit d ≡ true → is_digit sign ≡ false → (d == sign) ≡ false
digit_first d sign h no_digit = elim (Bool-cases (d == sign)) [
  | inl same ↦ absurd (ground (arith, h, no_digit, (==_iff d sign).0 same))
  | inr other ↦ other
]

atoi_digits-value :
    (d n : ℕ) (s : GoString)
    → digits_value 0 (d ∷ s) ≡ some n
    → n ≤ max_int
    → atoi_digits false (d ∷ s) ≡ (pos n, true)
unfolding atoi_digits
atoi_digits-value d n s value small = rw (value, le→leb n max_int small, atoi_digits) refl

-- A text of digits is read as their value.
atoi-digits :
    (s : GoString) (c n : ℕ) (rest : GoString)
    → s ≡ c ∷ rest
    → AllDigits s
    → digits_value 0 s ≡ some n
    → n ≤ max_int
    → atoi s ≡ (pos n, true)
unfolding atoi
atoi-digits [] c n rest e h value small = cc
atoi-digits (d ∷ s) c n rest e h value small =
    rw (digit_first d 45 h.0 refl, digit_first d 43 h.0 refl, atoi)
      (atoi_digits-value d n s value small)

Fits-int : (n : ℕ) → n ≤ max_int → Fits 20 n
Fits-int n h = omega arith

-- A number that fits in an int is read back from what is written for it.
pub atoi-itoa : (n : ℕ) → n ≤ max_int → atoi (itoa n) ≡ (pos n, true)
unfolding itoa
atoi-itoa n small =
    let (c, s, e) = itoa-cons n in
    atoi-digits (itoa n) c n s e (itoa-AllDigits n)
      (digits_value-itoa_digits 20 n [] (Fits-int n small) ∙ (unfold digits_value in refl)) small
