-- ===== src/Base/Decimal.antt =====
-- `Display` of a `u64`: its decimal digits. Twenty rounds are enough below 10 ^ 20.
use Prim.Native.Char.{Char, code}
use atomic_mesh.Base.{
  ℕ, zero, suc, ◌+◌, ◌-◌, ◌*◌, ◌/◌, ◌%◌, ◌^◌, ◌<◌, ◌≡◌, refl, sym, ◌∙◌, ap, inl, inr, arith, String,
  str_append, ◌==◌, if◌then◌else◌, Bool-cases, nat_eq, true,
}
use native.Mathlib.Nat.{pow-suc}

digit_char : ℕ → Char
digit_char zero = "0"
digit_char (suc zero) = "1"
digit_char (suc (suc zero)) = "2"
digit_char (suc (suc (suc zero))) = "3"
digit_char (suc (suc (suc (suc zero)))) = "4"
digit_char (suc (suc (suc (suc (suc zero))))) = "5"
digit_char (suc (suc (suc (suc (suc (suc zero)))))) = "6"
digit_char (suc (suc (suc (suc (suc (suc (suc zero))))))) = "7"
digit_char (suc (suc (suc (suc (suc (suc (suc (suc zero)))))))) = "8"
digit_char _ = "9"

digits : ℕ → ℕ → String → String
unfolding digit_char
digits zero n out = out
digits (suc f) n out =
    let next = String.◌∷◌ (digit_char (n % 10)) out in
    let rest = digits f (n / 10) next in if n / 10 == 0 then next else rest

unfoldable pub show_u64 : ℕ → String
unfolding digits
show_u64 n = digits 20 n String.[]

-- The number that a text of digits stands for, after the number `acc`.
read : ℕ → String → ℕ
read acc String.[] = acc
read acc (String.◌∷◌ c s) = read (acc * 10 + (code c - 48)) s

code-digit_char : (d : ℕ) → d < 10 → code (digit_char d) - 48 ≡ d
unfolding digit_char
code-digit_char zero h = refl
code-digit_char (suc zero) h = refl
code-digit_char (suc (suc zero)) h = refl
code-digit_char (suc (suc (suc zero))) h = refl
code-digit_char (suc (suc (suc (suc zero)))) h = refl
code-digit_char (suc (suc (suc (suc (suc zero))))) h = refl
code-digit_char (suc (suc (suc (suc (suc (suc zero)))))) h = refl
code-digit_char (suc (suc (suc (suc (suc (suc (suc zero))))))) h = refl
code-digit_char (suc (suc (suc (suc (suc (suc (suc (suc zero)))))))) h = refl
code-digit_char (suc (suc (suc (suc (suc (suc (suc (suc (suc zero))))))))) h = refl
code-digit_char (suc (suc (suc (suc (suc (suc (suc (suc (suc (suc d)))))))))) h =
    absurd (omega arith)

read-digit :
    (acc n : ℕ) (s : String)
    → read acc (String.◌∷◌ (digit_char (n % 10)) s) ≡ read (acc * 10 + n % 10) s
unfolding read
read-digit acc n s = ap (λ d. read (acc * 10 + d) s) (code-digit_char (n % 10) (omega arith))

small : (n : ℕ) → n < 10 ^ 1 → (n / 10 == 0) ≡ true
small n h = ground arith

read-digits : (f n : ℕ) (s : String) → n < 10 ^ suc f → read 0 (digits (suc f) n s) ≡ read n s
unfolding digits
read-digits zero n s h = rw (small n h) (read-digit 0 n s ∙ ap (λ k. read k s) (omega arith))
read-digits (suc f) n s h = elim (Bool-cases (n / 10 == 0)) [
  | inl t ↦ rw t (read-digit 0 n s ∙ ap (λ k. read k s) (ground arith))
  | inr e ↦ rw e (
      read-digits f (n / 10) _ (omega (arith, pow-suc 10 (suc f)))
      ∙ read-digit (n / 10) n s
      ∙ ap (λ k. read k s) (omega arith))
]

-- Different numbers are shown differently.
pub show_u64-injective : (m n : ℕ) → m < 2 ^ 64 → n < 2 ^ 64 → show_u64 m ≡ show_u64 n → m ≡ n
unfolding show_u64 read
show_u64-injective m n hm hn e =
    sym (read-digits 19 m String.[] (omega arith))
    ∙ ap (read 0) e
    ∙ read-digits 19 n String.[] (omega arith)

show_u64_example : show_u64 1042 ≡ "1042"
unfolding show_u64
show_u64_example = refl

-- The code of a text's first character.
abbrev pub head_code : String → ℕ
head_code String.[] = 0
head_code (String.◌∷◌ c s) = code c

head_code-digits : (f n : ℕ) (out : String) → head_code out < 58 → head_code (digits f n out) < 58
unfolding digits
head_code-digits zero n out h = h
head_code-digits (suc f) n out h =
    let next : String = String.◌∷◌ (digit_char (n % 10)) out in
    let digit : head_code next < 58 = omega (arith, code-digit_char (n % 10) (omega arith)) in
    elim (Bool-cases (n / 10 == 0)) [
      | inl done ↦ rw done digit
      | inr more ↦ rw more (head_code-digits f (n / 10) next digit)
    ]

head_code-append :
    (s t : String) → head_code s < 58 → head_code t < 58 → head_code (str_append s t) < 58
head_code-append String.[] t h k = k
head_code-append (String.◌∷◌ c s) t h k = h

-- A number with a text behind it starts with a digit.
pub head_code-show_u64 :
    (n : ℕ) (t : String) → head_code t < 58 → head_code (str_append (show_u64 n) t) < 58
unfolding show_u64
head_code-show_u64 n t h =
    head_code-append (digits 20 n String.[]) t (head_code-digits 20 n String.[] (omega arith)) h
