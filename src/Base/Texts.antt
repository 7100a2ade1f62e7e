-- ===== src/Base/Texts.antt =====
-- Text as code points: names, ids and the small parsers walk it. `None` and absent keys are options.
use kelpflux.Base.Tests.{if◌then◌else◌, ◌==◌, ltb, leb, Bool-cases}
use Prim.Native.Nat.{ℕ, zero, suc, ◌+◌, ◌-◌, ◌*◌, ◌<◌, ◌/◌, ◌%◌}
use Prim.Native.Char.{code}
use Prim.Native.String.{String}
use mathlib.Core.Path.{◌≡◌, refl, ap, ◌∙◌}
use mathlib.Core.Logic.{◌↔◌, ◌⊎◌, inl, inr}
use mathlib.Core.Bool.{Bool, true, false, ◌&&◌, ◌||◌}
use mathlib.Core.Option.{Option, none, some}
use mathlib.Core.List.{List, [], ◌∷◌, ◌++◌, reverse}
use native.Mathlib.Omega.{arith}

abbrev pub Text : Type 0
Text = List ℕ

-- A literal, in tests and for the source's own constants.
abbrev pub codes : String → Text
codes String.[] = []
codes (String.◌∷◌ c s) = code c ∷ codes s

unfoldable pub text_eq : Text → Text → Bool
text_eq [] [] = true
text_eq [] (d ∷ t) = false
text_eq (c ∷ s) [] = false
text_eq (c ∷ s) (d ∷ t) = c == d && text_eq s t

pub text_eq_iff : (s t : Text) → (text_eq s t ≡ true) ↔ (s ≡ t)
unfolding text_eq
text_eq_iff [] [] = ground arith
text_eq_iff [] (d ∷ t) = ground arith
text_eq_iff (c ∷ s) [] = ground arith
text_eq_iff (c ∷ s) (d ∷ t) = ground (arith, text_eq_iff s t)

pub text_eq_self : (s : Text) → text_eq s s ≡ true
text_eq_self s = (text_eq_iff s s).1 refl

-- Python's `<` on strings, by code point.
unfoldable pub text_le : Text → Text → Bool
text_le [] t = true
text_le (c ∷ s) [] = false
text_le (c ∷ s) (d ∷ t) = ltb c d || (c == d && text_le s t)

pub text_le_total : (s t : Text) → (text_le s t ≡ true) ⊎ (text_le t s ≡ true)
unfolding text_le
text_le_total [] t = inl refl
text_le_total (c ∷ s) [] = inr refl
text_le_total (c ∷ s) (d ∷ t) = ground (arith, text_le_total s t)

pub text_le_trans : (s t u : Text) → text_le s t ≡ true → text_le t u ≡ true → text_le s u ≡ true
unfolding text_le
text_le_trans [] t u h k = refl
text_le_trans (c ∷ s) [] u h k = ground arith
text_le_trans (c ∷ s) (d ∷ t) [] h k = ground arith
text_le_trans (c ∷ s) (d ∷ t) (e ∷ u) h k = ground (arith, text_le_trans s t u)

-- s.startswith(p)
unfoldable pub starts_with : Text → Text → Bool
starts_with s [] = true
starts_with [] (d ∷ p) = false
starts_with (c ∷ s) (d ∷ p) = c == d && starts_with s p

-- x in xs
unfoldable pub mem_text : Text → List Text → Bool
mem_text k [] = false
mem_text k (x ∷ xs) = text_eq k x || mem_text k xs

-- str(n); the fuel n + 1 covers every digit, since a division by ten makes a positive number smaller.
digits_acc : ℕ → ℕ → Text → Text
digits_acc zero n acc = acc
digits_acc (suc f) n acc =
    let rest = digits_acc f (n / 10) ((b'0' + n % 10) ∷ acc) in
    if ltb n 10 then (b'0' + n) ∷ acc else rest

unfoldable pub show_nat : ℕ → Text
unfolding digits_acc
show_nat n = digits_acc (suc n) n []

abbrev pub is_space : ℕ → Bool
is_space c = (leb 9 c && leb c 13) || (leb 28 c && leb c 32)

unfoldable pub strip_left : Text → Text
strip_left [] = []
strip_left (c ∷ s) = if is_space c then strip_left s else c ∷ s

-- s.strip(), over ASCII text
unfoldable pub strip : Text → Text
unfolding strip_left
strip s = reverse (strip_left (reverse (strip_left s)))

abbrev pub push_head : ℕ → List Text → List Text
push_head c [] = (c ∷ []) ∷ []
push_head c (part ∷ parts) = (c ∷ part) ∷ parts

-- s.split(sep), for a separator of one character: never empty
unfoldable pub split_on : ℕ → Text → List Text
split_on sep [] = [] ∷ []
split_on sep (c ∷ s) = if c == sep then [] ∷ split_on sep s else push_head c (split_on sep s)

-- s.split(sep, n), for a separator of one character: at most n splits
unfoldable pub split_at_most : ℕ → ℕ → Text → List Text
split_at_most sep n [] = [] ∷ []
split_at_most sep n (c ∷ s) =
    let cut = c == sep && ltb 0 n in
    let parts = split_at_most sep (if cut then n - 1 else n) s in
    if cut then [] ∷ parts else push_head c parts

-- p in s, for texts
unfoldable pub contains : Text → Text → Bool
unfolding starts_with
contains p [] = starts_with [] p
contains p (c ∷ s) = starts_with (c ∷ s) p || contains p s

abbrev pub is_line_break : ℕ → Bool
is_line_break c = (leb 10 c && leb c 13) || (leb 28 c && leb c 30)

-- s.splitlines(), over ASCII text, where blank lines do not matter: "\r\n" ends two lines here, and a
-- last blank line is kept.
unfoldable pub lines_of : Text → List Text
lines_of [] = [] ∷ []
lines_of (c ∷ s) = if is_line_break c then [] ∷ lines_of s else push_head c (lines_of s)

-- s[n:]
abbrev pub drop {ℓ} : {A : Type ℓ} → ℕ → List A → List A
drop zero xs = xs
drop (suc n) [] = []
drop (suc n) (x ∷ xs) = drop n xs

abbrev pub is_digit : ℕ → Bool
is_digit c = leb b'0' c && leb c b'9'

-- int of a text's leading digits, on top of what stands before them
unfoldable pub number_from : ℕ → Text → ℕ
number_from n [] = n
number_from n (c ∷ s) = if is_digit c then number_from (n * 10 + (c - b'0')) s else n

unfoldable pub starts_with_digit : Text → Bool
starts_with_digit [] = false
starts_with_digit (c ∷ s) = is_digit c

-- The regular expression (\d+) at the front of a text, over ASCII digits.
unfoldable pub leading_number : Text → Option ℕ
unfolding number_from starts_with_digit
leading_number s = if starts_with_digit s then some (number_from 0 s) else none

digits_acc-starts : (f n : ℕ) (acc : Text) → n < f → starts_with_digit (digits_acc f n acc) ≡ true
unfolding digits_acc starts_with_digit
digits_acc-starts zero n acc h = absurd (omega (arith, h))
digits_acc-starts (suc f) n acc h = elim (Bool-cases (ltb n 10)) [
  | inl e ↦ rw e (ground (arith, e))
  | inr e ↦ rw e (digits_acc-starts f (n / 10) _ (ground (arith, e, h)))
]

is_digit_code : (d : ℕ) → d < 10 → is_digit (b'0' + d) ≡ true
is_digit_code d h = ground (arith, h)

number_from_digit :
    (m d : ℕ) (acc : Text)
    → d < 10
    → number_from m ((b'0' + d) ∷ acc) ≡ number_from (m * 10 + d) acc
unfolding number_from
number_from_digit m d acc h =
    let minus : b'0' + d - b'0' ≡ d = omega arith in rw (is_digit_code d h, minus) refl

number_from-digits_acc :
    (f n : ℕ) (acc : Text) → n < f → number_from 0 (digits_acc f n acc) ≡ number_from n acc
unfolding digits_acc
number_from-digits_acc zero n acc h = absurd (omega (arith, h))
number_from-digits_acc (suc f) n acc h =
    let split : n / 10 * 10 + n % 10 ≡ n = omega arith in
    elim (Bool-cases (ltb n 10)) [
      | inl e ↦ rw e (
          number_from_digit 0 n acc (ground (arith, e)) ∙ ap (λ k. number_from k acc) (omega arith))
      | inr e ↦ rw e (
          number_from-digits_acc f (n / 10) _ (ground (arith, e, h))
          ∙ number_from_digit (n / 10) (n % 10) acc (omega arith)
          ∙ ap (λ k. number_from k acc) split)
    ]

digits_acc-append :
    (f n : ℕ) (acc rest : Text) → digits_acc f n acc ++ rest ≡ digits_acc f n (acc ++ rest)
unfolding digits_acc
digits_acc-append zero n acc rest = refl
digits_acc-append (suc f) n acc rest = elim (Bool-cases (ltb n 10)) [
  | inl e ↦ rw e refl
  | inr e ↦ rw e (digits_acc-append f (n / 10) _ rest)
]

number_from_end : (n : ℕ) (rest : Text) → starts_with_digit rest ≡ false → number_from n rest ≡ n
unfolding number_from starts_with_digit
number_from_end n [] h = refl
number_from_end n (c ∷ s) h = rw h refl

-- A printed number is read back, where no digit follows it.
pub leading_number-show_nat :
    (n : ℕ) (rest : Text)
    → starts_with_digit rest ≡ false
    → leading_number (show_nat n ++ rest) ≡ some n
unfolding leading_number show_nat
leading_number-show_nat n rest h =
    let glued : digits_acc (suc n) n [] ++ rest ≡ digits_acc (suc n) n rest =
      digits_acc-append (suc n) n [] rest in
    let digit_first : starts_with_digit (digits_acc (suc n) n rest) ≡ true =
      digits_acc-starts (suc n) n rest (omega arith) in
    let value : number_from 0 (digits_acc (suc n) n rest) ≡ n =
      number_from-digits_acc (suc n) n rest (omega arith) ∙ number_from_end n rest h in
    rw (glued, digit_first, value) refl
