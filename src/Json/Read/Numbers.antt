-- ===== src/Json/Read/Numbers.antt =====
-- Reading what `decimal` of Json.antt writes.
use Prim.Native.String.{[], ◌∷◌}
use native.Mathlib.Decide.{dec_lt}
use text.Mathlib.TextLemmas.{nil-append, cons-append}
use go_mcp_server.Base.{
  String, ◌<>◌, code, ℕ, ◌+◌, ◌-◌, ◌*◌, ◌/◌, ◌%◌, ◌<◌, suc, zero, true, false, some, ◌≡◌, refl, ap,
  ◌∙◌, arith, first_is,
}
use go_mcp_server.Json.{num, digits, decimal, decimal_digit}
use go_mcp_server.Json.Escapes.{is_digit}
use go_mcp_server.Json.Read.{
  value, alone, in_array, in_object, number, zeros, Around, push, step, read, result, begin_value,
  outcome,
}
use go_mcp_server.Json.Read.Strings.{read-step, Each-at}

abbrev IsDigitOf : ℕ → Type 0
IsDigitOf d = (is_digit (decimal_digit d) ≡ true) × (code (decimal_digit d) - b'0' ≡ d)

decimal_digit-IsDigitOf : (d : ℕ) → d < 10 → IsDigitOf d
decimal_digit-IsDigitOf d h =
    Each-at 10 IsDigitOf d
      (
        (refl, refl),
        (
          (refl, refl),
          (
            (refl, refl),
            (
              (refl, refl),
              (
                (refl, refl),
                ((refl, refl), ((refl, refl), ((refl, refl), ((refl, refl), ((refl, refl), tt))))),
              ),
            ),
          ),
        ),
      )
      h

begin_value-decimal_digit :
    (around : Around) (d : ℕ)
    → d < 9
    → begin_value (decimal_digit (suc d)) around ≡ some (number (suc d) around)
begin_value-decimal_digit around d h =
    Each-at 9 (λ n. begin_value (decimal_digit (suc n)) around ≡ some (number (suc n) around)) d
      (refl, (refl, (refl, (refl, (refl, (refl, (refl, (refl, (refl, tt))))))))) h

digits-append : (f n : ℕ) (a b : String) → digits f n a <> b ≡ digits f n (a <> b)
unfolding digits
digits-append zero n a b = refl
digits-append (suc f) n a b =
    let d = decimal_digit (n % 10) in
    ground (arith, cons-append d a b, digits-append f (n / 10) (d ∷ a) b)

read-first :
    (around : Around) (n : ℕ) (rest : String)
    → 0 < n
    → n < 10
    → read (value around) (decimal_digit (n % 10) ∷ rest) ≡ read (number n around) rest
unfolding read step
read-first around zero rest h k = absurd (omega (arith, h))
read-first around (suc d) rest h k =
    let same : suc d % 10 ≡ suc d = omega (arith, k) in
    let e = begin_value-decimal_digit around d (omega (arith, k)) in
    read-step (value around) (number (suc d) around) (decimal_digit (suc d % 10)) rest
      (ap (λ m. begin_value (decimal_digit m) around) same ∙ e)

read-next :
    (around : Around) (n : ℕ) (rest : String)
    → read (number (n / 10) around) (decimal_digit (n % 10) ∷ rest) ≡ read (number n around) rest
unfolding read step
read-next around n rest =
    let (is, back) = decimal_digit-IsDigitOf (n % 10) (omega arith) in
    let total : n / 10 * 10 + n % 10 ≡ n = omega arith in
    read-step (number (n / 10) around) (number n around) (decimal_digit (n % 10)) rest
      (rw (is, back, total) refl)

read-digits :
    (around : Around) (f n : ℕ) (rest : String)
    → 0 < n
    → n < f
    → read (value around) (digits f n rest) ≡ read (number n around) rest
unfolding digits
read-digits around zero n rest h k = absurd (omega (arith, k))
read-digits around (suc f) n rest h k = elim (dec_lt n 10) [
  | yes less ↦ ground (arith, read-first around n rest h less)
  | no more ↦
      let tens =
        read-digits around f (n / 10) (decimal_digit (n % 10) ∷ rest) (omega (arith, more))
          (omega (arith, h, k)) in
      ground (arith, tens, read-next around n rest)
]

-- Where no digit follows, a number ends.
outcome-number :
    (around : Around) (n : ℕ) (rest : String)
    → first_is is_digit rest ≡ false
    → outcome (number n around) rest ≡ outcome (push (num n) around) rest
unfolding read result step
outcome-number alone n [] h = refl
outcome-number (in_array items around) n [] h = refl
outcome-number (in_object fields key around) n [] h = refl
outcome-number alone n (c ∷ s) h = ground arith
outcome-number (in_array items around) n (c ∷ s) h = ground arith
outcome-number (in_object fields key around) n (c ∷ s) h = ground arith

outcome-zeros :
    (around : Around) (rest : String)
    → outcome (zeros around) rest ≡ outcome (push (num 0) around) rest
unfolding read result step
outcome-zeros alone [] = refl
outcome-zeros (in_array items around) [] = refl
outcome-zeros (in_object fields key around) [] = refl
outcome-zeros alone (c ∷ s) = refl
outcome-zeros (in_array items around) (c ∷ s) = refl
outcome-zeros (in_object fields key around) (c ∷ s) = refl

pub decimal_lem :
    (around : Around) (n : ℕ) (rest : String)
    → first_is is_digit rest ≡ false
    → outcome (value around) (decimal n <> rest) ≡ outcome (push (num n) around) rest
unfolding decimal digits step
decimal_lem around zero rest h =
    ap result (
      rw (cons-append (decimal_digit 0) [] rest, nil-append rest)
        (read-step (value around) (zeros around) (decimal_digit 0) rest refl))
    ∙ outcome-zeros around rest
decimal_lem around (suc n) rest h =
    let e =
      digits-append (suc (suc n)) (suc n) [] rest
      ∙ ap (digits (suc (suc n)) (suc n)) (nil-append rest) in
    ap (outcome (value around)) e
    ∙ ap result (read-digits around (suc (suc n)) (suc n) rest (omega arith) (omega arith))
    ∙ outcome-number around (suc n) rest h
