-- ===== src/Scst/Conf/Digits.antt =====
-- A number printed by `show` and read back by `Number.parseInt` after `\d+`.
use Prim.Native.Char.{Char, code}
use Prim.Native.String
use Prim.Native.String.{[], ◌∷◌}
use text.Mathlib.TextLemmas.{cons-append, nil-append, append-nil}
use esos_webui.Common.{
  Bool-cases, String, [], ap, arith, digit, false, inl, inr, is_blank, is_digit, is_space, refl,
  show, show_from, suc, true, zero, ℕ, ◌%◌, ◌*◌, ◌+◌, ◌-◌, ◌/◌, ◌<◌, ◌==◌, ◌∙◌, ◌∷◌, ◌≡◌, ◌⊎◌,
}
use esos_webui.Scst.Conf.Words.{digits_value, after_digits, begins_digit}
use esos_webui.Scst.Conf.Phrases.{solid, is_word}

digit-char : (n : ℕ) → n < 10 → (c : Char) × (digit n ≡ c ∷ "") × (code c ≡ b'0' + n)
unfolding digit
digit-char (zero) h = ("0", refl, refl)
digit-char (suc zero) h = ("1", refl, refl)
digit-char (suc (suc zero)) h = ("2", refl, refl)
digit-char (suc (suc (suc zero))) h = ("3", refl, refl)
digit-char (suc (suc (suc (suc zero)))) h = ("4", refl, refl)
digit-char (suc (suc (suc (suc (suc zero))))) h = ("5", refl, refl)
digit-char (suc (suc (suc (suc (suc (suc zero)))))) h = ("6", refl, refl)
digit-char (suc (suc (suc (suc (suc (suc (suc zero))))))) h = ("7", refl, refl)
digit-char (suc (suc (suc (suc (suc (suc (suc (suc zero)))))))) h = ("8", refl, refl)
digit-char (suc (suc (suc (suc (suc (suc (suc (suc (suc zero))))))))) h = ("9", refl, refl)
digit-char (suc (suc (suc (suc (suc (suc (suc (suc (suc (suc n)))))))))) h = absurd (omega arith)

module _ (n : ℕ) (s : String) (h : n < 10) where
  is_digit-code : is_digit (b'0' + n) ≡ true
  unfolding is_digit
  is_digit-code = ground arith

  digits_value-digit :
      (m : ℕ) → digits_value m (String.◌++◌ (digit n) s) ≡ digits_value (m * 10 + n) s
  unfolding digits_value
  digits_value-digit m =
      let (c, e, v) = digit-char n h in
      let value : m * 10 + (b'0' + n - b'0') ≡ m * 10 + n = omega arith in
      rw (e, cons-append, nil-append, v, is_digit-code, value) refl

  after_digits-digit : after_digits (String.◌++◌ (digit n) s) ≡ after_digits s
  unfolding after_digits
  after_digits-digit =
      let (c, e, v) = digit-char n h in rw (e, cons-append, nil-append, v, is_digit-code) refl

  begins_digit-digit : begins_digit (String.◌++◌ (digit n) s) ≡ true
  unfolding begins_digit
  begins_digit-digit = let (c, e, v) = digit-char n h in rw (e, cons-append, v) is_digit-code

  solid-digit : solid (String.◌++◌ (digit n) s) ≡ solid s
  unfolding solid is_space
  solid-digit =
      let (c, e, v) = digit-char n h in rw (e, cons-append, nil-append) (ground (arith, v, h))

begins_digit-blank : (s : String) → begins_digit s ≡ true → is_blank s ≡ false
unfolding begins_digit
begins_digit-blank [] h = absurd (ground arith)
begins_digit-blank (c ∷ s) h = refl

digits_value-show_from :
    (fuel n : ℕ) (s : String) → n < fuel → digits_value 0 (show_from fuel n s) ≡ digits_value n s
unfolding show_from
digits_value-show_from zero n s h = absurd (omega arith)
digits_value-show_from (suc fuel) n s h = elim (Bool-cases (n / 10 == 0)) [
  | inl e ↦
      let value : 0 * 10 + n % 10 ≡ n = ground arith in
      rw (e, digits_value-digit (n % 10) s (omega arith) 0, value) refl
  | inr e ↦
      let whole : n / 10 * 10 + n % 10 ≡ n = omega arith in
      rw e (
        digits_value-show_from fuel (n / 10) (String.◌++◌ (digit (n % 10)) s) (ground arith)
        ∙ digits_value-digit (n % 10) s (omega arith) (n / 10)
        ∙ ap (λ k. digits_value k s) whole)
]

after_digits-show_from :
    (fuel n : ℕ) (s : String) → after_digits (show_from fuel n s) ≡ after_digits s
unfolding show_from
after_digits-show_from zero n s = refl
after_digits-show_from (suc fuel) n s = elim (Bool-cases (n / 10 == 0)) [
  | inl e ↦ rw e (after_digits-digit (n % 10) s (omega arith))
  | inr e ↦ rw e (
      after_digits-show_from fuel (n / 10) (String.◌++◌ (digit (n % 10)) s)
      ∙ after_digits-digit (n % 10) s (omega arith))
]

solid-show_from : (fuel n : ℕ) (s : String) → solid (show_from fuel n s) ≡ solid s
unfolding show_from
solid-show_from zero n s = refl
solid-show_from (suc fuel) n s = elim (Bool-cases (n / 10 == 0)) [
  | inl e ↦ rw e (solid-digit (n % 10) s (omega arith))
  | inr e ↦ rw e (
      solid-show_from fuel (n / 10) (String.◌++◌ (digit (n % 10)) s)
      ∙ solid-digit (n % 10) s (omega arith))
]

begins_digit-show_from :
    (fuel n : ℕ) (s : String)
    → begins_digit s ≡ true ⊎ (0 < fuel)
    → begins_digit (show_from fuel n s) ≡ true
unfolding show_from
begins_digit-show_from zero n s (inl h) = h
begins_digit-show_from zero n s (inr h) = absurd (omega arith)
begins_digit-show_from (suc fuel) n s h = elim (Bool-cases (n / 10 == 0)) [
  | inl e ↦ rw e (begins_digit-digit (n % 10) s (omega arith))
  | inr e ↦ rw e (
      begins_digit-show_from fuel (n / 10) (String.◌++◌ (digit (n % 10)) s)
        (inl (begins_digit-digit (n % 10) s (omega arith))))
]

-- The text `s` may follow the number: `show_from` puts the digits before it.
show_from-append :
    (fuel n : ℕ) (s t : String)
    → String.◌++◌ (show_from fuel n s) t ≡ show_from fuel n (String.◌++◌ s t)
unfolding show_from
show_from-append zero n s t = refl
show_from-append (suc fuel) n s t =
    let moved = package.text.Mathlib.TextLemmas.append_assoc (digit (n % 10)) s t in
    elim (Bool-cases (n / 10 == 0)) [
      | inl e ↦ rw e moved
      | inr e ↦ rw e (
          show_from-append fuel (n / 10) (String.◌++◌ (digit (n % 10)) s) t
          ∙ ap (show_from fuel (n / 10)) moved)
    ]

module _ (n : ℕ) where
  pub show-append : (t : String) → String.◌++◌ (show n) t ≡ show_from (n + 1) n t
  unfolding show
  show-append t = show_from-append (n + 1) n "" t ∙ ap (show_from (n + 1) n) (nil-append t)

  pub digits_value-show :
      (t : String) → begins_digit t ≡ false → digits_value 0 (String.◌++◌ (show n) t) ≡ n
  unfolding digits_value begins_digit
  digits_value-show t h =
      rw (show-append t) (digits_value-show_from (n + 1) n t (omega arith) ∙ stop t h)
    where
      stop : (t : String) → begins_digit t ≡ false → digits_value n t ≡ n
      stop [] h = refl
      stop (c ∷ t) h = rw h refl

  pub after_digits-show :
      (t : String) → begins_digit t ≡ false → after_digits (String.◌++◌ (show n) t) ≡ t
  unfolding after_digits begins_digit
  after_digits-show t h = rw (show-append t) (after_digits-show_from (n + 1) n t ∙ stop t h)
    where
      stop : (t : String) → begins_digit t ≡ false → after_digits t ≡ t
      stop [] h = refl
      stop (c ∷ t) h = rw h refl

  pub begins_digit-show : (t : String) → begins_digit (String.◌++◌ (show n) t) ≡ true
  begins_digit-show t = rw (show-append t) (begins_digit-show_from (n + 1) n t (inr (omega arith)))

  pub is_word-show : is_word (show n) ≡ true
  unfolding is_word show
  is_word-show =
      rw
        (
          begins_digit-blank _ (begins_digit-show_from (n + 1) n "" (inr (omega arith))),
          solid-show_from (n + 1) n "",
        )
        refl
