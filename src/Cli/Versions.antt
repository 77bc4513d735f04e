-- ===== src/Cli/Versions.antt =====
-- The versions' folders that the operator writes and the tool reads.
use Prim.Native.Char.{code}
use Prim.Native.Nat.{◌*◌, ◌/◌, ◌%◌}
use text.Mathlib.TextLemmas.{cons-append, nil-append}
use quorum_based_manifests_g.Common.{
  max_int, ℕ, zero, suc, ◌+◌, ◌-◌, ◌≤◌, ◌<◌, ltb, pos, true, false, some, String, ◌+++◌, ◌≡◌, refl,
  ap, ◌∙◌, arith, Bool-cases, inl, inr,
}
use quorum_based_manifests_g.Repository.Folders.{digit, digits, decimal, version_folder}
use quorum_based_manifests_g.Cli.Folders.{
  is_digit, read_digits, saturated, number_of, folder_number,
}

code-digit : (n : ℕ) → n < 10 → code (digit n) ≡ 48 + n
code-digit zero h = refl
code-digit (suc zero) h = refl
code-digit (suc (suc zero)) h = refl
code-digit (suc (suc (suc zero))) h = refl
code-digit (suc (suc (suc (suc zero)))) h = refl
code-digit (suc (suc (suc (suc (suc zero))))) h = refl
code-digit (suc (suc (suc (suc (suc (suc zero)))))) h = refl
code-digit (suc (suc (suc (suc (suc (suc (suc zero))))))) h = refl
code-digit (suc (suc (suc (suc (suc (suc (suc (suc zero)))))))) h = refl
code-digit (suc (suc (suc (suc (suc (suc (suc (suc (suc n))))))))) h = omega arith

read_digit :
    (d v : ℕ) (s : String)
    → d < 10
    → read_digits (String.◌∷◌ (digit d) s) v ≡ read_digits s (v * 10 + d)
unfolding read_digits
read_digit d v s h =
    let digits_only : is_digit (48 + d) ≡ true = ground arith in
    let value : v * 10 + (48 + d - 48) ≡ v * 10 + d = omega arith in
    rw (code-digit d h) (rw digits_only (ap (λ k. read_digits s k) value))

-- The digits of `n`, read from nothing, are `n`.
read-digits :
    (fuel n : ℕ) (s : String) → n < fuel → read_digits (digits fuel n s) 0 ≡ read_digits s n
unfolding digits
read-digits zero n s h = absurd (omega arith)
read-digits (suc fuel) n s h = elim (Bool-cases (ltb n 10)) [
  | inl one ↦
      rw one (read_digit (n % 10) 0 s (omega arith) ∙ ap (λ k. read_digits s k) (ground arith))
  | inr more ↦ rw more (
      read-digits fuel (n / 10) (String.◌∷◌ (digit (n % 10)) s) (ground arith)
      ∙ read_digit (n % 10) (n / 10) s (omega arith)
      ∙ ap (λ k. read_digits s k) (omega arith))
]

-- Digits are not the empty text.
number-digits :
    (fuel n d : ℕ) (s : String)
    → number_of (digits fuel n (String.◌∷◌ (digit d) s))
      ≡ saturated (read_digits (digits fuel n (String.◌∷◌ (digit d) s)) 0)
unfolding digits
number-digits zero n d s = refl
number-digits (suc fuel) n d s = elim (Bool-cases (ltb n 10)) [
  | inl one ↦ rw one refl
  | inr more ↦ rw more (number-digits fuel (n / 10) (n % 10) (String.◌∷◌ (digit d) s))
]

number-decimal : (n : ℕ) → number_of (decimal (pos n)) ≡ saturated (read_digits (decimal (pos n)) 0)
unfolding decimal
number-decimal n = elim (Bool-cases (ltb n 10)) [
  | inl one ↦ rw (one, digits) refl
  | inr more ↦ rw (more, digits) (number-digits n (n / 10) (n % 10) "")
]

read_decimal : (n : ℕ) → read_digits (decimal (pos n)) 0 ≡ some n
unfolding decimal read_digits
read_decimal n = read-digits (suc n) n "" (omega arith)

after_v : (s : String) → folder_number ("v_" +++ s) ≡ number_of s
unfolding folder_number
after_v s = rw cons-append (rw cons-append (rw nil-append refl))

-- The tool reads from the name of the folder of a version, as the operator writes it, that version,
-- if the version is at most the largest `int`.
pub folder_number-version_folder :
    (n : ℕ) → n ≤ max_int → folder_number (version_folder (pos n)) ≡ some n
unfolding version_folder
folder_number-version_folder n h =
    let small : ltb max_int n ≡ false = ground arith in
    after_v (decimal (pos n)) ∙ number-decimal n ∙ ap saturated (read_decimal n) ∙ rw small refl
