-- ===== src/Exec.antt =====
-- Methods that change an object in place, call other systems and may return an error. What was
-- changed before the error stays changed.
use quorum_based_manifests_g.Common.{
  Result, ok, err, String, with_context, Bool, true, false, if◌then◌else◌,
}

abbrev pub Exec {ℓ} : Type ℓ → Type ℓ → Type ℓ
Exec S A = S → Result A × S

module _ {ℓ} {S A : Type ℓ} where
  unfoldable pub pure : A → Exec S A
  pure a s = (ok a, s)

  unfoldable pub raise : String → Exec S A
  raise e s = (err e, s)

module _ {ℓ} {S A B : Type ℓ} where
  abbrev pub continue : Result A × S → (A → Exec S B) → Result B × S
  continue (ok a, s) f = f a s
  continue (err e, s) f = (err e, s)

  infixl 10 ◌>>=◌ ◌>>◌
  unfoldable pub ◌>>=◌ : Exec S A → (A → Exec S B) → Exec S B
  unfolding pure raise
  ◌>>=◌ m f s = continue (m s) f

  abbrev pub ◌>>◌ : Exec S A → Exec S B → Exec S B
  m >> n = m >>= λ _. n

module _ {S A : Type 0} where
  abbrev pub in_context : String → Result A × S → Result A × S
  in_context context (ok a, s) = (ok a, s)
  in_context context (err e, s) = (err (with_context context e), s)

  -- `if err := m; err != nil { return fmt.Errorf("context: %w", err) }`
  unfoldable pub wrapped : String → Exec S A → Exec S A
  wrapped context m s = in_context context (m s)

  abbrev pub caught : Result A × S → Result (Result A) × S
  caught (r, s) = (ok r, s)

  -- The value and the error of `m`, for the code that looks at both.
  unfoldable pub both : Exec S A → Exec S (Result A)
  both m s = caught (m s)

  abbrev pub ignored : Result A × S → Result (Unit {0}) × S
  ignored (r, s) = (ok tt, s)

  -- `_ = m`
  unfoldable pub ignore : Exec S A → Exec S (Unit {0})
  ignore m s = ignored (m s)

-- A triple: from a state with `P`, a result with `Q` or an error with `E`.
module _ {S A : Type 0} where
  abbrev pub Post : (A → S → Type 0) → (S → Type 0) → Result A × S → Type 0
  Post Q E (ok a, s) = Q a s
  Post Q E (err e, s) = E s

  pub record Triple (P : S → Type 0) (m : Exec S A) (Q : A → S → Type 0) (E : S → Type 0)
      : Type 0 where
    pub at : (s : S) → P s → Post Q E (m s)

module _ {S A B : Type 0} {E : S → Type 0} where
  bind-Post :
      {R : A → S → Type 0} {Q : B → S → Type 0} (f : A → Exec S B) (p : Result A × S)
      → Post R E p
      → ((a : A) → Triple (R a) (f a) Q E)
      → Post Q E (continue p f)
  bind-Post f (ok a, s) h k = (k a).at s h
  bind-Post f (err e, s) h k = h

  pub Triple-bind :
      {P : S → Type 0} {R : A → S → Type 0} {Q : B → S → Type 0} (m : Exec S A) (f : A → Exec S B)
      → Triple P m R E
      → ((a : A) → Triple (R a) (f a) Q E)
      → Triple P (m >>= f) Q E
  unfolding ◌>>=◌
  Triple-bind m f t k = record { at = λ s h. bind-Post f (m s) (t.at s h) k }

module _ {S A : Type 0} where
  pub Triple-pure : {P E : S → Type 0} (a : A) → Triple P (pure a) (λ _. P) E
  unfolding pure
  Triple-pure a = record { at = λ s h. h }

  pub Triple-raise : {P : S → Type 0} {Q : A → S → Type 0} (e : String) → Triple P (raise e) Q P
  unfolding raise
  Triple-raise e = record { at = λ s h. h }

  weaken-Post :
      {Q Q' : A → S → Type 0} {E E' : S → Type 0} (p : Result A × S)
      → Post Q E p
      → ((a : A) (s : S) → Q a s → Q' a s)
      → ((s : S) → E s → E' s)
      → Post Q' E' p
  weaken-Post (ok a, s) h q e = q a s h
  weaken-Post (err x, s) h q e = e s h

  pub Triple-weaken :
      {P P' : S → Type 0} {Q Q' : A → S → Type 0} {E E' : S → Type 0} (m : Exec S A)
      → Triple P m Q E
      → ((s : S) → P' s → P s)
      → ((a : A) (s : S) → Q a s → Q' a s)
      → ((s : S) → E s → E' s)
      → Triple P' m Q' E'
  Triple-weaken m t p q e = record { at = λ s h. weaken-Post (m s) (t.at s (p s h)) q e }

  wrapped-Post :
      (Q : A → S → Type 0) (E : S → Type 0) (c : String) (p : Result A × S)
      → Post Q E p
      → Post Q E (in_context c p)
  wrapped-Post Q E c (ok a, s) h = h
  wrapped-Post Q E c (err e, s) h = h

  pub Triple-wrapped :
      {P : S → Type 0} {Q : A → S → Type 0} {E : S → Type 0} (c : String) (m : Exec S A)
      → Triple P m Q E
      → Triple P (wrapped c m) Q E
  unfolding wrapped
  Triple-wrapped {Q} {E} c m t = record { at = λ s h. wrapped-Post Q E c (m s) (t.at s h) }

  both-Post : (R E : S → Type 0) (p : Result A × S) → Post (λ _. R) R p → Post (λ _. R) E (caught p)
  both-Post R E (ok a, s) h = h
  both-Post R E (err e, s) h = h

  pub Triple-both :
      {P R E : S → Type 0} (m : Exec S A) → Triple P m (λ _. R) R → Triple P (both m) (λ _. R) E
  unfolding both
  Triple-both {R} {E} m t = record { at = λ s h. both-Post R E (m s) (t.at s h) }

  ignore-Post :
      (R E : S → Type 0) (p : Result A × S) → Post (λ _. R) R p → Post (λ _. R) E (ignored p)
  ignore-Post R E (ok a, s) h = h
  ignore-Post R E (err e, s) h = h

  pub Triple-ignore :
      {P R E : S → Type 0} (m : Exec S A) → Triple P m (λ _. R) R → Triple P (ignore m) (λ _. R) E
  unfolding ignore
  Triple-ignore {R} {E} m t = record { at = λ s h. ignore-Post R E (m s) (t.at s h) }

  pub Triple-return :
      {P E : S → Type 0} {Q : A → S → Type 0} (a : A)
      → ((s : S) → P s → Q a s)
      → Triple P (pure a) Q E
  unfolding pure
  Triple-return a q = record { at = q }

  pub Triple-if :
      {P E : S → Type 0} {Q : A → S → Type 0} (b : Bool) (m n : Exec S A)
      → Triple P m Q E
      → Triple P n Q E
      → Triple P (if b then m else n) Q E
  Triple-if true m n tm tn = tm
  Triple-if false m n tm tn = tn
