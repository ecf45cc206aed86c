-- ===== src/ControlPlane/Action.antt =====
-- How a handler of the control plane runs: it takes a state, and returns a value or an error with the
-- state that it leaves. Go's `if err != nil { return err }` is the bind of a `do` block.
use casper_vpn.Base.{Bool, true, false, ◌≡◌, refl, subst}
use casper_vpn.ControlPlane.Contracts.{Error, Result, ok, err}

abbrev pub Action : Type 0 → Type 0 → Type 0
Action S A = S → Result A × S

abbrev pub next : {S A B : Type 0} → (A → Action S B) → Result A × S → Result B × S
next f (ok a, s) = f a s
next f (err e, s) = (err e, s)

infixl 5 ◌>>=◌ ◌>>◌
unfoldable pub ◌>>=◌ : {S A B : Type 0} → Action S A → (A → Action S B) → Action S B
◌>>=◌ m f s = next f (m s)

unfoldable pub ◌>>◌ : {S A B : Type 0} → Action S A → Action S B → Action S B
unfolding ◌>>=◌
m >> k = m >>= λ _. k

-- `return v, nil` and `return err`.
abbrev pub done : {S A : Type 0} → A → Action S A
done a s = (ok a, s)

abbrev pub fail : {S A : Type 0} → Error → Action S A
fail e s = (err e, s)

-- `if bad { return err }`
abbrev pub reject_if : {S : Type 0} → Bool → Error → Action S (Unit {0})
reject_if true e s = (err e, s)
reject_if false e s = (ok tt, s)

abbrev pub returns : {S A : Type 0} → Result A → Action S A
returns r s = (r, s)

-- The error is a value that the caller looks at.
abbrev pub try : {S A : Type 0} → Action S A → Action S (Result A)
try m s = (ok (m s).0, (m s).1)

-- `_ = f()`: an error is dropped.
abbrev pub ignore : {S A : Type 0} → Action S A → Action S (Unit {0})
ignore m s = (ok tt, (m s).1)

-- A relation between the states before and after that every outcome of a handler respects.
pub record Moves {S A : Type 0} (R : S → S → Type 0) (m : Action S A) : Type 0 where
  pub holds : (s : S) → R s (m s).1

-- Where a step leads, and then the rest.
pub >>=-moves_at {ℓ} :
    {S A B : Type 0} (R : S → S → Type ℓ)
    → ((s t u : S) → R s t → R t u → R s u)
    → (m : Action S A) (f : A → Action S B) (s : S) → R s (m s).1
    → ((a : A) (t : S) → m s ≡ (ok a, t) → R t (f a t).1)
    → R s ((m >>= f) s).1
unfolding ◌>>=◌
>>=-moves_at {S} {A} {B} R trans m f s h k = after (m s) refl
  where
    after : (o : Result A × S) → m s ≡ o → R s (next f o).1
    after (ok a, t) e = trans s t (f a t).1 (subst (λ o. R s o.1) e h) (k a t e)
    after (err x, t) e = subst (λ o. R s o.1) e h

pub >>=-Moves :
    {S A B : Type 0} (R : S → S → Type 0)
    → ((s t u : S) → R s t → R t u → R s u)
    → (m : Action S A) (f : A → Action S B) → Moves R m
    → ((a : A) → Moves R (f a))
    → Moves R (m >>= f)
>>=-Moves R trans m f h k = record {
  holds = λ s. >>=-moves_at R trans m f s (h.holds s) (λ a t e. (k a).holds t);
}

-- A handler that succeeds has succeeded at every step.
pub >>=-ok :
    {S A B : Type 0} (m : Action S A) (f : A → Action S B) (s : S) {b : B} {u : S}
    → (m >>= f) s ≡ (ok b, u)
    → (a : A) × (t : S) × (m s ≡ (ok a, t)) × (f a t ≡ (ok b, u))
unfolding ◌>>=◌
>>=-ok {S} {A} {B} m f s {b} {u} h = split (m s) refl h
  where
    split :
        (o : Result A × S)
        → m s ≡ o
        → next f o ≡ (ok b, u)
        → (a : A) × (t : S) × (m s ≡ (ok a, t)) × (f a t ≡ (ok b, u))
    split (ok a, t) e p = (a, t, e, p)
    split (err x, t) e p = cc

-- What every value that a handler returns is like.
unfoldable pub Yields {ℓ} : {S A : Type 0} → (A → Type ℓ) → Action S A → Type ℓ
Yields {S} {A} P m = (s t : S) (a : A) → m s ≡ (ok a, t) → P a

pub >>=-Yields {ℓ} :
    {S A B : Type 0} (P : B → Type ℓ) (m : Action S A) (f : A → Action S B)
    → ((a : A) → Yields P (f a))
    → Yields P (m >>= f)
unfolding Yields
>>=-Yields P m f h s u b e = let (a, t, first, last) = >>=-ok m f s e in h a t u b last
