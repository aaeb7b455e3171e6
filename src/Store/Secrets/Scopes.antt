-- ===== src/Store/Secrets/Scopes.antt =====
-- internal/store/store.go: the text that stands for the scope of a secret.
use Prim.Native.Char.{Char, code}
use text.Mathlib.TextLemmas.{cons-append, append_cancel_left}
use mini_dock.Prelude.{
  ℕ, ◌≡◌, ◌<◌, ◌^◌, refl, ap, ◌∙◌, sym, String, true, ◌||◌, inl, inr, ◌⊎◌, arith, Bool-cases, ◌=s=◌,
  eq_iff, and-eq-true,
}
use mini_dock.Prelude.Decimal.{◌+s+◌, decimal}
use mini_dock.Prelude.Decimal.Reading.{read_number, read-decimal, one_char}
use mini_dock.Store.Secrets.{application_secret_scope, valid_environment_and_target}

-- The code of the first character.
abbrev first : String → ℕ
first String.[] = 0
first (String.◌∷◌ c s) = code c

first-append : (c : Char) (s t : String) → first (String.◌∷◌ c s +s+ t) ≡ code c
first-append c s t = ap first (cons-append c s t)

either : (a b s : String) → ((s =s= a) || (s =s= b)) ≡ true → (s ≡ a) ⊎ (s ≡ b)
either a b s h = elim (Bool-cases (s =s= a)) [
  | inl e ↦ inl ((eq_iff s a).0 e)
  | inr ne ↦ inr ((eq_iff s b).0 (ground arith))
]

differ : {E : Type 0} (s t : String) → "production" +s+ s ≡ "staging" +s+ t → E
differ {E} s t e =
    let h : ◌≡◌ {A = ℕ} 112 115 =
      sym (first-append _ "roduction" s) ∙ ap first e ∙ first-append _ "taging" t in
    absurd (omega arith)

-- The part after the number.
ending-parts :
    (environment environment' target target' : String)
    → (environment ≡ "production") ⊎ (environment ≡ "staging")
    → (environment' ≡ "production") ⊎ (environment' ≡ "staging")
    → environment +s+ ":" +s+ target ≡ environment' +s+ ":" +s+ target'
    → (environment ≡ environment') × (target ≡ target')
ending-parts e e' t t' (inl p) (inl p') h = (
  p ∙ sym p',
  append_cancel_left ":" t t' (append_cancel_left "production" _ _ (rw (p, p') at h)),
)
ending-parts e e' t t' (inr p) (inr p') h =
    (p ∙ sym p', append_cancel_left ":" t t' (append_cancel_left "staging" _ _ (rw (p, p') at h)))
ending-parts e e' t t' (inl p) (inr p') h = differ (":" +s+ t) (":" +s+ t') (rw (p, p') at h)
ending-parts e e' t t' (inr p) (inl p') h = differ (":" +s+ t') (":" +s+ t) (sym (rw (p, p') at h))

read-scope :
    (i : ℕ) (s : String) → i < 10 ^ 19 → read_number 0 (decimal i +s+ ":" +s+ s) ≡ (i, ":" +s+ s)
unfolding read_number
read-scope i s h = read-decimal i (":" +s+ s) h ∙ rw (one_char _ s) refl

pub application_secret_scope_inj :
    (i k : ℕ) (environment environment' target target' : String)
    → i < 10 ^ 19
    → k < 10 ^ 19
    → valid_environment_and_target environment target ≡ true
    → valid_environment_and_target environment' target' ≡ true
    → application_secret_scope i environment target
      ≡ application_secret_scope k environment' target'
    → (i ≡ k) × (environment ≡ environment') × (target ≡ target')
application_secret_scope_inj i k e e' t t' hi hk v v' h =
    let numbers = append_cancel_left "application:" _ _ h in
    let parts : ◌≡◌ {A = ℕ × String} (i, ":" +s+ e +s+ ":" +s+ t) (k, ":" +s+ e' +s+ ":" +s+ t') =
      sym (read-scope i (e +s+ ":" +s+ t) hi)
      ∙ ap (λ s. read_number 0 s) numbers
      ∙ read-scope k (e' +s+ ":" +s+ t') hk in
    let rest = append_cancel_left ":" _ _ (ap (λ p. p.1) parts) in
    let (same_environment, same_target) =
      ending-parts e e' t t' (either "production" "staging" e (and-eq-true _ _ v).0)
        (either "production" "staging" e' (and-eq-true _ _ v').0) rest in
    (ap (λ p. p.0) parts, same_environment, same_target)
