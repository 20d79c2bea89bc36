-- ===== src/Policy/Spending/Values.antt =====
-- The native values that a spending-limit event embeds.
use agent_allowance.Common.{
  ◌&&◌, true, refl, [], ◌∷◌, and-eq-true, eq_iff, Bool-cases, ℤ, String, ◌≡◌, some, List, arith,
  eqb_ℤ_iff, ap, inl, inr,
}
use agent_allowance.Xdr.{
  Native, nothing, bigint, number, text, array, object, other_native, Natives, natives, is_string,
  is_bigint,
}
use agent_allowance.Policy.Events.{ExpectedTransfer}
use agent_allowance.Policy.Spending.{second, context_call, three, args_are}

pub is_string-eq : (v : Native) (s : String) → is_string v s ≡ true → v ≡ text s
is_string-eq (text t) s h = ap (λ (x : String). text x) ((eq_iff t s).0 h)
is_string-eq nothing s h = cc
is_string-eq (bigint z) s h = cc
is_string-eq (number z) s h = cc
is_string-eq (array vs) s h = cc
is_string-eq (object ms) s h = cc
is_string-eq other_native s h = cc

pub is_bigint-eq : (v : Native) (a : ℤ) → is_bigint v a ≡ true → v ≡ bigint a
is_bigint-eq (bigint z) a h = ap (λ (x : ℤ). bigint x) ((eqb_ℤ_iff z a).0 h)
is_bigint-eq nothing a h = cc
is_bigint-eq (text t) a h = cc
is_bigint-eq (number z) a h = cc
is_bigint-eq (array vs) a h = cc
is_bigint-eq (object ms) a h = cc
is_bigint-eq other_native a h = cc

second_sound :
    (vs : List Native) (call : Native) → second vs ≡ some call → vs ≡ text "Contract" ∷ call ∷ []
second_sound [] call h = cc
second_sound (a ∷ []) call h = cc
second_sound (a ∷ b ∷ []) call h = elim (Bool-cases (is_string a "Contract")) [
  | inl named ↦ let e1 = is_string-eq a "Contract" named in let e2 = same_call (grind arith) in cc
  | inr other ↦ absurd (grind arith)
]
  where
    same_call : some b ≡ some call → b ≡ call
    same_call e = cc
second_sound (a ∷ b ∷ c ∷ vs) call h = cc

pub context_call_sound :
    (context call : Native)
    → context_call context ≡ some call
    → (parts : Natives) × (context ≡ array parts) × (natives parts ≡ text "Contract" ∷ call ∷ [])
context_call_sound (array parts) call h = (parts, refl, second_sound (natives parts) call h)
context_call_sound nothing call h = absurd (cc)
context_call_sound (bigint z) call h = absurd (cc)
context_call_sound (number z) call h = absurd (cc)
context_call_sound (text t) call h = absurd (cc)
context_call_sound (object ms) call h = absurd (cc)
context_call_sound other_native call h = absurd (cc)

three_sound :
    (vs : List Native) (e : ExpectedTransfer)
    → three vs e ≡ true
    → vs ≡ text e.sender ∷ text e.recipient ∷ bigint e.amount ∷ []
three_sound (a ∷ b ∷ c ∷ []) e h =
    let (k1, h3) = and-eq-true (is_string a e.sender && is_string b e.recipient) _ h in
    let (h1, h2) = and-eq-true (is_string a e.sender) _ k1 in
    let e1 = is_string-eq a e.sender h1 in
    let e2 = is_string-eq b e.recipient h2 in let e3 = is_bigint-eq c e.amount h3 in cc
three_sound [] e h = cc
three_sound (a ∷ []) e h = cc
three_sound (a ∷ b ∷ []) e h = cc
three_sound (a ∷ b ∷ c ∷ d ∷ vs) e h = cc

pub args_are_sound :
    (args : Native) (e : ExpectedTransfer)
    → args_are args e ≡ true
    → (values : Natives) × (args ≡ array values)
      × (natives values ≡ text e.sender ∷ text e.recipient ∷ bigint e.amount ∷ [])
args_are_sound (array values) e h = (values, refl, three_sound (natives values) e h)
args_are_sound nothing e h = absurd (cc)
args_are_sound (bigint z) e h = absurd (cc)
args_are_sound (number z) e h = absurd (cc)
args_are_sound (text t) e h = absurd (cc)
args_are_sound (object ms) e h = absurd (cc)
args_are_sound other_native e h = absurd (cc)
