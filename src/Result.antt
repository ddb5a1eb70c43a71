-- ===== src/Result.antt =====
-- Exceptions as values. An error is its class and its message, as the source writes it.
-- `Exec` is a method that mutates an object and may raise: what was written before a raise stays
-- written, so the state comes back beside the error too.
use mathlib.Core.HLevel.{hedberg}
use text.Mathlib.Text.{◌==◌}
use text.Mathlib.TextEquality.{eq_iff}
use domain_specific_paper_ha.Prelude.{
  ◌≡◌, refl, Bool, true, false, String, List, [], ◌∷◌, arith, Bool-cases, ◌⊎◌, inl, inr,
}

pub data Error : Type 0 where
  -- domain/errors.py: DomainInvariantError
  domain_invariant : String → Error
  value_error : String → Error
  timeout_error : String → Error
  assertion_error : String → Error
  overflow_error : String → Error
  -- ports/arxiv.py and ports/repository.py
  arxiv_unavailable : String → Error
  repository_unavailable : String → Error
  arxiv_token_expired : String → Error
  arxiv_discovery_incomplete : String → Error
  arxiv_response_invalid : String → Error
  repository_integrity : String → Error
  -- application/ingest_arxiv.py
  ingestion_resume : String → Error
  -- an exception that a port or another collaborator raises
  external_error : String → Error

-- What a call comes to: its value, or the exception that ends it.
pub data Result {ℓ} (Value : Type ℓ) : Type ℓ where
  err : (raised : Error) → Result Value
  ok : (value : Value) → Result Value

-- What a function that only checks returns.
abbrev pub Passed : Type 0
Passed = Result {0} Unit

pub Result-cases {ℓ} :
    {A : Type ℓ} (r : Result A) → ((v : A) × (r ≡ ok v)) ⊎ ((e : Error) × (r ≡ err e))
Result-cases (ok v) = inl (v, refl)
Result-cases (err e) = inr (e, refl)

-- The checks of a `__post_init__`, in order: a condition and what is raised where it holds.
abbrev pub Check : Type 0
Check = Bool × Error

-- The object, or what the first condition that holds raises.
abbrev pub validated {ℓ} : {A : Type ℓ} → A → List Check → Result A
validated a [] = ok a
validated a ((true, e) ∷ checks) = err e
validated a ((false, e) ∷ checks) = validated a checks

abbrev pub passing : List Check → Passed
passing checks = validated {0} tt checks

-- Every condition fails.
abbrev pub AllPass : List Check → Type 0
AllPass [] = Unit
AllPass ((c, e) ∷ checks) = (c ≡ false) × AllPass checks

pub validated-eq-ok {ℓ} :
    {A : Type ℓ} (a : A) (checks : List Check) {b : A}
    → validated a checks ≡ ok b
    → (a ≡ b) × AllPass checks
validated-eq-ok a [] h = (cc, tt)
validated-eq-ok a ((true, e) ∷ checks) h = cc
validated-eq-ok a ((false, e) ∷ checks) h =
    let rest = validated-eq-ok a checks h in (rest.0, (refl, rest.1))

pub validated-AllPass {ℓ} :
    {A : Type ℓ} (a : A) (checks : List Check) → AllPass checks → validated a checks ≡ ok a
validated-AllPass a [] h = refl
validated-AllPass a ((true, e) ∷ checks) h = cc
validated-AllPass a ((false, e) ∷ checks) h = validated-AllPass a checks h.1

-- The checks pass, or one error is raised, whatever the object.
pub validated-cases :
    (checks : List Check)
    → AllPass checks ⊎ ((e : Error) × ((A : Type 0) (a : A) → validated a checks ≡ err e))
validated-cases [] = inl tt
validated-cases ((true, e) ∷ checks) = inr (e, λ A a. refl)
validated-cases ((false, e) ∷ checks) = elim (validated-cases checks) [
  | inl pass ↦ inl (refl, pass)
  | inr fails ↦ inr fails
]

abbrev pub map_ok {ℓ κ} : {A : Type ℓ} {B : Type κ} → (A → B) → Result A → Result B
map_ok f (ok a) = ok (f a)
map_ok f (err e) = err e

infixl 10 ◌>>=◌
abbrev pub ◌>>=◌ {ℓ κ} :
    {First : Type ℓ} {Last : Type κ} → Result First → (First → Result Last) → Result Last
◌>>=◌ (ok made) go_on = go_on made
◌>>=◌ (err raised) go_on = err raised

-- `[f(value) for value in values]`, where the first call that raises ends it.
abbrev pub each_result {ℓ κ} : {A : Type ℓ} {B : Type κ} → (A → Result B) → List A → Result (List B)
each_result f [] = ok []
each_result f (value ∷ values) =
    f value >>= λ made. each_result f values >>= λ more. ok (made ∷ more)

-- What a chain returned, its first step returned too.
pub >>=-eq-ok {ℓ κ} :
    {First : Type ℓ} {Last : Type κ} (step : Result First) (go_on : First → Result Last)
    (last : Last)
    → (step >>= go_on) ≡ ok last
    → (made : First) × (step ≡ ok made) × (go_on made ≡ ok last)
>>=-eq-ok (err raised) go_on last chain = cc
>>=-eq-ok (ok made) go_on last chain = (made, refl, chain)

-- Two messages are equal or not.
String-discrete : Discrete String
String-discrete s t = elim (Bool-cases (s == t)) [
  | inl same ↦ yes ((eq_iff s t).0 same)
  | inr other ↦ no (λ e. ground (arith, (eq_iff s t).1 e))
]

pub Result_set {ℓ} : {A : Type ℓ} → IsSet A → IsSet (Result A)
Result_set a_set = hlevel (a_set, hedberg String-discrete)

-- A chain that returned and starts with checks: they pass, and it went on with the object.
pub validated->>= {ℓ κ} :
    {First : Type ℓ} {Last : Type κ} (given : First) (checks : List Check)
    (go_on : First → Result Last) (last : Last)
    → (validated given checks >>= go_on) ≡ ok last
    → AllPass checks × (go_on given ≡ ok last)
validated->>= given [] go_on last chain = (tt, chain)
validated->>= given ((true, e) ∷ checks) go_on last chain = cc
validated->>= given ((false, e) ∷ checks) go_on last chain =
    let (pass, more) = validated->>= given checks go_on last chain in ((refl, pass), more)

-- The steps of a chain that returned, one after the other.
pub after_step {ℓ κ μ} :
    {First : Type ℓ} {Last : Type κ} {Goal : Type μ} (step : Result First)
    (go_on : First → Result Last) (last : Last)
    → (step >>= go_on) ≡ ok last
    → ((made : First) → step ≡ ok made → go_on made ≡ ok last → Goal)
    → Goal
after_step (err raised) go_on last chain goal = cc
after_step (ok made) go_on last chain goal = goal made refl chain

pub ok-injective {ℓ} : {A : Type ℓ} {a b : A} → ◌≡◌ {A = Result A} (ok a) (ok b) → a ≡ b
ok-injective e = cc
