-- ===== src/Exec.antt =====
-- Methods that mutate an object and may raise. What was written before a raise stays written, so
-- the state comes back beside the error too.
pub mod Ends
use domain_specific_paper_ha.Result.{Error, Result, ok, err}

abbrev pub Exec {ℓ κ} : Type ℓ → Type κ → Type (ℓ ⊔ κ)
Exec State Value = State → Result Value × State

module _ {ℓ κ} {State : Type ℓ} {Value : Type κ} where
  abbrev pub raise : Error → Exec State Value
  raise e before = (err e, before)

  abbrev pub pure : Value → Exec State Value
  pure v before = (ok v, before)

-- The rest of a block runs on the state that the first part left, unless that part raised.
abbrev pub continue {ℓ κ μ} :
    {State : Type ℓ} {Value : Type κ} {Next : Type μ}
    → (Value → Exec State Next)
    → Result Value × State
    → Result Next × State
continue rest (err e, after) = (err e, after)
continue rest (ok v, after) = rest v after

infixl 6 ◌>>=◌ ◌>>◌
abbrev pub ◌>>=◌ {ℓ κ μ} :
    {State : Type ℓ} {Value : Type κ} {Next : Type μ}
    → Exec State Value
    → (Value → Exec State Next)
    → Exec State Next
◌>>=◌ first rest before = continue rest (first before)

abbrev pub ◌>>◌ {ℓ κ} :
    {State : Type ℓ} {Next : Type κ} → Exec State (Unit {0}) → Exec State Next → Exec State Next
◌>>◌ first rest = first >>= λ _. rest

module _ {ℓ κ} {State : Type ℓ} {Value : Type κ} where
  -- What the `finally` part raises takes the place of what came before.
  abbrev pub kept : Result Value → Result (Unit {0}) × State → Result Value × State
  kept r (ok _, after) = (r, after)
  kept r (err e, after) = (err e, after)

  -- `try: first finally: last`
  abbrev pub finally : Exec State Value → Exec State (Unit {0}) → Exec State Value
  finally first last before = kept (first before).0 (last (first before).1)

  abbrev pub cleaned_up : (State → State) → Result Value × State → Result Value × State
  cleaned_up cleanup (ok v, after) = (ok v, after)
  cleaned_up cleanup (err e, after) = (err e, cleanup after)

  -- What is done only if the block raised.
  abbrev pub on_raise : Exec State Value → (State → State) → Exec State Value
  on_raise first cleanup before = cleaned_up cleanup (first before)
