-- ===== src/Exec/Ends.antt =====
-- Rules for blocks that may raise: how a chain, a `finally` and a cleanup end (Exec.antt).
use domain_specific_paper_ha.Prelude.{Bool, true, false, if◌then◌else◌}
use domain_specific_paper_ha.Result.{Result, ok, err}
use domain_specific_paper_ha.Exec.{Exec, continue, kept, cleaned_up}

-- How a block ends: with `good` where it returns, with `bad` where it raises.
module _ {State : Type 0} where
  abbrev pub Ends : {A : Type 0} → (State → Type 0) → (State → Type 0) → Result A × State → Type 0
  Ends good bad (ok _, after) = good after
  Ends good bad (err _, after) = bad after

  pub Ends-continue :
      {A B : Type 0} (good between bad : State → Type 0) (rest : A → Exec State B)
      (first : Result A × State)
      → Ends between bad first
      → ((v : A) (s : State) → between s → Ends good bad (rest v s))
      → Ends good bad (continue rest first)
  Ends-continue good between bad rest (ok v, s) h go_on = go_on v s h
  Ends-continue good between bad rest (err e, s) h go_on = h

  pub Ends-weaken :
      {A : Type 0} (good good' bad bad' : State → Type 0) (r : Result A × State)
      → Ends good bad r
      → ((s : State) → good s → good' s)
      → ((s : State) → bad s → bad' s)
      → Ends good' bad' r
  Ends-weaken good good' bad bad' (ok v, s) h f g = f s h
  Ends-weaken good good' bad bad' (err e, s) h f g = g s h

  pub Ends-cleaned_up :
      {A : Type 0} (good bad bad' : State → Type 0) (cleanup : State → State) (r : Result A × State)
      → Ends good bad r
      → ((s : State) → bad s → bad' (cleanup s))
      → Ends good bad' (cleaned_up cleanup r)
  Ends-cleaned_up good bad bad' cleanup (ok v, s) h g = h
  Ends-cleaned_up good bad bad' cleanup (err e, s) h g = g s h

  pub Ends-if :
      {A : Type 0} (good bad : State → Type 0) (b : Bool) (x y : Exec State A) (s : State)
      → Ends good bad (x s)
      → Ends good bad (y s)
      → Ends good bad ((if b then x else y) s)
  Ends-if good bad true x y s h k = h
  Ends-if good bad false x y s h k = k

  pub after_end : {A : Type 0} (P : State → Type 0) (r : Result A × State) → Ends P P r → P r.1
  after_end P (ok v, s) h = h
  after_end P (err e, s) h = h

  pub Ends-kept_result :
      {A : Type 0} (good : State → Type 0) (r : Result A) (l : Result (Unit {0}) × State)
      → Ends good good l
      → Ends good good (kept r l)
  Ends-kept_result good (ok v) (ok _, s) h = h
  Ends-kept_result good (err e) (ok _, s) h = h
  Ends-kept_result good r (err e, s) h = h

  -- What holds after the block however it ends, the `finally` part takes to its own end.
  pub Ends-kept :
      {A : Type 0} (good between : State → Type 0) (first : Result A × State)
      (last : Exec State (Unit {0}))
      → Ends between between first
      → ((s : State) → between s → Ends good good (last s))
      → Ends good good (kept first.0 (last first.1))
  Ends-kept good between (ok v, s) last h go_on = Ends-kept_result good (ok v) (last s) (go_on s h)
  Ends-kept good between (err e, s) last h go_on =
      Ends-kept_result good (err e) (last s) (go_on s h)
