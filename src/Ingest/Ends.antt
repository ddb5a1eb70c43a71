-- ===== src/Ingest/Ends.antt =====
-- application/ingest_arxiv.py: the rounds of the harvest come to an end.
use mathlib.Core.Path.{subst}
use domain_specific_paper_ha.Prelude.{
  ℕ, zero, suc, ◌-◌, ◌≤◌, ◌<◌, true, false, ◌≡◌, refl, ◌∙◌, inl, inr, some, arith, Bool-cases,
}
use domain_specific_paper_ha.Prelude.Int.{ℤ}
use domain_specific_paper_ha.Result.{Result, ok, err}
use domain_specific_paper_ha.Ingest.Progress.{ArxivDiscoveryProgress, HarvestPorts, Harvesting}
use domain_specific_paper_ha.Ingest.Harvest.{
  HarvestRequest, Loop, harvest_round, harvest_loop, prepared, looped, first_loop, harvest,
}
use domain_specific_paper_ha.Ingest.Harvested.{loop_going}
use domain_specific_paper_ha.Ingest.Steps.{size, IsNext, Steps, round-Steps}

module _ (request : HarvestRequest) where
  module _ {W : Type 0} (ports : HarvestPorts W) (deadline : ℤ) where
    -- With enough fuel the loop comes to a result.
    Halts : Loop → Harvesting W → Type 0
    Halts l s =
        (fuel : ℕ) × (r : Result Loop × Harvesting W) × (harvest_loop request ports fuel deadline l
            s
          ≡ some r)

    Halts-step :
        (l : Loop) (s : Harvesting W) (first : Result Loop × Harvesting W)
        → l.progress.complete ≡ false
        → harvest_round request ports deadline l s ≡ first
        → ((l' : Loop) (s' : Harvesting W) → first ≡ (ok l', s') → Halts l' s')
        → Halts l s
    unfolding Halts
    Halts-step l s (err x, s') going e rest =
        (1, (err x, s'), loop_going request ports 0 deadline l s going ∙ rw e refl)
    Halts-step l s (ok l', s') going e rest =
        let (fuel, r, ends) = rest l' s' refl in
        (suc fuel, r, loop_going request ports fuel deadline l s going ∙ rw e ends)

    Halts-complete : (l : Loop) (s : Harvesting W) → l.progress.complete ≡ true → Halts l s
    unfolding Halts harvest_loop
    Halts-complete l s done = (0, (ok l, s), simp (done, harvest_loop))

    Halts-next :
        (l : Loop) (s : Harvesting W)
        → 1 ≤ request.topic.max_results
        → ((l' : Loop) (s' : Harvesting W)
            → l'.pages ≡ l.pages
            → size l'.progress < size l.progress
            → Halts l' s')
        → ((l' : Loop) (s' : Harvesting W)
            → l.pages < request.max_pages
            → l'.pages ≡ suc l.pages
            → Halts l' s')
        → Halts l s
    unfolding IsNext
    Halts-next l s positive on_work on_page = elim (Bool-cases l.progress.complete) [
      | inl done ↦ Halts-complete l s done
      | inr going ↦ Halts-step l s (harvest_round request ports deadline l s) going refl (λ l' s' e.
          let next : IsNext request l l' =
            subst (Steps request ports deadline l) e
              (round-Steps request ports deadline l s positive going) in
          elim next [
            | inl (same, less) ↦ on_work l' s' same less
            | inr (room, more) ↦ on_page l' s' room more
          ])
    ]

    Halts-within :
        (pages work : ℕ) (l : Loop) (s : Harvesting W)
        → 1 ≤ request.topic.max_results
        → request.max_pages - l.pages ≤ pages
        → size l.progress ≤ work
        → Halts l s
    Halts-within zero zero l s positive few small =
        Halts-next l s positive (λ l' s' same less. absurd (omega (arith, less, small)))
          (λ l' s' room more. absurd (omega (arith, few, room)))
    Halts-within zero (suc work) l s positive few small =
        Halts-next l s positive
          (λ l' s' same less.
            Halts-within zero work l' s' positive (omega (arith, few, same))
              (omega (arith, less, small)))
          (λ l' s' room more. absurd (omega (arith, few, room)))
    Halts-within (suc pages) zero l s positive few small =
        Halts-next l s positive (λ l' s' same less. absurd (omega (arith, less, small)))
          (λ l' s' room more.
            Halts-within pages (size l'.progress) l' s' positive (omega (arith, few, more, room))
              (omega arith))
    Halts-within (suc pages) (suc work) l s positive few small =
        Halts-next l s positive
          (λ l' s' same less.
            Halts-within (suc pages) work l' s' positive (omega (arith, few, same))
              (omega (arith, less, small)))
          (λ l' s' room more.
            Halts-within pages (size l'.progress) l' s' positive (omega (arith, few, more, room))
              (omega arith))

  module _ {W : Type 0} (ports : HarvestPorts W) where
    looped_ends :
        (made : Result (ArxivDiscoveryProgress × ℤ) × Harvesting W)
        → 1 ≤ request.topic.max_results
        → (fuel : ℕ) × (r : Result Loop × Harvesting W) × (looped request ports fuel made ≡ some r)
    unfolding Halts
    looped_ends (err x, s) positive = (0, (err x, s), refl)
    looped_ends (ok (p, deadline), s) positive =
        Halts-within ports deadline request.max_pages (size p) (first_loop request ports p) s
          positive (omega arith) (omega arith)

    -- Whatever arXiv and the database answer, a harvest of batches that are not empty comes to a result
    -- with enough fuel.
    pub harvest_returns :
        (s : Harvesting W)
        → 1 ≤ request.topic.max_results
        → (fuel : ℕ) × (r : Result Loop × Harvesting W) × (harvest request ports fuel s ≡ some r)
    unfolding harvest
    harvest_returns s positive = looped_ends (prepared request ports s) positive
