-- ===== src/Ingest/Harvested.antt =====
-- application/ingest_arxiv.py: what the log of a whole harvest says, however it ends.
use mathlib.Core.List.{Memᴰ}
use mathlib.Core.Path.{subst}
use domain_specific_paper_ha.Prelude.{
  ℕ, zero, suc, ◌≤◌, true, false, ◌≡◌, sym, ap, ◌∙◌, inl, inr, Option, none, some, List, [], ltb,
  arith, Bool-cases,
}
use domain_specific_paper_ha.Prelude.Text.{Text}
use domain_specific_paper_ha.Prelude.Keys.{member}
use domain_specific_paper_ha.Prelude.Int.{ℤ}
use domain_specific_paper_ha.Result.{Result, ok, err}
use domain_specific_paper_ha.Trends.Calendar.{Day}
use domain_specific_paper_ha.Ingest.Record.{ArxivPaperRecord}
use domain_specific_paper_ha.Ingest.Progress.{
  ArxivDiscoveryProgress, HarvestPorts, Harvesting, saved, last_saved,
}
use domain_specific_paper_ha.Ingest.Harvest.{
  HarvestRequest, Loop, category_at, harvest_round, continued, harvest_loop, prepared, first_loop,
  looped, harvest,
}
use domain_specific_paper_ha.Ingest.Logs.{Log, Gives}
use domain_specific_paper_ha.Ingest.Fetched.{IsFetched, IsKept, IsKept-nil, pending_of}
use domain_specific_paper_ha.Ingest.Covered.{IsRead, category_at-length, before_next}
use domain_specific_paper_ha.Ingest.Sound.{IsSound, IsLoop}
use domain_specific_paper_ha.Ingest.Rounds.{Keeps, harvest_round-Keeps}
use domain_specific_paper_ha.Ingest.Prepared.{prepared-Gives}

module _ (request : HarvestRequest) where
  pub IsSound-nil : IsSound request []
  unfolding last_saved
  IsSound-nil = record { kept = IsKept-nil request; covered = λ p e. cc }

  module _ {W : Type 0} (ports : HarvestPorts W) where
    -- The loop ends with the invariant and a complete progress, or raises with a sound log.
    abbrev IsEnd : Result Loop × Harvesting W → Type 0
    IsEnd = Gives (λ l log. IsLoop request l log × (l.progress.complete ≡ true)) (IsSound request)

    continued-IsEnd :
        (rest : Loop → Harvesting W → Option (Result Loop × Harvesting W))
        (first r : Result Loop × Harvesting W)
        → ((l : Loop) (s : Harvesting W) → rest l s ≡ some r → IsLoop request l s.log → IsEnd r)
        → continued request ports rest first ≡ some r
        → Keeps request ports first
        → IsEnd r
    continued-IsEnd rest (ok l, s) r ih e h = ih l s e h
    continued-IsEnd rest (err x, s) r ih e h =
        let same : ◌≡◌ {A = Result Loop × Harvesting W} (err x, s) r = cc in subst IsEnd same h

    ended :
        (l : Loop) (s : Harvesting W) (r : Result Loop × Harvesting W)
        → ◌≡◌ {A = Option (Result Loop × Harvesting W)} (some (ok l, s)) (some r)
        → IsLoop request l s.log
        → l.progress.complete ≡ true
        → IsEnd r
    ended l s r e h done =
        let same : ◌≡◌ {A = Result Loop × Harvesting W} (ok l, s) r = cc in
        subst IsEnd same (h, done)

    pub loop_going :
        (fuel : ℕ) (deadline : ℤ) (l : Loop) (s : Harvesting W)
        → l.progress.complete ≡ false
        → harvest_loop request ports (suc fuel) deadline l s
          ≡ continued request ports
              (harvest_loop request ports fuel deadline)
              (harvest_round request ports deadline l s)
    unfolding harvest_loop
    loop_going fuel deadline l s going = ground (arith, going)

    loop-IsEnd :
        (fuel : ℕ) (deadline : ℤ) (l : Loop) (s : Harvesting W) (r : Result Loop × Harvesting W)
        → harvest_loop request ports fuel deadline l s ≡ some r
        → IsLoop request l s.log
        → IsEnd r
    unfolding harvest_loop
    loop-IsEnd zero deadline l s r e h = elim (Bool-cases l.progress.complete) [
      | inl done ↦ ended l s r (simp (done, harvest_loop) at e) h done
      | inr going ↦
          let stuck : ◌≡◌ {A = Option (Result Loop × Harvesting W)} none (some r) =
            simp (going, harvest_loop) at e in
          cc
    ]
    loop-IsEnd (suc fuel) deadline l s r e h = elim (Bool-cases l.progress.complete) [
      | inl done ↦ ended l s r (simp (done, harvest_loop) at e) h done
      | inr going ↦
          continued-IsEnd (harvest_loop request ports fuel deadline)
            (harvest_round request ports deadline l s) r
            (λ l' s' e' h'. loop-IsEnd fuel deadline l' s' r e' h')
            (sym (loop_going fuel deadline l s going) ∙ e)
            (harvest_round-Keeps request ports deadline l s h going)
    ]

    looped-IsEnd :
        (fuel : ℕ) (made : Result (ArxivDiscoveryProgress × ℤ) × Harvesting W)
        (r : Result Loop × Harvesting W)
        → looped request ports fuel made ≡ some r
        → Gives
            (λ (m : ArxivDiscoveryProgress × ℤ) after.
              IsLoop request (first_loop request ports m.0) after)
            (IsSound request)
            made
        → IsEnd r
    looped-IsEnd fuel (ok (p, deadline), s) r e h =
        loop-IsEnd fuel deadline (first_loop request ports p) s r e h
    looped-IsEnd fuel (err x, s) r e h =
        let same : ◌≡◌ {A = Result Loop × Harvesting W} (err x, s) r = cc in subst IsEnd same h

    harvest-IsEnd :
        (fuel : ℕ) (s : Harvesting W) (r : Result Loop × Harvesting W)
        → harvest request ports fuel s ≡ some r
        → IsSound request s.log
        → IsEnd r
    unfolding harvest
    harvest-IsEnd fuel s r e h =
        looped-IsEnd fuel (prepared request ports s) r e (prepared-Gives request ports s h)

    IsEnd-IsSound : (r : Result Loop × Harvesting W) → IsEnd r → IsSound request r.1.log
    IsEnd-IsSound (ok l, s) h = h.0.sound
    IsEnd-IsSound (err x, s) h = h

    -- A harvest that starts with a sound log, as the empty log is, ends with one, whether it returns or
    -- raises: what was ever pending in a checkpoint is pending in the last one or was fetched and its
    -- accepted records stored, and each day and category before the last checkpoint was read to the end.
    pub harvest-IsSound :
        (fuel : ℕ) (s : Harvesting W) (r : Result Loop × Harvesting W)
        → harvest request ports fuel s ≡ some r
        → IsSound request s.log
        → IsSound request r.1.log
    harvest-IsSound fuel s r e h = IsEnd-IsSound r (harvest-IsEnd fuel s r e h)

    -- What a harvest that returns has done.
    pub record IsHarvested (log : Log) : Type 0 where
      pub read :
          (day : Day) (index : ℕ) (category : Text)
          → request.day_from ≤ day
          → day ≤ request.day_to
          → category_at index request.topic.categories ≡ some category
          → IsRead day category log
      pub fetched :
          (k : Text) (progress : ArxivDiscoveryProgress) (records : List ArxivPaperRecord)
          → Memᴰ (saved progress records) log
          → member k progress.pending_ids ≡ true
          → IsFetched request k log

    -- A harvest that starts with a sound log and returns has read all pages of each day of the window
    -- and each category of the topic, and fetched each identifier that was ever pending.
    pub harvest-IsHarvested :
        (fuel : ℕ) (s : Harvesting W) (l : Loop) (after : Harvesting W)
        → harvest request ports fuel s ≡ some (ok l, after)
        → IsSound request s.log
        → IsHarvested after.log
    unfolding IsKept member
    harvest-IsHarvested fuel s l after e h =
        let (loop, done) = harvest-IsEnd fuel s (ok l, after) e h in
        let covered = loop.sound.covered l.progress loop.current in
        let (read, last, all, none_left) = covered.finished done in
        record {
          read = λ d i c from to at.
              let place : category_at i l.progress.progress_categories ≡ some c =
                ap (category_at i) loop.scope ∙ at in
              let within = category_at-length request i l.progress.progress_categories c place in
              before_next request after.log l.progress read covered d i c from
                (elim (Bool-cases (ltb d l.progress.day)) [
                  | inl less ↦ inl (ground (arith, less))
                  | inr more ↦ inr (ground (arith, more, to, last), omega (arith, within, all))
                ])
                place;
          fetched = λ k p rs m pending. elim (loop.sound.kept k p rs m pending) [
            | inr found ↦ found
            | inl waiting ↦
                let stuck : false ≡ true =
                  ap (member k) (sym none_left)
                  ∙ ap (λ o. member k (pending_of o)) (sym loop.current)
                  ∙ waiting in
                cc
          ];
        }
