-- ===== src/Ingest/Rounds.antt =====
-- application/ingest_arxiv.py: what the log of a harvest says after each of its steps.
use mathlib.Core.Path.{subst}
use domain_specific_paper_ha.Prelude.{
  ◌+◌, true, false, not, ◌&&◌, ◌≡◌, refl, sym, ap, ◌∙◌, inl, inr, none, some, is_some, [], ◌∷◌,
  is_nil, ltb, leb, arith, Bool-cases, Option-cases, List-cases,
}
use domain_specific_paper_ha.Prelude.Text.{Text}
use domain_specific_paper_ha.Prelude.Int.{ℤ, ◌-ℤ◌, leb_ℤ}
use domain_specific_paper_ha.Result.{Result, ok, err, Result-cases}
use domain_specific_paper_ha.Exec.{continue, pure}
use domain_specific_paper_ha.Ingest.Progress.{
  ArxivIdentifierPage, ArxivDiscoveryProgress, HarvestPorts, Harvesting, listed, looked_up, saved,
  last_saved,
}
use domain_specific_paper_ha.Ingest.Harvest.{
  HarvestRequest, Loop, category_at, is_same_token, accepted, batch, missing, looked, advanced,
  paged, look_up, go_on, after_page, is_token_expired, next_page, harvest_round,
}
use domain_specific_paper_ha.Ingest.Logs.{Gives, Saves, stored, refused, save-Saves}
use domain_specific_paper_ha.Ingest.Fetched.{IsKept-saved, looked-IsKept}
use domain_specific_paper_ha.Ingest.Covered.{
  IsCovered, IsCovered-later, looked-IsCovered, restarted-IsCovered, advanced-IsCovered,
  paged-IsCovered,
}
use domain_specific_paper_ha.Ingest.Sound.{
  IsSound, IsLoop, IsSound-listed, IsSound-looked_up, IsSound-saved, IsLoop-saved, same_pending,
  advanced-pending, advanced-categories, nothing_pending,
}

module _ (request : HarvestRequest) where
  module _ {W : Type 0} (ports : HarvestPorts W) where
    -- A block that starts with the invariant of the loop keeps it or, where it raises, the log's.
    abbrev pub Keeps : Result Loop × Harvesting W → Type 0
    Keeps = Gives (IsLoop request) (IsSound request)

    look_up-Keeps :
        (deadline : ℤ) (l : Loop) (s : Harvesting W)
        → IsLoop request l s.log
        → l.progress.complete ≡ false
        → Keeps (look_up request ports deadline l s)
    unfolding look_up
    look_up-Keeps deadline l s h going =
        let ids = batch request l.progress in
        let (now, w) = ports.monotonic s.world in
        elim (Result-cases (ports.get_papers_by_ids ids (deadline -ℤ now) w).0) [
          | inr (x, e) ↦ rw e h.sound
          | inl (records, e) ↦
              let after = looked request l.progress records in
              let log = looked_up ids records ∷ s.log in
              let quiet = IsSound-looked_up request ids records s.log h.sound in
              let sound =
                IsSound-saved request after (accepted request records) log
                  (looked-IsKept request l.progress records s.log h.current h.sound.kept)
                  (IsCovered-later request (saved after (accepted request records)) log after (
                    IsCovered-later request (looked_up ids records) s.log after (
                      looked-IsCovered request s.log l.progress records going
                        (h.sound.covered l.progress h.current)))) in
              elim (save-Saves ports request.day_from request.day_to after
                (accepted request records)
                (record {
                  world = (ports.get_papers_by_ids ids (deadline -ℤ now) w).1;
                  log = log;
                })) [
                  | refused x s' q k ↦ rw (e, q) (subst (IsSound request) (sym k) quiet)
                  | stored s' q k ↦ elim (Bool-cases (not (is_nil (missing request ids records)))) [
                    | inl lost ↦ rw (e, q, lost) (subst (IsSound request) (sym k) sound)
                    | inr all ↦
                        rw (e, q, all)
                          (IsLoop-saved request (record l { progress = after })
                            (accepted request records) log s'.log k sound h.scope)
                  ]
                ]
        ]

    -- A step that only stores a progress with the same pending identifiers.
    stored-Keeps :
        (l : Loop) (p : ArxivDiscoveryProgress) (s : Harvesting W)
        (r : Result (Unit {0}) × Harvesting W) (l' : Loop)
        → Saves (saved p []) s.log r
        → l'.progress ≡ p
        → IsLoop request l s.log
        → p.pending_ids ≡ l.progress.pending_ids
        → p.progress_categories ≡ l.progress.progress_categories
        → IsCovered request s.log p
        → Keeps (continue (λ _. pure l') r)
    unfolding last_saved
    stored-Keeps l p s r l' (refused x s' q k) e h same scope covered =
        rw q (subst (IsSound request) (sym k) h.sound)
    stored-Keeps l p s r l' (stored s' q k) e h same scope covered =
        let sound =
          IsSound-saved request p [] s.log
            (same_pending request p [] s.log l.progress h.current same h.sound.kept)
            (IsCovered-later request (saved p []) s.log p covered) in
        rw q (
          subst (λ m. IsLoop request l' m) (sym k)
            (record {
              sound = sound;
              current = ap some (sym e);
              scope = ap (λ m. m.progress_categories) e ∙ scope ∙ h.scope;
            }))

    go_on-Keeps :
        (l : Loop) (s : Harvesting W)
        → IsLoop request l s.log
        → l.progress.complete ≡ false
        → l.progress.pending_ids ≡ []
        → l.progress.page_exhausted ≡ true
        → Keeps (go_on request ports l s)
    unfolding go_on
    go_on-Keeps l s h going empty read =
        let p = advanced request l.progress in
        stored-Keeps l p s _ (record l { progress = p })
          (save-Saves ports request.day_from request.day_to p [] s) refl h
          (advanced-pending request l.progress) (advanced-categories request l.progress)
          (advanced-IsCovered request s.log l.progress going read empty
            (h.sound.covered l.progress h.current))

    after_page-Keeps :
        (l : Loop) (category : Text) (answer : Result ArxivIdentifierPage) (s : Harvesting W)
        → IsLoop request l s.log
        → l.progress.complete ≡ false
        → l.progress.pending_ids ≡ []
        → l.progress.page_exhausted ≡ false
        → category_at l.progress.category_index l.progress.progress_categories ≡ some category
        → Keeps (after_page request ports l category answer s)
    unfolding after_page last_saved
    after_page-Keeps l category (err e) s h going empty more here =
        let p = record l.progress { resumption_token = none } in
        elim (Bool-cases
          (is_token_expired e && (is_some l.progress.resumption_token && ltb l.token_restarts 2))) [
            | inr other ↦ rw other h.sound
            | inl again ↦ rw again (
                stored-Keeps l p s _
                  (record l { progress = p; token_restarts = l.token_restarts + 1 })
                  (save-Saves ports request.day_from request.day_to p [] s) refl h refl refl
                  (restarted-IsCovered request s.log l.progress going
                    (h.sound.covered l.progress h.current)))
          ]
    after_page-Keeps l category (ok page) s h going empty more here =
        let p = paged request l.progress page in
        let listing = listed l.progress.day category l.progress.resumption_token page in
        let quiet =
          IsSound-listed request l.progress.day category l.progress.resumption_token page s.log
            h.sound in
        elim (Bool-cases (is_same_token page.next_token l.progress.resumption_token)) [
          | inl same ↦ rw same quiet
          | inr fresh ↦
              let sound =
                IsSound-saved request p [] (listing ∷ s.log)
                  (IsKept-saved request p [] (listing ∷ s.log) quiet.kept (λ k waiting.
                    absurd (nothing_pending request k l s.log h.current empty waiting)))
                  (paged-IsCovered request s.log l.progress category page [] going more here
                    (h.sound.covered l.progress h.current)) in
              elim (save-Saves ports request.day_from request.day_to p []
                (record s { log = listing ∷ s.log })) [
                  | refused x s' q k ↦ rw (fresh, q) (subst (IsSound request) (sym k) quiet)
                  | stored s' q k ↦
                      rw (fresh, q)
                        (IsLoop-saved request (record l { progress = p }) [] (listing ∷ s.log)
                          s'.log k sound h.scope)
                ]
        ]

    next_page-Keeps :
        (deadline : ℤ) (l : Loop) (s : Harvesting W)
        → IsLoop request l s.log
        → l.progress.complete ≡ false
        → l.progress.pending_ids ≡ []
        → l.progress.page_exhausted ≡ false
        → Keeps (next_page request ports deadline l s)
    unfolding next_page
    next_page-Keeps deadline l s h going empty more =
        elim (Bool-cases (leb request.max_pages l.pages)) [
          | inl spent ↦ rw spent h.sound
          | inr left ↦
              elim (Option-cases
                (category_at l.progress.category_index l.progress.progress_categories)) [
                  | inl e ↦ rw (left, e) h.sound
                  | inr (category, e) ↦
                      let w = (ports.monotonic s.world).1 in
                      let asked =
                        ports.list_updated_identifiers l.progress.day category
                          l.progress.resumption_token (deadline -ℤ (ports.monotonic s.world).0) w in
                      rw (left, e)
                        (after_page-Keeps (record l { pages = l.pages + 1 }) category asked.0
                          (record s { world = asked.1 })
                          (record { sound = h.sound; current = h.current; scope = h.scope }) going
                          empty more e)
                ]
        ]

    pub harvest_round-Keeps :
        (deadline : ℤ) (l : Loop) (s : Harvesting W)
        → IsLoop request l s.log
        → l.progress.complete ≡ false
        → Keeps (harvest_round request ports deadline l s)
    unfolding harvest_round
    harvest_round-Keeps deadline l s h going =
        let s₁ = record s { world = (ports.monotonic s.world).1 } in
        elim (Bool-cases (leb_ℤ deadline (ports.monotonic s.world).0)) [
          | inl late ↦ rw late h.sound
          | inr early ↦ elim (List-cases l.progress.pending_ids) [
            | inr (k, ks, e) ↦
                let some_pending : not (is_nil l.progress.pending_ids) ≡ true =
                  ap (λ ids. not (is_nil ids)) e in
                rw (early, some_pending) (look_up-Keeps deadline l s₁ h going)
            | inl empty ↦
                let none_pending : not (is_nil l.progress.pending_ids) ≡ false =
                  ap (λ ids. not (is_nil ids)) empty in
                elim (Bool-cases l.progress.page_exhausted) [
                  | inl read ↦
                      ground (arith, early, none_pending, read, go_on-Keeps l s₁ h going empty read)
                  | inr more ↦ ground (
                    arith,
                    early,
                    none_pending,
                    more,
                    next_page-Keeps deadline l s₁ h going empty more,
                  )
                ]
          ]
        ]
