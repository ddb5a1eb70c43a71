-- ===== src/Ingest/Steps.antt =====
-- application/ingest_arxiv.py: each round of the harvest leaves less to do.
use domain_specific_paper_ha.Exec.{continue, pure}
use domain_specific_paper_ha.Prelude.{
  ℕ, zero, suc, ◌+◌, ◌*◌, ◌≤◌, ◌<◌, min, true, false, not, ◌&&◌, ◌≡◌, refl, ap, ◌⊎◌, inl, inr, none,
  is_some, List, [], ◌∷◌, ◌++◌, length, length-take, is_nil, ltb, leb, arith, Bool-cases,
  Option-cases, List-cases, if◌then◌else◌,
}
use domain_specific_paper_ha.Prelude.Text.{Text}
use domain_specific_paper_ha.Prelude.Int.{ℤ, ◌-ℤ◌, leb_ℤ}
use domain_specific_paper_ha.Result.{Result, ok, err, Result-cases}
use domain_specific_paper_ha.Ingest.Progress.{
  ArxivIdentifierPage, ArxivDiscoveryProgress, HarvestPorts, Harvesting, listed, looked_up,
}
use domain_specific_paper_ha.Ingest.Harvest.{
  HarvestRequest, Loop, max_arxiv_id_lookup, drop, category_at, is_same_token, accepted, batch,
  missing, looked, advanced, paged, look_up, go_on, after_page, is_token_expired, next_page,
  harvest_round,
}
use domain_specific_paper_ha.Ingest.Logs.{Gives, Saves, stored, refused, save-Saves}

length-drop : (n : ℕ) (xs : List Text) → length (drop n xs) + min n (length xs) ≡ length xs
unfolding drop
length-drop zero xs = omega arith
length-drop (suc n) [] = omega arith
length-drop (suc n) (x ∷ xs) = omega (arith, length-drop n xs)

is_nil-eq : (xs : List Text) → is_nil xs ≡ true → xs ≡ []
is_nil-eq [] h = refl
is_nil-eq (x ∷ xs) h = cc

-- The work that is left before the next page.
unfoldable pub size : ArxivDiscoveryProgress → ℕ
size p = 2 * length p.pending_ids + (if p.complete then 0 else if p.page_exhausted then 1 else 0)

module _ (request : HarvestRequest) where
  -- A round leaves less work, or counts one more page.
  unfoldable pub IsNext : Loop → Loop → Type 0
  IsNext l l' =
      ((l'.pages ≡ l.pages) × (size l'.progress < size l.progress))
      ⊎ ((l.pages < request.max_pages) × (l'.pages ≡ suc l.pages))

  looked-size :
      (p : ArxivDiscoveryProgress) (records : List _) (k : Text) (ks : List Text)
      → 1 ≤ request.topic.max_results
      → p.pending_ids ≡ k ∷ ks
      → is_nil (missing request (batch request p) records) ≡ true
      → size (looked request p records) < size p
  unfolding size looked
  looked-size p records k ks positive some_left all =
      let ids = batch request p in
      let rest = drop (length ids) p.pending_ids in
      let shorter : length (missing request ids records ++ rest) ≡ length rest =
        ap (λ ms. length (ms ++ rest)) (is_nil-eq (missing request ids records) all) in
      omega (
        arith,
        positive,
        shorter,
        ap length some_left,
        length-drop (length ids) p.pending_ids,
        length-take (min request.topic.max_results max_arxiv_id_lookup) p.pending_ids,
      )

  advanced-size :
      (p : ArxivDiscoveryProgress)
      → p.complete ≡ false
      → p.page_exhausted ≡ true
      → size (advanced request p) < size p
  unfolding size advanced
  advanced-size p going read = ground (arith, going, read)

  module _ {W : Type 0} (ports : HarvestPorts W) (deadline : ℤ) where
    abbrev pub Steps : Loop → Result Loop × Harvesting W → Type 0
    Steps l = Gives (λ l' _. IsNext l l') (λ _. Unit {0})

    -- A step that stores a progress and goes on.
    stored-Steps :
        (l l' : Loop) (p : _) (log : _) (r : Result (Unit {0}) × Harvesting W)
        → Saves p log r
        → IsNext l l'
        → Steps l (continue (λ _. pure l') r)
    stored-Steps l l' p log r (refused x s' q k) h = rw q tt
    stored-Steps l l' p log r (stored s' q k) h = rw q h

    look_up-Steps :
        (l : Loop) (s : Harvesting W) (k : Text) (ks : List Text)
        → 1 ≤ request.topic.max_results
        → l.progress.pending_ids ≡ k ∷ ks
        → Steps l (look_up request ports deadline l s)
    unfolding look_up IsNext
    look_up-Steps l s k ks positive some_left =
        let ids = batch request l.progress in
        let (now, w) = ports.monotonic s.world in
        elim (Result-cases (ports.get_papers_by_ids ids (deadline -ℤ now) w).0) [
          | inr (x, e) ↦ rw e tt
          | inl (records, e) ↦
              let log = looked_up ids records ∷ s.log in
              elim (save-Saves ports request.day_from request.day_to
                (looked request l.progress records) (accepted request records)
                (record {
                  world = (ports.get_papers_by_ids ids (deadline -ℤ now) w).1;
                  log = log;
                })) [
                  | refused x s' q j ↦ rw (e, q) tt
                  | stored s' q j ↦ elim (Bool-cases (is_nil (missing request ids records))) [
                    | inr lost ↦ rw (e, q, lost) tt
                    | inl all ↦
                        rw (e, q, all)
                          (inl (refl, looked-size l.progress records k ks positive some_left all))
                  ]
                ]
        ]

    after_page-Steps :
        (l before : Loop) (category : Text) (answer : Result ArxivIdentifierPage) (s : Harvesting W)
        → before.pages < request.max_pages
        → l.pages ≡ suc before.pages
        → Steps before (after_page request ports l category answer s)
    unfolding after_page IsNext
    after_page-Steps l before category (err x) s room counted =
        let p = record l.progress { resumption_token = none } in
        elim (Bool-cases
          (is_token_expired x && (is_some l.progress.resumption_token && ltb l.token_restarts 2))) [
            | inr other ↦ rw other tt
            | inl again ↦ rw again (
                stored-Steps before
                  (record l { progress = p; token_restarts = l.token_restarts + 1 }) _ s.log _
                  (save-Saves ports request.day_from request.day_to p [] s) (inr (room, counted)))
          ]
    after_page-Steps l before category (ok page) s room counted =
        let p = paged request l.progress page in
        let log = listed l.progress.day category l.progress.resumption_token page ∷ s.log in
        elim (Bool-cases (is_same_token page.next_token l.progress.resumption_token)) [
          | inl same ↦ rw same tt
          | inr fresh ↦ rw fresh (
              stored-Steps before (record l { progress = p }) _ log _
                (save-Saves ports request.day_from request.day_to p [] (record s { log = log }))
                (inr (room, counted)))
        ]

    next_page-Steps : (l : Loop) (s : Harvesting W) → Steps l (next_page request ports deadline l s)
    unfolding next_page
    next_page-Steps l s = elim (Bool-cases (leb request.max_pages l.pages)) [
      | inl spent ↦ rw spent tt
      | inr left ↦
          elim (Option-cases
            (category_at l.progress.category_index l.progress.progress_categories)) [
              | inl e ↦ rw (left, e) tt
              | inr (category, e) ↦
                  let asked =
                    ports.list_updated_identifiers l.progress.day category
                      l.progress.resumption_token (deadline -ℤ (ports.monotonic s.world).0)
                      (ports.monotonic s.world).1 in
                  rw (left, e)
                    (after_page-Steps (record l { pages = l.pages + 1 }) l category asked.0
                      (record s { world = asked.1 }) (ground (arith, left)) (omega arith))
            ]
    ]

    pub round-Steps :
        (l : Loop) (s : Harvesting W)
        → 1 ≤ request.topic.max_results
        → l.progress.complete ≡ false
        → Steps l (harvest_round request ports deadline l s)
    unfolding harvest_round go_on IsNext
    round-Steps l s positive going =
        let s₁ = record s { world = (ports.monotonic s.world).1 } in
        elim (Bool-cases (leb_ℤ deadline (ports.monotonic s.world).0)) [
          | inl late ↦ rw late tt
          | inr early ↦ elim (List-cases l.progress.pending_ids) [
            | inr (k, ks, e) ↦
                let some_pending : not (is_nil l.progress.pending_ids) ≡ true =
                  ap (λ ids. not (is_nil ids)) e in
                rw (early, some_pending) (look_up-Steps l s₁ k ks positive e)
            | inl empty ↦
                let none_pending : not (is_nil l.progress.pending_ids) ≡ false =
                  ap (λ ids. not (is_nil ids)) empty in
                elim (Bool-cases l.progress.page_exhausted) [
                  | inl read ↦
                      let p = advanced request l.progress in
                      let turned =
                        stored-Steps l (record l { progress = p }) _ s.log _
                          (save-Saves ports request.day_from request.day_to p [] s₁)
                          (inl (refl, advanced-size l.progress going read)) in
                      ground (arith, early, none_pending, read, turned)
                  | inr more ↦ ground (arith, early, none_pending, more, next_page-Steps l s₁)
                ]
          ]
        ]
