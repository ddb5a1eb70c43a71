-- ===== src/Ingest/Fetched.antt =====
-- application/ingest_arxiv.py: the identifiers that a checkpoint of the harvest has pending.
use mathlib.Core.List.{Memᴰ}
use domain_specific_paper_ha.Prelude.{
  ℕ, zero, suc, Bool, true, not, ◌||◌, ◌≡◌, refl, sym, ap, ◌∙◌, ◌⊎◌, inl, inr, Option, none, some,
  List, [], ◌∷◌, take, filter, length, min, arith, Bool-cases,
}
use domain_specific_paper_ha.Prelude.Text.{Text, text_eq, text_eq_iff}
use domain_specific_paper_ha.Prelude.Keys.{member, member-append}
use domain_specific_paper_ha.Ingest.Record.{ArxivPaperRecord}
use domain_specific_paper_ha.Ingest.Progress.{
  ArxivDiscoveryProgress, HarvestEvent, listed, looked_up, saved, last_saved,
}
use domain_specific_paper_ha.Ingest.Harvest.{
  HarvestRequest, drop, accepted, batch, missing, looked, ids_of, max_arxiv_id_lookup,
}
use domain_specific_paper_ha.Ingest.Logs.{Log}

-- The identifiers that are pending in the progress that the database holds.
abbrev pub pending_of : Option ArxivDiscoveryProgress → List Text
pending_of none = []
pending_of (some progress) = progress.pending_ids

member-take-drop :
    (k : Text) (n : ℕ) (xs : List Text)
    → member k xs ≡ true
    → (member k (take n xs) || member k (drop (length (take n xs)) xs)) ≡ true
unfolding member drop
member-take-drop k zero xs h = h
member-take-drop k (suc n) [] h = cc
member-take-drop k (suc n) (x ∷ xs) h = ground (arith, h, member-take-drop k n xs)

member-filter :
    (k : Text) (p : Text → Bool) (xs : List Text)
    → member k xs ≡ true
    → p k ≡ true
    → member k (filter p xs) ≡ true
unfolding member
member-filter k p [] h e = cc
member-filter k p (x ∷ xs) h e = elim (Bool-cases (text_eq k x)) [
  | inl same ↦
      let kept : p x ≡ true = ap p (sym ((text_eq_iff k x).0 same)) ∙ e in
      rw kept (ground (arith, same))
  | inr other ↦ elim (Bool-cases (p x)) [
    | inl kept ↦ rw kept (ground (arith, other, h, member-filter k p xs))
    | inr cut ↦ rw cut (ground (arith, other, h, member-filter k p xs))
  ]
]

module _ (request : HarvestRequest) where
  -- An identifier was looked up, its record came, and the checkpoint that followed stored what is
  -- accepted of the records.
  pub data IsFetched (k : Text) : Log → Type 0 where
    fetched_now :
        (progress : ArxivDiscoveryProgress) (ids : List Text) (records : List ArxivPaperRecord)
        (log : Log)
        → member k (ids_of records) ≡ true
        → IsFetched k (saved progress (accepted request records) ∷ looked_up ids records ∷ log)
    fetched_before :
        (event : HarvestEvent) (log : Log) → IsFetched k log → IsFetched k (event ∷ log)

  -- What was ever pending in a checkpoint still is, or was fetched.
  unfoldable pub IsKept : Log → Type 0
  IsKept log =
      (k : Text) (progress : ArxivDiscoveryProgress) (records : List ArxivPaperRecord)
      → Memᴰ (saved progress records) log
      → member k progress.pending_ids ≡ true
      → (member k (pending_of (last_saved log)) ≡ true) ⊎ IsFetched k log

  pub IsKept-nil : IsKept []
  unfolding IsKept
  IsKept-nil k progress records m h = elim m [ ]

  IsKept-quiet :
      (event : HarvestEvent) (log : Log)
      → last_saved (event ∷ log) ≡ last_saved log
      → ((progress : ArxivDiscoveryProgress) (records : List ArxivPaperRecord)
          → Memᴰ (saved progress records) (event ∷ log)
          → Memᴰ (saved progress records) log)
      → IsKept log
      → IsKept (event ∷ log)
  unfolding IsKept
  IsKept-quiet event log same older kept k progress records m h =
      elim (kept k progress records (older progress records m) h) [
        | inl waiting ↦ inl (ap (λ o. member k (pending_of o)) same ∙ waiting)
        | inr fetched ↦ inr (fetched_before event log fetched)
      ]

  pub IsKept-listed :
      (day : _) (category : Text) (token : Option Text) (page : _) (log : Log)
      → IsKept log
      → IsKept (listed day category token page ∷ log)
  unfolding last_saved
  IsKept-listed day category token page log kept =
      IsKept-quiet (listed day category token page) log refl
        (λ p r m. elim m [ Memᴰ.head e ↦ cc | Memᴰ.tail t ↦ t ]) kept

  pub IsKept-looked_up :
      (ids : List Text) (records : List ArxivPaperRecord) (log : Log)
      → IsKept log
      → IsKept (looked_up ids records ∷ log)
  unfolding last_saved
  IsKept-looked_up ids records log kept =
      IsKept-quiet (looked_up ids records) log refl
        (λ p r m. elim m [ Memᴰ.head e ↦ cc | Memᴰ.tail t ↦ t ]) kept

  pub IsKept-saved :
      (progress : ArxivDiscoveryProgress) (records : List ArxivPaperRecord) (log : Log)
      → IsKept log
      → ((k : Text)
          → member k (pending_of (last_saved log)) ≡ true
          → (member k progress.pending_ids ≡ true) ⊎ IsFetched k (saved progress records ∷ log))
      → IsKept (saved progress records ∷ log)
  unfolding IsKept last_saved
  IsKept-saved progress records log kept step k p r (Memᴰ.head e) h =
      let same : p ≡ progress = cc in inl (ap (λ q. member k q.pending_ids) (sym same) ∙ h)
  IsKept-saved progress records log kept step k p r (Memᴰ.tail m) h = elim (kept k p r m h) [
    | inl waiting ↦ step k waiting
    | inr fetched ↦ inr (fetched_before (saved progress records) log fetched)
  ]

  -- A lookup keeps what it did not find.
  pub looked-IsKept :
      (progress : ArxivDiscoveryProgress) (records : List ArxivPaperRecord) (log : Log)
      → last_saved log ≡ some progress
      → IsKept log
      → IsKept (
          saved (looked request progress records) (accepted request records)
          ∷ looked_up (batch request progress) records
          ∷ log)
  unfolding looked last_saved
  looked-IsKept progress records log current kept =
      let ids = batch request progress in
      IsKept-saved (looked request progress records) (accepted request records)
        (looked_up ids records ∷ log) (IsKept-looked_up ids records log kept)
        (λ k waiting.
          let rest = drop (length ids) progress.pending_ids in
          let here : member k progress.pending_ids ≡ true =
            ap (λ o. member k (pending_of o)) (sym current) ∙ waiting in
          let split =
            member-take-drop k (min request.topic.max_results max_arxiv_id_lookup)
              progress.pending_ids here in
          elim (Bool-cases (member k (ids_of records))) [
            | inl found ↦ inr (fetched_now (looked request progress records) ids records log found)
            | inr lost ↦ inl (
                member-append k (missing request ids records) rest
                ∙ (elim (Bool-cases (member k ids)) [
                  | inl asked ↦
                      let again =
                        member-filter k (λ j. not (member j (ids_of records))) ids asked
                          (ap not lost) in
                      ground (arith, again)
                  | inr unasked ↦ ground (arith, split, unasked)
                ]))
          ])
