-- ===== src/Ingest/Logs.antt =====
-- The log that a checkpoint of the harvest leaves, and how a block of it ends.
use domain_specific_paper_ha.Prelude.{true, ◌≡◌, refl, List, ◌∷◌, inl, inr, Bool-cases}
use domain_specific_paper_ha.Result.{Result, Error, ok, err, Result-cases}
use domain_specific_paper_ha.Lineage.Edge.{Datetime}
use domain_specific_paper_ha.Trends.Calendar.{Day}
use domain_specific_paper_ha.Ingest.Record.{ArxivPaperRecord}
use domain_specific_paper_ha.Ingest.Progress.{
  ArxivDiscoveryProgress, HarvestEvent, HarvestPorts, Harvesting, saved, last_saved, is_refused,
  outside, aware_now, persist_ingestion_progress, save,
}

abbrev pub Log : Type 0
Log = List HarvestEvent

-- How a block ends: `good` of the value and the log where it returns, `bad` of the log where it raises.
abbrev pub Gives :
    {A W : Type 0} → (A → Log → Type 0) → (Log → Type 0) → Result A × Harvesting W → Type 0
Gives good bad (ok v, s) = good v s.log
Gives good bad (err e, s) = bad s.log

module _ {W : Type 0} where
  -- A checkpoint is added to the log, or the log stays as it was.
  pub data Saves (checkpoint : HarvestEvent) (log : Log) (r : Result (Unit {0}) × Harvesting W)
      : Type 0 where
    stored : (s : Harvesting W) → r ≡ (ok tt, s) → s.log ≡ checkpoint ∷ log → Saves checkpoint log r
    refused : (e : Error) (s : Harvesting W) → r ≡ (err e, s) → s.log ≡ log → Saves checkpoint log r

module _ {W : Type 0} (ports : HarvestPorts W) (day_from day_to : Day) where
  persist-Saves :
      (progress : ArxivDiscoveryProgress) (records : List ArxivPaperRecord) (at : Datetime)
      (s : Harvesting W)
      → Saves
          (saved progress records)
          s.log
          (persist_ingestion_progress ports day_from day_to progress records at s)
  unfolding persist_ingestion_progress
  persist-Saves progress records at s = elim (Result-cases (ports.lock_run s.world).0) [
    | inr (e, h) ↦ rw h (refused e _ refl refl)
    | inl (v, h) ↦ elim (Bool-cases (outside day_from day_to progress.day)) [
      | inl out ↦ rw (h, out) (refused _ _ refl refl)
      | inr within ↦ elim (Bool-cases (is_refused (last_saved s.log) progress)) [
        | inl other ↦ rw (h, within, other) (refused _ _ refl refl)
        | inr same ↦
            elim (Result-cases (ports.write progress records at (ports.lock_run s.world).1).0) [
              | inr (e, k) ↦ rw (h, within, same, k) (refused e _ refl refl)
              | inl (u, k) ↦ rw (h, within, same, k) (stored _ refl refl)
            ]
      ]
    ]
  ]

  pub save-Saves :
      (progress : ArxivDiscoveryProgress) (records : List ArxivPaperRecord) (s : Harvesting W)
      → Saves (saved progress records) s.log (save ports day_from day_to progress records s)
  unfolding save aware_now
  save-Saves progress records s = elim (Bool-cases (ports.clock s.world).0.is_aware) [
    | inl aware ↦ rw aware (
        persist-Saves progress records
          (record { instant = (ports.clock s.world).0.instant; is_aware = true })
          (record s { world = (ports.clock s.world).1 }))
    | inr naive ↦ rw naive (refused _ _ refl refl)
  ]
