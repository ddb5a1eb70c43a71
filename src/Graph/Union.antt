-- ===== src/Graph/Union.antt =====
-- domain/knowledge.py: `_deduplicate_identified`, for records with an identifier and any equality
-- that is decided. The dictionary is a list of its values in the order of insertion.
use domain_specific_paper_ha.Prelude.{Bool, Option, none, some, List, [], ◌∷◌, if◌then◌else◌}
use domain_specific_paper_ha.Prelude.Text.{Uuid, text_eq, text_leb}
use domain_specific_paper_ha.Prelude.Sort.{sorted}
use domain_specific_paper_ha.Result.{Error, Result, ok, err, ◌>>=◌}

-- What the loop finds under an identifier: nothing, an equal value or another one.
pub data Existing : Type 0 where
  missing : Existing
  equal_record : Existing
  conflicting : Existing

abbrev pub compared {ℓ} : {P : Type ℓ} → Dec P → Existing
compared (yes _) = equal_record
compared (no _) = conflicting

abbrev pub existing : {A : Type 0} → Discrete A → A → Option A → Existing
existing same value none = missing
existing same value (some found) = compared (same found value)

module _ {A : Type 0} (id_of : A → Uuid) where
  -- `by_id.get(id)`
  unfoldable pub get : List A → Uuid → Option A
  get [] key = none
  get (value ∷ values) key =
      let later = get values key in if text_eq key (id_of value) then some value else later

  -- `by_id[value.id] = value`
  unfoldable pub put : A → List A → List A
  put value [] = value ∷ []
  put value (other ∷ values) =
      let later = other ∷ put value values in
      if text_eq (id_of value) (id_of other) then value ∷ values else later

  unfoldable pub collect : Discrete A → Error → List A → List A → Result (List A)
  unfolding get put
  collect same conflict [] by_id = ok by_id
  collect same conflict (value ∷ values) by_id =
      let rest = collect same conflict values (put value by_id) in
      elim (existing same value (get by_id (id_of value))) [
        | missing ↦ rest
        | equal_record ↦ rest
        | conflicting ↦ err conflict
      ]

  unfoldable pub id_leb : A → A → Bool
  id_leb a b = text_leb (id_of a) (id_of b)

  unfoldable pub deduplicate_identified : Discrete A → Error → List A → Result (List A)
  unfolding collect id_leb
  deduplicate_identified same conflict values = do
    by_id ← collect same conflict values []
    ok (sorted id_leb by_id)
