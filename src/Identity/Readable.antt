-- ===== src/Identity/Readable.antt =====
-- When a name of parts joined by colons can be read back: every part but the last has no colon.
use domain_specific_paper_ha.Prelude.{
  ◌≡◌, refl, sym, ap, ◌∙◌, ◌==◌, Bool, false, List, [], ◌∷◌, ◌++◌, arith, length, any,
}
use domain_specific_paper_ha.Prelude.Int.{ℤ, pos, negsuc, ltb_ℤ}
use domain_specific_paper_ha.Prelude.Text.{Text, Uuid}
use domain_specific_paper_ha.Result.{ok, validated-eq-ok, domain_invariant}
use domain_specific_paper_ha.Identity.Encoding.{decimal-injective}
use domain_specific_paper_ha.Identity.Joined.{
  joined, comparison_name, ComparisonKey, search_action_name, decimal_ℤ,
}

abbrev pub has_colon : Text → Bool
has_colon s = any (λ c. c == b':') s

-- Each part but the last has no colon.
abbrev pub IsReadable : List Text → Type 0
IsReadable [] = Unit
IsReadable (p ∷ []) = Unit
IsReadable (p ∷ q ∷ ps) = (has_colon p ≡ false) × IsReadable (q ∷ ps)

cut_at_colon :
    (a b x y : Text)
    → has_colon a ≡ false
    → has_colon b ≡ false
    → a ++ b':' ∷ x ≡ b ++ b':' ∷ y
    → (a ≡ b) × (x ≡ y)
cut_at_colon [] [] x y p q e = (refl, cc)
cut_at_colon [] (d ∷ b) x y p q e = absurd (ground arith)
cut_at_colon (c ∷ a) [] x y p q e = absurd (ground arith)
cut_at_colon (c ∷ a) (d ∷ b) x y p q e =
    let (h, t) = cut_at_colon a b x y (ground arith) (ground arith) (cc) in (cc, t)

-- Two readable lists of parts of one length with the same joined text are equal.
pub joined-injective :
    (ps qs : List Text)
    → length ps ≡ length qs
    → IsReadable ps
    → IsReadable qs
    → joined ps ≡ joined qs
    → ps ≡ qs
unfolding joined
joined-injective [] [] n hp hq e = refl
joined-injective [] (q ∷ qs) n hp hq e = absurd (omega arith)
joined-injective (p ∷ ps) [] n hp hq e = absurd (omega arith)
joined-injective (p ∷ []) (q ∷ []) n hp hq e = cc
joined-injective (p ∷ []) (q ∷ q' ∷ qs) n hp hq e = absurd (omega arith)
joined-injective (p ∷ p' ∷ ps) (q ∷ []) n hp hq e = absurd (omega arith)
joined-injective (p ∷ p' ∷ ps) (q ∷ q' ∷ qs) n hp hq e =
    let (heads, tails) = cut_at_colon p q (joined (p' ∷ ps)) (joined (q' ∷ qs)) hp.0 hq.0 e in
    let rest = joined-injective (p' ∷ ps) (q' ∷ qs) (omega arith) hp.1 hq.1 tails in cc

positive-injective :
    (i j : ℤ)
    → ltb_ℤ i (pos 1) ≡ false
    → ltb_ℤ j (pos 1) ≡ false
    → decimal_ℤ i ≡ decimal_ℤ j
    → i ≡ j
unfolding decimal_ℤ
positive-injective (pos m) (pos n) hi hj e = ap pos (decimal-injective m n e)
positive-injective (negsuc m) j hi hj e = absurd (ground arith)
positive-injective (pos m) (negsuc n) hi hj e = absurd (ground arith)

-- Two search actions that are accepted and have one name are the same step of the same session,
-- where the session identifiers have no colon.
pub search_action_name-injective :
    (s t : Uuid) (i j : ℤ) (name : Text)
    → has_colon s ≡ false
    → has_colon t ≡ false
    → search_action_name s i ≡ ok name
    → search_action_name t j ≡ ok name
    → (s ≡ t) × (i ≡ j)
unfolding search_action_name decimal_ℤ
search_action_name-injective s t i j name hs ht p q =
    let check = domain_invariant "search action step must be positive" in
    let a = validated-eq-ok (joined (s ∷ decimal_ℤ i ∷ [])) ((ltb_ℤ i (pos 1), check) ∷ []) p in
    let b = validated-eq-ok (joined (t ∷ decimal_ℤ j ∷ [])) ((ltb_ℤ j (pos 1), check) ∷ []) q in
    let e =
      joined-injective (s ∷ decimal_ℤ i ∷ []) (t ∷ decimal_ℤ j ∷ []) refl (hs, tt) (ht, tt)
        (a.0 ∙ sym b.0) in
    (cc, positive-injective i j a.1.0 b.1.0 (cc))

abbrev pub parts : ComparisonKey → List Text
parts k =
    k.search_session_id ∷ k.source_paper_version_id ∷ k.source_analysis_id
    ∷ k.target_paper_version_id ∷ k.target_analysis_id ∷ k.provider ∷ k.configured_model
    ∷ k.model_version ∷ k.prompt_version ∷ []

-- Two comparisons with one name have the same key, where no part of either but the prompt version
-- has a colon.
pub comparison_name-injective :
    (j k : ComparisonKey)
    → IsReadable (parts j)
    → IsReadable (parts k)
    → comparison_name j ≡ comparison_name k
    → j ≡ k
unfolding comparison_name
comparison_name-injective j k hj hk e =
    let same = joined-injective (parts j) (parts k) refl hj hk e in cc
