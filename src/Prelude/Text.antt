-- ===== src/Prelude/Text.antt =====
-- Text as the list of its code points, the way Python indexes, measures and compares a `str`.
-- A `UUID` is its canonical text, the one that `str` gives: equality of identifiers is equality of
-- these texts, and the program orders identifiers by them.
use Prim.Native.Nat.{ℕ}
use Prim.Native.Char.{code}
use Prim.Native.String.{String}
use mathlib.Core.Path.{◌≡◌, refl, ap₂}
use mathlib.Core.Logic.{◌↔◌}
use mathlib.Core.Bool.{Bool, true, false, ◌&&◌, ◌||◌}
use mathlib.Core.List.{List, [], ◌∷◌, reverse}
use native.Mathlib.Omega.{arith}
use domain_specific_paper_ha.Prelude.Tests.{ltb, leb, ◌==◌, if◌then◌else◌}

abbrev pub Text : Type 0
Text = List ℕ

abbrev pub Uuid : Type 0
Uuid = Text

abbrev pub codes : String → Text
codes String.[] = []
codes (String.◌∷◌ c s) = code c ∷ codes s

unfoldable pub text_eq : Text → Text → Bool
text_eq [] [] = true
text_eq (a ∷ s) (b ∷ t) = a == b && text_eq s t
text_eq _ _ = false

pub text_eq_iff : (s t : Text) → (text_eq s t ≡ true) ↔ (s ≡ t)
unfolding text_eq
text_eq_iff [] [] = (λ _. refl, λ _. refl)
text_eq_iff [] (b ∷ t) = (λ h. cc, λ h. cc)
text_eq_iff (a ∷ s) [] = (λ h. cc, λ h. cc)
text_eq_iff (a ∷ s) (b ∷ t) =
    let ih = text_eq_iff s t in
    (λ h. ap₂ ◌∷◌ (ground arith) (ih.0 (ground arith)), λ h. ground (arith, ih))

-- `s <= t`, by code points.
unfoldable pub text_leb : Text → Text → Bool
text_leb [] t = true
text_leb (a ∷ s) [] = false
text_leb (a ∷ s) (b ∷ t) = ltb a b || (a == b && text_leb s t)

-- What `str.isspace` accepts, and `str.strip` and `str.split` cut.
unfoldable pub is_space : ℕ → Bool
is_space c =
    (leb 9 c && leb c 13)
    || ((leb 28 c && leb c 32)
        || (c == 0x85
            || (c == 0xA0
                || (c == 0x1680
                    || ((leb 0x2000 c && leb c 0x200A)
                        || (c == 0x2028
                            || (c == 0x2029 || (c == 0x202F || (c == 0x205F || c == 0x3000)))))))))

unfoldable pub lstrip : Text → Text
unfolding is_space
lstrip [] = []
lstrip (c ∷ s) = let rest = lstrip s in if is_space c then rest else c ∷ s

-- `s.strip()`
unfoldable pub strip : Text → Text
unfolding lstrip
strip s = reverse (lstrip (reverse (lstrip s)))

-- `text.startswith(term)`, the term first.
unfoldable pub starts_with : Text → Text → Bool
starts_with [] s = true
starts_with (c ∷ t) [] = false
starts_with (c ∷ t) (d ∷ s) = c == d && starts_with t s

-- `term in text`
unfoldable pub contains : Text → Text → Bool
unfolding starts_with
contains term [] = starts_with term []
contains term (c ∷ s) = starts_with term (c ∷ s) || contains term s

pub text_leb-total : (s t : Text) → text_leb s t ≡ false → text_leb t s ≡ true
unfolding text_leb
text_leb-total [] t h = cc
text_leb-total (a ∷ s) [] h = refl
text_leb-total (a ∷ s) (b ∷ t) h = ground (arith, text_leb-total s t)

pub text_leb-transitive :
    (s t u : Text) → text_leb s t ≡ true → text_leb t u ≡ true → text_leb s u ≡ true
unfolding text_leb
text_leb-transitive [] t u h k = refl
text_leb-transitive (a ∷ s) [] u h k = cc
text_leb-transitive (a ∷ s) (b ∷ t) [] h k = cc
text_leb-transitive (a ∷ s) (b ∷ t) (c ∷ u) h k = ground (arith, text_leb-transitive s t u)

pub text_leb-antisym : (s t : Text) → text_leb s t ≡ true → text_leb t s ≡ true → s ≡ t
unfolding text_leb
text_leb-antisym [] [] h k = refl
text_leb-antisym [] (b ∷ t) h k = cc
text_leb-antisym (a ∷ s) [] h k = cc
text_leb-antisym (a ∷ s) (b ∷ t) h k =
    ap₂ ◌∷◌ (ground arith) (text_leb-antisym s t (ground arith) (ground arith))
