-- ===== src/Prelude/Texts.antt =====
-- Go's strings are sequences of bytes; a literal is read through `codes`.
use Prim.Native.Char.{code}
use Prim.Native.Nat.{ℕ, ◌+◌, ◌-◌, ◌*◌}
use Prim.Native.String.{String}
use mathlib.Core.Path.{◌≡◌, refl, ap, sym, ◌∙◌}
use mathlib.Core.Logic.{◌↔◌, inl, inr}
use mathlib.Core.Bool.{Bool, true, false, ◌&&◌}
use mathlib.Core.List.{List, [], ◌∷◌}
use mathlib.Core.Option.{Option, none, some}
use native.Mathlib.Omega.{arith}
use sr_server.Prelude.Tests.{leb, ◌==◌, if◌then◌else◌, Bool-cases}

abbrev pub Text : Type 0
Text = List ℕ

-- The bytes of an ASCII literal.
abbrev pub codes : String → Text
codes String.[] = []
codes (String.◌∷◌ c s) = code c ∷ codes s

unfoldable pub text_eq : Text → Text → Bool
text_eq [] [] = true
text_eq [] (b ∷ t) = false
text_eq (a ∷ s) [] = false
text_eq (a ∷ s) (b ∷ t) = a == b && text_eq s t

text_eq-to-eq : (s t : Text) → text_eq s t ≡ true → s ≡ t
unfolding text_eq
text_eq-to-eq [] [] h = refl
text_eq-to-eq [] (b ∷ t) h = cc
text_eq-to-eq (a ∷ s) [] h = cc
text_eq-to-eq (a ∷ s) (b ∷ t) h = ground (arith, text_eq-to-eq s t)

pub text_eq_refl : (s : Text) → text_eq s s ≡ true
unfolding text_eq
text_eq_refl [] = refl
text_eq_refl (a ∷ s) = ground (arith, text_eq_refl s)

pub text_eq_iff : (s t : Text) → (text_eq s t ≡ true) ↔ (s ≡ t)
text_eq_iff s t = (text_eq-to-eq s t, λ e. ap (text_eq s) (sym e) ∙ text_eq_refl s)

-- strings.HasPrefix, the prefix second as in Go.
unfoldable pub has_prefix : Text → Text → Bool
has_prefix s [] = true
has_prefix [] (b ∷ p) = false
has_prefix (a ∷ s) (b ∷ p) = a == b && has_prefix s p

-- The first value that a list of pairs holds for a key.
module _ {ℓ} {V : Type ℓ} where
  abbrev pub find : Text → List (Text × V) → Option V
  find k [] = none
  find k ((j, v) ∷ m) = let rest = find k m in if text_eq j k then some v else rest

-- A map of texts changed at one key.
abbrev pub update {ℓ} : {V : Type ℓ} → Text → V → (Text → V) → Text → V
update k v f j = if text_eq k j then v else f j

pub text_eq_ne : (s t : Text) → ¬ (s ≡ t) → text_eq s t ≡ false
text_eq_ne s t h = ground (arith, text_eq_iff s t)

pub text_eq_inj :
    (f : Text → Text) (s t : Text) → (f s ≡ f t → s ≡ t) → text_eq (f s) (f t) ≡ text_eq s t
text_eq_inj f s t h = elim (Bool-cases (text_eq s t)) [
  | inl same ↦
      ap (λ x. text_eq (f s) (f x)) (sym ((text_eq_iff s t).0 same)) ∙ text_eq_refl (f s) ∙ sym same
  | inr other ↦ text_eq_ne (f s) (f t) (λ e. ground (arith, text_eq_iff s t, h e)) ∙ sym other
]

pub update_self {ℓ} : {V : Type ℓ} (k : Text) (v : V) (f : Text → V) → update k v f k ≡ v
update_self {V} k v f = ap (λ (b : Bool). if b then v else f k) (text_eq_refl k)

abbrev pub is_digit : ℕ → Bool
is_digit c = leb b'0' c && leb c b'9'

-- strconv.ParseUint of a non-empty text in base 10, before its check of the size
unfoldable pub parse_digits : ℕ → Text → Option ℕ
parse_digits n [] = some n
parse_digits n (c ∷ s) = elim (is_digit c) [
  | true ↦ parse_digits (n * 10 + (c - b'0')) s
  | false ↦ none
]
