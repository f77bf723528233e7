-- ===== src/Config/Lists.antt =====
-- readStringArray splits a value at its commas and loses nothing.
use sr_server.Prelude.{
  ℕ, ◌≡◌, ◌≢◌, refl, sym, ap, subst, ◌∙◌, Bool-cases, inl, inr, List, [], ◌∷◌, ◌++◌, ◌==◌, ==_iff,
  Text, All, arith, ◌↔◌,
}
use sr_server.Config.{Environment, split, add_to_first, list_of, read_string, read_string_array}

-- strings.Join
abbrev pub join : ℕ → List Text → Text
join sep [] = []
join sep (t ∷ []) = t
join sep (t ∷ u ∷ ts) = t ++ sep ∷ join sep (u ∷ ts)

-- A list that has a first piece, its text, and no separator within a piece.
abbrev Pieces : ℕ → List Text → Text → Type 0
Pieces sep ts s =
    ((t : Text) × (rest : List Text) × (ts ≡ t ∷ rest))
    × (join sep ts ≡ s)
    × All (λ t. All (λ c. c ≢ sep) t) ts

join-add : (sep c : ℕ) (t : Text) (ts : List Text) → join sep ((c ∷ t) ∷ ts) ≡ c ∷ join sep (t ∷ ts)
join-add sep c t [] = refl
join-add sep c t (u ∷ ts) = refl

new_piece : (sep : ℕ) (ts : List Text) (s : Text) → Pieces sep ts s → Pieces sep ([] ∷ ts) (sep ∷ s)
new_piece sep [] s h = cc
new_piece sep (t ∷ ts) s h = (([], t ∷ ts, refl), ap (◌∷◌ sep) h.1, (tt, h.2))

longer_piece :
    (sep c : ℕ) (ts : List Text) (s : Text)
    → c ≢ sep
    → Pieces sep ts s
    → Pieces sep (add_to_first c ts) (c ∷ s)
unfolding add_to_first
longer_piece sep c [] s other h = cc
longer_piece sep c (t ∷ ts) s other h =
    ((c ∷ t, ts, refl), join-add sep c t ts ∙ ap (◌∷◌ c) h.1, ((other, h.2.0), h.2.1))

split-Pieces : (sep : ℕ) (s : Text) → Pieces sep (split sep s) s
unfolding split
split-Pieces sep [] = (([], [], refl), refl, (tt, tt))
split-Pieces sep (c ∷ s) = elim (Bool-cases (c == sep)) [
  | inl same ↦ rw (same) (
      subst (λ x. Pieces sep ([] ∷ split sep s) (x ∷ s)) (sym ((==_iff c sep).0 same))
        (new_piece sep (split sep s) s (split-Pieces sep s)))
  | inr other ↦
      rw (other) (
        longer_piece sep c (split sep s) s (λ e. ground (arith, ==_iff c sep)) (split-Pieces sep s))
]

list_of_lem :
    (val : Text)
    → (join b',' (list_of val) ≡ val)
      × All (λ t. All (λ c. c ≢ b',') t) (list_of val)
      × ((list_of val ≡ []) ↔ (val ≡ []))
unfolding list_of
list_of_lem [] = (refl, tt, ((λ _. refl), (λ _. refl)))
list_of_lem (c ∷ s) =
    let ((t, rest, some_piece), joined, apart) = split-Pieces b',' (c ∷ s) in
    (joined, apart, ((λ e. let none_piece : split b',' (c ∷ s) ≡ [] = e in cc), (λ e. cc)))

-- The pieces that readStringArray gives hold no comma, and joined by commas they are the text that
-- readString reads, so that nothing is lost; there are none exactly where that text is empty.
read_string_array_lem :
    (env : Environment) (name default_value : Text)
    → (join b',' (read_string_array env name default_value) ≡ read_string env name default_value)
      × All (λ t. All (λ c. c ≢ b',') t) (read_string_array env name default_value)
      × ((read_string_array env name default_value ≡ [])
          ↔ (read_string env name default_value ≡ []))
unfolding read_string_array
read_string_array_lem env name default_value = list_of_lem (read_string env name default_value)
