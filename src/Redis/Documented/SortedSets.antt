-- ===== src/Redis/Documented/SortedSets.antt =====
-- Sorted sets after an insertion or a removal, seen through a test on their entries.
use sr_server.Prelude.{◌≡◌, refl, Bool, true, false, not, List, [], ◌∷◌, keep, arith, ℤ}
use sr_server.Json.{Json}
use sr_server.Redis.Documented.{Entry, in_range, insert_entry}

module _ (precedes : Json → Json → Bool) (p : Entry → Bool) (e : Entry) where
  pub keep-insert_entry_other :
      (es : List Entry) → p e ≡ false → keep p (insert_entry precedes e es) ≡ keep p es
  unfolding insert_entry
  keep-insert_entry_other [] h = ground arith
  keep-insert_entry_other (x ∷ es) h = ground (arith, keep-insert_entry_other es)

  pub keep-insert_entry_only :
      (es : List Entry) → p e ≡ true → keep p es ≡ [] → keep p (insert_entry precedes e es) ≡ e ∷ []
  unfolding insert_entry
  keep-insert_entry_only [] h k = ground arith
  keep-insert_entry_only (x ∷ es) h k = ground (arith, keep-insert_entry_only es)

pub keep-keep-not : (p : Entry → Bool) (es : List Entry) → keep p (keep (λ e. not (p e)) es) ≡ []
keep-keep-not p [] = refl
keep-keep-not p (x ∷ es) = ground (arith, keep-keep-not p es)

-- An entry is in the range of its own score.
pub in_range_self : (n : ℤ) (m : Json) → in_range n n (record { score = n; member = m }) ≡ true
in_range_self n m = ground arith
