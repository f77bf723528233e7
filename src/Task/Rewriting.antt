-- ===== src/Task/Rewriting.antt =====
-- What BulkUpdate does to a history: an event takes the place of the one that has its ID.
use sr_server.Prelude.{
  ◌≡◌, refl, sym, ap, subst, ◌∙◌, ◌⊎◌, inl, inr, Bool, true, false, Bool-cases, not, ◌&&◌, ◌||◌,
  List, [], ◌∷◌, map, keep, length, All, ℤ, ltb_ℤ, eq_ℤ, Result, ok, arith,
}
use sr_server.Json.{Json, Mismatch, json_eq, json_eq_iff}
use sr_server.Redis.Documented.{Entry, in_range, insert_entry}
use sr_server.Event.{Event, get_id}
use sr_server.Event.Codec.{parse, marshal, IsTyped, parse-marshal}
use sr_server.Game.EventManager.Posting.{has_text}
use sr_server.Task.Batches.{Rises, IsReadable, up_to}

-- One of the entries has the ID.
abbrev pub Has : ℤ → List Entry → Type 0
Has id [] = ⊥
Has id (x ∷ es) = (x.score ≡ id) ⊎ Has id es

abbrev pub scores : List Entry → List ℤ
scores = map (λ e. e.score)

-- The history without the entries of an ID.
abbrev pub without : ℤ → List Entry → List Entry
without id = keep (λ e. not (in_range id id e))

without_higher :
    (id : ℤ) (es : List Entry) → All (λ y. ltb_ℤ id y.score ≡ true) es → without id es ≡ es
without_higher id [] h = refl
without_higher id (x ∷ es) (h, t) = ground (arith, without_higher id es t)

Has-above :
    (low id : ℤ) (es : List Entry)
    → All (λ y. ltb_ℤ low y.score ≡ true) es
    → Has id es
    → ltb_ℤ low id ≡ true
Has-above low id [] h k = absurd k
Has-above low id (x ∷ es) (h, t) (inl here) = subst (λ s. ltb_ℤ low s ≡ true) here h
Has-above low id (x ∷ es) (h, t) (inr later) = Has-above low id es t later

module _ (precedes : Json → Json → Bool) (e : Entry) where
  insert_below :
      (es : List Entry)
      → All (λ y. ltb_ℤ e.score y.score ≡ true) es
      → insert_entry precedes e es ≡ e ∷ es
  unfolding insert_entry
  insert_below [] h = refl
  insert_below (x ∷ es) (h, t) = rw (h) refl

  -- An entry put in the place of the one with its score leaves the scores as they are.
  pub scores-insert :
      (es : List Entry)
      → Rises es
      → Has e.score es
      → scores (insert_entry precedes e (without e.score es)) ≡ scores es
  unfolding insert_entry
  scores-insert [] rises h = absurd h
  scores-insert (x ∷ es) (above, rises) (inl here) =
      let gone : not (in_range e.score e.score x) ≡ false = ground arith in
      let higher = subst (λ s. All (λ y. ltb_ℤ s y.score ≡ true) es) here above in
      rw (gone) (
        ap scores
          (ap (insert_entry precedes e) (without_higher e.score es higher) ∙ insert_below es higher)
        ∙ ap (λ s. s ∷ scores es) (sym here))
  scores-insert (x ∷ es) (above, rises) (inr later) =
      let under = Has-above x.score e.score es above later in
      let kept : not (in_range e.score e.score x) ≡ true = ground arith in
      let after : (ltb_ℤ e.score x.score || (eq_ℤ e.score x.score && precedes e.member x.member))
          ≡ false =
        ground arith in
      rw (kept, after) (ap (◌∷◌ x.score) (scores-insert es rises later))

  -- Where each entry has a property, so they do with one more that has it.
  pub All-insert :
      (P : Entry → Type 0) (es : List Entry) → P e → All P es → All P (insert_entry precedes e es)
  unfolding insert_entry
  All-insert P [] h k = (h, tt)
  All-insert P (x ∷ es) h (k, ks) =
      elim (Bool-cases
        (ltb_ℤ e.score x.score || (eq_ℤ e.score x.score && precedes e.member x.member))) [
          | inl here ↦ rw (here) (h, (k, ks))
          | inr later ↦ rw (later) (k, All-insert P es h ks)
        ]

cons-inj : {a b : ℤ} {l m : List ℤ} → a ∷ l ≡ b ∷ m → (a ≡ b) × (l ≡ m)
cons-inj h = (cc, cc)

-- What the scores of a history determine.
All-scores :
    (P : ℤ → Type 0) (es fs : List Entry)
    → scores es ≡ scores fs
    → All (λ y. P y.score) es
    → All (λ y. P y.score) fs
All-scores P [] [] same h = tt
All-scores P [] (y ∷ fs) same h = absurd cc
All-scores P (x ∷ es) [] same h = tt
All-scores P (x ∷ es) (y ∷ fs) same (h, t) =
    let (first, rest) = cons-inj same in (subst P first h, All-scores P es fs rest t)

pub Rises-scores : (es fs : List Entry) → scores es ≡ scores fs → Rises es → Rises fs
Rises-scores [] [] same h = tt
Rises-scores [] (y ∷ fs) same h = absurd cc
Rises-scores (x ∷ es) [] same h = tt
Rises-scores (x ∷ es) (y ∷ fs) same (above, rises) =
    let (first, rest) = cons-inj same in
    (
      subst (λ s. All (λ z. ltb_ℤ s z.score ≡ true) fs) first
          (All-scores (λ n. ltb_ℤ x.score n ≡ true) es fs rest above),
      Rises-scores es fs rest rises,
    )

pub Has-scores : (id : ℤ) (es fs : List Entry) → scores es ≡ scores fs → Has id es → Has id fs
Has-scores id [] fs same h = absurd h
Has-scores id (x ∷ es) [] same h = absurd cc
Has-scores id (x ∷ es) (y ∷ fs) same (inl here) = inl (sym (cons-inj same).0 ∙ here)
Has-scores id (x ∷ es) (y ∷ fs) same (inr later) = inr (Has-scores id es fs (cons-inj same).1 later)

pub count-scores :
    (id : ℤ) (es fs : List Entry)
    → scores es ≡ scores fs
    → length (keep (up_to id) fs) ≡ length (keep (up_to id) es)
count-scores id [] [] same = refl
count-scores id [] (y ∷ fs) same = absurd cc
count-scores id (x ∷ es) [] same = absurd cc
count-scores id (x ∷ es) (y ∷ fs) same =
    let (first, rest) = cons-inj same in ground (arith, count-scores id es fs rest)

ok-event : {a b : Event} → ◌≡◌ {A = Result Mismatch Event} (ok a) (ok b) → a ≡ b
ok-event h = cc

-- No other entry has the text of the event.
pub new_text :
    (evt : Event) (es : List Entry)
    → IsTyped evt
    → All IsReadable es
    → has_text (marshal evt) (without (get_id evt) es) ≡ false
new_text evt [] typed readable = refl
new_text evt (x ∷ es) typed ((other, parsed, id, _), readable) =
    let later = new_text evt es typed readable in
    elim (Bool-cases (json_eq x.member (marshal evt))) [
      | inr differs ↦ ground (arith, later)
      | inl same ↦
          let text : x.member ≡ marshal evt = (json_eq_iff x.member (marshal evt)).0 same in
          let one : other ≡ evt = ok-event (sym parsed ∙ ap parse text ∙ parse-marshal evt typed) in
          let at : x.score ≡ get_id evt = sym id ∙ ap get_id one in ground (arith, later)
    ]
