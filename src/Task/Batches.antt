-- ===== src/Task/Batches.antt =====
-- Histories as streamReadEvents reads them, and the batches that it makes of them.
use mathlib.Core.List.{reverse, reverse_aux}
use sr_server.Prelude.{
  ℕ, zero, suc, ◌≡◌, ◌≤◌, ◌<◌, refl, sym, ap, subst, ◌∙◌, inl, inr, Bool, true, false, Bool-cases,
  some, List, [], ◌∷◌, map, keep, take, length, All, ℤ, leb_ℤ, ltb_ℤ, ok, arith, ◌+◌,
}
use sr_server.Json.{Json}
use sr_server.Redis.Documented.{Entry}
use sr_server.Event.{Event, get_id}
use sr_server.Event.Codec.{parse, IsTyped}
use sr_server.Task.{parse_all, last_event, buffer_size}

-- Entries of a history, each score above those before it.
abbrev pub Rises : List Entry → Type 0
Rises [] = Unit
Rises (x ∷ es) = All (λ y. ltb_ℤ x.score y.score ≡ true) es × Rises es

abbrev pub Falls : List Entry → Type 0
Falls [] = Unit
Falls (x ∷ es) = All (λ y. ltb_ℤ y.score x.score ≡ true) es × Falls es

-- Each entry is an event with the type of its struct whose ID is its score.
abbrev pub IsReadable : Entry → Type 0
IsReadable e = (evt : Event) × (parse e.member ≡ ok evt) × (get_id evt ≡ e.score) × IsTyped evt

abbrev pub up_to : ℤ → Entry → Bool
up_to newest e = leb_ℤ e.score newest

pub All-keep :
    (P : Entry → Type 0) (p : Entry → Bool) (es : List Entry) → All P es → All P (keep p es)
All-keep P p [] h = tt
All-keep P p (x ∷ es) (h, t) = elim (Bool-cases (p x)) [
  | inl kept ↦ rw (kept) (h, All-keep P p es t)
  | inr gone ↦ rw (gone) (All-keep P p es t)
]

pub keep-Rises : (p : Entry → Bool) (es : List Entry) → Rises es → Rises (keep p es)
keep-Rises p [] h = tt
keep-Rises p (x ∷ es) (h, t) = elim (Bool-cases (p x)) [
  | inl kept ↦ rw (kept) (All-keep _ p es h, keep-Rises p es t)
  | inr gone ↦ rw (gone) (keep-Rises p es t)
]

pub All-reverse_aux :
    (P : Entry → Type 0) (xs ys : List Entry) → All P xs → All P ys → All P (reverse_aux xs ys)
All-reverse_aux P [] ys h k = k
All-reverse_aux P (x ∷ xs) ys (h, t) k = All-reverse_aux P xs (x ∷ ys) t (h, k)

pub All-map :
    (P Q : Entry → Type 0) (es : List Entry) → ((e : Entry) → P e → Q e) → All P es → All Q es
All-map P Q [] f h = tt
All-map P Q (x ∷ es) f (h, t) = (f x h, All-map P Q es f t)

-- The entries above those of `ys`, turned round before them, fall.
pub reverse_aux-Falls :
    (xs ys : List Entry)
    → Rises xs
    → Falls ys
    → All (λ x. All (λ y. ltb_ℤ y.score x.score ≡ true) ys) xs
    → Falls (reverse_aux xs ys)
reverse_aux-Falls [] ys h k above = k
reverse_aux-Falls (x ∷ xs) ys (h, t) k (first, rest) =
    reverse_aux-Falls xs (x ∷ ys) t (first, k) (both x xs ys h rest)
  where
    both :
        (x : Entry) (xs ys : List Entry)
        → All (λ y. ltb_ℤ x.score y.score ≡ true) xs
        → All (λ z. All (λ y. ltb_ℤ y.score z.score ≡ true) ys) xs
        → All (λ z. All (λ y. ltb_ℤ y.score z.score ≡ true) (x ∷ ys)) xs
    both x [] ys a b = tt
    both x (z ∷ zs) ys (a, as') (b, bs) = ((a, b), both x zs ys as' bs)

pub length-keep-reverse_aux :
    (p : Entry → Bool) (xs ys : List Entry)
    → length (keep p (reverse_aux xs ys)) ≡ length (keep p xs) + length (keep p ys)
length-keep-reverse_aux p [] ys = omega arith
length-keep-reverse_aux p (x ∷ xs) ys = ground (arith, length-keep-reverse_aux p xs (x ∷ ys))

pub length-keep_le : (p : Entry → Bool) (xs : List Entry) → length (keep p xs) ≤ length xs
length-keep_le p [] = omega arith
length-keep_le p (x ∷ xs) = ground (arith, length-keep_le p xs)

pub keep-keep-up_to :
    (low high : ℤ) (es : List Entry)
    → leb_ℤ low high ≡ true
    → keep (up_to low) (keep (up_to high) es) ≡ keep (up_to low) es
keep-keep-up_to low high [] h = refl
keep-keep-up_to low high (x ∷ es) h = ground (arith, keep-keep-up_to low high es)

abbrev pub texts_of : List Entry → List Json
texts_of = map (λ e. e.member)

-- Entries that hold events are parsed, and the last event of a batch is that of its last entry.
read_last :
    (P : ℤ → Type 0) (x : Entry) (n : ℕ) (es : List Entry)
    → All IsReadable (x ∷ es)
    → All (λ e. P e.score) (x ∷ es)
    → (f : Event) × (fs : List Event) × (o : Event) × (parse_all (texts_of (x ∷ take n es))
        ≡ some (f ∷ fs))
      × (last_event (f ∷ fs) ≡ some o)
      × P (get_id o)
unfolding parse_all last_event
read_last P x zero es ((evt, parsed, id, _), _) (p, _) =
    (evt, [], evt, rw (parsed, parse_all) refl, refl, subst P (sym id) p)
read_last P x (suc n) [] ((evt, parsed, id, _), _) (p, _) =
    (evt, [], evt, rw (parsed, parse_all) refl, refl, subst P (sym id) p)
read_last P x (suc n) (y ∷ es) ((evt, parsed, id, _), rest) (p, ps) =
    let (f, fs, o, all, last, q) = read_last P y n es rest ps in
    (evt, f ∷ fs, o, rw (parsed, parse_all, all) refl, last, q)

pub take-map : (n : ℕ) (es : List Entry) → take n (texts_of es) ≡ texts_of (take n es)
take-map zero es = refl
take-map (suc n) [] = refl
take-map (suc n) (x ∷ es) = ap (◌∷◌ x.member) (take-map n es)

-- The entries up to an ID, the newest first, and what is known of them.
pub record Older (newest : ℤ) (h es : List Entry) : Type 0 where
  pub falls : Falls es
  pub readable : All IsReadable es
  pub within : All (λ e. up_to newest e ≡ true) es
  pub counts : (p : Entry → Bool) → length (keep p es) ≡ length (keep p (keep (up_to newest) h))
  pub size : length es ≡ length (keep (up_to newest) h)

All-up_to : (newest : ℤ) (h : List Entry) → All (λ e. up_to newest e ≡ true) (keep (up_to newest) h)
All-up_to newest [] = tt
All-up_to newest (x ∷ h) = elim (Bool-cases (up_to newest x)) [
  | inl kept ↦ rw (kept) (kept, All-up_to newest h)
  | inr gone ↦ rw (gone) (All-up_to newest h)
]

none_above : (xs : List Entry) → All (λ x. All (λ (y : Entry). ltb_ℤ y.score x.score ≡ true) []) xs
none_above [] = tt
none_above (x ∷ xs) = (tt, none_above xs)

keep-all : (es : List Entry) → keep (λ _. true) es ≡ es
keep-all [] = refl
keep-all (x ∷ es) = ap (◌∷◌ x) (keep-all es)

pub older :
    (newest : ℤ) (h : List Entry)
    → Rises h
    → All IsReadable h
    → Older newest h (reverse (keep (up_to newest) h))
older newest h rises readable =
    let k = keep (up_to newest) h in
    let counts : (p : Entry → Bool) → length (keep p (reverse k)) ≡ length (keep p k) =
      λ p. omega (arith, length-keep-reverse_aux p k []) in
    record {
      falls = reverse_aux-Falls k [] (keep-Rises (up_to newest) h rises) tt (none_above k);
      readable = All-reverse_aux IsReadable k [] (All-keep IsReadable (up_to newest) h readable) tt;
      within = All-reverse_aux _ k [] (All-up_to newest h) tt;
      counts = counts;
      size = ap length (sym (keep-all (reverse k))) ∙ counts (λ _. true) ∙ ap length (keep-all k);
    }

pub All-both :
    (P Q : Entry → Type 0) (es : List Entry) → All P es → All Q es → All (λ e. P e × Q e) es
All-both P Q [] h k = tt
All-both P Q (x ∷ es) (h, hs) (k, ks) = ((h, k), All-both P Q es hs ks)

fewer :
    (newest low : ℤ) (h : List Entry) (x : Entry) (es : List Entry)
    → Older newest h (x ∷ es)
    → ltb_ℤ low x.score ≡ true
    → leb_ℤ low newest ≡ true
    → length (keep (up_to low) h) < length (keep (up_to newest) h)
fewer newest low h x es old under within =
    let same : length (keep (up_to low) h) ≡ length (keep (up_to low) (x ∷ es)) =
      sym (old.counts (up_to low) ∙ ap length (keep-keep-up_to low newest h within)) in
    let out : leb_ℤ x.score low ≡ false = ground arith in
    let first : length (keep (up_to low) (x ∷ es)) ≤ length es =
      rw (out) (length-keep_le (up_to low) es) in
    omega (arith, same, first, old.size)

-- Two entries or more: the batch has a last event, and fewer events are left up to its ID.
pub smaller :
    (newest : ℤ) (h : List Entry) (x y : Entry) (es : List Entry)
    → Older newest h (x ∷ y ∷ es)
    → (f : Event) × (fs : List Event) × (o : Event) × (parse_all
          (take buffer_size (texts_of (x ∷ y ∷ es)))
        ≡ some (f ∷ fs))
      × (last_event (f ∷ fs) ≡ some o)
      × (length (keep (up_to (get_id o)) h) < length (keep (up_to newest) h))
unfolding parse_all last_event
smaller newest h x y es old =
    let below_both : ℤ → Type 0 = λ s. (ltb_ℤ s x.score ≡ true) × (leb_ℤ s newest ≡ true) in
    let (evt, parsed, _, _) = old.readable.0 in
    let (f, fs, o, all, last, (below_x, below_newest)) =
      read_last below_both y 198 es old.readable.1 (
        All-both (λ e. ltb_ℤ e.score x.score ≡ true) (λ e. leb_ℤ e.score newest ≡ true) (y ∷ es)
          old.falls.0 old.within.1) in
    (
      evt,
      f ∷ fs,
      o,
      ap (λ l. parse_all (x.member ∷ y.member ∷ l)) (take-map 198 es)
          ∙ rw (parsed, parse_all, all) refl,
      last,
      fewer newest (get_id o) h x (y ∷ es) old below_x below_newest,
    )
