-- ===== src/Task/Migrated.antt =====
-- The migration gives events to players of the game only, and changes nothing else of them.
use sr_server.Prelude.{
  option_cases, some-inj, ℕ, ◌≡◌, refl, sym, ap, subst, ◌∙◌, ◌⊎◌, inl, inr, Bool, true, false,
  Bool-cases, Option, none, some, List, [], ◌∷◌, find, Text, text_eq, text_eq_iff, arith,
  if◌then◌else◌,
}
use sr_server.Event.{Event, get_player_id, get_player_name}
use sr_server.Update.{put_key}
use sr_server.Task.{
  Names, Migration, printable, chosen, select_a_player, prompt, is_yes, confirm, migrated_player_id,
  or_alias, or_known, player_of, with_event, set_player_id, migrate_batch,
}

-- The ID of a player of the game.
abbrev pub IsPlayerId : Names → Text → Type 0
IsPlayerId names id = (username : Text) × (find username names ≡ some id)

-- Every ID that is remembered is that of a player of the game.
abbrev pub Remembers : Names → Names → Type 0
Remembers names m = (k id : Text) → find k m ≡ some id → IsPlayerId names id

abbrev pub Knows : Names → Migration → Type 0
Knows names m = Remembers names m.migrated × Remembers names m.aliases

picked-inj :
    {A B C : Type 0} {a b : A} {c e : B} {f g : C}
    → ◌≡◌ {A = Option ((A × B) × C)} (some ((a, c), f)) (some ((b, e), g))
    → ◌≡◌ {A = Option A} (some a) (some b)
picked-inj h = cc

find-put_key :
    (j k id : Text) (m : Names)
    → find j (put_key k id m) ≡ (if text_eq k j then some id else find j m)
unfolding put_key
find-put_key j k id [] = refl
find-put_key j k id ((i, x) ∷ m) =
    ground (arith, find-put_key j k id m, text_eq_iff i k, text_eq_iff k j, text_eq_iff i j)

put_key-Remembers :
    (names m : Names) (k id : Text)
    → IsPlayerId names id
    → Remembers names m
    → Remembers names (put_key k id m)
put_key-Remembers names m k id known h j x found = elim (Bool-cases (text_eq k j)) [
  | inl here ↦
      let first = ap (λ b. if b then some id else find j m) here in
      subst (IsPlayerId names) (some-inj (sym (find-put_key j k id m ∙ first) ∙ found)) known
  | inr other ↦
      let later = ap (λ b. if b then some id else find j m) other in
      h j x (sym (find-put_key j k id m ∙ later) ∙ found)
]

select_a_player-IsPlayerId :
    (names : Names) (skipped : Bool) (lines rest : List Text) (id : Text) (c : ℕ) (name : Text)
    → select_a_player names skipped lines ≡ some ((id, c ∷ name), rest)
    → IsPlayerId names id
unfolding select_a_player
select_a_player-IsPlayerId names skipped [] rest id c name h = cc
select_a_player-IsPlayerId names true ([] ∷ lines) rest id c name h = cc
select_a_player-IsPlayerId names false ([] ∷ lines) rest id c name h =
    select_a_player-IsPlayerId names true lines rest id c name h
select_a_player-IsPlayerId names skipped ((b ∷ s) ∷ lines) rest id c name h =
    elim (option_cases (find (b ∷ s) names)) [
      | inl absent ↦ select_a_player-IsPlayerId names skipped lines rest id c name (
          sym (
            ap
              (λ o. elim o [
                | some x ↦ some ((x, b ∷ s), lines)
                | none ↦ select_a_player names skipped lines
              ])
              absent)
          ∙ h)
      | inr (x, found) ↦
          let same =
            ap
              (λ o. elim o [
                | some x ↦ some ((x, b ∷ s), lines)
                | none ↦ select_a_player names skipped lines
              ])
              found in
          let e : some ((x, b ∷ s), lines) ≡ some ((id, c ∷ name), rest) = sym same ∙ h in
          (b ∷ s, found ∙ picked-inj e)
    ]

-- The event keeps its player or gets one of the game, and what is remembered is known.
abbrev Given : Names → Event → Text × Migration → Type 0
Given names evt p = ((p.0 ≡ get_player_id evt) ⊎ IsPlayerId names p.0) × Knows names p.1

abbrev Gives : Names → Event → Option (Text × Migration) → Type 0
Gives names evt o = (p : Text × Migration) → o ≡ some p → Given names evt p

gives :
    (names : Names) (evt : Event) (q : Text × Migration)
    → Given names evt q
    → Gives names evt (some q)
gives names evt q h p e = subst (Given names evt) (some-inj e) h

chosen-Gives :
    (names : Names) (evt : Event) (m : Migration) (q : Option ((Text × Text) × List Text))
    → ((x y : Text) (c : ℕ) (rest : List Text) → q ≡ some ((x, c ∷ y), rest) → IsPlayerId names x)
    → Knows names m
    → Gives names evt (chosen evt m q)
unfolding chosen
chosen-Gives names evt m none picks knows = λ p e. cc
chosen-Gives names evt m (some ((x, []), lines)) picks knows = gives names evt _ (inl refl, knows)
chosen-Gives names evt m (some ((x, c ∷ y), lines)) picks (migrated, aliases) =
    let known = picks x y c lines refl in
    gives names evt _ (
      inr known,
      (
        put_key-Remembers names m.migrated (get_player_id evt) x known migrated,
        put_key-Remembers names m.aliases (get_player_name evt) x known aliases,
      ),
    )

prompt-Gives :
    (names : Names) (evt : Event) (m : Migration)
    → Knows names m
    → Gives names evt (prompt names evt m)
unfolding prompt
prompt-Gives names evt m knows =
    chosen-Gives names evt m (select_a_player names false m.stdin)
      (λ x y c rest e. select_a_player-IsPlayerId names false m.stdin rest x c y e) knows

confirm-Gives :
    (names : Names) (evt : Event) (alias_id : Text) (m : Migration) (lines : List Text)
    → IsPlayerId names alias_id
    → Knows names m
    → Gives names evt (confirm names evt alias_id m lines)
unfolding confirm
confirm-Gives names evt alias_id m [] known knows = λ p e. cc
confirm-Gives names evt alias_id m (response ∷ lines) known (migrated, aliases) =
    elim (Bool-cases (is_yes response)) [
      | inl agreed ↦ rw (agreed) (
          gives names evt _ (
            inr known,
            (
              put_key-Remembers names m.migrated (get_player_id evt) alias_id known migrated,
              aliases,
            ),
          ))
      | inr other ↦
          rw (other) (prompt-Gives names evt (record m { stdin = lines }) (migrated, aliases))
    ]

or_alias-Gives :
    (names : Names) (evt : Event) (m : Migration) (o : Option Text)
    → find (get_player_name evt) m.aliases ≡ o
    → Knows names m
    → Gives names evt (or_alias names evt m o)
unfolding or_alias
or_alias-Gives names evt m (some id) found (migrated, aliases) =
    confirm-Gives names evt id m m.stdin (aliases (get_player_name evt) id found)
      (migrated, aliases)
or_alias-Gives names evt m none found knows = prompt-Gives names evt m knows

or_known-Gives :
    (names : Names) (evt : Event) (m : Migration) (o : Option Text)
    → find (get_player_id evt) m.migrated ≡ o
    → Knows names m
    → Gives names evt (or_known names evt m o)
unfolding or_known
or_known-Gives names evt m (some id) found (migrated, aliases) =
    gives names evt (id, m) (inr (migrated (get_player_id evt) id found), (migrated, aliases))
or_known-Gives names evt m none found knows = or_alias-Gives names evt m _ refl knows

player_of-Gives :
    (names : Names) (evt : Event) (m : Migration)
    → Knows names m
    → Gives names evt (player_of names evt m)
unfolding player_of migrated_player_id
player_of-Gives names evt m knows = elim (Bool-cases (printable evt)) [
  | inl prints ↦ rw (prints) (or_known-Gives names evt m _ refl knows)
  | inr panics ↦ rw (panics) (λ p e. cc)
]

-- Each event is as it was but for its player, who is the same or one of the game.
pub data Migrates (names : Names) : List Event → List Event → Type 0 where
  nothing : Migrates names [] []
  event :
      {batch evts : List Event} (evt : Event) (id : Text)
      → (id ≡ get_player_id evt) ⊎ IsPlayerId names id
      → Migrates names batch evts
      → Migrates names (evt ∷ batch) (set_player_id evt id ∷ evts)

go_on : Names → Event → List Event → Option (Text × Migration) → Option (List Event × Migration)
go_on names evt batch o = elim o [
  | none ↦ none
  | some (player_id, n) ↦ with_event evt player_id (migrate_batch names batch n)
]

with_event-Migrates :
    (names : Names) (evt : Event) (id : Text) (batch : List Event)
    (q : Option (List Event × Migration)) (p : List Event × Migration)
    → (id ≡ get_player_id evt) ⊎ IsPlayerId names id
    → ((x : List Event × Migration) → q ≡ some x → Migrates names batch x.0 × Knows names x.1)
    → with_event evt id q ≡ some p
    → Migrates names (evt ∷ batch) p.0 × Knows names p.1
unfolding with_event
with_event-Migrates names evt id batch none p given rest h = cc
with_event-Migrates names evt id batch (some (evts, m)) p given rest h =
    let (migrates, knows) = rest (evts, m) refl in
    subst (λ x. Migrates names (evt ∷ batch) x.0 × Knows names x.1) (some-inj h)
      (event evt id given migrates, knows)

migrate_batch-Migrates :
    (names : Names) (batch : List Event) (m : Migration)
    → Knows names m
    → (p : List Event × Migration) → migrate_batch names batch m ≡ some p
    → Migrates names batch p.0 × Knows names p.1
unfolding migrate_batch go_on
migrate_batch-Migrates names [] m knows p e =
    subst (λ q. Migrates names [] q.0 × Knows names q.1) (some-inj e) (nothing, knows)
migrate_batch-Migrates names (evt ∷ batch) m knows p e =
    elim (option_cases (player_of names evt m)) [
      | inl fails ↦ let stop = sym (ap (go_on names evt batch) fails) ∙ e in cc
      | inr (q, found) ↦
          let (given, known) = player_of-Gives names evt m knows q found in
          with_event-Migrates names evt q.0 batch (migrate_batch names batch q.1) p given
            (λ x h. migrate_batch-Migrates names batch q.1 known x h)
            (sym (ap (go_on names evt batch) found) ∙ e)
    ]

-- A batch that the migration goes through without a panic keeps its order, and each event of it is
-- as it was but for the player, who is the same or one whose username and ID the game has; and so it
-- is with what the migration remembers for the next batch.
pub migrate_batch-ok :
    (names : Names) (batch evts : List Event) (m n : Migration)
    → Knows names m
    → migrate_batch names batch m ≡ some (evts, n)
    → Migrates names batch evts × Knows names n
migrate_batch-ok names batch evts m n knows h =
    migrate_batch-Migrates names batch m knows (evts, n) h
