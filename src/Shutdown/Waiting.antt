-- ===== src/Shutdown/Waiting.antt =====
-- The server waits exactly for the interrupt and for the clients, and every client is told.
use sr_server.Prelude.{
  ℕ, suc, ◌+◌, ◌≡◌, ◌≢◌, refl, sym, ap, subst, ◌∙◌, ◌⊎◌, inl, inr, true, List, [], ◌∷◌, ◌++◌,
  length, if◌then◌else◌, All, arith, Bool-cases,
}
use sr_server.Shutdown.{
  Handler, Input, from_client, sigint, goes_on, panics, is_client, delete, turn, Reaches, at_start,
  after,
}

length-delete :
    (c : ℕ) (cs : List ℕ) → is_client c cs ≡ true → suc (length (delete c cs)) ≡ length cs
unfolding delete
length-delete c [] h = cc
length-delete c (x ∷ cs) h = ground (arith, length-delete c cs)

-- All of the clients that are registered have been told of the shutdown.
abbrev AllTold : List ℕ → List ℕ → Type 0
AllTold cs notified = All (λ c. is_client c notified ≡ true) cs

AllTold-delete :
    (c : ℕ) (cs notified : List ℕ) → AllTold cs notified → AllTold (delete c cs) notified
unfolding delete
AllTold-delete c [] notified h = tt
AllTold-delete c (x ∷ cs) notified h = ground (arith, AllTold-delete c cs notified)

AllTold-more : (c : ℕ) (cs notified : List ℕ) → AllTold cs notified → AllTold cs (c ∷ notified)
AllTold-more c [] notified h = tt
AllTold-more c (x ∷ cs) notified h = ground (arith, AllTold-more c cs notified)

AllTold-self : (cs notified : List ℕ) → AllTold cs (cs ++ notified)
AllTold-self [] notified = tt
AllTold-self (c ∷ cs) notified =
    (ground arith, AllTold-more c cs (cs ++ notified) (AllTold-self cs notified))

-- The counter of WaitGroup is the number of clients, and one more until the interrupt has come.
abbrev pub Waits : Handler → Type 0
Waits h = h.wait_group ≡ length h.clients + (if h.sigint_received then 0 else 1)

abbrev pub Informed : Handler → Type 0
Informed h = h.sigint_received ≡ true → AllTold h.clients h.notified

turn-Waits : (i : Input) (h h' : Handler) → Waits h → turn i h ≡ goes_on h' → Waits h'
unfolding turn
turn-Waits (from_client c) h h' w e = ground (arith, length-delete c h.clients)
turn-Waits sigint h h' w e = ground arith

-- The state after each kind of turn.
turn_cases :
    (i : Input) (h h' : Handler)
    → turn i h ≡ goes_on h'
    → ((c : ℕ) × (h'.clients ≡ delete c h.clients)
        × (h'.notified ≡ h.notified)
        × (h'.sigint_received ≡ h.sigint_received))
      ⊎ ((c : ℕ) × (h'.clients ≡ c ∷ h.clients)
          × (h'.notified ≡ (if h.sigint_received then c ∷ h.notified else h.notified))
          × (h'.sigint_received ≡ h.sigint_received))
      ⊎ ((h'.clients ≡ h.clients) × (h'.notified ≡ h.clients ++ h.notified))
unfolding turn
turn_cases (from_client c) h h' e = elim (Bool-cases (is_client c h.clients)) [
  | inl old ↦ inl (c, ground arith, ground arith, ground arith)
  | inr new ↦ inr (inl (c, ground arith, ground arith, ground arith))
]
turn_cases sigint h h' e = inr (inr (ground arith, ground arith))

turn-Informed : (i : Input) (h h' : Handler) → Informed h → turn i h ≡ goes_on h' → Informed h'
turn-Informed i h h' t e s = elim (turn_cases i h h' e) [
  | inl (c, cs, told, same) ↦
      rw (cs, told) (AllTold-delete c h.clients h.notified (t (sym same ∙ s)))
  | inr (inl (c, cs, told, same)) ↦
      let come = sym same ∙ s in
      let told' : h'.notified ≡ c ∷ h.notified =
        told ∙ ap (λ b. if b then c ∷ h.notified else h.notified) come in
      subst (λ x. AllTold x h'.notified) (sym cs)
        (subst (AllTold (c ∷ h.clients)) (sym told')
          (ground arith, AllTold-more c h.clients h.notified (t come)))
  | inr (inr (cs, told)) ↦ rw (cs, told) (AllTold-self h.clients h.notified)
]

never_panics : (i : Input) (h : Handler) → Waits h → turn i h ≢ panics
unfolding turn
never_panics (from_client c) h w e = ground (arith, length-delete c h.clients)
never_panics sigint h w e = ground arith

invariant : (inputs : List Input) (h : Handler) → Reaches inputs h → Waits h × Informed h
invariant [] h at_start = (refl, λ e. tt)
invariant _ h' (after {inputs = inputs} {h = h} i reach e) =
    let (waits, informed) = invariant inputs h reach in
    (turn-Waits i h h' waits e, turn-Informed i h h' informed e)

-- In every state that the loop comes to, the counter of WaitGroup is the number of the clients that
-- have registered and not closed, and one more until the interrupt has come; no input makes it go
-- below 0; and once the interrupt has come every client still registered has been told.
pub handle_shutdown_lem :
    (inputs : List Input) (h : Handler)
    → Reaches inputs h
    → Waits h × Informed h × ((i : Input) → turn i h ≢ panics)
handle_shutdown_lem inputs h reach =
    let (waits, informed) = invariant inputs h reach in
    (waits, informed, λ i. never_panics i h waits)
