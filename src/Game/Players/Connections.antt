-- ===== src/Game/Players/Connections.antt =====
-- UpdatePlayerConnections: who learns that a player came or went.
use sr_server.Prelude.{
  update_self, pure-ok, ◌≡◌, sym, ap, subst, ◌∙◌, ◌⊎◌, inl, inr, Bool, true, false, Option, none,
  some, List, ◌∷◌, Text, codes, find, ◌++◌, ℤ, pos, negsuc, ◌+ℤ◌, ok, bind-ok, wrap-ok, arith, pure,
}
use sr_server.Json.{Json}
use sr_server.Fault.{redis, redis_error}
use sr_server.Redis.{num, Redis, hincrby, publish}
use sr_server.Redis.Documented.Hashes.{find-put_field}
use sr_server.Redis.Documented.{put_field, View, apply, int_of, Documented}
use sr_server.Player.Stored.{player_prefix, modify_connections}
use sr_server.Update.{PlayerUpdate, player_online, player_update_json}
use sr_server.Game.Channels.{channel, updates}
use sr_server.Game.Players.{update_player_connections, connection_update, announce}

-- Everyone in the game is told whether the player is online, or nothing is published.
abbrev Told : Text → Text → Bool → View → View → Type 0
Told game_id player_id online v v' =
    v'.published
    ≡ (channel updates game_id, player_update_json (player_online player_id online)) ∷ v.published

abbrev pub stored_count : Text → View → ℤ
stored_count player_id v =
    int_of (find (codes "connections") (v.hashes (player_prefix ++ player_id)))

-- What UpdatePlayerConnections returns and publishes.
abbrev pub Announced : Text → Text → ℤ → View → ℤ → View → Type 0
Announced game_id player_id amount v n v' =
    (n ≡ stored_count player_id v +ℤ amount)
    × (((n ≡ pos 0) × (amount ≡ negsuc 0) × Told game_id player_id false v v')
        ⊎ ((n ≡ pos 1) × (amount ≡ pos 1) × Told game_id player_id true v v')
        ⊎ (¬ ((n ≡ pos 0) × (amount ≡ negsuc 0))
            × ¬ ((n ≡ pos 1) × (amount ≡ pos 1))
            × (v'.published ≡ v.published)))

module _ (r : Redis) (doc : Documented r) where
  open doc use {view, precedes}

  call_published :
      (game_id : Text) (u : PlayerUpdate) (d d' : r.Db)
      → announce r game_id (some u) d ≡ (ok tt, d')
      → (view d').published ≡ (channel updates game_id, player_update_json u) ∷ (view d).published
  unfolding announce apply
  call_published game_id u d d' h =
      let c = publish (channel updates game_id) (player_update_json u) in
      let (n, t, first, last) = bind-ok (redis (r.call c)) (λ _. pure tt) d h in
      let sent = doc.call_ok c (wrap-ok (λ _. redis_error) (r.call c) d first) in
      ap (λ x. (view x).published) (sym (ap (λ p. p.1) last)) ∙ ap (λ p. p.1.published) (sym sent)

  update_cases :
      (player_id : Text) (n amount : ℤ)
      → ((n ≡ pos 0)
          × (amount ≡ negsuc 0)
          × (connection_update r player_id n amount ≡ some (player_online player_id false)))
        ⊎ ((n ≡ pos 1)
            × (amount ≡ pos 1)
            × (connection_update r player_id n amount ≡ some (player_online player_id true)))
        ⊎ (¬ ((n ≡ pos 0) × (amount ≡ negsuc 0))
            × ¬ ((n ≡ pos 1) × (amount ≡ pos 1))
            × (connection_update r player_id n amount ≡ none))
  unfolding connection_update
  update_cases player_id n amount = ground arith

  announced :
      (game_id : Text) (o : Option PlayerUpdate) (u : PlayerUpdate) (d d' : r.Db)
      (old : List (Text × Json))
      → (view d).published ≡ old
      → o ≡ some u
      → announce r game_id o d ≡ (ok tt, d')
      → (view d').published ≡ (channel updates game_id, player_update_json u) ∷ old
  announced game_id o u d d' old same e h =
      subst (λ x. (view d').published ≡ (channel updates game_id, player_update_json u) ∷ x) same
        (call_published game_id u d d' (subst (λ x. announce r game_id x d ≡ (ok tt, d')) e h))

  silent :
      (game_id : Text) (o : Option PlayerUpdate) (d d' : r.Db)
      → o ≡ none
      → announce r game_id o d ≡ (ok tt, d')
      → (view d').published ≡ (view d).published
  unfolding announce
  silent game_id o d d' e h =
      let h' : announce r game_id none d ≡ (ok tt, d') =
        subst (λ x. announce r game_id x d ≡ (ok tt, d')) e h in
      ap (λ p. (view p.1).published) (sym h')

  counted :
      (player_id : Text) (amount : ℤ) (d d' : r.Db) (n : ℤ)
      → redis (modify_connections r player_id amount) d ≡ (ok n, d')
      → (n ≡ stored_count player_id (view d) +ℤ amount) × ((view d').published ≡ (view d).published)
  unfolding modify_connections apply
  counted player_id amount d d' n h =
      let c = hincrby (player_prefix ++ player_id) (codes "connections") amount in
      let done = doc.call_ok c (wrap-ok (λ _. redis_error) (r.call c) d h) in
      (sym (ap (λ p. p.0) done), sym (ap (λ p. p.1.published) done))

  -- UpdatePlayerConnections, where it succeeds, returns the count that was stored plus the amount.
  -- It tells the game that the player is offline exactly if the count went down by one to 0, that
  -- the player is online exactly if it went up by one to 1, and publishes nothing else.
  pub update_player_connections-ok :
      (game_id player_id : Text) (amount n : ℤ) (d d' : r.Db)
      → update_player_connections r game_id player_id amount d ≡ (ok n, d')
      → Announced game_id player_id amount (view d) n (view d')
  unfolding update_player_connections
  update_player_connections-ok game_id player_id amount n d d' h =
      let (m, t, first, later) = bind-ok (redis (modify_connections r player_id amount)) _ d h in
      let (_, t', sent, last) =
        bind-ok (announce r game_id (connection_update r player_id m amount)) (λ _. pure m) t
          later in
      let (count, same) = counted player_id amount d t m first in
      pure-ok (λ x y. Announced game_id player_id amount (view d) x (view y)) last
        (
          count,
          elim (update_cases player_id m amount) [
            | inl (zero, less, off) ↦ inl (zero, less, announced game_id _ _ t t' _ same off sent)
            | inr (inl (one, more, on)) ↦
                inr (inl (one, more, announced game_id _ _ t t' _ same on sent))
            | inr (inr (not_off, not_on, quiet)) ↦
                inr (inr (not_off, not_on, silent game_id _ t t' quiet sent ∙ same))
          ],
        )

  counted_fields :
      (player_id : Text) (amount : ℤ) (d d' : r.Db) (n : ℤ)
      → redis (modify_connections r player_id amount) d ≡ (ok n, d')
      → (stored_count player_id (view d') ≡ stored_count player_id (view d) +ℤ amount)
        × ((view d').ttls ≡ (view d).ttls)
  unfolding modify_connections apply
  counted_fields player_id amount d d' n h =
      let key = player_prefix ++ player_id in
      let c = hincrby key (codes "connections") amount in
      let done = doc.call_ok c (wrap-ok (λ _. redis_error) (r.call c) d h) in
      let count = stored_count player_id (view d) +ℤ amount in
      let there =
        update_self key (put_field (codes "connections") (num count) ((view d).hashes key))
          (view d).hashes in
      (
        ap (λ p. stored_count player_id p.1) (sym done)
            ∙ ap (λ fs. int_of (find (codes "connections") fs)) there
            ∙ ap int_of (find-put_field (codes "connections") (num count) ((view d).hashes key)),
        sym (ap (λ p. p.1.ttls) done),
      )

  announce_fields :
      (game_id : Text) (o : Option PlayerUpdate) (d d' : r.Db)
      → announce r game_id o d ≡ (ok tt, d')
      → ((view d').hashes ≡ (view d).hashes) × ((view d').ttls ≡ (view d).ttls)
  unfolding announce apply
  announce_fields game_id none d d' h =
      (ap (λ p. (view p.1).hashes) (sym h), ap (λ p. (view p.1).ttls) (sym h))
  announce_fields game_id (some u) d d' h =
      let c = publish (channel updates game_id) (player_update_json u) in
      let (n, t, first, last) = bind-ok (redis (r.call c)) (λ _. pure tt) d h in
      let sent = doc.call_ok c (wrap-ok (λ _. redis_error) (r.call c) d first) in
      let same = sym (ap (λ p. p.1) last) in
      (
        ap (λ x. (view x).hashes) same ∙ ap (λ p. p.1.hashes) (sym sent),
        ap (λ x. (view x).ttls) same ∙ ap (λ p. p.1.ttls) (sym sent),
      )

  -- UpdatePlayerConnections, where it succeeds, changes the player's count by the amount and no
  -- time to live.
  pub update_player_connections-count :
      (game_id player_id : Text) (amount n : ℤ) (d d' : r.Db)
      → update_player_connections r game_id player_id amount d ≡ (ok n, d')
      → (stored_count player_id (view d') ≡ stored_count player_id (view d) +ℤ amount)
        × ((view d').ttls ≡ (view d).ttls)
  unfolding update_player_connections
  update_player_connections-count game_id player_id amount n d d' h =
      let (m, t, first, later) = bind-ok (redis (modify_connections r player_id amount)) _ d h in
      let (_, t', sent, last) =
        bind-ok (announce r game_id (connection_update r player_id m amount)) (λ _. pure m) t
          later in
      let (count, same) = counted_fields player_id amount d t m first in
      let (hashes, ttls) = announce_fields game_id _ t t' sent in
      let end = ap (λ p. view p.1) (sym last) in
      (
        ap (stored_count player_id) end
            ∙ ap (λ f. int_of (find (codes "connections") (f (player_prefix ++ player_id)))) hashes
            ∙ count,
        ap (λ v. v.ttls) end ∙ ttls ∙ same,
      )
