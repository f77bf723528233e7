-- ===== src/Game/Channels/Privacy.antt =====
-- A player's subscription carries an event exactly if the player may see it.
use sr_server.Prelude.{
  ◌≡◌, ◌≢◌, refl, ap, true, any, some, [], ◌∷◌, ◌++◌, length, length-append, arith, Text, text_eq,
  text_eq_refl, text_eq_inj, text_eq_ne,
}
use sr_server.Player.{Player}
use sr_server.Event.{Event, get_player_id}
use sr_server.Game.Channels.{
  channel, private_channel, history, updates, player_can_see_event, event_channel, update_channel,
  subscriptions,
}

append-cancel : (p s t : Text) → p ++ s ≡ p ++ t → s ≡ t
append-cancel [] s t h = h
append-cancel (c ∷ p) s t h = append-cancel p s t (ground arith)

-- Two IDs with the same tail after them are the same.
cancel-append : (s t r : Text) → s ++ r ≡ t ++ r → s ≡ t
cancel-append [] [] r h = refl
cancel-append [] (c ∷ t) r h = absurd (omega (arith, ap length h, length-append t r))
cancel-append (c ∷ s) [] r h = absurd (omega (arith, ap length h, length-append s r))
cancel-append (c ∷ s) (d ∷ t) r h =
    let rest = cancel-append s t r (ground arith) in ground (arith, rest)

module _ (game_id : Text) where
  private-ne-channel :
      (prefix player_id : Text) → private_channel prefix player_id game_id ≢ channel prefix game_id
  unfolding channel private_channel
  private-ne-channel prefix player_id h =
      let same = append-cancel prefix (player_id ++ b':' ∷ game_id) game_id h in
      omega (arith, ap length same, length-append player_id (b':' ∷ game_id))

  private-injective :
      (prefix p q : Text)
      → private_channel prefix p game_id ≡ private_channel prefix q game_id
      → p ≡ q
  unfolding private_channel
  private-injective prefix p q h =
      cancel-append p q (b':' ∷ game_id)
        (append-cancel prefix (p ++ b':' ∷ game_id) (q ++ b':' ∷ game_id) h)

  -- The channels of events and those of updates differ in their first letter.
  kinds_differ : (s t : Text) → (history ++ s ≢ updates ++ t) × (updates ++ t ≢ history ++ s)
  kinds_differ s t = (λ e. ground arith, λ e. ground arith)

-- A subscription holds the channel of a prefix for the game, and the private channel of its player.
module _ (game_id p q : Text) where
  carries_shared : any (text_eq (channel history game_id)) (subscriptions game_id p) ≡ true
  unfolding subscriptions
  carries_shared = ground (arith, text_eq_refl (channel history game_id))

  carries_shared_update : any (text_eq (channel updates game_id)) (subscriptions game_id p) ≡ true
  unfolding subscriptions
  carries_shared_update = ground (arith, text_eq_refl (channel updates game_id))

  same_player :
      (prefix : Text)
      → text_eq (private_channel prefix q game_id) (private_channel prefix p game_id) ≡ text_eq q p
  same_player prefix =
      text_eq_inj (λ x. private_channel prefix x game_id) q p (private-injective game_id prefix q p)

  carries_private :
      any (text_eq (private_channel history q game_id)) (subscriptions game_id p) ≡ text_eq q p
  unfolding subscriptions private_channel channel
  carries_private = ground (
    arith,
    same_player history,
    text_eq_ne _ _ (private-ne-channel game_id history q),
    text_eq_ne _ _ (kinds_differ game_id (q ++ b':' ∷ game_id) game_id).0,
    text_eq_ne _ _ (kinds_differ game_id (q ++ b':' ∷ game_id) (p ++ b':' ∷ game_id)).0,
  )

  carries_private_update :
      any (text_eq (private_channel updates q game_id)) (subscriptions game_id p) ≡ text_eq q p
  unfolding subscriptions private_channel channel
  carries_private_update = ground (
    arith,
    same_player updates,
    text_eq_ne _ _ (private-ne-channel game_id updates q),
    text_eq_ne _ _ (kinds_differ game_id game_id (q ++ b':' ∷ game_id)).1,
    text_eq_ne _ _ (kinds_differ game_id (p ++ b':' ∷ game_id) (q ++ b':' ∷ game_id)).1,
  )

-- What is published of an event, itself and its updates, goes to a player's subscription to the
-- game exactly if the player can see the event.
pub subscriptions-visible :
    (game_id : Text) (plr : Player) (evt : Event) (c u : Text)
    → event_channel game_id evt ≡ some c
    → update_channel game_id evt ≡ some u
    → (any (text_eq c) (subscriptions game_id plr.id) ≡ player_can_see_event plr evt)
      × (any (text_eq u) (subscriptions game_id plr.id) ≡ player_can_see_event plr evt)
unfolding event_channel update_channel player_can_see_event
subscriptions-visible game_id plr evt c u h k = ground (
  arith,
  carries_shared game_id plr.id plr.id,
  carries_shared_update game_id plr.id plr.id,
  carries_private game_id plr.id (get_player_id evt),
  carries_private_update game_id plr.id (get_player_id evt),
)
