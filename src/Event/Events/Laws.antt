-- ===== src/Event/Events/Laws.antt =====
-- What GetByID and GetBetween find in a history.
use mathlib.Core.List.{reverse}
use sr_server.Prelude.{
  ℕ, ◌≡◌, refl, ap, ◌⊎◌, inl, inr, List, keep, take, map, Text, ℤ, Result, ok, err, continue,
  map_err, lift, wrap-ok,
}
use sr_server.Json.{Json}
use sr_server.Fault.{Fault, redis_error}
use sr_server.Redis.{Redis, RedisError, Bound, at, minus_inf}
use sr_server.Redis.Documented.{View, Entry, in_range, members_between, Documented}
use sr_server.Event.Events.{first, get_by_id, get_between}
use sr_server.Game.Channels.{channel, history}

-- What GetByID makes of the entries of its ID, lowest first.
abbrev pub newest_of : List Entry → Result Fault Json
newest_of es = first (take 1 (map (λ e. e.member) (reverse es)))

module _ (r : Redis) (doc : Documented r) where
  open doc use {view}

  reply_first :
      (p : Result RedisError (List Json) × r.Db) (ms : List Json) (v : View)
      → ((found : List Json) (t : r.Db) → p ≡ (ok found, t) → found ≡ ms)
      → view p.1 ≡ v
      → (let q = continue (map_err (λ _. redis_error) p) (λ events. lift (first events)) in
          (view q.1 ≡ v) × ((q.0 ≡ err redis_error) ⊎ (q.0 ≡ first ms)))
  reply_first (ok found, t) ms v h same = (same, inr (ap first (h found t refl)))
  reply_first (err x, t) ms v h same = (same, inl refl)

  -- GetByID leaves the data alone. Unless redis fails, it finds an event of the ID, and says that
  -- there is none exactly if the history has no entry of that score.
  pub get_by_id_lem :
      (game_id : Text) (id : ℤ) (d : r.Db)
      → (view (get_by_id r game_id id d).1 ≡ view d)
        × (((get_by_id r game_id id d).0 ≡ err redis_error)
            ⊎ ((get_by_id r game_id id d).0
                ≡ newest_of (keep (in_range id id) ((view d).zsets (channel history game_id)))))
  unfolding get_by_id members_between
  get_by_id_lem game_id id d =
      let k = channel history game_id in
      reply_first (r.zrevrangebyscore k (at id) (at id) 1 d) _ (view d)
        (λ found t e. doc.zrevrangebyscore_ok k (at id) (at id) 1 e)
        (doc.zrevrangebyscore_view k (at id) (at id) 1 d)

  -- GetBetween returns the newest events that are not newer than `newest`, at most `count`, the
  -- newest first, whatever the oldest ID that it is asked for.
  get_between-ok :
      (game_id : Text) (newest oldest : Bound) (count : ℕ) (d d' : r.Db) {ms : List Json}
      → get_between r game_id newest oldest count d ≡ (ok ms, d')
      → ms ≡ members_between newest minus_inf count ((view d).zsets (channel history game_id))
  unfolding get_between
  get_between-ok game_id newest oldest count d d' h =
      doc.zrevrangebyscore_ok (channel history game_id) newest minus_inf count
        (wrap-ok _ (r.zrevrangebyscore (channel history game_id) newest minus_inf count) d h)
