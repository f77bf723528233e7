-- ===== src/Routes/Profile.antt =====
-- routes/player.go: the handler of a player's changes to their own record.
pub mod Refused
use sr_server.Prelude.{
  not, ◌&&◌, ◌||◌, [], ◌∷◌, ◌==◌, length, if◌then◌else◌, Text, codes, text_eq, ◌*◌, ◌^◌, ℤ, pos,
  ltb_ℤ, Exec, pure, raise, ◌>>=◌, ◌>>◌,
}
use sr_server.Json.{Json, int, frac, str, get_field}
use sr_server.Redis.{Redis, Hash, text, num, flag}
use sr_server.Player.{is_online, valid_name, trim_space, online_mode_auto, online_mode_offline}
use sr_server.Player.Stored.{get_by_id}
use sr_server.Session.{Session}
use sr_server.Update.{Diff, player_diff, is_empty, put_key, hash_json}
use sr_server.Game.Players.{update_player}
use sr_server.Routes.{
  Stop, aborted, Answer, written, Request, request_session, read_body_json, read_or,
  http_bad_request, http_internal_error_if,
}
use sr_server.Routes.Edits.{read_diff, truncated}

-- externalDiff and internalDiff
pub record Diffs : Type 0 where
  pub external : Hash
  pub internal : Hash

unfoldable pub set_both : Text → Diffs → ℤ → Diffs
set_both key ds n = record {
  external = put_key key (num n) ds.external;
  internal = put_key key (num n) ds.internal;
}

module _ {S : Type 0} where
  unfoldable pub update_name : Diffs → Json → Exec S Stop Diffs
  update_name ds (str t) =
      let name = trim_space t in
      if valid_name name
      then pure (record {
        external = put_key (codes "name") (text name) ds.external;
        internal = put_key (codes "name") (text name) ds.internal;
      })
      else raise (aborted 400)
  update_name ds _ = raise (aborted 400)

  -- hue > 360 is tested on the float64: a fraction above 360 is refused too
  unfoldable pub update_hue : Diffs → Json → Exec S Stop Diffs
  unfolding set_both
  update_hue ds (int n) =
      if ltb_ℤ n (pos 0) || ltb_ℤ (pos 360) n
      then raise (aborted 400)
      else pure (set_both (codes "hue") ds n)
  update_hue ds (frac n k) =
      if ltb_ℤ n (pos 0) || ltb_ℤ (pos (360 * 2 ^ k)) n
      then raise (aborted 400)
      else pure (set_both (codes "hue") ds (truncated n k))
  update_hue ds _ = raise (aborted 400)

module _ (r : Redis) where
  unfoldable pub set_mode : Session → Diffs → ℤ → Exec r.Db Stop Diffs
  set_mode sess ds mode = do
    http_bad_request (ltb_ℤ mode online_mode_auto || ltb_ℤ online_mode_offline mode)
    plr ← http_internal_error_if (get_by_id r sess.player_id)
    let updated_online = is_online (record plr { online_mode = mode })
    let changes = if is_online plr then not updated_online else updated_online
    pure (record {
      external =
          if changes
          then put_key (codes "online") (flag updated_online) ds.external
          else ds.external;
      internal = put_key (codes "onlineMode") (num mode) ds.internal;
    })

  unfoldable pub update_mode : Session → Diffs → Json → Exec r.Db Stop Diffs
  unfolding set_mode
  update_mode sess ds (int n) = set_mode sess ds n
  update_mode sess ds (frac n k) = set_mode sess ds (truncated n k)
  update_mode sess ds _ = raise (aborted 400)

  unfoldable pub update_field : Session → Text → Json → Diffs → Exec r.Db Stop Diffs
  unfolding update_name update_hue update_mode
  update_field sess key value ds =
      if text_eq key (codes "name")
      then update_name ds value
      else if text_eq key (codes "hue")
      then update_hue ds value
      else if text_eq key (codes "onlineMode")
      then update_mode sess ds value
      else raise (aborted 400)

  -- the loop of handleUpdatePlayer
  unfoldable pub update_player_fields : Session → Diff → Diffs → Exec r.Db Stop Diffs
  unfolding update_field
  update_player_fields sess [] ds = pure ds
  update_player_fields sess ((key, value) ∷ requested) ds = do
    next ← update_field sess key value ds
    update_player_fields sess requested next

  -- handleUpdatePlayer
  unfoldable pub handle_update_player : (Diff → Diff) → Request → Exec r.Db Stop Answer
  unfolding update_player_fields
  handle_update_player range request = do
    sess ← request_session r request
    fs ← read_or 401 (read_body_json (codes "diff" ∷ []) request)
    requested ← read_or 401 (read_diff (get_field (codes "diff") fs))
    http_bad_request (length requested == 0)
    ds ← update_player_fields sess (range requested) (record { external = []; internal = [] })
    let external = player_diff sess.player_id ds.external
    let internal = player_diff sess.player_id ds.internal
    http_bad_request (is_empty external && is_empty internal)
    http_internal_error_if (update_player r sess.game_id external internal)
    pure (written (hash_json ds.internal))
