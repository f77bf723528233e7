-- ===== src/Routes/Refusals.antt =====
-- The handlers refuse a request before they write anything.
use sr_server.Prelude.{ℕ, List, ℤ, Bool-cases, inl, inr, eq_ℤ}
use sr_server.Redis.{Redis}
use sr_server.Redis.Documented.{Documented}
use sr_server.Event.{Event, get_share}
use sr_server.Session.{Session}
use sr_server.Update.{Diff}
use sr_server.Routes.{Request}
use sr_server.Routes.Quiet.{
  Quiet, Reads-stop_if, Reads-read_or, Reads-received, Reads-http_do_error_if, Quiet-bind,
  Quiet-write, Quiet-Loud, Loud-bind, Loud-http_internal_error_if, Loud-pure,
}
use sr_server.Routes.Steps.{
  Reads-request_session, Reads-event, Reads-get_player, Reads-read_roll_request,
  Reads-read_initiative_request, Reads-rolled, Reads-update_fields, Reads-edit_fields,
  Reads-as_initiative,
}
use sr_server.Routes.Rolls.{handle_roll, handle_reroll, handle_roll_initiative}
use sr_server.Routes.Edits.{
  handle_delete_event, handle_update_event, handle_share_event, handle_edit_initiative, reshare,
}

module _ (r : Redis) (doc : Documented r) (request : Request) where
  pub Quiet-handle_roll :
      (most : ℤ) (now : ℕ) (chan : List ℕ) → Quiet r doc (handle_roll r most now chan request)
  unfolding handle_roll
  Quiet-handle_roll most now chan =
      Quiet-bind r doc _ _ (Reads-request_session r doc request) λ sess.
        Quiet-bind r doc _ _ (Reads-read_roll_request r doc request) λ req.
          Quiet-bind r doc _ _ (Reads-stop_if r doc _ _) λ _.
            Quiet-bind r doc _ _ (Reads-stop_if r doc _ _) λ _.
              Quiet-bind r doc _ _ (Reads-stop_if r doc _ _) λ _.
                Quiet-bind r doc _ _
                  (Reads-http_do_error_if r doc _ _ (Reads-get_player r doc sess))
                  λ player.
                    Quiet-bind r doc _ _ (Reads-rolled r doc now chan player req)
                      λ evt. Quiet-write r doc _ _

  pub Quiet-handle_reroll :
      (now : ℕ) (chan : List ℕ) → Quiet r doc (handle_reroll r now chan request)
  unfolding handle_reroll
  Quiet-handle_reroll now chan = Quiet-bind r doc _ _ (Reads-request_session r doc request) λ sess.
      Quiet-bind r doc _ _ (Reads-read_or r doc _ _) λ _.
        Quiet-bind r doc _ _ (Reads-read_or r doc _ _) λ _.
          Quiet-bind r doc _ _ (Reads-read_or r doc _ _) λ _.
            Quiet-bind r doc _ _ (Reads-stop_if r doc _ _) λ _.
              Quiet-bind r doc _ _ (Reads-http_do_error_if r doc _ _ (Reads-event r doc _ _)) λ _.
                Quiet-bind r doc _ _ (Reads-stop_if r doc _ _) λ _.
                  Quiet-bind r doc _ _ (Reads-read_or r doc _ _) λ _.
                    Quiet-bind r doc _ _ (Reads-received r doc _) λ _.
                      Quiet-bind r doc _ _ (Reads-stop_if r doc _ _) λ _.
                        Quiet-bind r doc _ _
                          (Reads-http_do_error_if r doc _ _ (Reads-get_player r doc sess))
                          λ _. Quiet-Loud r doc _ (
                            Loud-bind r doc _ _ (Loud-http_internal_error_if r doc _) λ _.
                              Loud-bind r doc _ _ (Loud-http_internal_error_if r doc _)
                                λ _. Loud-pure r doc _)

  pub Quiet-handle_roll_initiative :
      (now : ℕ) (chan : List ℕ) → Quiet r doc (handle_roll_initiative r now chan request)
  unfolding handle_roll_initiative
  Quiet-handle_roll_initiative now chan =
      Quiet-bind r doc _ _ (Reads-request_session r doc request) λ sess.
        Quiet-bind r doc _ _ (Reads-read_initiative_request r doc request) λ _.
          Quiet-bind r doc _ _ (Reads-stop_if r doc _ _) λ _.
            Quiet-bind r doc _ _ (Reads-stop_if r doc _ _) λ _.
              Quiet-bind r doc _ _ (Reads-stop_if r doc _ _) λ _.
                Quiet-bind r doc _ _ (Reads-stop_if r doc _ _) λ _.
                  Quiet-bind r doc _ _
                    (Reads-http_do_error_if r doc _ _ (Reads-get_player r doc sess))
                    λ _. Quiet-bind r doc _ _ (Reads-received r doc _) λ _. Quiet-write r doc _ _

  pub Quiet-handle_update_event :
      (range : Diff → Diff) (now : ℕ) → Quiet r doc (handle_update_event r range now request)
  unfolding handle_update_event
  Quiet-handle_update_event range now =
      Quiet-bind r doc _ _ (Reads-request_session r doc request) λ sess.
        Quiet-bind r doc _ _ (Reads-read_or r doc _ _) λ _.
          Quiet-bind r doc _ _ (Reads-read_or r doc _ _) λ _.
            Quiet-bind r doc _ _ (Reads-read_or r doc _ _) λ _.
              Quiet-bind r doc _ _ (Reads-http_do_error_if r doc _ _ (Reads-event r doc _ _)) λ _.
                Quiet-bind r doc _ _ (Reads-read_or r doc _ _) λ _.
                  Quiet-bind r doc _ _ (Reads-stop_if r doc _ _) λ _.
                    Quiet-bind r doc _ _ (Reads-stop_if r doc _ _) λ _.
                      Quiet-bind r doc _ _ (Reads-update_fields r doc _ _ _)
                        λ _. Quiet-write r doc _ _

  pub Quiet-handle_delete_event : Quiet r doc (handle_delete_event r request)
  unfolding handle_delete_event
  Quiet-handle_delete_event = Quiet-bind r doc _ _ (Reads-request_session r doc request) λ sess.
      Quiet-bind r doc _ _ (Reads-read_or r doc _ _) λ _.
        Quiet-bind r doc _ _ (Reads-read_or r doc _ _) λ _.
          Quiet-bind r doc _ _ (Reads-http_do_error_if r doc _ _ (Reads-event r doc _ _)) λ _.
            Quiet-bind r doc _ _ (Reads-read_or r doc _ _) λ _.
              Quiet-bind r doc _ _ (Reads-stop_if r doc _ _)
                λ _. Quiet-bind r doc _ _ (Reads-stop_if r doc _ _) λ _. Quiet-write r doc _ _

  Quiet-reshare :
      (sess : Session) (evt : Event) (share : ℤ) → Quiet r doc (reshare r sess evt share)
  unfolding reshare
  Quiet-reshare sess evt share = elim (Bool-cases (eq_ℤ (get_share evt) share)) [
    | inl same ↦ rw (same) (Quiet-Loud r doc _ (Loud-pure r doc _))
    | inr other ↦ rw (other) (Quiet-write r doc _ _)
  ]

  pub Quiet-handle_share_event : Quiet r doc (handle_share_event r request)
  unfolding handle_share_event
  Quiet-handle_share_event = Quiet-bind r doc _ _ (Reads-request_session r doc request) λ sess.
      Quiet-bind r doc _ _ (Reads-read_or r doc _ _) λ _.
        Quiet-bind r doc _ _ (Reads-read_or r doc _ _) λ _.
          Quiet-bind r doc _ _ (Reads-read_or r doc _ _) λ share.
            Quiet-bind r doc _ _ (Reads-stop_if r doc _ _) λ _.
              Quiet-bind r doc _ _ (Reads-http_do_error_if r doc _ _ (Reads-event r doc _ _)) λ _.
                Quiet-bind r doc _ _ (Reads-read_or r doc _ _) λ evt.
                  Quiet-bind r doc _ _ (Reads-stop_if r doc _ _) λ _.
                    Quiet-bind r doc _ _ (Reads-stop_if r doc _ _) λ _. Quiet-reshare sess evt share

  pub Quiet-handle_edit_initiative :
      (range : Diff → Diff) (now : ℕ) → Quiet r doc (handle_edit_initiative r range now request)
  unfolding handle_edit_initiative
  Quiet-handle_edit_initiative range now =
      Quiet-bind r doc _ _ (Reads-request_session r doc request) λ sess.
        Quiet-bind r doc _ _ (Reads-read_or r doc _ _) λ _.
          Quiet-bind r doc _ _ (Reads-read_or r doc _ _) λ _.
            Quiet-bind r doc _ _ (Reads-read_or r doc _ _) λ _.
              Quiet-bind r doc _ _ (Reads-stop_if r doc _ _) λ _.
                Quiet-bind r doc _ _ (Reads-http_do_error_if r doc _ _ (Reads-event r doc _ _)) λ _.
                  Quiet-bind r doc _ _ (Reads-read_or r doc _ _) λ _.
                    Quiet-bind r doc _ _ (Reads-stop_if r doc _ _) λ _.
                      Quiet-bind r doc _ _ (Reads-stop_if r doc _ _) λ _.
                        Quiet-bind r doc _ _ (Reads-as_initiative r doc _) λ _.
                          Quiet-bind r doc _ _ (Reads-edit_fields r doc _ _ _)
                            λ _. Quiet-write r doc _ _
