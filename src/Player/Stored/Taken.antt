-- ===== src/Player/Stored/Taken.antt =====
-- Create with a username that another player has.
use sr_server.Prelude.{
  ◌≡◌, refl, sym, ap, ◌∙◌, ◌⊎◌, inl, inr, Bool, Bool-cases, false, some, List, [], ◌∷◌, ◌++◌, Text,
  find, text_eq, ℤ, Result, ok, err, continue, map_err,
}
use sr_server.Json.{Json}
use sr_server.Fault.{Fault, redis_error, unexpected_reply, panicked, expect}
use sr_server.Redis.{Redis, RedisError, Value, text, Hash, Command, hset}
use sr_server.Redis.Documented.{View, apply, run, put_fields, new_fields, Documented}
use sr_server.Redis.Documented.Hashes.{find-put_field}
use sr_server.Redis.Transaction.{transaction, transaction-ok}
use sr_server.Player.{Player}
use sr_server.Player.Stored.{
  is_blank, player_ids, player_prefix, redis_key, flatten, created, create,
}

apart : (id : Text) → text_eq (player_prefix ++ id) player_ids ≡ false
unfolding text_eq
apart id = refl

-- The commands of Create, for a key.
abbrev commands : Player → Text → List Command
commands p key = hset player_ids ((p.username, text p.id) ∷ []) ∷ hset key (flatten p) ∷ []

new_fields-taken :
    (k : Text) (v old : Value) (h : Hash) → find k h ≡ some old → new_fields ((k, v) ∷ []) h ≡ 0
unfolding new_fields
new_fields-taken k v old h taken = rw (new_fields, taken) refl

unexpected :
    (precedes : Json → Json → Bool) (p : Player) (key : Text) (v : View) (old : Value)
    → find p.username (v.hashes player_ids) ≡ some old
    → created (run precedes (commands p key) v).0 ≡ false
unfolding run apply
unexpected precedes p key v old taken =
    rw (new_fields-taken p.username (text p.id) old (v.hashes player_ids) taken) refl

replaced :
    (precedes : Json → Json → Bool) (p : Player) (key : Text) (v : View)
    → text_eq key player_ids ≡ false
    → find p.username ((run precedes (commands p key) v).1.hashes player_ids) ≡ some (text p.id)
unfolding run apply put_fields text_eq
replaced precedes p key v other =
    rw (other) (find-put_field p.username (text p.id) (v.hashes player_ids))

module _ (r : Redis) (doc : Documented r) where
  open doc use {view, precedes}

  -- How Create can end for a username that is taken.
  abbrev pub Overwrites : Player → Result Fault (Unit {0}) × r.Db → Type 0
  Overwrites p end =
      (end.0 ≡ err redis_error)
      ⊎ ((end.0 ≡ err unexpected_reply)
          × (find p.username ((view end.1).hashes player_ids) ≡ some (text p.id)))

  after_transaction :
      (p : Player) (key : Text) (d : r.Db) (old : Value) (q : Result RedisError (List ℤ) × r.Db)
      → find p.username ((view d).hashes player_ids) ≡ some old
      → text_eq key player_ids ≡ false
      → transaction r (commands p key) d ≡ q
      → Overwrites p (continue (map_err (λ _. redis_error) q) (λ ns. expect (created ns)))
  after_transaction p key d old (err e, t) taken other done = inl refl
  after_transaction p key d old (ok ns, t) taken other done =
      let ran = transaction-ok r doc (commands p key) d t done in
      let no : created ns ≡ false =
        sym (ap (λ x. created x.0) ran) ∙ unexpected precedes p key (view d) old taken in
      let now : find p.username ((view t).hashes player_ids) ≡ some (text p.id) =
        sym (ap (λ x. find p.username (x.1.hashes player_ids)) ran)
        ∙ replaced precedes p key (view d) other in
      rw (no) (inr (refl, now))

  -- Create with a username that redis has an ID for always ends in an error: it panics on a player
  -- with no ID, or redis has failed, or the reply is not the one expected; and in the last case the
  -- username has been given to the new player all the same.
  pub create-taken :
      (p : Player) (d : r.Db) (old : Value)
      → find p.username ((view d).hashes player_ids) ≡ some old
      → ((create r p d).0 ≡ err panicked) ⊎ Overwrites p (create r p d)
  unfolding create redis_key
  create-taken p d old taken = elim (Bool-cases (is_blank p.id)) [
    | inl blank ↦ inl (rw (blank) refl)
    | inr filled ↦ rw (filled) (
        inr (
          after_transaction p (player_prefix ++ p.id) d old
            (transaction r (commands p (player_prefix ++ p.id)) d) taken (apart p.id) refl))
  ]
