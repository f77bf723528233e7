-- ===== src/Game/Players/Listed.antt =====
-- GetPlayersIn and GetInfo keep the IDs that they read.
use sr_server.Prelude.{
  ◌≡◌, refl, sym, subst, ◌⊎◌, inl, inr, Bool, true, false, ◌||◌, List, [], ◌∷◌, any, find, Text,
  codes, text_eq, text_eq_refl, text_eq_iff, Exec, Result, ok, err, pure, pure-ok, bind-ok, arith,
  lift, ◌>>=◌,
}
use sr_server.Fault.{Fault, refuse_if, rejected}
use sr_server.Redis.{Hash}
use sr_server.Player.{Player, info}
use sr_server.Player
use sr_server.Player.Stored.{scan, scan_text, scan_int, is_blank}
use sr_server.Update.{put_key}
use sr_server.Game.Players.{is_absent, scan_players, info_map}

or_mono :
    (a b a' b' : Bool)
    → (a ≡ true → a' ≡ true)
    → (b ≡ true → b' ≡ true)
    → a || b ≡ true
    → a' || b' ≡ true
or_mono true b true b' f g h = refl
or_mono true b false b' f g h = let bad : false ≡ true = f refl in cc
or_mono false b true b' f g h = refl
or_mono false b false b' f g h = g h

or-right : (a b : Bool) → b ≡ true → a || b ≡ true
or-right true b h = refl
or-right false b h = h

or-left : (a b : Bool) → a ≡ true → a || b ≡ true
or-left true b h = refl
or-left false b h = cc

abbrev pub has_id : Text → List Player → Bool
has_id x = any (λ p. text_eq x p.id)

find-put_key :
    (x k : Text) (v : Player.Info) (m : List (Text × Player.Info))
    → is_absent (find x (put_key k v m)) ≡ false
    → (text_eq k x ≡ true) ⊎ (is_absent (find x m) ≡ false)
unfolding put_key
find-put_key x k v [] h = ground arith
find-put_key x k v ((j, w) ∷ m) h = ground (arith, find-put_key x k v m)

-- The player's ID is the one asked for, however the hash is read.
unfoldable pub HasId : {S : Type 0} → Text → Exec S Fault Player → Type 0
HasId {S} x m = (d d' : S) (p : Player) → m d ≡ (ok p, d') → p.id ≡ x

HasId-field :
    {S A : Type 0} (x : Text) (y : Result Fault A) (f : A → Exec S Fault Player)
    → ((a : A) → HasId x (f a))
    → HasId x (lift y >>= f)
unfolding HasId
HasId-field x (ok a) f h d d' p e = h a d d' p e
HasId-field x (err y) f h d d' p e = cc

HasId-pure : (S : Type 0) (q : Player) → HasId {S = S} q.id (pure q)
unfolding HasId
HasId-pure S q d d' p e = pure-ok (λ a _. a.id ≡ q.id) e refl

pub scan-HasId : (S : Type 0) (x : Text) (h : Hash) → HasId {S = S} x (scan x h)
unfolding scan
scan-HasId S x h = HasId-field x (scan_text (find (codes "name") h)) _ λ name.
    HasId-field x (scan_int (find (codes "hue") h)) _ λ hue.
      HasId-field x (scan_text (find (codes "uname") h)) _ λ username.
        HasId-field x (scan_int (find (codes "connections") h)) _ λ connections.
          HasId-field x (scan_int (find (codes "onlineMode") h)) _ λ mode. HasId-pure S (record {
            id = x;
            name = name;
            hue = hue;
            username = username;
            connections = connections;
            online_mode = mode;
          })

-- An ID that is among the players that were read is among the IDs that were asked for.
pub scan_players-ids :
    {S : Type 0} (x : Text) (ids : List Text) (hs : List Hash) (d d' : S) (ps : List Player)
    → scan_players ids hs d ≡ (ok ps, d')
    → has_id x ps ≡ true
    → any (text_eq x) ids ≡ true
unfolding scan_players HasId
scan_players-ids x ids [] d d' ps e h = cc
scan_players-ids x [] (m ∷ hs) d d' ps e h = cc
scan_players-ids {S} x (id ∷ ids) (m ∷ hs) d d' ps e h =
    let (p, d1, e1, f1) = bind-ok (scan id m) _ d e in
    let (_, d2, e2, f2) = bind-ok (refuse_if (is_blank p.username) rejected) _ d1 f1 in
    let (rest, d3, e3, f3) = bind-ok (scan_players ids hs) (λ rest. pure (p ∷ rest)) d2 f2 in
    let same : has_id x (p ∷ rest) ≡ true =
      pure-ok (λ qs _. has_id x qs ≡ true → has_id x (p ∷ rest) ≡ true) f3 (λ k. k) h in
    or_mono _ _ _ _ (λ t. subst (λ y. text_eq x y ≡ true) (scan-HasId S id m d d1 p e1) t)
      (scan_players-ids x ids hs d2 d3 rest e3) same

pub info_map-ids :
    (x : Text) (ps : List Player) (m : List (Text × Player.Info))
    → is_absent (find x (info_map ps m)) ≡ false
    → (has_id x ps ≡ true) ⊎ (is_absent (find x m) ≡ false)
unfolding info_map
info_map-ids x [] m h = inr h
info_map-ids x (p ∷ ps) m h = elim (info_map-ids x ps (put_key p.id (info p) m) h) [
  | inl later ↦ inl (or-right (text_eq x p.id) _ later)
  | inr here ↦ elim (find-put_key x p.id (info p) m here) [
    | inl same ↦ inl (
        or-left _ _
          (subst (λ y. text_eq x y ≡ true) (sym ((text_eq_iff p.id x).0 same)) (text_eq_refl x)))
    | inr before ↦ inr before
  ]
]
