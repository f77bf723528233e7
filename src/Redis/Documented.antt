-- ===== src/Redis/Documented.antt =====
-- What the program relies on of Redis: what the documentation says that each command does to the
-- data, and that a transaction does all of its commands or none.
pub mod SortedSets
pub mod Hashes
use sr_server.Prelude.{
  map, ℕ, zero, suc, ◌≡◌, ◌⊎◌, Bool, true, false, ◌&&◌, ◌||◌, not, Option, none, some, List, [],
  ◌∷◌, ◌++◌, length, take, keep, any, if◌then◌else◌, Text, text_eq, find, update, has_prefix, ℤ,
  pos, ◌+ℤ◌, ltb_ℤ, leb_ℤ, eq_ℤ, Exec, Result, ok, err,
}
use mathlib.Core.List.{reverse}
use sr_server.Json.{Json, json_eq}
use sr_server.Redis.{
  Value, text, num, Hash, Bound, at, minus_inf, plus_inf, Command, exists, del, incr, persist,
  expire, hset, hincrby, sadd, zadd_nx, zremrangebyscore, publish, RedisError, no_value, failed,
  Redis,
}

pub record Entry : Type 0 where
  pub score : ℤ
  pub member : Json

-- The data by the kind of key, with the messages that were published, the last one first.
pub record View : Type 0 where
  pub zsets : Text → List Entry
  pub hashes : Text → Hash
  pub sets : Text → List Text
  pub counters : Text → Option ℤ
  pub ttls : Text → Option ℤ
  pub published : List (Text × Json)
  pub listeners : Text → ℕ

abbrev pub in_range : ℤ → ℤ → Entry → Bool
in_range low high e = leb_ℤ low e.score && leb_ℤ e.score high

-- The field of a hash given a value, and how many fields that adds.
unfoldable pub put_field : Text → Value → Hash → Hash
put_field k v [] = (k, v) ∷ []
put_field k v ((j, w) ∷ h) = if text_eq j k then (j, v) ∷ h else (j, w) ∷ put_field k v h

unfoldable pub put_fields : Hash → Hash → Hash
put_fields [] h = h
put_fields ((k, v) ∷ fs) h = put_fields fs (put_field k v h)

unfoldable pub new_fields : Hash → Hash → ℕ
new_fields [] h = 0
new_fields ((k, v) ∷ fs) h =
    let rest = new_fields fs (put_field k v h) in
    elim (find k h) [ none ↦ suc rest | some _ ↦ rest ]

abbrev pub int_of : Option Value → ℤ
int_of (some (num n)) = n
int_of _ = pos 0

abbrev pub is_empty {ℓ} : {A : Type ℓ} → List A → Bool
is_empty [] = true
is_empty (_ ∷ _) = false

abbrev pub one_if : Bool → ℤ
one_if true = pos 1
one_if false = pos 0

abbrev pub holds {ℓ} : {A : Type ℓ} → Option A → Bool
holds none = false
holds (some _) = true

-- Whether there is data at the key, of whatever kind.
abbrev pub is_key : Text → View → Bool
is_key k v =
    not (is_empty (v.hashes k))
    || holds (v.counters k)
    || not (is_empty (v.sets k))
    || not (is_empty (v.zsets k))

-- The count of a key, 0 where there is none.
abbrev pub count_at : Text → View → ℤ
count_at k v = elim (v.counters k) [ none ↦ pos 0 | some n ↦ n ]

module _ (precedes : Json → Json → Bool) where
  -- A sorted set holds its members by score, members of one score in the order of their bytes.
  unfoldable pub insert_entry : Entry → List Entry → List Entry
  insert_entry e [] = e ∷ []
  insert_entry e (x ∷ es) =
      if ltb_ℤ e.score x.score || (eq_ℤ e.score x.score && precedes e.member x.member)
      then e ∷ x ∷ es
      else x ∷ insert_entry e es

  -- The reply and the data after a command.
  unfoldable pub apply : Command → View → ℤ × View
  unfolding insert_entry
  apply (exists k) v = (one_if (is_key k v), v)
  apply (del k) v = (
    one_if (is_key k v),
    record v {
      hashes = update k [] v.hashes;
      zsets = update k [] v.zsets;
      sets = update k [] v.sets;
      counters = update k none v.counters;
      ttls = update k none v.ttls;
    },
  )
  apply (incr k) v =
      let n = count_at k v +ℤ pos 1 in (n, record v { counters = update k (some n) v.counters })
  apply (persist k) v =
      (elim (v.ttls k) [ none ↦ pos 0 | some _ ↦ pos 1 ], record v { ttls = update k none v.ttls })
  apply (expire k secs) v = (
    one_if (is_key k v),
    if is_key k v then record v { ttls = update k (some secs) v.ttls } else v,
  )
  apply (hset k fs) v = (
    pos (new_fields fs (v.hashes k)),
    record v { hashes = update k (put_fields fs (v.hashes k)) v.hashes },
  )
  apply (hincrby k f n) v =
      let m = int_of (find f (v.hashes k)) +ℤ n in
      (m, record v { hashes = update k (put_field f (num m) (v.hashes k)) v.hashes })
  apply (sadd k m) v =
      if any (text_eq m) (v.sets k)
      then (pos 0, v)
      else (pos 1, record v { sets = update k (m ∷ v.sets k) v.sets })
  apply (zadd_nx k s m) v = if any (λ e. json_eq e.member m) (v.zsets k) then (pos 0, v) else (
    pos 1,
    record v {
      zsets = update k (insert_entry (record { score = s; member = m }) (v.zsets k)) v.zsets;
    },
  )
  apply (zremrangebyscore k low high) v = (
    pos (length (keep (in_range low high) (v.zsets k))),
    record v { zsets = update k (keep (λ e. not (in_range low high e)) (v.zsets k)) v.zsets },
  )
  apply (publish c m) v = (pos (v.listeners c), record v { published = (c, m) ∷ v.published })

  unfoldable pub run : List Command → View → List ℤ × View
  unfolding apply
  run [] v = ([], v)
  run (c ∷ cs) v = let (n, w) = apply c v in let (ns, u) = run cs w in (n ∷ ns, u)

abbrev pub above : Bound → ℤ → Bool
above (at low) n = leb_ℤ low n
above minus_inf n = true
above plus_inf n = false

abbrev pub below : Bound → ℤ → Bool
below (at high) n = leb_ℤ n high
below minus_inf n = false
below plus_inf n = true

-- The members that ZREVRANGEBYSCORE gives for a range, the highest score first.
unfoldable pub members_between : Bound → Bound → ℕ → List Entry → List Json
members_between newest oldest count es =
    take count
      (map (λ e. e.member) (reverse (keep (λ e. above oldest e.score && below newest e.score) es)))

-- A server that behaves as documented, while no other client writes. `queued` and `asked` are what
-- a MULTI holds. A call that ends in an error has changed nothing, or everything that it asked for.
pub record Documented (r : Redis) : Type 0 where
  pub precedes : Json → Json → Bool
  pub view : r.Db → View
  pub queued : r.Db → List Command
  pub asked : r.Db → List Text
  pub multi_ok :
      {d d' : r.Db}
      → r.multi d ≡ (ok tt, d')
      → (view d' ≡ view d) × (queued d' ≡ []) × (asked d' ≡ [])
  pub multi_err : {d d' : r.Db} {e : RedisError} → r.multi d ≡ (err e, d') → view d' ≡ view d
  pub send_ok :
      {d d' : r.Db} (c : Command)
      → r.send c d ≡ (ok tt, d')
      → (view d' ≡ view d) × (queued d' ≡ queued d ++ c ∷ [])
  pub send_err :
      {d d' : r.Db} {e : RedisError} (c : Command) → r.send c d ≡ (err e, d') → view d' ≡ view d
  pub exec_ok :
      {d d' : r.Db} {ns : List ℤ}
      → r.exec_ints d ≡ (ok ns, d')
      → run precedes (queued d) (view d) ≡ (ns, view d')
  pub exec_err :
      {d d' : r.Db} {e : RedisError}
      → r.exec_ints d ≡ (err e, d')
      → (view d' ≡ view d) ⊎ (view d' ≡ (run precedes (queued d) (view d)).1)
  pub call_ok :
      {d d' : r.Db} {n : ℤ} (c : Command)
      → r.call c d ≡ (ok n, d')
      → apply precedes c (view d) ≡ (n, view d')
  pub call_err :
      {d d' : r.Db} {e : RedisError} (c : Command)
      → r.call c d ≡ (err e, d')
      → (view d' ≡ view d) ⊎ (view d' ≡ (apply precedes c (view d)).1)
  pub hmset_ok :
      {d d' : r.Db} (k : Text) (fs : Hash)
      → r.hmset k fs d ≡ (ok tt, d')
      → view d' ≡ (apply precedes (hset k fs) (view d)).1
  pub hmset_err :
      {d d' : r.Db} {e : RedisError} (k : Text) (fs : Hash)
      → r.hmset k fs d ≡ (err e, d')
      → (view d' ≡ view d) ⊎ (view d' ≡ (apply precedes (hset k fs) (view d)).1)
  pub hgetall_view : (k : Text) (d : r.Db) → view (r.hgetall k d).1 ≡ view d
  pub hgetall_ok :
      {d d' : r.Db} {h : Hash} (k : Text) → r.hgetall k d ≡ (ok h, d') → h ≡ (view d).hashes k
  -- a key that is not there is an empty hash, not nil
  pub hgetall_err :
      {d d' : r.Db} {e : RedisError} (k : Text) → r.hgetall k d ≡ (err e, d') → e ≡ failed
  pub hget_view : (k f : Text) (d : r.Db) → view (r.hget k f d).1 ≡ view d
  pub hget_ok :
      {d d' : r.Db} {t : Text} (k f : Text)
      → r.hget k f d ≡ (ok t, d')
      → find f ((view d).hashes k) ≡ some (text t)
  pub hget_nil :
      {d d' : r.Db} (k f : Text)
      → r.hget k f d ≡ (err no_value, d')
      → find f ((view d).hashes k) ≡ none
  pub get_int_view : (k : Text) (d : r.Db) → view (r.get_int k d).1 ≡ view d
  pub get_int_ok :
      {d d' : r.Db} {n : ℤ} (k : Text) → r.get_int k d ≡ (ok n, d') → (view d).counters k ≡ some n
  pub get_int_nil :
      {d d' : r.Db} (k : Text) → r.get_int k d ≡ (err no_value, d') → (view d).counters k ≡ none
  pub smembers_view : (k : Text) (d : r.Db) → view (r.smembers k d).1 ≡ view d
  pub smembers_ok :
      {d d' : r.Db} {ms : List Text} (k m : Text)
      → r.smembers k d ≡ (ok ms, d')
      → any (text_eq m) ms ≡ any (text_eq m) ((view d).sets k)
  pub watch_view : (k : Text) (d : r.Db) → view (r.watch k d).1 ≡ view d
  pub unwatch_view : (d : r.Db) → view (r.unwatch d).1 ≡ view d
  pub send_hgetall_view : (k : Text) (d : r.Db) → view (r.send_hgetall k d).1 ≡ view d
  pub send_hgetall_ok :
      {d d' : r.Db} (k : Text) → r.send_hgetall k d ≡ (ok tt, d') → asked d' ≡ asked d ++ k ∷ []
  pub exec_hashes_view : (d : r.Db) → view (r.exec_hashes d).1 ≡ view d
  pub exec_hashes_ok :
      {d d' : r.Db} {hs : List Hash}
      → r.exec_hashes d ≡ (ok hs, d')
      → (hs ≡ []) ⊎ (hs ≡ map (view d).hashes (asked d))
  pub zrevrangebyscore_view :
      (k : Text) (newest oldest : Bound) (count : ℕ) (d : r.Db)
      → view (r.zrevrangebyscore k newest oldest count d).1 ≡ view d
  pub zrevrangebyscore_ok :
      {d d' : r.Db} {ms : List Json} (k : Text) (newest oldest : Bound) (count : ℕ)
      → r.zrevrangebyscore k newest oldest count d ≡ (ok ms, d')
      → ms ≡ members_between newest oldest count ((view d).zsets k)
  pub keys_view : (k : Text) (d : r.Db) → view (r.keys k d).1 ≡ view d
