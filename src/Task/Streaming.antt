-- ===== src/Task/Streaming.antt =====
-- streamReadEvents comes to its end.
use mathlib.Core.List.{reverse}
use sr_server.Prelude.{
  ℕ, zero, suc, ◌≡◌, ◌≢◌, ◌<◌, refl, sym, ap, subst, ◌∙◌, false, Option, none, some, List, [], ◌∷◌,
  keep, take, length, All, Text, ◌==◌, ℤ, Exec, Result, ok, err, pure, bind-ok, wrap-ok, arith,
  if◌then◌else◌, ◌>>=◌,
}
use sr_server.Json.{Json}
use sr_server.Fault.{Fault, panicked, redis_error, or_panic}
use sr_server.Redis.{Redis, at, minus_inf}
use sr_server.Redis.Documented.{Entry, members_between, Documented}
use sr_server.Event.{Event, get_id}
use sr_server.Event.Events.{get_older_than}
use sr_server.Game.Channels.{channel, history}
use sr_server.Task.{parse_all, last_event, or_not_parsed, buffer_size, stream_read_events}
use sr_server.Task.Batches.{Rises, IsReadable, up_to, texts_of, Older, older, smaller}

length-two : (t u : Json) (l : List Json) → (length (t ∷ u ∷ l) == 1) ≡ false
length-two t u l = ground arith

module _ (r : Redis) (doc : Documented r) (game_id : Text) where
  open doc use {view}

  abbrev pub entries : r.Db → List Entry
  entries d = (view d).zsets (channel history game_id)

  -- The history stands by rising scores, so that no two events share an ID, and each entry is an
  -- event whose ID is its score.
  abbrev pub IsGood : r.Db → Type 0
  IsGood d = Rises (entries d) × All IsReadable (entries d)

  -- The texts of a batch.
  abbrev pub batch_at : ℤ → r.Db → List Json
  batch_at newest d = take buffer_size (texts_of (reverse (keep (up_to newest) (entries d))))

  -- A callback that may replace the events of a batch that it is given, but moves none.
  abbrev pub Keeps : {M : Type 0} → (List Event → M → Exec r.Db Fault M) → Type 0
  Keeps {M} callback =
      (newest : ℤ) (events : List Event) (m n : M) (d d' : r.Db)
      → IsGood d
      → parse_all (batch_at newest d) ≡ some events
      → callback events m d ≡ (ok n, d')
      → IsGood d'
        × ((id : ℤ) → length (keep (up_to id) (entries d')) ≡ length (keep (up_to id) (entries d)))

  module _ {M : Type 0} (callback : List Event → M → Exec r.Db Fault M)
      (keeps : Keeps callback) where
    -- what streamReadEvents does with a batch that is not its last
    batch_rest : ℕ → M → List Json → Exec r.Db Fault (Option M)
    batch_rest fuel m texts = do
      events ← or_not_parsed (parse_all texts)
      n ← callback events m
      oldest ← or_panic (last_event events)
      stream_read_events r fuel game_id callback (get_id oldest) n

    read_same :
        (newest : ℤ) (d d' : r.Db) (texts : List Json)
        → get_older_than r game_id (at newest) buffer_size d ≡ (ok texts, d')
        → (view d' ≡ view d)
          × (texts ≡ take buffer_size (texts_of (reverse (keep (up_to newest) (entries d)))))
    unfolding get_older_than members_between
    read_same newest d d' texts h =
        let key = channel history game_id in
        let read =
          wrap-ok (λ _. redis_error) (r.zrevrangebyscore key (at newest) minus_inf buffer_size) d
            h in
        (
          ap (λ p. view p.1) (sym read)
              ∙ doc.zrevrangebyscore_view key (at newest) minus_inf buffer_size d,
          doc.zrevrangebyscore_ok key (at newest) minus_inf buffer_size read,
        )

    rest_ends :
        (fuel : ℕ)
        → ((newest : ℤ) (m : M) (d d' : r.Db)
            → IsGood d
            → length (keep (up_to newest) (entries d)) < fuel
            → stream_read_events r fuel game_id callback newest m d ≢ (ok none, d'))
        → (newest : ℤ) (m : M) (d d' : r.Db) (es : List Entry) → IsGood d
        → length (keep (up_to newest) (entries d)) < suc fuel
        → Older newest (entries d) es
        → take buffer_size (texts_of es) ≡ batch_at newest d
        → (if length (take buffer_size (texts_of es)) == 1
              then pure (some m)
              else batch_rest fuel m (take buffer_size (texts_of es)))
            d
          ≢ (ok none, d')
    unfolding batch_rest parse_all last_event
    rest_ends fuel ih newest m d d' [] good enough old whole h =
        let (n, d1, h1, k1) = bind-ok (callback [] m) _ d h in
        let stop : ◌≡◌ {A = Result Fault (Option M) × r.Db} (err panicked, d1) (ok none, d') = k1 in
        cc
    rest_ends fuel ih newest m d d' (x ∷ []) good enough old whole h = cc
    rest_ends fuel ih newest m d d' (x ∷ y ∷ es) good enough old whole h =
        let (f, fs, o, all, last, less) = smaller newest (entries d) x y es old in
        let texts = take buffer_size (texts_of (x ∷ y ∷ es)) in
        let long : (length texts == 1) ≡ false =
          length-two x.member y.member (take 198 (texts_of es)) in
        let on : batch_rest fuel m texts d ≡ (ok none, d') =
          sym (ap (λ b. (if b then pure (some m) else batch_rest fuel m texts) d) long) ∙ h in
        let parsed =
          ap
            (λ q.
              (or_not_parsed q >>= λ events. callback events m >>= λ n.
              or_panic (last_event events) >>= λ oldest.
              stream_read_events r fuel game_id callback (get_id oldest) n)
                d)
            all in
        let (n, d1, called, k1) =
          bind-ok (callback (f ∷ fs) m)
            (λ n. or_panic (last_event (f ∷ fs)) >>= λ oldest.
              stream_read_events r fuel game_id callback (get_id oldest) n)
            d (sym parsed ∙ on) in
        let found =
          ap
            (λ q.
              (or_panic q >>= λ oldest.
              stream_read_events r fuel game_id callback (get_id oldest) n)
                d1)
            last in
        let (still, counts) =
          keeps newest (f ∷ fs) m n d d1 good (ap parse_all (sym whole) ∙ all) called in
        ih (get_id o) n d1 d' still (omega (arith, counts (get_id o), less, enough))
          (sym found ∙ k1)

    -- With a history of this form and a callback of this kind, streamReadEvents never runs out of
    -- fuel where that exceeds the number of events up to the newest ID: it returns, or an error or a
    -- panic ends it.
    pub stream_read_events-ends :
        (fuel : ℕ) (newest : ℤ) (m : M) (d d' : r.Db)
        → IsGood d
        → length (keep (up_to newest) (entries d)) < fuel
        → stream_read_events r fuel game_id callback newest m d ≢ (ok none, d')
    unfolding stream_read_events batch_rest
    stream_read_events-ends zero newest m d d' good enough h = absurd (omega arith)
    stream_read_events-ends (suc fuel) newest m d d' good enough h =
        let (texts, d1, h1, k1) =
          bind-ok (get_older_than r game_id (at newest) buffer_size) _ d h in
        let (same, read) = read_same newest d d1 texts h1 in
        let kept = ap (λ v. v.zsets (channel history game_id)) same in
        let still : IsGood d1 =
          (subst Rises (sym kept) good.0, subst (All IsReadable) (sym kept) good.1) in
        let batch : texts
            ≡ take buffer_size (texts_of (reverse (keep (up_to newest) (entries d1)))) =
          read
          ∙ ap (λ es. take buffer_size (texts_of (reverse (keep (up_to newest) es)))) (sym kept) in
        let room : length (keep (up_to newest) (entries d1)) < suc fuel = rw (kept) enough in
        rest_ends fuel (stream_read_events-ends fuel) newest m d1 d'
          (reverse (keep (up_to newest) (entries d1))) still room
          (older newest (entries d1) still.0 still.1) refl
          (sym (ap (λ l. (if length l == 1 then pure (some m) else batch_rest fuel m l) d1) batch)
            ∙ k1)
