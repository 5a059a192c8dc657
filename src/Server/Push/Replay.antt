-- ===== src/Server/Push/Replay.antt =====
-- Each numbered frame is applied once and in order, over the connections of a channel.
use almadar_runtime.Base.{
  ℕ, zero, suc, ◌+◌, ◌≤◌, ◌≡◌, refl, sym, ap, subst, ◌∙◌, Bool, true, false, ◌&&◌, not, List, [],
  ◌∷◌, ◌++◌, Option, none, some, String, get, put, leb, map, if◌then◌else◌, nat_eq, string_eq,
  get-put, if_cases, arith,
}
use almadar_runtime.Server.Push.{
  FrameNumber, Frame, PushChannel, PushState, is_replay, admit_frame, give, on_envelope, on_message,
  open_source, lose_source, ChannelStep, opened, lost, received, channel_step, run_channel,
}

module _ {E : Type 0} (boot key : String) (content : ℕ → E) where
  -- The frame that the server numbers n.
  abbrev pub frame : ℕ → Frame E
  frame n = record { number = some (record { boot = boot; n = n }); content = some (content n) }

  -- What a server sends to a channel that has applied the frames up to k: no frame is missing, but a
  -- connection may begin with frames that were sent before.
  pub data Sends : ℕ → List (ChannelStep E) → ℕ → Type 0 where
    sent_all : {k : ℕ} → Sends k [] k
    reconnected :
        {k j : ℕ} {xs : List (ChannelStep E)} (source : ℕ)
        → Sends k xs j
        → Sends k (opened source ∷ xs) j
    dropped :
        {k j : ℕ} {xs : List (ChannelStep E)} (gone : Bool)
        → Sends k xs j
        → Sends k (lost gone ∷ xs) j
    replayed :
        {k j : ℕ} {xs : List (ChannelStep E)} (n : ℕ)
        → n ≤ k
        → Sends k xs j
        → Sends k (received (frame n) ∷ xs) j
    next_frame :
        {k j : ℕ} {xs : List (ChannelStep E)}
        → Sends (suc k) xs j
        → Sends k (received (frame (suc k)) ∷ xs) j

  -- A channel with these subscribers, whose tab has applied the frames up to k.
  pub record IsAt (r : ℕ) (subscribers : List ℕ) (k : ℕ) (s : PushState) : Type 0 where
    pub channel : PushChannel
    pub held : get r s.channels ≡ some channel
    pub subscribed : channel.subscribers ≡ subscribers
    pub resumes : channel.resume_key ≡ some key
    pub seen : get key s.last_frame_by_client ≡ some (record { boot = boot; n = k })

  -- The contents of the frames after k, `count` of them, each to each subscriber.
  abbrev pub deliveries : List ℕ → ℕ → ℕ → List (ℕ × E)
  deliveries subscribers k zero = []
  deliveries subscribers k (suc count) =
      map (λ l. (l, content (suc k))) subscribers ++ deliveries subscribers (suc k) count

  with_source :
      (r : ℕ) (source : Option ℕ) (subscribers : List ℕ) (k : ℕ) (s : PushState)
      (v : IsAt r subscribers k s)
      → IsAt r subscribers k
          (record s { channels = put r (record v.channel { source = source }) s.channels })
  with_source r source subscribers k s v = record {
    channel = record v.channel { source = source };
    held = rw (get-put r r, (nat_eq.test_iff r r).1 refl) refl;
    subscribed = v.subscribed;
    resumes = v.resumes;
    seen = v.seen;
  }

  open_source_held :
      (r source : ℕ) (s : PushState) {c : PushChannel}
      → get r s.channels ≡ some c
      → open_source r source s ≡ (
          if c.closed
          then s
          else record s { channels = put r (record c { source = some source }) s.channels })
  unfolding open_source
  open_source_held r source s e = simp (e, open_source) refl

  lose_source_held :
      (r : ℕ) (gone : Bool) (s : PushState) {c : PushChannel}
      → get r s.channels ≡ some c
      → lose_source r gone s ≡ (
          if gone && not c.closed
          then record s { channels = put r (record c { source = none }) s.channels }
          else s)
  unfolding lose_source
  lose_source_held r gone s e = simp (e, lose_source) refl

  on_message_held :
      (r : ℕ) (f : Frame E) (s : PushState) {c : PushChannel}
      → get r s.channels ≡ some c
      → on_message r f s ≡ on_envelope c f s
  unfolding on_message
  on_message_held r f s e = simp (e, on_message) refl

  open_source-IsAt :
      (r source : ℕ) (subscribers : List ℕ) (k : ℕ) (s : PushState)
      → IsAt r subscribers k s
      → IsAt r subscribers k (open_source r source s)
  open_source-IsAt r source subscribers k s v = rw (open_source_held r source s v.held) (
      if_cases (IsAt r subscribers k) v.channel.closed (λ t. v)
        (λ f. with_source r (some source) subscribers k s v))

  lose_source-IsAt :
      (r : ℕ) (gone : Bool) (subscribers : List ℕ) (k : ℕ) (s : PushState)
      → IsAt r subscribers k s
      → IsAt r subscribers k (lose_source r gone s)
  lose_source-IsAt r gone subscribers k s v = rw (lose_source_held r gone s v.held) (
      if_cases (IsAt r subscribers k) (gone && not v.channel.closed)
        (λ t. with_source r none subscribers k s v) (λ f. v))

  -- What a channel at k does with the frame n.
  on_message_at :
      (r n k : ℕ) (subscribers : List ℕ) (s : PushState)
      → IsAt r subscribers k s
      → on_message r (frame n) s ≡ (
          if leb n k then (s, []) else (
            record s {
              last_frame_by_client = put key (record { boot = boot; n = n }) s.last_frame_by_client;
            },
            map (λ l. (l, content n)) subscribers,
          ))
  on_message_at r n k subscribers s v =
      let number : FrameNumber = record { boot = boot; n = n } in
      let m = s.last_frame_by_client in
      on_message_held r (frame n) s v.held
      ∙ ap (λ rk. give v.channel (content n) s (admit_frame rk (some number) m)) v.resumes
      ∙ ap
          (λ o.
            give v.channel (content n) s
              (if is_replay number o then none else some (put key number m)))
          v.seen
      ∙ ap
          (λ b.
            give v.channel (content n) s (if b && leb n k then none else some (put key number m)))
          ((string_eq.test_iff boot boot).1 refl)
      ∙ split (leb n k)
    where
      split :
          (b : Bool)
          → give v.channel (content n) s (
              if b
              then none
              else some (put key (record { boot = boot; n = n }) s.last_frame_by_client))
            ≡ (if b then (s, []) else (
              record s {
                last_frame_by_client =
                    put key (record { boot = boot; n = n }) s.last_frame_by_client;
              },
              map (λ l. (l, content n)) subscribers,
            ))
      split true = refl
      split false = rw v.subscribed refl

  run_step :
      (r : ℕ) (x : ChannelStep E) (xs : List (ChannelStep E)) (s s' : PushState)
      (given : List (ℕ × E))
      → channel_step r x s ≡ (s', given)
      → run_channel r (x ∷ xs) s ≡ ((run_channel r xs s').0, given ++ (run_channel r xs s').1)
  unfolding run_channel
  run_step r x xs s s' given e =
      ap
        (λ (p : PushState × List (ℕ × E)).
          ((run_channel r xs p.0).0, p.1 ++ (run_channel r xs p.0).1))
        e

  -- What the steps have given to the subscribers, and where they leave the channel.
  abbrev pub Applied : ℕ → List ℕ → ℕ → ℕ → PushState × List (ℕ × E) → Type 0
  Applied r subscribers k j (s, given) =
      (count : ℕ) × (j ≡ k + count)
      × (given ≡ deliveries subscribers k count)
      × IsAt r subscribers j s

  next-Applied :
      (r k j : ℕ) (subscribers : List ℕ) (p : PushState × List (ℕ × E))
      → Applied r subscribers (suc k) j p
      → Applied r subscribers k j (p.0, map (λ l. (l, content (suc k))) subscribers ++ p.1)
  next-Applied r k j subscribers (s, given) (count, e, g, v) =
      (suc count, omega (arith, e), ap (λ q. map (λ l. (l, content (suc k))) subscribers ++ q) g, v)

  -- For a channel that resumes, whose tab has applied a frame of the server's boot: whatever frames of
  -- that boot it is sent again over lost and reopened connections, as long as none is missing, each
  -- subscriber is given each frame after the last one applied once, in the order of their numbers, and
  -- no frame twice.
  pub run_channel-Sends :
      (r : ℕ) (subscribers : List ℕ) (s : PushState) {k j : ℕ} {xs : List (ChannelStep E)}
      → Sends k xs j
      → IsAt r subscribers k s
      → Applied r subscribers k j (run_channel r xs s)
  unfolding run_channel
  run_channel-Sends r subscribers s {k} sent_all v = (0, omega arith, refl, v)
  run_channel-Sends r subscribers s {k} (reconnected source h) v =
      run_channel-Sends r subscribers (open_source r source s) h
        (open_source-IsAt r source subscribers k s v)
  run_channel-Sends r subscribers s {k} (dropped gone h) v =
      run_channel-Sends r subscribers (lose_source r gone s) h
        (lose_source-IsAt r gone subscribers k s v)
  run_channel-Sends r subscribers s {k} {j} (replayed {xs = xs} n le h) v =
      let old : leb n k ≡ true = ground (arith, le) in
      subst (Applied r subscribers k j)
        (sym (
          run_step r (received (frame n)) xs s s []
            (on_message_at r n k subscribers s v ∙ (rw old refl))))
        (run_channel-Sends r subscribers s h v)
  run_channel-Sends r subscribers s {k} {j} (next_frame {xs = xs} h) v =
      let new : leb (suc k) k ≡ false = ground arith in
      let s' : PushState = record s {
        last_frame_by_client = put key (record { boot = boot; n = suc k }) s.last_frame_by_client;
      } in
      let given = map (λ l. (l, content (suc k))) subscribers in
      let v' : IsAt r subscribers (suc k) s' = record {
        channel = v.channel;
        held = v.held;
        subscribed = v.subscribed;
        resumes = v.resumes;
        seen = rw (get-put key key, (string_eq.test_iff key key).1 refl) refl;
      } in
      subst (Applied r subscribers k j)
        (sym (
          run_step r (received (frame (suc k))) xs s s' given
            (on_message_at r (suc k) k subscribers s v ∙ (rw new refl))))
        (next-Applied r k j subscribers (run_channel r xs s')
          (run_channel-Sends r subscribers s' h v'))
