-- ===== src/Server/Push/Open.antt =====
-- The channel of each key is open, whatever is called.
use almadar_runtime.Base.{
  ℕ, ◌<◌, ◌≡◌, refl, sym, ap, subst, ◌∙◌, true, false, ◌&&◌, not, inl, inr, List, [], ◌∷◌, Option,
  none, some, String, get, put, delete, insert, remove, ◌==◌, nat_eq, string_eq, get-put,
  get-delete, is_empty, Option-cases, Bool-cases, if_cases, arith,
}
use almadar_runtime.Server.Push.{
  Frame, FrameNumber, give, on_envelope, admit_frame, PushChannel, PushState, fresh_channel,
  make_channel, join_channel, acquire_push_channel, release_push_channel, open_source, lose_source,
  on_message, ChannelStep, opened, lost, received, channel_step,
}

-- A channel that is open, and that was made for the key.
abbrev pub IsOpen : PushState → String → ℕ → Type 0
IsOpen s key r =
    (c : PushChannel) × (get r s.channels ≡ some c) × (c.key ≡ key) × (c.closed ≡ false)

pub record IsWf (s : PushState) : Type 0 where
  pub live : (key : String) (r : ℕ) → get key s.push_channels ≡ some r → IsOpen s key r
  pub bounded : (r : ℕ) (c : PushChannel) → get r s.channels ≡ some c → r < s.next_channel

abbrev pub no_channels : PushState
no_channels = record {
  channels = [];
  push_channels = [];
  last_frame_by_client = [];
  next_channel = 0;
}

no_channels-IsWf : IsWf no_channels
unfolding get
no_channels-IsWf = record { live = λ key r e. absurd (cc); bounded = λ r c e. absurd (cc) }

-- A channel is replaced by one with the same key that is as open.
replaced-IsWf :
    (r : ℕ) (c c' : PushChannel) (s : PushState)
    → get r s.channels ≡ some c
    → c'.key ≡ c.key
    → c'.closed ≡ c.closed
    → IsWf s
    → IsWf (record s { channels = put r c' s.channels })
replaced-IsWf r c c' s e k o v = record {
  live = λ key q f.
      let (d, g, dk, dopen) = v.live key q f in
      elim (Bool-cases (r == q)) [
        | inl t ↦
            let at : r ≡ q = (nat_eq.test_iff r q).0 t in
            let same : some d ≡ some c = sym g ∙ sym (ap (λ i. get i s.channels) at) ∙ e in
            (
              c',
              rw (get-put r q c' s.channels, t) refl,
              k ∙ ground (arith, same, dk),
              o ∙ ground (arith, same, dopen),
            )
        | inr n ↦ (d, rw (get-put r q c' s.channels, n) g, dk, dopen)
      ];
  bounded = λ q d f. elim (Bool-cases (r == q)) [
    | inl t ↦ subst (λ i. i < s.next_channel) ((nat_eq.test_iff r q).0 t) (v.bounded r c e)
    | inr n ↦ v.bounded q d (rw (get-put r q c' s.channels, n) at f)
  ];
}

join_channel-IsWf : (subscriber r : ℕ) (s : PushState) → IsWf s → IsWf (join_channel subscriber r s)
join_channel-IsWf subscriber r s v = elim (Option-cases (get r s.channels)) [
  | inl e ↦ simp (e, join_channel) v
  | inr (c, e) ↦
      simp (e, join_channel)
        (replaced-IsWf r c (record c { subscribers = insert subscriber c.subscribers }) s e refl
          refl v)
]

make_channel-IsWf :
    (key : String) (resume_key : Option String) (s : PushState)
    → IsWf s
    → IsWf (make_channel key resume_key s)
make_channel-IsWf key resume_key s v =
    let n = s.next_channel in
    record {
      live = λ k q f. elim (Bool-cases (key == k)) [
        | inl t ↦
            let at : some n ≡ some q = sym (rw (get-put key k n s.push_channels, t) refl) ∙ f in
            (
              fresh_channel key resume_key,
              rw
                  (
                    get-put n q (fresh_channel key resume_key) s.channels,
                    (nat_eq.test_iff n q).1 (ground (arith, at)),
                  )
                  refl,
              (string_eq.test_iff key k).0 t,
              refl,
            )
        | inr d ↦
            let (c, g, dk, dopen) = v.live k q (rw (get-put key k n s.push_channels, d) at f) in
            (
              c,
              rw (get-put n q (fresh_channel key resume_key) s.channels)
                  (ground (arith, nat_eq.test_iff n q, v.bounded q c g, g)),
              dk,
              dopen,
            )
      ];
      bounded = λ q d f. elim (Bool-cases (n == q)) [
        | inl t ↦ omega (arith, (nat_eq.test_iff n q).0 t)
        | inr m ↦ omega (
          arith,
          v.bounded q d (rw (get-put n q (fresh_channel key resume_key) s.channels, m) at f),
        )
      ];
    }

acquire_push_channel-IsWf :
    (key : String) (resume_key : Option String) (subscriber : ℕ) (s : PushState)
    → IsWf s
    → IsWf (acquire_push_channel key resume_key subscriber s).0
unfolding acquire_push_channel
acquire_push_channel-IsWf key resume_key subscriber s v =
    elim (Option-cases (get key s.push_channels)) [
      | inl e ↦
          simp (e, acquire_push_channel)
            (join_channel-IsWf subscriber s.next_channel (make_channel key resume_key s)
              (make_channel-IsWf key resume_key s v))
      | inr (r, e) ↦ simp (e, acquire_push_channel) (join_channel-IsWf subscriber r s v)
    ]

-- Channels of two keys are two.
other_channel :
    (r q : ℕ) (k : String) (s : PushState) {c x : PushChannel}
    → get r s.channels ≡ some c
    → get q s.channels ≡ some x
    → x.key ≡ k
    → (c.key == k) ≡ false
    → (r == q) ≡ false
other_channel r q k s {c} {x} e g xk d = elim (Bool-cases (r == q)) [
  | inl t ↦
      let same : some c ≡ some x =
        sym e ∙ ap (λ i. get i s.channels) ((nat_eq.test_iff r q).0 t) ∙ g in
      let at : (c.key == k) ≡ true = (string_eq.test_iff c.key k).1 (ground (arith, same, xk)) in
      absurd (cc)
  | inr n ↦ n
]

-- The last subscriber of a channel leaves.
closed-IsWf :
    (r : ℕ) (c c' : PushChannel) (s : PushState)
    → get r s.channels ≡ some c
    → IsWf s
    → IsWf
        (record s { channels = put r c' s.channels; push_channels = delete c.key s.push_channels })
closed-IsWf r c c' s e v = record {
  live = λ k q f. elim (Bool-cases (c.key == k)) [
    | inl t ↦
        absurd (
          let gone : none ≡ some q = sym (rw (get-delete c.key k s.push_channels, t) refl) ∙ f in
          cc)
    | inr d ↦
        let (x, g, xk, xopen) = v.live k q (rw (get-delete c.key k s.push_channels, d) at f) in
        (x, rw (get-put r q c' s.channels, other_channel r q k s e g xk d) g, xk, xopen)
  ];
  bounded = λ q d f. elim (Bool-cases (r == q)) [
    | inl t ↦ subst (λ i. i < s.next_channel) ((nat_eq.test_iff r q).0 t) (v.bounded r c e)
    | inr n ↦ v.bounded q d (rw (get-put r q c' s.channels, n) at f)
  ];
}

release_push_channel-IsWf :
    (r subscriber : ℕ) (s : PushState) → IsWf s → IsWf (release_push_channel r subscriber s)
unfolding release_push_channel
release_push_channel-IsWf r subscriber s v = elim (Option-cases (get r s.channels)) [
  | inl e ↦ simp (e, release_push_channel) v
  | inr (c, e) ↦
      let left = remove subscriber c.subscribers in
      simp (e, release_push_channel)
        (if_cases IsWf (is_empty left)
          (λ t. closed-IsWf r c (record c { subscribers = left; closed = true }) s e v)
          (λ f. replaced-IsWf r c (record c { subscribers = left }) s e refl refl v))
]

-- The calls that reach the channels of a page.
pub data PushCall (E : Type 0) : Type 0 where
  acquire : String → Option String → ℕ → PushCall E
  release : ℕ → ℕ → PushCall E
  step : ℕ → ChannelStep E → PushCall E

module _ {E : Type 0} where
  unfoldable pub push_call : PushCall E → PushState → PushState
  unfolding acquire_push_channel release_push_channel open_source lose_source on_message
  push_call (acquire key resume_key subscriber) s =
      (acquire_push_channel key resume_key subscriber s).0
  push_call (release r subscriber) s = release_push_channel r subscriber s
  push_call (step r x) s = (channel_step r x s).0

  unfoldable pub push_calls : List (PushCall E) → PushState → PushState
  unfolding push_call
  push_calls [] s = s
  push_calls (x ∷ xs) s = push_calls xs (push_call x s)

  give-IsWf :
      (c : PushChannel) (e : E) (s : PushState) (o : Option (List (String × FrameNumber)))
      → IsWf s
      → IsWf (give c e s o).0
  give-IsWf c e s none v = v
  give-IsWf c e s (some m) v = record { live = v.live; bounded = v.bounded }

  on_envelope-IsWf :
      (c : PushChannel) (f : Frame E) (s : PushState) → IsWf s → IsWf (on_envelope c f s).0
  on_envelope-IsWf c f s v = elim (Option-cases f.content) [
    | inl e ↦ simp (e, on_envelope) v
    | inr (x, e) ↦
        simp (e, on_envelope)
          (give-IsWf c x s (admit_frame c.resume_key f.number s.last_frame_by_client) v)
  ]

  channel_step-IsWf :
      (r : ℕ) (x : ChannelStep E) (s : PushState) → IsWf s → IsWf (channel_step r x s).0
  unfolding open_source lose_source on_message
  channel_step-IsWf r (opened source) s v = elim (Option-cases (get r s.channels)) [
    | inl e ↦ simp (e, open_source) v
    | inr (c, e) ↦
        simp (e, open_source)
          (if_cases IsWf c.closed (λ t. v)
            (λ f. replaced-IsWf r c (record c { source = some source }) s e refl refl v))
  ]
  channel_step-IsWf r (lost gone) s v = elim (Option-cases (get r s.channels)) [
    | inl e ↦ simp (e, lose_source) v
    | inr (c, e) ↦
        simp (e, lose_source)
          (if_cases IsWf (gone && not c.closed)
            (λ t. replaced-IsWf r c (record c { source = none }) s e refl refl v) (λ f. v))
  ]
  channel_step-IsWf r (received f) s v = elim (Option-cases (get r s.channels)) [
    | inl e ↦ simp (e, on_message) v
    | inr (c, e) ↦ simp (e, on_message) (on_envelope-IsWf c f s v)
  ]

  push_call-IsWf : (x : PushCall E) (s : PushState) → IsWf s → IsWf (push_call x s)
  unfolding push_call
  push_call-IsWf (acquire key resume_key subscriber) s v =
      acquire_push_channel-IsWf key resume_key subscriber s v
  push_call-IsWf (release r subscriber) s v = release_push_channel-IsWf r subscriber s v
  push_call-IsWf (step r x) s v = channel_step-IsWf r x s v

  push_calls_keep : (xs : List (PushCall E)) (s : PushState) → IsWf s → IsWf (push_calls xs s)
  unfolding push_calls
  push_calls_keep [] s v = v
  push_calls_keep (x ∷ xs) s v = push_calls_keep xs (push_call x s) (push_call-IsWf x s v)

  -- After any calls on a fresh page, calls of functions that had been called before included, a key that
  -- has a channel has one that was made for it and that is open.
  pub push_calls-IsOpen :
      (xs : List (PushCall E)) (key : String) (r : ℕ)
      → get key (push_calls xs no_channels).push_channels ≡ some r
      → IsOpen (push_calls xs no_channels) key r
  push_calls-IsOpen xs = (push_calls_keep xs no_channels no_channels-IsWf).live
