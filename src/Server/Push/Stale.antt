-- ===== src/Server/Push/Stale.antt =====
-- A function that `acquirePushChannel` returned and that is called twice.
use almadar_runtime.Base.{
  ℕ, suc, ◌≡◌, refl, sym, ap, subst, ◌∙◌, true, false, [], ◌∷◌, Option, none, some, String, get,
  put, delete, insert, remove, ◌==◌, nat_eq, string_eq, get-put, get-delete, arith,
}
use almadar_runtime.Server.Push.{
  PushChannel, PushState, fresh_channel, make_channel, join_channel, acquire_push_channel,
  release_push_channel,
}

abbrev released : ℕ → PushChannel → PushState → PushState
released r c s = record s {
  channels = put r (record c { subscribers = []; closed = true }) s.channels;
  push_channels = delete c.key s.push_channels;
}

release_last :
    (r a : ℕ) (s : PushState) {c : PushChannel}
    → get r s.channels ≡ some c
    → remove a c.subscribers ≡ []
    → release_push_channel r a s ≡ released r c s
unfolding release_push_channel
release_last r a s e none_left = simp (e, none_left, release_push_channel) refl

abbrev opened_for : String → Option String → ℕ → PushState → PushState
opened_for key resume_key b s =
    let n = s.next_channel in
    record s {
      channels =
          put n (record (fresh_channel key resume_key) { subscribers = b ∷ [] })
            (put n (fresh_channel key resume_key) s.channels);
      push_channels = put key n s.push_channels;
      next_channel = suc n;
    }

join_held :
    (b r : ℕ) (s : PushState) {c : PushChannel}
    → get r s.channels ≡ some c
    → join_channel b r s
      ≡ record s { channels = put r (record c { subscribers = insert b c.subscribers }) s.channels }
join_held b r s e = simp (e, join_channel) refl

acquire_new :
    (key : String) (resume_key : Option String) (b : ℕ) (s : PushState)
    → get key s.push_channels ≡ none
    → acquire_push_channel key resume_key b s ≡ (opened_for key resume_key b s, s.next_channel)
unfolding acquire_push_channel insert
acquire_new key resume_key b s e =
    let n = s.next_channel in
    let made : get n (make_channel key resume_key s).channels
        ≡ some (fresh_channel key resume_key) =
      rw (get-put n n (fresh_channel key resume_key) s.channels, (nat_eq.test_iff n n).1 refl)
        refl in
    simp (e, acquire_push_channel)
      (ap (λ q. (q, n)) (join_held b n (make_channel key resume_key s) made))

remove_nil : (a : ℕ) → remove a [] ≡ []
unfolding remove
remove_nil a = refl

remove_only : (a : ℕ) → remove a (a ∷ []) ≡ []
unfolding remove
remove_only a = rw ((nat_eq.test_iff a a).1 refl) refl

-- The key has no channel, and the channel n is open for its one subscriber.
abbrev pub Abandoned : String → ℕ → PushState → ℕ → Type 0
Abandoned key b s n =
    (get key s.push_channels ≡ none)
    × (c : PushChannel) × (get n s.channels ≡ some c)
    × (c.subscribers ≡ b ∷ [])
    × (c.closed ≡ false)

-- Where a channel's only subscriber is released, another subscribes under its key, and the first is
-- released again: the key has no channel any more, while the second subscriber's channel is still open,
-- so that the next subscriber opens a second connection.
pub release_push_channel_stale :
    (key : String) (resume_key : Option String) (r a b : ℕ) (s : PushState) {c : PushChannel}
    → get r s.channels ≡ some c
    → c.key ≡ key
    → c.subscribers ≡ a ∷ []
    → (s.next_channel == r) ≡ false
    → let (s₂, n) = acquire_push_channel key resume_key b (release_push_channel r a s) in
      Abandoned key b (release_push_channel r a s₂) n
release_push_channel_stale key resume_key r a b s {c} held k only fresh =
    let n = s.next_channel in
    let self = (nat_eq.test_iff r r).1 refl in
    let same : (c.key == key) ≡ true = (string_eq.test_iff c.key key).1 k in
    let s₁ = released r c s in
    let s₂ = opened_for key resume_key b s₁ in
    let c₁ : PushChannel = record c { subscribers = []; closed = true } in
    let e₁ = release_last r a s held (ap (remove a) only ∙ remove_only a) in
    let e₂ =
      acquire_new key resume_key b s₁ (rw (get-delete c.key key s.push_channels, same) refl) in
    let apart : (r == n) ≡ false =
      ground (arith, nat_eq.test_iff r n, nat_eq.test_iff n r, fresh) in
    let c₂ : PushChannel = record (fresh_channel key resume_key) { subscribers = b ∷ [] } in
    let m = put r c₁ s.channels in
    let held₂ : get r s₂.channels ≡ some c₁ =
      rw
        (
          get-put n r (record (fresh_channel key resume_key) { subscribers = b ∷ [] })
              (put n (fresh_channel key resume_key) m),
          fresh,
          get-put n r (fresh_channel key resume_key) m,
          fresh,
          get-put r r c₁ s.channels,
          self,
        )
        refl in
    let e₃ = release_last r a s₂ held₂ (remove_nil a) in
    subst (λ (p : PushState × ℕ). Abandoned key b (release_push_channel r a p.0) p.1)
      (sym (ap (acquire_push_channel key resume_key b) e₁ ∙ e₂))
      (subst (λ q. Abandoned key b q n) (sym e₃)
        (
          rw (get-delete c.key key (put key n (delete c.key s.push_channels)), same) refl,
          c₂,
          rw
              (
                get-put r n c₁ (put n c₂ (put n (fresh_channel key resume_key) m)),
                apart,
                get-put n n c₂ (put n (fresh_channel key resume_key) m),
                (nat_eq.test_iff n n).1 refl,
              )
              refl,
          refl,
          refl,
        ))
