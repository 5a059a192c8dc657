-- ===== src/Events/Bus/Subscriptions.antt =====
-- What `on` and the function that it returns do to the listeners under each key.
use almadar_runtime.Base.{
  ℕ, suc, ◌≡◌, refl, sym, subst, ◌∙◌, inl, inr, true, List, [], ◌∷◌, none, some, String, ◌==◌,
  if◌then◌else◌, arith, nat_eq, string_eq, get, put, delete, get-put, get-delete, insert, remove,
  Bool-cases, Option-cases, is_empty,
}
use almadar_runtime.Events.Bus.{
  Bus, Subscription, members, listeners_of, on, add_to, unsubscribe, drop_from, clear,
}
use almadar_runtime.Events.Bus.Invariant.{IsWf, members-put, add_key-IsWf, on-IsWf, clear-IsWf}

listeners_of_found :
    (t : String) (s : ℕ) (b : Bus) → get t b.listeners ≡ some s → listeners_of t b ≡ members s b
unfolding listeners_of
listeners_of_found t s b e = rw (e, listeners_of)

listeners_of_missing : (t : String) (b : Bus) → get t b.listeners ≡ none → listeners_of t b ≡ []
unfolding listeners_of
listeners_of_missing t b e = rw (e, listeners_of)

-- A write to the set of one key changes what is under that key, and nothing else.
listeners_of-put :
    (t u : String) (s : ℕ) (xs : List ℕ) (b : Bus)
    → IsWf b
    → get t b.listeners ≡ some s
    → listeners_of u (record b { sets = put s xs b.sets })
      ≡ (if t == u then xs else listeners_of u b)
listeners_of-put t u s xs b v e = elim (Option-cases (get u b.listeners)) [
  | inl missing ↦
      rw
        (
          listeners_of_missing u b missing,
          listeners_of_missing u (record b { sets = put s xs b.sets }) missing,
        )
        (ground (arith, string_eq.test_iff t u))
  | inr (r, found) ↦
      rw
        (
          listeners_of_found u r b found,
          listeners_of_found u r (record b { sets = put s xs b.sets }) found,
          members-put s r xs b,
        )
        (ground (arith, string_eq.test_iff t u, nat_eq.test_iff s r, v.apart t u s))
]

add_to-listeners_of :
    (t u : String) (s l : ℕ) (b : Bus)
    → IsWf b
    → get t b.listeners ≡ some s
    → listeners_of u (add_to t s l b).0
      ≡ (if t == u then insert l (members s b) else listeners_of u b)
unfolding add_to
add_to-listeners_of t u s l b v e = listeners_of-put t u s (insert l (members s b)) b v e

-- `on` for a key that is not there first gives it an empty set.
abbrev add_key : String → Bus → Bus
add_key t b = record b {
  sets = put b.next_set [] b.sets;
  listeners = put t b.next_set b.listeners;
  next_set = suc b.next_set;
}

members-add_key :
    (t : String) (r : ℕ) (b : Bus)
    → members r (add_key t b) ≡ (if b.next_set == r then [] else members r b)
unfolding members
members-add_key t r b = ground (arith, get-put b.next_set r [] b.sets)

listeners_of-add_key :
    (t u : String) (b : Bus)
    → IsWf b
    → get t b.listeners ≡ none
    → listeners_of u (add_key t b) ≡ listeners_of u b
listeners_of-add_key t u b v e = elim (Option-cases (get u (add_key t b).listeners)) [
  | inl missing ↦ rw (
    listeners_of_missing u (add_key t b) missing,
    listeners_of_missing u b (ground (arith, get-put t u b.next_set b.listeners)),
  )
  | inr (r, found) ↦ elim (Bool-cases (t == u)) [
    | inl same ↦
        rw
          (
            listeners_of_found u r (add_key t b) found,
            listeners_of_missing u b (ground (arith, string_eq.test_iff t u)),
            members-add_key t r b,
          )
          (ground (arith, get-put t u b.next_set b.listeners))
    | inr other ↦
        let before : get u b.listeners ≡ some r =
          ground (arith, get-put t u b.next_set b.listeners) in
        rw
          (
            listeners_of_found u r (add_key t b) found,
            listeners_of_found u r b before,
            members-add_key t r b,
          )
          (ground (arith, v.fresh u r before))
  ]
]

-- Subscribing adds the listener to its key, once, and leaves every other key alone; the handle names
-- the set that is under the key.
pub listeners_of-on :
    (t u : String) (l : ℕ) (b : Bus)
    → IsWf b
    → (listeners_of u (on t l b).0
        ≡ (if t == u then insert l (listeners_of t b) else listeners_of u b))
      × (get t (on t l b).0.listeners ≡ some ((on t l b).1.set))
unfolding on
listeners_of-on t u l b v = elim (Option-cases (get t b.listeners)) [
  | inl missing ↦
      let key : get t (add_key t b).listeners ≡ some b.next_set =
        ground (arith, get-put t t b.next_set b.listeners, string_eq.test_iff t t) in
      rw (missing, on)
        (
          rw
              (
                add_to-listeners_of t u b.next_set l (add_key t b) (add_key-IsWf t b v) key,
                members-add_key t b.next_set b,
                listeners_of_missing t b missing,
                listeners_of-add_key t u b v missing,
              )
              (ground (arith, nat_eq.test_iff b.next_set b.next_set)),
          key,
        )
  | inr (s, found) ↦
      rw (found, on)
        (rw (add_to-listeners_of t u s l b v found, listeners_of_found t s b found), found)
]

listeners_of-delete :
    (t u : String) (b : Bus)
    → listeners_of u (record b { listeners = delete t b.listeners })
      ≡ (if t == u then [] else listeners_of u b)
unfolding listeners_of members
listeners_of-delete t u b = ground (arith, get-delete t u b.listeners)

members-drop_from :
    (h : Subscription) (b : Bus)
    → members h.set (drop_from h b) ≡ remove h.listener (members h.set b)
unfolding drop_from
members-drop_from h b =
    rw (members-put h.set h.set (remove h.listener (members h.set b)) b)
      (ground (arith, nat_eq.test_iff h.set h.set))

eq-nil_of_is_empty : (xs : List ℕ) → is_empty xs ≡ true → xs ≡ []
eq-nil_of_is_empty [] e = refl
eq-nil_of_is_empty (x ∷ xs) e = cc

-- While the handle's set is the one under its key, unsubscribing takes the listener from that key and
-- leaves every other key alone.
pub listeners_of-unsubscribe :
    (h : Subscription) (t : String) (b : Bus)
    → IsWf b
    → get h.type b.listeners ≡ some h.set
    → listeners_of t (unsubscribe h b)
      ≡ (if h.type == t then remove h.listener (listeners_of h.type b) else listeners_of t b)
unfolding unsubscribe
listeners_of-unsubscribe h t b v e =
    let dropped : listeners_of t (drop_from h b)
        ≡ (if h.type == t then remove h.listener (members h.set b) else listeners_of t b) =
      unfold drop_from in
      listeners_of-put h.type t h.set (remove h.listener (members h.set b)) b v e in
    rw (listeners_of_found h.type h.set b e)
      (elim (Bool-cases (is_empty (members h.set (drop_from h b)))) [
        | inl gone ↦
            let nil : remove h.listener (members h.set b) ≡ [] =
              sym (members-drop_from h b) ∙ eq-nil_of_is_empty _ gone in
            rw (gone, unsubscribe)
              (rw (listeners_of-delete h.type t (drop_from h b), dropped, nil) (ground arith))
        | inr left ↦ rw (left, unsubscribe) dropped
      ])

-- A handle whose set holds nobody else takes every listener of its key away.
unsubscribe_last :
    (h : Subscription) (b : Bus)
    → remove h.listener (members h.set b) ≡ []
    → listeners_of h.type (unsubscribe h b) ≡ []
unfolding unsubscribe
unsubscribe_last h b empty =
    let gone : is_empty (members h.set (drop_from h b)) ≡ true =
      rw (members-drop_from h b, empty) in
    rw (gone, unsubscribe)
      (rw (listeners_of-delete h.type h.type (drop_from h b))
        (ground (arith, string_eq.test_iff h.type h.type)))

-- The bus after a subscription to a key that is not there.
on_missing :
    (t : String) (l : ℕ) (b : Bus)
    → get t b.listeners ≡ none
    → on t l b ≡ add_to t b.next_set l (add_key t b)
unfolding on
on_missing t l b e = rw (e, on)

members-on_missing :
    (t : String) (l r : ℕ) (b : Bus)
    → get t b.listeners ≡ none
    → members r (on t l b).0 ≡ (if b.next_set == r then l ∷ [] else members r b)
unfolding add_to insert
members-on_missing t l r b e =
    rw
      (
        on_missing t l b e,
        members-put b.next_set r (insert l (members b.next_set (add_key t b))) (add_key t b),
      )
      (ground (
        arith,
        members-add_key t b.next_set b,
        members-add_key t r b,
        nat_eq.test_iff b.next_set r,
        nat_eq.test_iff b.next_set b.next_set,
      ))

members-clear : (b : Bus) (s : ℕ) → members s (clear b) ≡ members s b
unfolding members clear
members-clear b s = refl

-- A key without listeners gets a first one, `l`; the bus is cleared; another listener subscribes to
-- the key, and is the only one there. The first one's unsubscribe function then takes the other away.
pub unsubscribe_after_clear :
    (t : String) (l other : ℕ) (b : Bus)
    → IsWf b
    → get t b.listeners ≡ none
    → let (b₁, h) = on t l b in
      let b₂ = (on t other (clear b₁)).0 in
      (listeners_of t b₂ ≡ other ∷ []) × (listeners_of t (unsubscribe h b₂) ≡ [])
unsubscribe_after_clear t l other b v e =
    let c = clear (on t l b).0 in
    let cleared : get t c.listeners ≡ none = unfold clear get in refl in
    let wf : IsWf c = clear-IsWf (on t l b).0 (on-IsWf t l b v) in
    let set : (on t l b).1.set ≡ b.next_set = unfold add_to in rw (on_missing t l b e) in
    let next : c.next_set ≡ suc b.next_set = unfold clear add_to in rw (on_missing t l b e) in
    let type : (on t l b).1.type ≡ t = unfold add_to in rw (on_missing t l b e) in
    let who : (on t l b).1.listener ≡ l = unfold add_to in rw (on_missing t l b e) in
    let kept : members b.next_set c ≡ l ∷ [] =
      unfold clear in
      (members-clear (on t l b).0 b.next_set
        ∙ rw (members-on_missing t l b.next_set b e)
            (ground (arith, nat_eq.test_iff b.next_set b.next_set))) in
    let h = (on t l b).1 in
    let b₂ = (on t other c).0 in
    let alone : remove h.listener (members h.set b₂) ≡ [] =
      rw (set, who, members-on_missing t other b.next_set c cleared, kept)
        (unfold remove in
          ground (arith, nat_eq.test_iff l l, next, nat_eq.test_iff (suc b.next_set) b.next_set)) in
    (
      rw ((listeners_of-on t t other c wf).0, listeners_of_missing t c cleared)
          (unfold insert in ground (arith, string_eq.test_iff t t)),
      subst (λ k. listeners_of k (unsubscribe h b₂) ≡ []) type (unsubscribe_last h b₂ alone),
    )
