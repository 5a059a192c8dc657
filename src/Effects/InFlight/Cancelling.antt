-- ===== src/Effects/InFlight/Cancelling.antt =====
-- What a cancel and a call that ends do to the calls in flight.
use almadar_runtime.Base.{
  ℕ, ◌≡◌, ◌≢◌, refl, sym, subst, ap, ◌∙◌, Bool, true, false, not, inl, inr, List, [], ◌∷◌, ◌++◌,
  none, some, String, length, is_empty, contains, remove, get, delete, get_or, same?, ltb, ◌==◌,
  if◌then◌else◌, nat_eq, string_eq, arith, Bool-cases, Option-cases, contains-remove,
  contains-append, append-nil, get-put, get-delete,
}
use almadar_runtime.Effects.InFlight.{
  Registry, Running, members, in_flight, finish, Settled, value, error, cancelled, settle, outcome,
  cancel,
}

not_empty-length {ℓ} : {A : Type ℓ} (xs : List A) → not (is_empty xs) ≡ ltb 0 (length xs)
not_empty-length [] = ground arith
not_empty-length (x ∷ xs) = ground arith

cancel_hit :
    (key : String) (r : Registry) (set : ℕ)
    → get key r.calls ≡ some set
    → is_empty (members set r) ≡ false
    → cancel key r
      ≡ (record r { calls = delete key r.calls; aborted = r.aborted ++ members set r }, true)
unfolding cancel
cancel_hit key r set g e = rw (g, cancel, e) refl

cancel_empty :
    (key : String) (r : Registry) (set : ℕ)
    → get key r.calls ≡ some set
    → is_empty (members set r) ≡ true
    → cancel key r ≡ (r, false)
unfolding cancel
cancel_empty key r set g e = rw (g, cancel, e) refl

cancel_missing : (key : String) (r : Registry) → get key r.calls ≡ none → cancel key r ≡ (r, false)
unfolding cancel
cancel_missing key r g = rw (g, cancel) refl

in_flight_found :
    (key : String) (r : Registry) (set : ℕ)
    → get key r.calls ≡ some set
    → in_flight key r ≡ ltb 0 (length (members set r))
unfolding in_flight
in_flight_found key r set g = rw (g, in_flight) refl

in_flight_missing : (key : String) (r : Registry) → get key r.calls ≡ none → in_flight key r ≡ false
unfolding in_flight
in_flight_missing key r g = rw (g, in_flight) refl

in_flight-get :
    (key : String) (r s : Registry)
    → get key r.calls ≡ get key s.calls
    → r.sets ≡ s.sets
    → in_flight key r ≡ in_flight key s
in_flight-get key r s g e = elim (Option-cases (get key s.calls)) [
  | inl missing ↦ in_flight_missing key r (g ∙ missing) ∙ sym (in_flight_missing key s missing)
  | inr (set, found) ↦
      in_flight_found key r set (g ∙ found)
      ∙ ap (λ sets. ltb 0 (length (get_or (get set sets) []))) e
      ∙ sym (in_flight_found key s set found)
]

-- The controllers of the calls under a key.
abbrev pub controllers : String → Registry → List ℕ
controllers key r = elim (get key r.calls) [ none ↦ [] | some set ↦ members set r ]

controllers_found :
    (key : String) (r : Registry) (set : ℕ)
    → get key r.calls ≡ some set
    → controllers key r ≡ members set r
controllers_found key r set g = simp (g, controllers) refl

controllers_missing :
    (key : String) (r : Registry) → get key r.calls ≡ none → controllers key r ≡ []
controllers_missing key r g = simp (g, controllers) refl

empty_nil : (xs : List ℕ) → is_empty xs ≡ true → xs ≡ []
empty_nil [] e = refl
empty_nil (x ∷ xs) e = cc

-- The result of a cancel is whether a call was in flight under the key. The controllers that it aborts
-- are exactly those of the calls under the key. After it no call is in flight there, and under every
-- other key there is a call in flight exactly if there was one.
pub cancel_lem :
    (key : String) (r : Registry)
    → ((cancel key r).1 ≡ in_flight key r)
      × ((cancel key r).0.aborted ≡ r.aborted ++ controllers key r)
      × (in_flight key (cancel key r).0 ≡ false)
      × ((k : String) → (key == k) ≡ false → in_flight k (cancel key r).0 ≡ in_flight k r)
cancel_lem key r = elim (Option-cases (get key r.calls)) [
  | inl missing ↦ rw (cancel_missing key r missing) (
    sym (in_flight_missing key r missing),
    sym (ap (λ xs. r.aborted ++ xs) (controllers_missing key r missing) ∙ append-nil r.aborted),
    in_flight_missing key r missing,
    λ k n. refl,
  )
  | inr (set, found) ↦ elim (Bool-cases (is_empty (members set r))) [
    | inl gone ↦ rw (cancel_empty key r set found gone) (
      sym (in_flight_found key r set found ∙ hidden set gone),
      sym (
          ap (λ xs. r.aborted ++ xs)
            (controllers_found key r set found ∙ empty_nil (members set r) gone)
          ∙ append-nil r.aborted),
      in_flight_found key r set found ∙ hidden set gone,
      λ k n. refl,
    )
    | inr here ↦ rw (cancel_hit key r set found here) (
      shown set here ∙ sym (in_flight_found key r set found),
      sym (ap (λ xs. r.aborted ++ xs) (controllers_found key r set found)),
      in_flight_missing key _
          (get-delete key key r.calls ∙ (rw ((string_eq.test_iff key key).1 refl) refl)),
      λ k n. in_flight-get k _ r (get-delete key k r.calls ∙ (rw n refl)) refl,
    )
  ]
]
  where
    hidden : (set : ℕ) → is_empty (members set r) ≡ true → ltb 0 (length (members set r)) ≡ false
    hidden set e = ground (arith, not_empty-length (members set r))

    shown : (set : ℕ) → is_empty (members set r) ≡ false → true ≡ ltb 0 (length (members set r))
    shown set e = ground (arith, not_empty-length (members set r))

-- A call that ends, whatever it ended with, leaves a key in flight under which another call runs.
pub settle_keeps :
    {A E : Type 0} (h : Running) (s : Settled A E) (r : Registry) (k : String) (set c : ℕ)
    → get k r.calls ≡ some set
    → contains c (members set r) ≡ true
    → (h.controller == c) ≡ false
    → in_flight k (settle h s r).0 ≡ true
unfolding settle finish
settle_keeps h s r k set c g m n =
    in_flight_found k (finish h r) set entry
    ∙ (rw (get-put h.set set (remove h.controller (members h.set r)) r.sets)
        (still (h.set == set) refl))
  where
    kept : contains c (remove h.controller (members set r)) ≡ true
    kept = rw (contains-remove h.controller c (members set r), n, m) refl

    positive : (xs : List ℕ) → contains c xs ≡ true → ltb 0 (length xs) ≡ true
    positive [] e = cc
    positive (x ∷ xs) e = ground arith

    still :
        (b : Bool)
        → (h.set == set) ≡ b
        → ltb 0 (
            length (
              get_or
                (if b then some (remove h.controller (members h.set r)) else get set r.sets)
                []))
          ≡ true
    still true e = positive (remove h.controller (members h.set r)) (
        subst (λ x. contains c (remove h.controller (members x r)) ≡ true)
          (sym ((nat_eq.test_iff h.set set).0 e)) kept)
    still false e = positive (members set r) m

    empty_lacks : (xs : List ℕ) → is_empty xs ≡ true → contains c xs ≡ false
    empty_lacks [] e = refl
    empty_lacks (x ∷ xs) e = cc

    lost : is_empty (remove h.controller (members h.set r)) ≡ true → h.set ≢ set
    lost e p = absurd (
        cc (
          empty_lacks (remove h.controller (members h.set r)) e,
          subst (λ x. contains c (remove h.controller (members x r)) ≡ true) (sym p) kept,
        ))

    same_set : h.key ≡ k → same? (get h.key r.calls) (some h.set) ≡ true → h.set ≡ set
    same_set p e =
        let found : same? (some set) (some h.set) ≡ true =
          subst (λ o. same? o (some h.set) ≡ true) (ap (λ j. get j r.calls) p ∙ g) e in
        sym ((nat_eq.test_iff set h.set).0 found)

    entry : get k (finish h r).calls ≡ some set
    entry = elim (Bool-cases (is_empty (remove h.controller (members h.set r)))) [
      | inr left ↦ rw left g
      | inl none_left ↦ elim (Bool-cases (same? (get h.key r.calls) (some h.set))) [
        | inr other ↦ rw (none_left, other) g
        | inl mine ↦ elim (Bool-cases (h.key == k)) [
          | inl same_key ↦
              absurd (lost none_left (same_set ((string_eq.test_iff h.key k).0 same_key) mine))
          | inr other_key ↦ rw (none_left, mine, get-delete h.key k r.calls, other_key) g
        ]
      ]
    ]

-- A call that runs under a key when the key is cancelled ends as cancelled, whatever its work
-- returns or throws.
pub settle-cancel :
    {A E : Type 0} (h : Running) (s : Settled A E) (r : Registry)
    → get h.key r.calls ≡ some h.set
    → contains h.controller (members h.set r) ≡ true
    → (settle h s (cancel h.key r).0).1 ≡ cancelled
unfolding settle outcome
settle-cancel h s r g m = rw (cancel_hit h.key r h.set g (nonempty (members h.set r) m)) (go s)
  where
    nonempty : (xs : List ℕ) → contains h.controller xs ≡ true → is_empty xs ≡ false
    nonempty [] e = cc
    nonempty (x ∷ xs) e = refl

    hit : contains h.controller (r.aborted ++ members h.set r) ≡ true
    hit = ground (arith, contains-append h.controller r.aborted (members h.set r))

    go :
        {A E : Type 0} (s : Settled A E)
        → outcome h s
            (record r { calls = delete h.key r.calls; aborted = r.aborted ++ members h.set r })
          ≡ cancelled
    go (value a) = rw hit refl
    go (error e) = rw hit refl
