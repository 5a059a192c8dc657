-- ===== src/Ui/Perf/Refines.antt =====
-- The ring holds the last entries, oldest first.
use native.Mathlib.Nat.{mod-eq_of_lt, mod_self}
use almadar_runtime.Base.{
  ℕ, zero, suc, ◌+◌, ◌-◌, ◌%◌, ◌≡◌, ◌≤◌, ◌<◌, refl, sym, ap, ap₂, ◌∙◌, true, false, inl, inr, ◌⊎◌,
  List, [], ◌∷◌, ◌++◌, length, ltb, arith, length-append, append_assoc, append-nil,
}
use almadar_runtime.Ui.Perf.{
  set, take, drop, PerfRing, push_entry, schedule_notify, get_perf_snapshot, clear_perf,
}

ltb_of_lt : (a b : ℕ) → a < b → ltb a b ≡ true
ltb_of_lt a b h = ground arith

ltb_of_eq : (a b : ℕ) → a ≡ b → ltb a b ≡ false
ltb_of_eq a b h = ground arith

lt_or_eq : (a b : ℕ) → a ≤ b → (a < b) ⊎ (a ≡ b)
lt_or_eq a b h = ground arith

one_over : (a b : ℕ) → a ≡ b → a + 1 - b ≡ 1
one_over a b h = omega arith

module _ {A : Type 0} where
  -- A queue of at most `size` entries: one more drops the oldest.
  abbrev pub offer : ℕ → List A → A → List A
  offer size q x = drop (length q + 1 - size) (q ++ x ∷ [])

  abbrev pub offer_all : ℕ → List A → List A → List A
  offer_all size q [] = q
  offer_all size q (x ∷ xs) = offer_all size (offer size q x) xs

  abbrev pub push_all : ℕ → List A → PerfRing A → PerfRing A
  push_all size [] s = s
  push_all size (x ∷ xs) s = push_all size xs (push_entry size x s)

  -- The ring is not full and its next slot is the end, or it is full and the slot is one of its own.
  abbrev pub IsRing : ℕ → PerfRing A → Type 0
  IsRing size s =
      ((s.write_idx ≡ length s.ring) × (length s.ring < size))
      ⊎ ((length s.ring ≡ size) × (s.write_idx < size))

  take-set : (xs : List A) (i : ℕ) (x : A) → take i (set xs i x) ≡ take i xs
  take-set [] i x = refl
  take-set (y ∷ ys) zero x = refl
  take-set (y ∷ ys) (suc i) x = ap (λ zs. y ∷ zs) (take-set ys i x)

  length-set : (xs : List A) (i : ℕ) (x : A) → length (set xs i x) ≡ length xs
  length-set [] i x = refl
  length-set (y ∷ ys) zero x = refl
  length-set (y ∷ ys) (suc i) x = ap suc (length-set ys i x)

  drop-set : (xs : List A) (i : ℕ) (x : A) → drop (suc i) (set xs i x) ≡ drop (suc i) xs
  drop-set [] i x = refl
  drop-set (y ∷ ys) zero x = refl
  drop-set (y ∷ ys) (suc i) x = drop-set ys i x

  take-suc-set :
      (xs : List A) (i : ℕ) (x : A)
      → i < length xs
      → take (suc i) (set xs i x) ≡ take i xs ++ x ∷ []
  take-suc-set [] i x h = absurd (omega arith)
  take-suc-set (y ∷ ys) zero x h = refl
  take-suc-set (y ∷ ys) (suc i) x h = ap (λ zs. y ∷ zs) (take-suc-set ys i x (omega arith))

  drop_first :
      (xs : List A) (i : ℕ) (ys : List A)
      → i < length xs
      → drop 1 (drop i xs ++ ys) ≡ drop (suc i) xs ++ ys
  drop_first [] i ys h = absurd (omega arith)
  drop_first (x ∷ xs) zero ys h = refl
  drop_first (x ∷ xs) (suc i) ys h = drop_first xs i ys (omega arith)

  drop-length : (xs : List A) → drop (length xs) xs ≡ []
  drop-length [] = refl
  drop-length (x ∷ xs) = drop-length xs

  take-length : (xs : List A) → take (length xs) xs ≡ xs
  take-length [] = refl
  take-length (x ∷ xs) = ap (λ ys. x ∷ ys) (take-length xs)

  length-drop-take : (xs : List A) (i : ℕ) → length (drop i xs ++ take i xs) ≡ length xs
  length-drop-take xs i = length-append (drop i xs) (take i xs) ∙ parts xs i
    where
      parts : (xs : List A) (i : ℕ) → length (drop i xs) + length (take i xs) ≡ length xs
      parts xs zero = omega arith
      parts [] (suc i) = refl
      parts (x ∷ xs) (suc i) = omega (arith, parts xs i)

  -- One push, seen from the snapshot, and the ring after it.
  abbrev pub Offered : ℕ → A → PerfRing A → PerfRing A → Type 0
  Offered size x s t =
      (get_perf_snapshot size t ≡ offer size (get_perf_snapshot size s) x) × IsRing size t

  view_short :
      (size : ℕ) (s : PerfRing A) → length s.ring < size → get_perf_snapshot size s ≡ s.ring
  unfolding get_perf_snapshot
  view_short size s h = rw (ltb_of_lt (length s.ring) size h) refl

  view_full :
      (size : ℕ) (s : PerfRing A)
      → length s.ring ≡ size
      → get_perf_snapshot size s ≡ drop s.write_idx s.ring ++ take s.write_idx s.ring
  unfolding get_perf_snapshot
  view_full size s h = rw (ltb_of_eq (length s.ring) size h) refl

  ring_short :
      (size : ℕ) (x : A) (s : PerfRing A)
      → length s.ring < size
      → (push_entry size x s).ring ≡ s.ring ++ x ∷ []
  unfolding push_entry schedule_notify
  ring_short size x s h = rw (ltb_of_lt (length s.ring) size h) refl

  ring_full :
      (size : ℕ) (x : A) (s : PerfRing A)
      → length s.ring ≡ size
      → (push_entry size x s).ring ≡ set s.ring s.write_idx x
  unfolding push_entry schedule_notify
  ring_full size x s h = rw (ltb_of_eq (length s.ring) size h) refl

  next_idx :
      (size : ℕ) (x : A) (s : PerfRing A)
      → suc s.write_idx < size
      → (push_entry size x s).write_idx ≡ suc s.write_idx
  unfolding push_entry schedule_notify
  next_idx size x s h = ap (λ n. n % size) (omega arith) ∙ mod-eq_of_lt h

  first_idx :
      (size : ℕ) (x : A) (s : PerfRing A)
      → suc s.write_idx ≡ size
      → (push_entry size x s).write_idx ≡ 0
  unfolding push_entry schedule_notify
  first_idx size x s h = ap (λ n. n % size) (omega arith) ∙ mod_self size

  drop_none : (n : ℕ) (xs : List A) → n ≡ 0 → drop n xs ≡ xs
  drop_none n xs h = rw h refl

  length_grown : (xs : List A) (x : A) → length (xs ++ x ∷ []) ≡ suc (length xs)
  length_grown xs x = omega (arith, length-append xs (x ∷ []))

  push_short :
      (size : ℕ) (x : A) (s : PerfRing A)
      → s.write_idx ≡ length s.ring
      → length s.ring < size
      → Offered size x s (push_entry size x s)
  push_short size x s w h =
      let grown = ring_short size x s h in
      let longer : length (push_entry size x s).ring ≡ suc (length s.ring) =
        ap length grown ∙ length_grown s.ring x in
      let whole : s.ring ++ x ∷ [] ≡ offer size (get_perf_snapshot size s) x = sym (
        ap (λ q. offer size q x) (view_short size s h)
        ∙ drop_none (length s.ring + 1 - size) (s.ring ++ x ∷ []) (omega arith)) in
      elim (lt_or_eq (suc (length s.ring)) size (omega arith)) [
        | inl room ↦
            (let slot = next_idx size x s (omega arith) in
              (
                view_short size (push_entry size x s) (omega arith) ∙ grown ∙ whole,
                inl (omega arith, omega arith),
              ))
        | inr last ↦
            (let slot = first_idx size x s (omega arith) in
              (
                view_full size (push_entry size x s) (omega arith)
                    ∙ ap
                        (λ i.
                          drop i (push_entry size x s).ring ++ take i (push_entry size x s).ring)
                        slot
                    ∙ append-nil (push_entry size x s).ring
                    ∙ grown
                    ∙ whole,
                inr (omega arith, omega arith),
              ))
      ]

  push_full :
      (size : ℕ) (x : A) (s : PerfRing A)
      → length s.ring ≡ size
      → s.write_idx < size
      → Offered size x s (push_entry size x s)
  push_full size x s full w =
      let w' = s.write_idx in
      let r = s.ring in
      let written = ring_full size x s full in
      let same : length (push_entry size x s).ring ≡ size =
        ap length written ∙ length-set r w' x ∙ full in
      let view = view_full size s full in
      let offered : drop (suc w') r ++ (take w' r ++ x ∷ [])
          ≡ offer size (get_perf_snapshot size s) x =
        sym (
          ap (λ q. offer size q x) view
          ∙ ap (λ n. drop n ((drop w' r ++ take w' r) ++ x ∷ []))
              (one_over (length (drop w' r ++ take w' r)) size (length-drop-take r w' ∙ full))
          ∙ ap (drop 1) (append_assoc (drop w' r) (take w' r) (x ∷ []))
          ∙ drop_first r w' (take w' r ++ x ∷ []) (omega arith)) in
      elim (lt_or_eq (suc w') size (omega arith)) [
        | inl room ↦
            (let slot = next_idx size x s room in
              (
                view_full size (push_entry size x s) same
                    ∙ ap₂ (λ i q. drop i q ++ take i q) slot written
                    ∙ ap₂ (λ a b. a ++ b) (drop-set r w' x) (take-suc-set r w' x (omega arith))
                    ∙ offered,
                inr (same, omega arith),
              ))
        | inr last ↦
            (let slot = first_idx size x s last in
              (
                view_full size (push_entry size x s) same
                    ∙ ap₂ (λ i q. drop i q ++ take i q) slot written
                    ∙ append-nil (set r w' x)
                    ∙ sym (take-length (set r w' x))
                    ∙ ap (λ n. take n (set r w' x)) (length-set r w' x ∙ full ∙ sym last)
                    ∙ take-suc-set r w' x (omega arith)
                    ∙ ap (λ q. q ++ (take w' r ++ x ∷ []))
                        (sym (drop-length r) ∙ ap (λ n. drop n r) (full ∙ sym last))
                    ∙ offered,
                inr (same, omega arith),
              ))
      ]

  push_entry-Offered :
      (size : ℕ) (x : A) (s : PerfRing A) → IsRing size s → Offered size x s (push_entry size x s)
  push_entry-Offered size x s (inl (w, h)) = push_short size x s w h
  push_entry-Offered size x s (inr (h, w)) = push_full size x s h w

  push_all-offer_all :
      (size : ℕ) (xs : List A) (s : PerfRing A)
      → IsRing size s
      → (get_perf_snapshot size (push_all size xs s) ≡ offer_all size (get_perf_snapshot size s) xs)
        × IsRing size (push_all size xs s)
  push_all-offer_all size [] s v = (refl, v)
  push_all-offer_all size (x ∷ xs) s v =
      let (e, v') = push_entry-Offered size x s v in
      let (f, w) = push_all-offer_all size xs (push_entry size x s) v' in
      (f ∙ ap (λ q. offer_all size q xs) e, w)

-- From a ring that was just cleared, with any size but 0, the snapshot after any pushes is what a
-- queue of that size holds that drops its oldest entry when a new one does not fit: the last entries,
-- oldest first.
pub get_perf_snapshot-clear_perf :
    {A : Type 0} (size : ℕ) (xs : List A) (s : PerfRing A)
    → 0 < size
    → get_perf_snapshot size (push_all size xs (clear_perf s)) ≡ offer_all size [] xs
unfolding clear_perf schedule_notify
get_perf_snapshot-clear_perf size xs s h =
    (push_all-offer_all size xs (clear_perf s) (inl (refl, h))).0
    ∙ ap (λ q. offer_all size q xs) (view_short size (clear_perf s) h)
