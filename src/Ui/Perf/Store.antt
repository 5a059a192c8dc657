-- ===== src/Ui/Perf/Store.antt =====
-- What `useSyncExternalStore` relies on: a snapshot keeps its identity until the ring is announced.
use almadar_runtime.Base.{
  ℕ, ◌+◌, ◌≡◌, refl, ap, sym, ◌∙◌, false, inl, inr, some, ◌==◌, nat_eq, arith, Option-cases,
  Bool-cases,
}
use almadar_runtime.Ui.Perf.{
  PerfRing, get_perf_snapshot, get_snapshot, push_entry, schedule_notify, run_notify,
}

module _ {A : Type 0} where
  cached-get_snapshot :
      (size : ℕ) (s : PerfRing A)
      → ((get_snapshot size s).0.cached_revision ≡ some s.revision)
        × ((get_snapshot size s).0.cached_snapshot ≡ (get_snapshot size s).1)
        × ((get_snapshot size s).0.revision ≡ s.revision)
  unfolding get_snapshot
  cached-get_snapshot size s = elim (Option-cases s.cached_revision) [
    | inl never ↦ rw (never, get_snapshot) (refl, refl, refl)
    | inr (r, at_r) ↦ elim (Bool-cases (r == s.revision)) [
      | inl same ↦ rw (at_r, get_snapshot, same) (ground (arith, nat_eq.test_iff r s.revision))
      | inr old ↦ rw (at_r, get_snapshot, old) (refl, refl, refl)
    ]
  ]

  read_again :
      (size : ℕ) (s : PerfRing A)
      → s.cached_revision ≡ some s.revision
      → (get_snapshot size s).1 ≡ s.cached_snapshot
  unfolding get_snapshot
  read_again size s e = rw (e, get_snapshot, (nat_eq.test_iff s.revision s.revision).1 refl) refl

  read_new :
      (size : ℕ) (s : PerfRing A) (r : ℕ)
      → s.cached_revision ≡ some r
      → (r == s.revision) ≡ false
      → (get_snapshot size s).1 ≡ get_perf_snapshot size s
  unfolding get_snapshot
  read_new size s r e n = rw (e, get_snapshot, n) refl

-- A read after a push that is not announced yet gives the snapshot of the read before it, and a read
-- after the announcement gives the ring as it is then.
pub get_snapshot_stable :
    {A : Type 0} (size : ℕ) (x : A) (s : PerfRing A)
    → let s₁ = (get_snapshot size s).0 in
      let s₂ = push_entry size x s₁ in
      ((get_snapshot size s₂).1 ≡ (get_snapshot size s).1)
      × ((get_snapshot size (run_notify s₂).0).1 ≡ get_perf_snapshot size s₂)
unfolding push_entry schedule_notify run_notify get_perf_snapshot
get_snapshot_stable size x s =
    let s₁ = (get_snapshot size s).0 in
    let (known, kept, same) = cached-get_snapshot size s in
    let at_s₁ : s₁.cached_revision ≡ some s₁.revision = known ∙ ap some (sym same) in
    (
      read_again size (push_entry size x s₁) at_s₁ ∙ kept,
      read_new size (run_notify (push_entry size x s₁)).0 s₁.revision at_s₁
          (ground (arith, nat_eq.test_iff s₁.revision (s₁.revision + 1))),
    )
