-- ===== src/Ui/Perf.antt =====
-- ui/perf.ts: the ring of timings, its snapshot for subscribers, and the buckets of the summary.
-- Milliseconds are whole numbers here; entries are of any type. Marks, log lines and the timer of the
-- summary are left out.
pub mod Refines
pub mod Store
use almadar_runtime.Base.{
  ℕ, zero, suc, ◌+◌, ◌%◌, ◌≡◌, Bool, true, false, not, List, [], ◌∷◌, ◌++◌, Option, none, some,
  String, length, get, put, insert, remove, ltb, ◌==◌, if◌then◌else◌, nat_eq, string_eq,
}

abbrev pub ring_size : ℕ
ring_size = 50

module _ {A : Type 0} where
  -- `ring[i] = x`.
  abbrev pub set : List A → ℕ → A → List A
  set [] i x = []
  set (y ∷ ys) zero x = x ∷ ys
  set (y ∷ ys) (suc i) x = y ∷ set ys i x

  -- `slice(0, n)`.
  abbrev pub take : ℕ → List A → List A
  take zero xs = []
  take (suc n) [] = []
  take (suc n) (x ∷ xs) = x ∷ take n xs

  -- `slice(n)`.
  abbrev pub drop : ℕ → List A → List A
  drop zero xs = xs
  drop (suc n) [] = []
  drop (suc n) (x ∷ xs) = drop n xs

-- The module's state. A cached revision of `none` is the -1 that no revision has.
pub record PerfRing (A : Type 0) : Type 0 where
  pub ring : List A
  pub write_idx : ℕ
  pub subscribers : List ℕ
  pub notify_scheduled : Bool
  pub revision : ℕ
  pub cached_snapshot : List A
  pub cached_revision : Option ℕ

module _ {A : Type 0} where
  unfoldable pub empty : PerfRing A
  empty = record {
    ring = [];
    write_idx = 0;
    subscribers = [];
    notify_scheduled = false;
    revision = 0;
    cached_snapshot = [];
    cached_revision = none;
  }

  unfoldable pub schedule_notify : PerfRing A → PerfRing A
  schedule_notify s = record s { notify_scheduled = true }

  -- The microtask that was queued, and the subscribers that it calls.
  unfoldable pub run_notify : PerfRing A → PerfRing A × List ℕ
  run_notify s = (record s { notify_scheduled = false; revision = s.revision + 1 }, s.subscribers)

  module _ (size : ℕ) where
    unfoldable pub push_entry : A → PerfRing A → PerfRing A
    unfolding schedule_notify
    push_entry x s = schedule_notify (record s {
      ring = if ltb (length s.ring) size then s.ring ++ x ∷ [] else set s.ring s.write_idx x;
      write_idx = (s.write_idx + 1) % size;
    })

    unfoldable pub get_perf_snapshot : PerfRing A → List A
    get_perf_snapshot s =
        if ltb (length s.ring) size
        then s.ring
        else drop s.write_idx s.ring ++ take s.write_idx s.ring

    unfoldable pub get_snapshot : PerfRing A → PerfRing A × List A
    unfolding get_perf_snapshot
    get_snapshot s = elim s.cached_revision [
      | none ↦ (
        record s { cached_snapshot = get_perf_snapshot s; cached_revision = some s.revision },
        get_perf_snapshot s,
      )
      | some r ↦ if r == s.revision then (s, s.cached_snapshot) else (
        record s { cached_snapshot = get_perf_snapshot s; cached_revision = some s.revision },
        get_perf_snapshot s,
      )
    ]

  unfoldable pub clear_perf : PerfRing A → PerfRing A
  unfolding schedule_notify
  clear_perf s = schedule_notify (record s { ring = []; write_idx = 0 })

  unfoldable pub subscribe : ℕ → PerfRing A → PerfRing A
  subscribe fn s = record s { subscribers = insert fn s.subscribers }

  unfoldable pub unsubscribe_from : ℕ → PerfRing A → PerfRing A
  unsubscribe_from fn s = record s { subscribers = remove fn s.subscribers }

pub record PerfBucket : Type 0 where
  pub count : ℕ
  pub total_ms : ℕ
  pub max_ms : ℕ

abbrev pub add_to_bucket : ℕ → Option PerfBucket → PerfBucket
add_to_bucket ms none = record { count = 1; total_ms = ms; max_ms = ms }
add_to_bucket ms (some b) = record {
  count = b.count + 1;
  total_ms = b.total_ms + ms;
  max_ms = if ltb b.max_ms ms then ms else b.max_ms;
}

unfoldable pub aggregate : String → ℕ → List (String × PerfBucket) → List (String × PerfBucket)
aggregate name ms buckets = put name (add_to_bucket ms (get name buckets)) buckets
