-- ===== src/Effects/InFlight.antt =====
-- effects/in-flight-calls.ts. A Set object and an AbortController are references: the sets live in a
-- store, and the controllers that were aborted are listed. `run` is two steps, its call of `work`
-- and what follows when that settles; between them any other step may come.
pub mod Cancelling
use almadar_runtime.Base.{
  ℕ, suc, ◌≡◌, Bool, true, false, ◌||◌, not, List, [], ◌∷◌, ◌++◌, Option, none, some, String,
  length, is_empty, contains, insert, remove, get, put, delete, get_or, same?, ltb, ◌==◌,
  if◌then◌else◌, nat_eq, string_eq,
}

pub record Registry : Type 0 where
  pub calls : List (String × ℕ)
  pub sets : List (ℕ × List ℕ)
  pub aborted : List ℕ
  pub next_set : ℕ
  pub next_controller : ℕ

abbrev pub create : Registry
create = record { calls = []; sets = []; aborted = []; next_set = 0; next_controller = 0 }

-- What a `run` that waits for its work holds on to.
pub record Running : Type 0 where
  pub key : String
  pub set : ℕ
  pub controller : ℕ

abbrev pub members : ℕ → Registry → List ℕ
members set r = get_or (get set r.sets) []

unfoldable pub in_flight : String → Registry → Bool
in_flight key r = elim (get key r.calls) [
  | none ↦ false
  | some set ↦ ltb 0 (length (members set r))
]

-- `run` up to the call of `work`.
unfoldable pub start : String → Registry → Registry × Running
start key r =
    let running = get_or (get key r.calls) r.next_set in
    (
      record {
        calls = put key running r.calls;
        sets = put running (insert r.next_controller (members running r)) r.sets;
        aborted = r.aborted;
        next_set = suc r.next_set;
        next_controller = suc r.next_controller;
      },
      record { key = key; set = running; controller = r.next_controller },
    )

-- The `finally` of `run`.
unfoldable pub finish : Running → Registry → Registry
finish h r =
    let left = remove h.controller (members h.set r) in
    record r {
      sets = put h.set left r.sets;
      calls =
          if is_empty left
          then (if same? (get h.key r.calls) (some h.set) then delete h.key r.calls else r.calls)
          else r.calls;
    }

-- `work` returned a value, or threw an error.
pub data Settled (A E : Type 0) : Type 0 where
  value : A → Settled A E
  error : E → Settled A E

-- What `run` returns or throws.
pub data Outcome (A E : Type 0) : Type 0 where
  cancelled : Outcome A E
  completed : A → Outcome A E
  thrown : E → Outcome A E

unfoldable pub outcome : {A E : Type 0} → Running → Settled A E → Registry → Outcome A E
outcome h (value a) r = if contains h.controller r.aborted then cancelled else completed a
outcome h (error e) r = if contains h.controller r.aborted then cancelled else thrown e

-- `run` from where `work` settles.
unfoldable pub settle : {A E : Type 0} → Running → Settled A E → Registry → Registry × Outcome A E
unfolding finish outcome
settle h s r = (finish h r, outcome h s r)

unfoldable pub cancel : String → Registry → Registry × Bool
cancel key r = elim (get key r.calls) [
  | none ↦ (r, false)
  | some set ↦
      if is_empty (members set r)
      then (r, false)
      else (record r { calls = delete key r.calls; aborted = r.aborted ++ members set r }, true)
]
