-- ===== src/Effects/Tests.antt =====
-- Calls under one key, one of them cancelled, and a dispatch with a server leg.
use almadar_runtime.Base.{
  ℕ, ◌≡◌, refl, true, false, List, [], ◌∷◌, ◌++◌, String, get, put, delete, insert, remove, ◌==◌,
  string_eq, none,
}
use almadar_runtime.Effects.InFlight.{
  Registry, create, Running, in_flight, start, finish, outcome, settle, cancel, value,
}
use almadar_runtime.Effects.InFlight.Cancelling.{controllers, cancel_lem, settle_keeps}
use almadar_runtime.Effects.ServerLeg.{
  Collector, Target, server, client, delegate, drain, attribute,
}

effects : Unit {0}
unfolding in_flight start finish outcome settle cancel get put delete insert remove delegate drain
    attribute
effects = tt

-- A call is cancelled and then started again under the same key.
abbrev first : Registry × Running
unfolding effects
first = start "search" create

abbrev second : Registry × Running
unfolding effects
second = start "search" (cancel "search" first.0).0

in_flight_tests :
    (in_flight "search" first.0 ≡ true)
    × (in_flight "search" (cancel "search" first.0).0 ≡ false)
    × ((cancel "other" first.0).1 ≡ false)
    × (in_flight "search" (finish second.1 (finish first.1 second.0)) ≡ false)
unfolding effects
in_flight_tests = (refl, refl, refl, refl)

cancel_lem_example :
    ((cancel "search" first.0).1 ≡ in_flight "search" first.0)
    × ((cancel "search" first.0).0.aborted ≡ first.0.aborted ++ controllers "search" first.0)
    × (in_flight "search" (cancel "search" first.0).0 ≡ false)
    × ((k : String)
        → ("search" == k) ≡ false
        → in_flight k (cancel "search" first.0).0 ≡ in_flight k first.0)
cancel_lem_example = cancel_lem "search" first.0

settle_keeps_example :
    in_flight "search" (settle {A = ℕ} {E = String} first.1 (value 3) second.0).0 ≡ true
unfolding effects
settle_keeps_example =
    settle_keeps {A = ℕ} {E = String} first.1 (value 3) second.0 "search" 1 1 refl refl refl

abbrev collector : Collector String
collector = record { effects = "old" ∷ []; source = none; sources = [] }

abbrev dispatched : List (String × Target)
dispatched = ("persist", server) ∷ ("render-ui", client) ∷ ("fetch", server) ∷ []
