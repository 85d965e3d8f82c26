-- ===== src/RateLimit/Examples.antt =====
-- Runs of the theorem on apps/api/app/utils/ratelimit.py.
use aidflow.Prelude.{ℕ, ◌≤◌, ◌≡◌, refl, List, [], ◌∷◌, arith}
use aidflow.RateLimit.{Hits, pruned, queue_of, forget}
use aidflow.RateLimit.Idle.{AllSorted, pruned-forget}
use aidflow.RateLimit.Window.{allowed, IsSorted, hits_in, allowed-le}

-- Six calls, two in a minute allowed.
abbrev calls : List ℕ
calls = 0 ∷ 10 ∷ 20 ∷ 59 ∷ 60 ∷ 75 ∷ []

calls-IsSorted : IsSorted 0 calls
calls-IsSorted = ground arith

allowed-le_example : hits_in 60 5 (allowed 2 60 [] calls) ≤ 2
allowed-le_example = allowed-le 2 60 5 calls calls-IsSorted

-- One client is idle, and one is not.
abbrev two_clients : Hits
two_clients = ("10.0.0.1", 0 ∷ 10 ∷ []) ∷ ("192.0.2.7", 50 ∷ 90 ∷ []) ∷ []

two_clients-AllSorted : AllSorted two_clients
two_clients-AllSorted = ground arith

pruned-forget_example :
    pruned 60 120 (queue_of "10.0.0.1" (forget 60 100 two_clients))
    ≡ pruned 60 120 (queue_of "10.0.0.1" two_clients)
pruned-forget_example =
    pruned-forget "10.0.0.1" 60 100 120 two_clients (omega arith) refl two_clients-AllSorted
