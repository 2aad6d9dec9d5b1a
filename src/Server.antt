-- ===== src/Server.antt =====
-- tiny_cache/main.py: how the server starts and stops. The objects of gRPC, asyncio and aiohttp are
-- outside: a call of theirs ends in one of three ways.
pub mod Started
pub mod Stopped
use tiny_cache.Base.{
  ℕ, zero, suc, ◌+◌, Text, codes, Bool, true, false, ◌++◌, List, [], ◌∷◌, if◌then◌else◌,
}

-- `raises`: an `Exception`; `cancels`: any other exception, such as `CancelledError`
pub data Outcome : Type 0 where
  returns raises cancels : Outcome

-- the calls by which the process shuts down
pub data Call : Type 0 where
  mark_not_serving : Text → Call
  stop_grpc : Call
  cleanup_health : Call
  stop_store : Call

-- What the calls end with.
pub record Outcomes : Type 0 where
  pub grpc : Outcome
  pub health : Outcome
  pub store : Outcome

abbrev pub mark_grpc_not_serving : List Call
mark_grpc_not_serving = mark_not_serving [] ∷ mark_not_serving (codes "cache.CacheService") ∷ []

-- the second `try`, with the `finally` that stops the store
unfoldable pub cleanup_and_stop : Outcomes → List Call × Outcome
cleanup_and_stop o = (
  cleanup_health ∷ stop_store ∷ [],
  elim o.store [
    | returns ↦ elim o.health [ cancels ↦ cancels | _ ↦ returns ]
    | raises ↦ raises
    | cancels ↦ cancels
  ],
)

-- `_shutdown_started_service`: the calls that are made, and how it ends
unfoldable pub shutdown_started_service : Outcomes → List Call × Outcome
shutdown_started_service o = elim o.grpc [
  | cancels ↦ (mark_grpc_not_serving ++ stop_grpc ∷ [], cancels)
  | _ ↦
      let (calls, outcome) = cleanup_and_stop o in
      (mark_grpc_not_serving ++ stop_grpc ∷ calls, outcome)
]

-- The variable `shutdown_task` of `serve`, and how often a shutdown was started.
pub record Shutdown : Type 0 where
  pub has_task : Bool
  pub started : ℕ

abbrev pub not_stopping : Shutdown
not_stopping = record { has_task = false; started = 0 }

-- `_begin_shutdown`, and the same test in the `finally` of `serve`
unfoldable pub begin_shutdown : Shutdown → Shutdown
begin_shutdown s = if s.has_task then s else record { has_task = true; started = s.started + 1 }

-- The values that the variable has while `serve` waits for termination: any number of signals may
-- have come, SIGTERM or SIGINT.
pub data Waiting : Shutdown → Type 0 where
  waits : Waiting not_stopping
  signalled : {s : Shutdown} → Waiting s → Waiting (begin_shutdown s)

-- The calls of all shutdowns that were started.
abbrev pub repeated : ℕ → List Call → List Call
repeated zero calls = []
repeated (suc n) calls = calls ++ repeated n calls

-- What `serve` does once the wait has ended: its `finally` starts a shutdown unless one was, and
-- waits for it.
unfoldable pub finish_serving : Outcomes → Shutdown → List Call
finish_serving o s = repeated (begin_shutdown s).started (shutdown_started_service o).0
