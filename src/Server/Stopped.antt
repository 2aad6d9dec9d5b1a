-- ===== src/Server/Stopped.antt =====
-- What is called when the server stops.
use tiny_cache.Base.{◌≡◌, refl, ap, true, ◌++◌, List, [], ◌∷◌, ◌⊎◌, inl, inr, ◌∙◌, arith}
use tiny_cache.Server.{
  cancels, Call, stop_grpc, cleanup_health, stop_store, Outcomes, mark_grpc_not_serving,
  cleanup_and_stop, shutdown_started_service, Shutdown, begin_shutdown, Waiting, waits,
  not_stopping, signalled, finish_serving, repeated,
}

-- the calls that a shutdown makes
abbrev pub all_calls : List Call
all_calls = mark_grpc_not_serving ++ stop_grpc ∷ cleanup_health ∷ stop_store ∷ []

shutdown-calls :
    (o : Outcomes)
    → (shutdown_started_service o).0
      ≡ elim o.grpc [ cancels ↦ mark_grpc_not_serving ++ stop_grpc ∷ [] | _ ↦ all_calls ]
unfolding shutdown_started_service cleanup_and_stop
shutdown-calls o = ground arith

abbrev stopping : Shutdown
stopping = record { has_task = true; started = 1 }

-- the first signal starts a shutdown, and no other does
Waiting-cases : {s : Shutdown} → Waiting s → (s ≡ not_stopping) ⊎ (s ≡ stopping)
unfolding begin_shutdown
Waiting-cases waits = inl refl
Waiting-cases (signalled w) = elim (Waiting-cases w) [
  | inl p ↦ inr (ap begin_shutdown p)
  | inr p ↦ inr (ap begin_shutdown p)
]

begin_shutdown-stopping : {s : Shutdown} → Waiting s → begin_shutdown s ≡ stopping
unfolding begin_shutdown
begin_shutdown-stopping w = elim (Waiting-cases w) [
  | inl p ↦ ap begin_shutdown p
  | inr p ↦ ap begin_shutdown p
]

append-nil : (calls : List Call) → calls ++ [] ≡ calls
append-nil [] = refl
append-nil (call ∷ calls) = ap (◌∷◌ call) (append-nil calls)

-- However many signals come before the wait ends, there is exactly one shutdown. It first reports
-- that the server does not serve, then stops gRPC, the health server and the store, in this order,
-- each once, also if stopping gRPC or the health server raises. Only if it is cancelled while gRPC
-- stops are the others left out.
pub finish_serving-calls :
    (o : Outcomes) {s : Shutdown}
    → Waiting s
    → finish_serving o s
      ≡ elim o.grpc [ cancels ↦ mark_grpc_not_serving ++ stop_grpc ∷ [] | _ ↦ all_calls ]
unfolding finish_serving
finish_serving-calls o w =
    ap (λ s. repeated s.started (shutdown_started_service o).0) (begin_shutdown-stopping w)
    ∙ append-nil (shutdown_started_service o).0
    ∙ shutdown-calls o
