-- ===== src/Semi/Loop.antt =====
-- mpi_semi_centralized_scheduler.hpp: the center's run.
use gempba.Base.{
  ℕ, zero, suc, ◌≡◌, ◌==◌, Bool, true, false, List, [], ◌∷◌, ◌++◌, Option, none, some,
}
use gempba.Base.Int.{pos}
use gempba.Score.Defs.{Score, Floats, Goal}
use gempba.Termination.Detector.{Detector, init}
use gempba.Termination.Handlers.{process_task_received_ack}
use gempba.Tree.Nodes.{Tree}
use gempba.Central.Tasks.{Bundle}
use gempba.Central.Dispatch.{State, available}
use gempba.Semi.Center.{
  Center, Out, Outcome, process_running, process_available, maybe_broadcast_global_score,
  broadcast_nodes_topology, send_seed,
}

-- The random offset of process_available comes with its message.
pub data Message : Type 0 where
  running_state : ℕ → Message
  available_state : ℕ → ℕ → Message
  score_proposal : ℕ → Score → Message
  task_received : ℕ → Message
  other : Message

abbrev pub states_of : ℕ → List State
states_of zero = []
states_of (suc n) = available ∷ states_of n

abbrev pub zeros : ℕ → List ℕ
zeros zero = []
zeros (suc n) = 0 ∷ zeros n

-- `init_member_variables` and `set_goal`, with the topology that the user has set or build_topology has
-- built
unfoldable pub start : ℕ → Tree → Goal → Score → Center
unfolding init
start n t g s = record {
  world_size = n;
  process_state = states_of n;
  process_tree = t;
  nodes_running = pos 0;
  nodes_available = pos 0;
  goal = g;
  global_score = s;
  score_updates_sent = 0;
  next_processes_sent = zeros n;
  termination = init true;
  sent_tasks = 0;
  total_requests_number = 0;
  stats = record {
    received_task_count = 0;
    sent_task_count = 0;
    total_requested_tasks = 0;
    coordinator_messages_handled = 0;
  };
}

-- What `run` does before its loop.
unfoldable pub begin : Bundle → Center → Center × List Out
begin seed c =
    let (d, outs) = broadcast_nodes_topology c in
    let (e, more) = send_seed seed d in (e, outs ++ more)

abbrev pub acknowledged : Center → Option Detector → Outcome
acknowledged c none = none
acknowledged c (some d) = some (record c { termination = d }, [])

-- The switch on the tag.
unfoldable pub handle : Floats → Message → Center → Outcome
handle fl (running_state src) c = process_running src c
handle fl (available_state offset src) c = process_available offset src c
handle fl (score_proposal src s) c = some (maybe_broadcast_global_score fl s c)
handle fl (task_received src) c = acknowledged c (process_task_received_ack c.termination)
handle fl other c = some (c, [])

-- `v_is_terminated` after the message
unfoldable pub ends : Message → Center → Bool
ends (task_received src) c = c.termination.deficit == 0
ends _ c = false

-- The states of the center at the head of its loop, with all that it has sent since the start.
pub data Reach (fl : Floats) (first : Center) (seed : Bundle) : Center → List Out → Type 0 where
  begun : Reach fl first seed (begin seed first).0 (begin seed first).1
  receive :
      {c d : Center} {outs more : List Out}
      → Reach fl first seed c outs
      → (m : Message) → handle fl m c ≡ some (d, more)
      → ends m d ≡ false
      → Reach fl first seed d (outs ++ more)

abbrev pub Holds : (Center → List Out → Type 0) → Outcome → Type 0
Holds P none = Unit
Holds P (some (c, outs)) = P c outs
