-- ===== src/Central/Results.antt =====
-- mpi_centralized_scheduler.hpp and .cpp (and the same code of the semi-centralized scheduler): a worker
-- sends its best result when it ends, and the center collects it. The list holds the messages of one worker
-- to the center on the world communicator, oldest first. A score goes as its bytes: `encode` is the copy of
-- its memory to the message, and `decode` the copy back.
use gempba.Base.{
  ℕ, zero, suc, ◌+◌, ◌≡◌, refl, ◌∙◌, ap, List, [], ◌∷◌, Option, none, some, set, arith,
}
use gempba.Score.Defs.{Score}

-- `result`
pub record Result : Type 0 where
  pub score : Score
  pub packet : List ℕ

pub data Reply : Type 0 where
  -- RUNNING_STATE and AVAILABLE_STATE
  state_msg : Reply
  has_result : List ℕ → Reply
  no_result : Reply
  unknown_tag : Reply

pub record Collected : Type 0 where
  pub best_results : List Result
  pub total_requests_number : ℕ
  pub total_requested_tasks : ℕ
  pub coordinator_messages_handled : ℕ

pub data Received : Type 0 where
  -- a probe or a receive waits for a message that is not there
  waits : Received
  thrown : Received
  received : Collected → List Reply → Received

abbrev pub count_state : Collected → Collected
count_state c = record c {
  total_requests_number = c.total_requests_number + 1;
  total_requested_tasks = c.total_requested_tasks + 1;
  coordinator_messages_handled = c.coordinator_messages_handled + 1;
}

abbrev pub behind_first : Reply → Option (List ℕ × List Reply) → Option (List ℕ × List Reply)
behind_first m none = none
behind_first m (some (b, rest)) = some (b, m ∷ rest)

-- MPI_Recv with the tag HAS_RESULT: the oldest such message, wherever it stands.
unfoldable pub take_result : List Reply → Option (List ℕ × List Reply)
take_result [] = none
take_result (has_result b ∷ l) = some (b, l)
take_result (m ∷ l) = behind_first m (take_result l)

-- `n` state messages, and then `l`
abbrev pub late : ℕ → List Reply → List Reply
late zero l = l
late (suc n) l = state_msg ∷ late n l

-- The center's books after `n` state messages,
abbrev pub after_states : ℕ → Collected → Collected
after_states n c = record c {
  total_requests_number = c.total_requests_number + n;
  total_requested_tasks = c.total_requested_tasks + n;
  coordinator_messages_handled = c.coordinator_messages_handled + n;
}

-- and after a result of the worker `r`.
abbrev pub with_result : ℕ → Option Result → Collected → Collected
with_result r none c = c
with_result r (some v) c = elim v.packet [
  | [] ↦ c
  | b ∷ bs ↦ record c {
    best_results = set c.best_results r (record { score = v.score; packet = b ∷ bs });
  }
]

after_states_once :
    (n : ℕ) (c : Collected) → after_states n (count_state c) ≡ after_states (suc n) c
after_states_once n c i = record c {
  total_requests_number =
      (let e : c.total_requests_number + 1 + n ≡ c.total_requests_number + suc n = omega arith in
        e i);
  total_requested_tasks =
      (let e : c.total_requested_tasks + 1 + n ≡ c.total_requested_tasks + suc n = omega arith in
        e i);
  coordinator_messages_handled =
      (let e : c.coordinator_messages_handled + 1 + n ≡ c.coordinator_messages_handled + suc n =
          omega arith in
        e i);
}

after_none : (c : Collected) → c ≡ after_states 0 c
after_none c i = record c {
  total_requests_number =
      (let e : c.total_requests_number ≡ c.total_requests_number + 0 = omega arith in e i);
  total_requested_tasks =
      (let e : c.total_requested_tasks ≡ c.total_requested_tasks + 0 = omega arith in e i);
  coordinator_messages_handled =
      (let e : c.coordinator_messages_handled ≡ c.coordinator_messages_handled + 0 = omega arith in
        e i);
}

module _ (encode : Score → List ℕ) (decode : List ℕ → Score) where
  -- The argument is get_result_bytes of the node manager.
  unfoldable pub send_final_solution_to_center : Option Result → List Reply
  send_final_solution_to_center none = no_result ∷ []
  send_final_solution_to_center (some v) = elim v.packet [
    | [] ↦ no_result ∷ []
    | b ∷ bs ↦ has_result (b ∷ bs) ∷ has_result (encode v.score) ∷ []
  ]

  abbrev pub store : ℕ → List ℕ → Option (List ℕ × List Reply) → Collected → Received
  store r b none c = waits
  store r b (some (s, rest)) c =
      received
        (record c { best_results = set c.best_results r (record { score = decode s; packet = b }) })
        rest

  unfoldable pub receive_solution_from : ℕ → List Reply → Collected → Received
  unfolding take_result
  receive_solution_from r [] c = waits
  receive_solution_from r (state_msg ∷ l) c = receive_solution_from r l (count_state c)
  receive_solution_from r (has_result b ∷ l) c = store r b (take_result l) c
  receive_solution_from r (no_result ∷ l) c = received c l
  receive_solution_from r (unknown_tag ∷ l) c = thrown

  final_lem :
      (r : ℕ) (v : Option Result) (c : Collected)
      → ((s : Score) → decode (encode s) ≡ s)
      → receive_solution_from r (send_final_solution_to_center v) c
        ≡ received (with_result r v c) []
  unfolding receive_solution_from send_final_solution_to_center take_result
  final_lem r none c law = refl
  final_lem r (some v) c law =
      elim v.packet
        as (λ p.
          receive_solution_from r
            (send_final_solution_to_center (some (record { score = v.score; packet = p }))) c
          ≡ received (with_result r (some (record { score = v.score; packet = p })) c) []) [
            | [] ↦ refl
            | b ∷ bs ↦
                ap
                  (λ s.
                    received
                      (record c {
                        best_results = set c.best_results r (record { score = s; packet = b ∷ bs });
                      })
                      [])
                  (law v.score)
          ]

  -- If a score that is copied to a message and back is the same score: whatever number of state messages
  -- of the worker is still on its way, the center counts each of them, and then holds the very result
  -- that the worker ended with, or what it held before if the worker has none or an empty one; no exception
  -- is raised, no message is missed, and none is left.
  pub receive_solution_from-send_final_solution_to_center :
      (r n : ℕ) (v : Option Result) (c : Collected)
      → ((s : Score) → decode (encode s) ≡ s)
      → receive_solution_from r (late n (send_final_solution_to_center v)) c
        ≡ received (with_result r v (after_states n c)) []
  unfolding receive_solution_from
  receive_solution_from-send_final_solution_to_center r zero v c law =
      final_lem r v c law ∙ ap (λ d. received (with_result r v d) []) (after_none c)
  receive_solution_from-send_final_solution_to_center r (suc n) v c law =
      receive_solution_from-send_final_solution_to_center r n v (count_state c) law
      ∙ ap (λ d. received (with_result r v d) []) (after_states_once n c)
