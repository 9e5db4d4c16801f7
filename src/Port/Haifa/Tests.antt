-- ===== src/Port/Haifa/Tests.antt =====
-- Runs of the exchange between Haifa and Eilat, and the theorems about it at them.
use software_development_pla.Common.{
  update, ◌*◌, ℕ_discrete, ℕ, ◌+◌, ◌-◌, ◌%◌, ◌≤◌, ◌<◌, ◌≡◌, ◌↔◌, ◌⊎◌, refl, Bool, true, false,
  Option, none, some, List, [], ◌∷◌, ◌++◌, arith, atoi, digits, decimal,
}
use software_development_pla.Port.Haifa.{
  goes_on, exits, fault, Program, eilat_port, eilat_src, create_eilat, create_eilat_from,
  read_arguments, read_answer, is_text, check_num_of_vessels, ask_permission, num_vessels_error,
  pipe_usage_error, vessel_id_error, process_creation_error, unknown_answer_code_error,
  vessel_message, wake_vessel, wait_for_vessels, wait_for_all_vessels_to_return, create_vessel,
  receive_vessels, receive_vessels_from_haifa,
}
use software_development_pla.Port.Haifa.Permission.{ask_permission-agrees}
use software_development_pla.Port.Haifa.Voyage.{Carries, voyage}
use software_development_pla.Port.Haifa.Threads.{
  starting, crossing, sent, home, at_eilat, Harbour, new_harbour, put, vessel_step, create_thread,
  Reached, start, creates, sails,
}
use software_development_pla.Port.Haifa.Threads.Progress.{
  Step, OwnStep, AwaitsEilat, vessel_sails, reached-Progresses,
}
use software_development_pla.Port.Haifa.Threads.Work.{work, Step-works}

-- The executable is tried under three names.
abbrev is_src : Program → Bool
is_src eilat_src = true
is_src _ = false

ask_permission-agrees_example :
    (ask_permission is_src (decimal 9 ++ (0 ∷ [])) [] ≡ (check_num_of_vessels 9).1)
    × ((ask_permission is_src (decimal 9 ++ (0 ∷ [])) [] ≡ goes_on tt)
        ↔ ((d : ℕ) × (2 ≤ d) × (d < 9) × (9 % d ≡ 0)))
    × (((check_num_of_vessels 9).1 ≡ goes_on tt)
        ⊎ ((check_num_of_vessels 9).1 ≡ exits num_vessels_error))
ask_permission-agrees_example =
    ask_permission-agrees 9 [] [] is_src eilat_src (omega arith) (omega arith) refl

-- Four vessels sail in order, and come back the last first.
abbrev in_order : ℕ → ℕ
in_order k = k

abbrev reversed : ℕ → ℕ
reversed k = 3 - k

abbrev messages : (ℕ → ℕ) → ℕ → Option (List ℕ)
messages order k = some (vessel_message [] (order k + 1))

in_order-Carries : Carries 4 in_order (messages in_order)
in_order-Carries = record {
  garbage = λ _. [];
  message = λ k h. refl;
  in_range = λ k h. h;
  all = λ i h. (i, h, refl);
}

reversed-Carries : Carries 4 reversed (messages reversed)
reversed-Carries = record {
  garbage = λ _. [];
  message = λ k h. refl;
  in_range = λ k h. omega arith;
  all = λ i h. (3 - i, omega arith, omega arith);
}

voyage_example :
    (threads : ℕ → Option ℕ) × (semaphores : ℕ → ℕ) × (receive_vessels_from_haifa
        (messages in_order)
        4
      ≡ goes_on threads)
    × (wait_for_all_vessels_to_return (messages reversed) 4 ≡ goes_on semaphores)
    × ((i : ℕ) → i < 4 → (threads i ≡ some (i + 1)) × (semaphores i ≡ 1))
voyage_example =
    voyage 4 in_order reversed (messages in_order) (messages reversed) in_order-Carries
      reversed-Carries

-- 1, 51 and an argument that is no number are refused.
arguments :
    (read_arguments ((b'5' ∷ b'0' ∷ []) ∷ []) ≡ goes_on 50)
    × (read_arguments ((b'5' ∷ b'1' ∷ []) ∷ []) ≡ exits 0)
    × (read_arguments ((b'-' ∷ b'4' ∷ []) ∷ []) ≡ exits 0)
    × (read_arguments ((b'x' ∷ []) ∷ []) ≡ exits 0)
    × (read_arguments [] ≡ exits 1)
unfolding read_arguments atoi digits
arguments = (refl, refl, refl, refl, refl)

trials :
    (create_eilat (λ _. true) ≡ goes_on eilat_port)
    × (create_eilat is_src ≡ goes_on eilat_src)
    × (create_eilat (λ _. false) ≡ exits process_creation_error)
unfolding create_eilat create_eilat_from
trials = (refl, refl, refl)

answers :
    (read_answer (some (b'Y' ∷ 0 ∷ 7 ∷ [])) ≡ goes_on tt)
    × (read_answer (some (b'N' ∷ 0 ∷ [])) ≡ exits num_vessels_error)
    × (read_answer (some (b'Y' ∷ b'N' ∷ 0 ∷ [])) ≡ exits unknown_answer_code_error)
    × (read_answer none ≡ exits pipe_usage_error)
unfolding read_answer is_text
answers = (refl, refl, refl, refl)

-- A read that fails, a message without a number, and a number that is too large.
bad_messages :
    (wait_for_all_vessels_to_return (λ _. none) 4 ≡ exits pipe_usage_error)
    × (wait_for_all_vessels_to_return (λ _. some (0 ∷ [])) 4 ≡ exits vessel_id_error)
    × (wait_for_all_vessels_to_return (λ _. some (b'5' ∷ 0 ∷ [])) 4 ≡ fault)
    × (receive_vessels_from_haifa (λ _. some (0 ∷ [])) 4 ≡ fault)
unfolding wait_for_all_vessels_to_return wait_for_vessels wake_vessel receive_vessels_from_haifa
    receive_vessels create_vessel atoi digits
bad_messages = (refl, refl, refl, refl)

-- Two threads are created, and the second takes the mutex of the pipe.
abbrev one_thread : Harbour
unfolding new_harbour
one_thread = put 0 starting (record new_harbour { created = 1 })

abbrev two_threads : Harbour
two_threads = put 1 starting (record one_thread { created = 2 })

abbrev second_sails : Harbour
second_sails = put 1 crossing (record two_threads { mutex = some 1 })

second_sails-Reached : Reached 2 second_sails
unfolding new_harbour create_thread vessel_step one_thread ℕ_discrete
second_sails-Reached =
    sails 1 two_threads second_sails
      (creates one_thread two_threads (creates new_harbour one_thread start refl) refl) refl

reached-Progresses_example :
    ((second_sails.completed ≡ 2) × ((v : ℕ) → v < 2 → second_sails.places v ≡ home))
    ⊎ ((h' : Harbour) × OwnStep 2 second_sails h')
    ⊎ AwaitsEilat 2 second_sails
reached-Progresses_example = reached-Progresses 2 second_sails second_sails-Reached

abbrev second_sent : Harbour
second_sent = put 1 sent (record second_sails { legs = update second_sails.legs 1 at_eilat })

second_writes : Step 2 second_sails second_sent
unfolding vessel_step ℕ_discrete
second_writes = vessel_sails 1 refl

Step-works_example : (work 2 second_sent ≡ work 2 second_sails + 1) × (work 2 second_sent ≤ 2 * 6)
Step-works_example = Step-works 2 second_sails second_sent second_sails-Reached second_writes
