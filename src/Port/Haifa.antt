-- ===== src/Port/Haifa.antt =====
-- HaifaPort.c, and what EilatPort.c does with the pipes: the check of the number of vessels, and the
-- ships' numbers that go there and back. A message is the 50 bytes that one call of WriteFile writes, or
-- its beginning; the calls that may fail are arguments.
pub mod Voyage
pub mod Permission
pub mod Threads
mod Tests
use software_development_pla.Common.{
  ℕ, zero, suc, ◌+◌, leb, ltb, ◌==◌, if◌then◌else◌, Bool, true, false, ◌&&◌, Option, none, some,
  List, [], ◌∷◌, ◌++◌, ℤ, pos, negsuc, atoi, decimal, update,
}
use software_development_pla.Port.Numbers.{is_prime}

abbrev pub min_vessels : ℕ
min_vessels = 2

abbrev pub max_vessels : ℕ
max_vessels = 50

abbrev pub vessel_id_error : ℕ
vessel_id_error = 2

abbrev pub num_vessels_error : ℕ
num_vessels_error = 3

abbrev pub process_creation_error : ℕ
process_creation_error = 6

abbrev pub pipe_usage_error : ℕ
pipe_usage_error = 7

abbrev pub unknown_answer_code_error : ℕ
unknown_answer_code_error = 8

abbrev pub vessels_not_allowed : List ℕ
vessels_not_allowed = b'N' ∷ []

abbrev pub vessels_allowed : List ℕ
vessels_allowed = b'Y' ∷ []

-- What a process does next: it goes on with a value, ends in `exit` with a code, or uses an index that
-- is outside of an array.
pub data Course {ℓ} (A : Type ℓ) : Type ℓ where
  goes_on : A → Course A
  exits : ℕ → Course A
  fault : Course A

abbrev pub and_then {ℓ κ} : {A : Type ℓ} {B : Type κ} → Course A → (A → Course B) → Course B
and_then (goes_on a) next = next a
and_then (exits code) next = exits code
and_then fault next = fault

-- The number of vessels, from the arguments of the program.
unfoldable pub read_arguments : List (List ℕ) → Course ℕ
read_arguments (arg ∷ []) = elim (atoi arg) [
  | pos n ↦ if leb min_vessels n && leb n max_vessels then goes_on n else exits 0
  | negsuc _ ↦ exits 0
]
read_arguments _ = exits 1

-- The names that the executable of Eilat may have.
pub data Program : Type 0 where
  eilat_port eilat eilat_src : Program

-- The loop, with `n` trials left; `starts` says which programs CreateProcess can start.
unfoldable pub create_eilat_from : (Program → Bool) → ℕ → ℕ → Program → Course Program
create_eilat_from starts zero number_of_tries name = exits process_creation_error
create_eilat_from starts (suc n) number_of_tries name =
    let rest =
      create_eilat_from starts n (number_of_tries + 1)
        (if number_of_tries + 1 == 1 then eilat else eilat_src) in
    if starts name then goes_on name else rest

unfoldable pub create_eilat : (Program → Bool) → Course Program
create_eilat starts = create_eilat_from starts 3 0 eilat_port

-- `strcmp(buffer, text) == 0`, for a text without a NUL.
unfoldable pub is_text : List ℕ → List ℕ → Bool
is_text [] [] = true
is_text [] (c ∷ cs) = c == 0
is_text (t ∷ text) [] = false
is_text (t ∷ text) (c ∷ cs) = let rest = is_text text cs in if t == c then rest else false

-- The answer of Eilat, `none` where it cannot be read.
unfoldable pub read_answer : Option (List ℕ) → Course (Unit {0})
read_answer none = exits pipe_usage_error
read_answer (some buffer) =
    if is_text vessels_not_allowed buffer
    then exits num_vessels_error
    else if is_text vessels_allowed buffer
    then goes_on tt
    else exits unknown_answer_code_error

-- The request, `none` where it could not be written, and the answer.
unfoldable pub ask_eilat : Bool → Option (List ℕ) → Course (Unit {0})
ask_eilat written answer = if written then read_answer answer else exits pipe_usage_error

-- At Eilat: the answer, and whether Eilat goes on.
unfoldable pub check_num_of_vessels : ℕ → List ℕ × Course (Unit {0})
check_num_of_vessels n =
    if is_prime n
    then (vessels_not_allowed, exits num_vessels_error)
    else (vessels_allowed, goes_on tt)

-- Eilat reads a request; a negative number does not occur.
unfoldable pub answer_request : List ℕ → Option (List ℕ)
answer_request request = elim (atoi request) [
  | pos n ↦ some ((check_num_of_vessels n).0)
  | negsuc _ ↦ none
]

-- Haifa up to the start of its vessels, where all calls succeed but those of CreateProcess. `arg` is
-- the argument of the program as it stands in the memory, and `garbage` what follows the answer in its
-- buffer.
unfoldable pub ask_permission : (Program → Bool) → List ℕ → List ℕ → Course (Unit {0})
ask_permission starts arg garbage =
    and_then (read_arguments (arg ∷ [])) (λ _.
      and_then (create_eilat starts) (λ _. ask_eilat true (with_garbage (answer_request arg))))
  where
    with_garbage : Option (List ℕ) → Option (List ℕ)
    with_garbage none = none
    with_garbage (some answer) = some (answer ++ (0 ∷ garbage))

-- What `Sails_to_Eilat` and `sailBackToHaifa` write for a vessel; `garbage` is what the rest of the
-- buffer holds.
unfoldable pub vessel_message : List ℕ → ℕ → List ℕ
vessel_message garbage id = decimal id ++ (0 ∷ garbage)

-- `ReleaseSemaphore`, of at most one; that it fails is only logged.
unfoldable pub release_semaphore : (ℕ → ℕ) → ℕ → ℕ → ℕ
release_semaphore semaphores i = if semaphores i == 0 then update semaphores i 1 else semaphores

-- `read k` is what call `k` of ReadFile gets, `none` where it fails.
module _ (read : ℕ → Option (List ℕ)) (num_of_vessels : ℕ) where
  -- At Haifa: the vessel of a message is back.
  unfoldable pub wake_vessel : List ℕ → (ℕ → ℕ) → Course (ℕ → ℕ)
  wake_vessel buffer semaphores = elim (atoi buffer) [
    | pos id ↦ elim id [
      | zero ↦ exits vessel_id_error
      | suc i ↦ if ltb i num_of_vessels then goes_on (release_semaphore semaphores i) else fault
    ]
    | negsuc _ ↦ fault
  ]

  -- The loop, with `n` vessels that are still away.
  unfoldable pub wait_for_vessels : ℕ → ℕ → (ℕ → ℕ) → Course (ℕ → ℕ)
  wait_for_vessels zero k semaphores = goes_on semaphores
  wait_for_vessels (suc n) k semaphores = elim (read k) [
    | none ↦ exits pipe_usage_error
    | some buffer ↦ and_then (wake_vessel buffer semaphores) (wait_for_vessels n (k + 1))
  ]

  -- The semaphores of the vessels are down at first.
  unfoldable pub wait_for_all_vessels_to_return : Course (ℕ → ℕ)
  wait_for_all_vessels_to_return = wait_for_vessels num_of_vessels 0 (λ _. 0)

  -- At Eilat: the vessel of a message gets a thread, which knows its number.
  unfoldable pub create_vessel : List ℕ → (ℕ → Option ℕ) → Course (ℕ → Option ℕ)
  create_vessel buffer threads = elim (atoi buffer) [
    | pos id ↦ elim id [
      | zero ↦ fault
      | suc i ↦ if ltb i num_of_vessels then goes_on (update threads i (some (suc i))) else fault
    ]
    | negsuc _ ↦ fault
  ]

  unfoldable pub receive_vessels : ℕ → ℕ → (ℕ → Option ℕ) → Course (ℕ → Option ℕ)
  receive_vessels zero k threads = goes_on threads
  receive_vessels (suc n) k threads = elim (read k) [
    | none ↦ exits pipe_usage_error
    | some buffer ↦ and_then (create_vessel buffer threads) (receive_vessels n (k + 1))
  ]

  unfoldable pub receive_vessels_from_haifa : Course (ℕ → Option ℕ)
  receive_vessels_from_haifa = receive_vessels num_of_vessels 0 (λ _. none)
