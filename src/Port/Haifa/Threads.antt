-- ===== src/Port/Haifa/Threads.antt =====
-- The threads of HaifaPort.c, which alternate in any order: main, which creates the vessels and reads the
-- messages of those that are back, and one thread `Vessel` for each vessel. Vessel `v` has the number
-- `v + 1`.
pub mod Order
pub mod Sails
pub mod Returns
pub mod Progress
pub mod Work
use software_development_pla.Common.{
  ℕ, zero, suc, ◌+◌, ◌==◌, ◌&&◌, ◌≡◌, ltb, if◌then◌else◌, Bool, true, Option, none, some, List, [],
  update,
}
use software_development_pla.Port.Haifa.{Course, goes_on, vessel_message, wake_vessel}

-- A thread is not there yet; has not yet the mutex of the pipe; has it, and crosses the canal; has written
-- its number; waits for its semaphore; has returned.
pub data Place : Type 0 where
  not_created starting crossing sent waiting home : Place

-- No message of the vessel has been written; one has, and is not back yet; main has read it.
pub data Leg : Type 0 where
  at_haifa at_eilat back : Leg

-- `created` threads are there, and `completed` is `completedVessels`.
pub record Harbour : Type 0 where
  pub places : ℕ → Place
  pub legs : ℕ → Leg
  pub semaphores : ℕ → ℕ
  pub mutex : Option ℕ
  pub created : ℕ
  pub completed : ℕ

unfoldable pub new_harbour : Harbour
new_harbour = record {
  places = λ _. not_created;
  legs = λ _. at_haifa;
  semaphores = λ _. 0;
  mutex = none;
  created = 0;
  completed = 0;
}

abbrev pub put : ℕ → Place → Harbour → Harbour
put v p h = record h { places = update h.places v p }

-- The next step of `Vessel`, with `Sails_to_Eilat`; `none` where it waits or has returned. That WriteFile
-- fails is only logged.
unfoldable pub vessel_step : Bool → ℕ → Harbour → Option Harbour
vessel_step written v h = elim (h.places v) [
  | not_created ↦ none
  | starting ↦ elim h.mutex [
    | none ↦ some (put v crossing (record h { mutex = some v }))
    | some _ ↦ none
  ]
  | crossing ↦
      some (put v sent (record h { legs = if written then update h.legs v at_eilat else h.legs }))
  | sent ↦ some (put v waiting (record h { mutex = none }))
  | waiting ↦ elim (h.semaphores v) [
    | zero ↦ none
    | suc k ↦ some (put v home (record h { semaphores = update h.semaphores v k }))
  ]
  | home ↦ none
]

module _ (n : ℕ) where
  -- A round of `createVesselsThreads`.
  unfoldable pub create_thread : Harbour → Option Harbour
  create_thread h =
      if ltb h.created n
      then some (put h.created starting (record h { created = h.created + 1 }))
      else none

  abbrev pub woken : ℕ → Harbour → Course (ℕ → ℕ) → Option Harbour
  woken v h (goes_on semaphores) = some (record h {
    legs = update h.legs v back;
    semaphores = semaphores;
    completed = h.completed + 1;
  })
  woken v h _ = none

  -- A round of `waitForAllVesselsToReturn`, once all threads are created, if Eilat sends vessel `v` back.
  unfoldable pub receive_vessel : ℕ → Harbour → Option Harbour
  receive_vessel v h = elim (h.legs v) [
    | at_haifa ↦ none
    | at_eilat ↦
        if (h.created == n) && ltb h.completed n
        then woken v h (wake_vessel (λ _. none) n (vessel_message [] (v + 1)) h.semaphores)
        else none
    | back ↦ none
  ]

  -- The runs in which every WriteFile and CreateThread succeeds. Eilat may send back any vessel that has
  -- come and that it has not sent back yet, or may never do so.
  pub data Reached : Harbour → Type 0 where
    start : Reached new_harbour
    creates : (h h' : Harbour) → Reached h → create_thread h ≡ some h' → Reached h'
    sails : (v : ℕ) (h h' : Harbour) → Reached h → vessel_step true v h ≡ some h' → Reached h'
    returns : (v : ℕ) (h h' : Harbour) → Reached h → receive_vessel v h ≡ some h' → Reached h'
