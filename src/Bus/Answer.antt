-- ===== src/Bus/Answer.antt =====
-- The status with which the exchanges of src/controllers/bus.c end.
use wolf_cpuemulator.Common.{ℕ, zero, suc, ◌≤◌, ◌<◌, ◌≡◌, ◌≢◌}
use wolf_cpuemulator.Common.{Option, List, [], ◌∷◌, length}
use wolf_cpuemulator.Cpu.Port.{BusSendData}
use wolf_cpuemulator.Bus.{
  World, Step, Schedule, run_steps, set_status, request, signalled, max_bus_device,
  bus_status_pending, bus_status_timeout, bus_rw_write,
}

abbrev pub status_of : {D : Type 0} → World D → ℕ
status_of w = w.0.data_cmd_collection.status

module _ {D : Type 0} where
  -- The state after the first `k` of the steps
  unfoldable pub run_first : ℕ → List (Step D) → World (Option D) → World (Option D)
  run_first zero steps w = w
  run_first (suc k) [] w = w
  run_first (suc k) (step ∷ steps) w = run_first k steps (step w)

  -- The bus answers after `k` steps, and not before.
  pub record AnswersAt (steps : List (Step D)) (w : World (Option D)) (k : ℕ) : Type 0 where
    pub in_time : k ≤ length steps
    pub answered : status_of (run_first k steps w) ≢ bus_status_pending
    pub not_before : (j : ℕ) → j < k → status_of (run_first j steps w) ≡ bus_status_pending

  -- No step brings an answer.
  abbrev pub NoAnswer : List (Step D) → World (Option D) → Type 0
  NoAnswer steps w =
      (j : ℕ) → j ≤ length steps → status_of (run_first j steps w) ≡ bus_status_pending

  abbrev pub timed_out : World (Option D) → World (Option D)
  timed_out w = (set_status (w.0) bus_status_timeout, w.1)

  module _ (threads : Option ℕ → Schedule D) (addr : ℕ) (data' : BusSendData)
      (w : World (Option D)) where
    -- What the threads do after a write to an address, and the state in which the wait begins
    abbrev pub schedule_for : Schedule D
    schedule_for = threads (signalled (w.0.devices) addr 0 max_bus_device)

    abbrev pub asked : World (Option D)
    asked = run_steps schedule_for.before (request (w.0) addr data' bus_rw_write, w.1)
