-- ===== src/Bus.antt =====
-- src/controllers/bus.c and include/controllers/bus.h: the bus, its devices, and what the CPU's side of
-- an exchange does. While it waits, the threads of the devices run: each step of theirs is a function
-- from the bus and the devices' own state to the same, one for each time that the waiting side is woken.
pub mod Answer
use wolf_cpuemulator.Common.{
  ℕ, zero, suc, ◌+◌, Bool, true, false, ◌==◌, ◌&&◌, ltb, leb, if◌then◌else◌, Option, none, some,
  List, [], ◌∷◌, u32,
}
use wolf_cpuemulator.Endian.{zero_bytes}
use wolf_cpuemulator.Cpu.Port.{Bus, BusSendData}

abbrev pub max_bus_device : ℕ
max_bus_device = 256

abbrev pub bus_status_error : ℕ
bus_status_error = 2

abbrev pub bus_status_pending : ℕ
bus_status_pending = 1

abbrev pub bus_status_success : ℕ
bus_status_success = 0

abbrev pub bus_status_timeout : ℕ
bus_status_timeout = 3

abbrev pub bus_rw_read : ℕ
bus_rw_read = 0

abbrev pub bus_rw_write : ℕ
bus_rw_write = 1

-- WOLF_CPU_BUS_DEVICE, without its names, its thread and its functions
pub record BusDevice : Type 0 where
  pub base_address : ℕ
  pub vendor_id : ℕ
  pub need_space : ℕ
  pub device_base_status : ℕ
  pub irq_number : ℕ

-- WOLF_CPU_BUS_CONTROLLER; `none` is a NULL device.
pub record BusController : Type 0 where
  pub addr : ℕ
  pub data_cmd_collection : BusSendData
  pub devices : ℕ → Option BusDevice

-- The test of the loop over the devices; the sum of an address and a space is a `uint32_t`.
unfoldable pub is_addressed : ℕ → Option BusDevice → Bool
is_addressed addr none = false
is_addressed addr (some d) =
    leb d.base_address addr && ltb addr (u32 (d.base_address + d.need_space))

-- The loop, with `left` devices from number `i` on: the device that is signalled.
unfoldable pub signalled : (ℕ → Option BusDevice) → ℕ → ℕ → ℕ → Option ℕ
unfolding is_addressed
signalled devices addr i zero = none
signalled devices addr i (suc left) =
    let rest = signalled devices addr (i + 1) left in
    if is_addressed addr (devices i) then some i else rest

-- The head of both functions: the request is laid on the bus.
unfoldable pub request : BusController → ℕ → BusSendData → ℕ → BusController
request bus addr data' rw = record bus {
  addr = addr;
  data_cmd_collection = record data' { status = bus_status_pending; read_write = rw };
}

unfoldable pub set_status : BusController → ℕ → BusController
set_status bus stat = record bus {
  data_cmd_collection = record (bus.data_cmd_collection) { status = stat };
}

-- The state of the bus, and that of the devices behind it
abbrev pub World : Type 0 → Type 0
World D = BusController × D

-- The devices are `none` behind what C leaves undefined and behind a wait that never ends.
abbrev pub Step : Type 0 → Type 0
Step D = World (Option D) → World (Option D)

-- What the threads do while `bus_send_data` waits: the steps before it holds the mutex that an answer
-- needs, those while it waits, up to the deadline, and whether that deadline is a time, with nanoseconds
-- below 10 ^ 9
pub record Schedule (D : Type 0) : Type 0 where
  pub before : List (Step D)
  pub during : List (Step D)
  pub is_time : Bool

-- Threads that answer within the wait, if at all, with a deadline that is a time
abbrev pub in_time : {D : Type 0} → (Option ℕ → List (Step D)) → Option ℕ → Schedule D
in_time threads i = record { before = []; during = threads i; is_time = true }

module _ {D : Type 0} where
  unfoldable pub run_steps : List (Step D) → World (Option D) → World (Option D)
  run_steps [] w = w
  run_steps (step ∷ steps) w = run_steps steps (step w)

  -- The wait of `bus_send_data`: it is woken after each step, and looks at the status. If the deadline is
  -- no time, `pthread_cond_timedwait` fails at once and keeps the mutex, without which no thread can
  -- answer: the loop never ends.
  unfoldable pub wait_answer : Bool → List (Step D) → World (Option D) → World (Option D)
  unfolding set_status
  wait_answer is_time [] (bus, devs) =
      if bus.data_cmd_collection.status == bus_status_pending
      then (if is_time then (set_status bus bus_status_timeout, devs) else (bus, none))
      else (bus, devs)
  wait_answer is_time (step ∷ steps) w =
      let rest = wait_answer is_time steps (step w) in
      if w.0.data_cmd_collection.status == bus_status_pending
      then (if is_time then rest else (w.0, none))
      else w

  unfoldable pub bus_send_data :
      (Option ℕ → Schedule D) → ℕ → BusSendData → World (Option D) → ℕ × World (Option D)
  unfolding signalled request wait_answer run_steps
  bus_send_data threads addr data' (bus, devs) =
      let schedule = threads (signalled (bus.devices) addr 0 max_bus_device) in
      let w = run_steps schedule.before (request bus addr data' bus_rw_write, devs) in
      let w' = wait_answer schedule.is_time schedule.during w in
      (w'.0.data_cmd_collection.status, w')

  -- The deadline of the one wait of `bus_recv_data` has passed before it begins: it ends as soon as it has
  -- the mutex again. The steps are those that the threads have made by then, often none.
  unfoldable pub bus_recv_data :
      (Option ℕ → List (Step D))
      → ℕ
      → BusSendData
      → World (Option D)
      → BusSendData × World (Option D)
  unfolding signalled request run_steps set_status
  bus_recv_data threads addr data' (bus, devs) =
      let steps = threads (signalled (bus.devices) addr 0 max_bus_device) in
      let (bus', devs') = run_steps steps (request bus addr data' bus_rw_read, devs) in
      let collection = bus'.data_cmd_collection in
      let answer : BusSendData = record data' {
        bytes = collection.bytes;
        status = collection.status;
        read_write = bus_rw_read;
      } in
      if collection.status == bus_status_pending
      then (
        record answer { status = bus_status_timeout },
        (set_status bus' bus_status_timeout, devs'),
      )
      else (answer, (set_status bus' bus_status_success, devs'))

  -- The two functions as the CPU calls them, with what the threads do in a write and in a read
  unfoldable pub bus_port :
      (Option ℕ → Schedule D) → (Option ℕ → List (Step D)) → Bus (World (Option D))
  unfolding bus_send_data bus_recv_data
  bus_port writes reads = record {
    send_data = bus_send_data writes;
    recv_data = bus_recv_data reads;
  }

-- `init_bus`
unfoldable pub init_bus : BusController
init_bus = record {
  addr = 0;
  data_cmd_collection = record { bytes = zero_bytes; be = 0; status = 0; read_write = 0 };
  devices = λ _. none;
}

unfoldable pub register_device : BusController → BusDevice → ℕ → BusController
register_device bus device position = record bus {
  devices = λ i. if i == position then some device else bus.devices i;
}
