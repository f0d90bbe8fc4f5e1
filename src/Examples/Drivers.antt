-- ===== src/Examples/Drivers.antt =====
-- A connection whose loss is recovered at the second attempt while a caller waits, for the theorems on
-- crates/smb/src/runtime/recovery_driver.rs.
use smb_rs.Prelude.{
  if◌then◌else◌, ltb, ℕ, ◌≡◌, refl, true, false, none, some, [], ◌∷◌, ok, arith, get,
}
use smb_rs.Reducer.{checked_next}
use smb_rs.Objects.Data.{ObjectToken}
use smb_rs.Objects.Queue
use smb_rs.Recovery.{RecoveryPolicy, reduce}
use smb_rs.Driver.{RecoveryAdmissions, begin_recovery, finish_recovery}
use smb_rs.Driver.Attempts.{
  RecoveryDriver, Environment, candidate, bootstrap_failed, admits, new, interfere_all,
  reduce_coordinator, recover,
}
use smb_rs.Driver.Waiting.{IsConsistent, finish_recovery_lem}
use smb_rs.Driver.Loop.{Recovered}
use smb_rs.Driver.Outcome.{Begins, recover-Recovered}

abbrev connection : ObjectToken
connection = record { generation = 1; id = 0; epoch = 0 }

abbrev replacement : ObjectToken
replacement = record { generation = 2; id = 0; epoch = 0 }

abbrev policy : RecoveryPolicy
policy = record {
  max_attempts = 2;
  attempt_timeout = 10;
  total_timeout = 100;
  initial_backoff = 5;
  maximum_backoff = 20;
  maximum_jitter = 0;
  max_waiting_operations = 1;
}

-- The first attempt fails at turn 1, the second succeeds at turn 3. Channels are numbers.
abbrev env : Environment ℕ
env = record {
  starting = [];
  during = λ turn. admits 0 connection none turn ∷ [];
  after = λ turn. [];
  settling = [];
  now = λ turn. 50;
  bootstrap = λ turn. if ltb 1 turn then candidate replacement else bootstrap_failed;
  jitter = λ attempt. 0;
}

abbrev driver : RecoveryDriver ℕ
driver = new connection policy

driver-IsConsistent : IsConsistent driver.admissions
unfolding new Queue.new get
driver-IsConsistent = record {
  paired = refl;
  distinct = tt;
  used = tt;
  on_active = tt;
  idle = λ e. refl;
}

driver-Begins : Begins env 1 2 0 driver
unfolding new checked_next interfere_all reduce_coordinator reduce begin_recovery
driver-Begins = record {
  open_still = refl;
  next_one = refl;
  was_connected = refl;
  consistent = driver-IsConsistent;
  accepted = refl;
}

recover-Recovered_example :
    Recovered driver.published 2 (recover env 7 1 true 0 driver).0 (recover env 7 1 true 0 driver).1
unfolding new
recover-Recovered_example = recover-Recovered env 1 2 0 driver driver-Begins

-- Two callers wait on the channels 7 and 8.
abbrev two_waiting : RecoveryAdmissions ℕ
two_waiting = record {
  active_connection = connection;
  recovering = true;
  queue = record {
    capacity = 4;
    next_id = some 2;
    waits =
        record { id = 0; dependency = connection; deadline = some 9 }
        ∷ record { id = 1; dependency = connection; deadline = some 5 }
        ∷ [];
  };
  completions = (0, 7) ∷ (1, 8) ∷ [];
}

two_waiting-IsConsistent : IsConsistent two_waiting
unfolding get
two_waiting-IsConsistent = record {
  paired = refl;
  distinct = (refl, (refl, tt));
  used = omega arith;
  on_active = (refl, (refl, tt));
  idle = λ e. absurd (cc e);
}

finish_recovery_lem_example : finish_recovery replacement two_waiting ≡ (
  record {
    active_connection = replacement;
    recovering = false;
    queue = record { capacity = 4; next_id = some 2; waits = [] };
    completions = [];
  },
  (7, ok replacement) ∷ (8, ok replacement) ∷ [],
)
finish_recovery_lem_example = finish_recovery_lem two_waiting replacement two_waiting-IsConsistent
