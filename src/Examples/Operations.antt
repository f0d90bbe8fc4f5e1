-- ===== src/Examples/Operations.antt =====
-- A read of 131072 bytes, for the theorems on crates/smb/src/runtime/operation.rs.
use smb_rs.Prelude.{◌-◌, ◌*◌, ◌≤◌, ◌<◌, ◌≡◌, ◌↔◌, refl, max, true, none, ok, u16_max}
use smb_rs.Operation.{
  Command, TypedOperation, any_status, never_replay, credit_bytes, credit_charge,
}
use smb_rs.Operation.Charge.{covered_bytes, credit_charge_iff}

abbrev big_read : TypedOperation
big_read = record {
  response = record { command = Command.read; statuses = any_status };
  outgoing = record {
    associated_cmd = Command.read;
    req_payload_size = 0;
    expected_resp_size = 131072;
    additional_data = none;
  };
  dependency = none;
  replay_policy = never_replay;
}

big_read_charge : credit_charge big_read true ≡ ok 2
unfolding credit_charge
big_read_charge = refl

credit_charge_iff_example : (credit_charge big_read true ≡ ok 2) ↔ (
    (1 ≤ 2)
    × (2 ≤ u16_max)
    × (covered_bytes big_read ≤ 2 * credit_bytes)
    × ((2 - 1) * credit_bytes < max 1 (covered_bytes big_read)))
credit_charge_iff_example = credit_charge_iff big_read refl 2
