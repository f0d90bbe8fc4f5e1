-- ===== src/Operation/Charge.antt =====
-- crates/smb/src/runtime/operation.rs: the credits that an operation costs.
use smb_rs.Prelude.{ℕ, ◌-◌, ◌*◌, ◌≤◌, ◌<◌, ◌≡◌, ◌↔◌, max, true, ok, u16_max, arith}
use smb_rs.Operation.{TypedOperation, is_charged, credit_bytes, credit_charge}

-- The bytes that the credits are to cover.
abbrev pub covered_bytes : TypedOperation → ℕ
covered_bytes op = max op.outgoing.req_payload_size op.outgoing.expected_resp_size

module _ (op : TypedOperation) (charged : is_charged op.response.command ≡ true) where
  -- Under large MTU, an operation with a payload costs exactly the least positive number of credits
  -- of 65536 bytes that covers the larger of its request and the response that it expects, if that
  -- number fits the header's 16 bits.
  pub credit_charge_iff :
      (units : ℕ)
      → (credit_charge op true ≡ ok units) ↔ (
          (1 ≤ units)
          × (units ≤ u16_max)
          × (covered_bytes op ≤ units * credit_bytes)
          × ((units - 1) * credit_bytes < max 1 (covered_bytes op)))
  unfolding credit_charge
  credit_charge_iff units = (λ h. ground (arith, h, charged), λ h. ground (arith, h, charged))
