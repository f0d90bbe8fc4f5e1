-- ===== src/Operation.antt =====
-- crates/smb/src/runtime/operation.rs: what an operation asks of its response, how it may be replayed,
-- and the credits that it costs. A status is its 32-bit code; what the message descriptions say of a
-- request, its command and its two sizes, stands in the request.
pub mod Charge
use smb_rs.Prelude.{
  ℕ, ◌+◌, ◌-◌, ◌/◌, max, Bool, true, false, not, Option, none, some, List, [], ◌∷◌, if◌then◌else◌,
  ltb, ◌==◌, ◌||◌, Result, ok, err, length, u16_max,
}
use smb_rs.Objects.Data.{ObjectToken}

pub data Command : Type 0 where
  negotiate session_setup logoff tree_connect tree_disconnect create close flush read : Command
  write lock ioctl cancel echo query_directory change_notify query_info set_info : Command
  oplock_break server_to_client_notification : Command

abbrev pub wire_value : Command → ℕ
wire_value negotiate = 0
wire_value session_setup = 1
wire_value logoff = 2
wire_value tree_connect = 3
wire_value tree_disconnect = 4
wire_value create = 5
wire_value close = 6
wire_value flush = 7
wire_value read = 8
wire_value write = 9
wire_value lock = 10
wire_value ioctl = 11
wire_value cancel = 12
wire_value echo = 13
wire_value query_directory = 14
wire_value change_notify = 15
wire_value query_info = 16
wire_value set_info = 17
wire_value oplock_break = 18
wire_value server_to_client_notification = 19

-- The derived `==`.
abbrev pub command_eq : Command → Command → Bool
command_eq a b = wire_value a == wire_value b

pub data ReplayPolicy : Type 0 where
  never_replay replay_if_uncommitted idempotent_replay durable_reconnect_only : ReplayPolicy

pub data RecoveryDecision : Type 0 where
  fail_without_replay replay durable_reconnect outcome_unknown : RecoveryDecision

unfoldable pub decide : ReplayPolicy → (wire_committed durable_resource : Bool) → RecoveryDecision
decide never_replay wire_committed durable_resource =
    if wire_committed then outcome_unknown else fail_without_replay
decide replay_if_uncommitted wire_committed durable_resource =
    if wire_committed then outcome_unknown else replay
decide idempotent_replay wire_committed durable_resource = replay
decide durable_reconnect_only wire_committed durable_resource =
    if durable_resource
    then durable_reconnect
    else if wire_committed
    then outcome_unknown
    else fail_without_replay

pub data AcceptedStatuses : Type 0 where
  any_status : AcceptedStatuses
  one_of_statuses : List ℕ → AcceptedStatuses

pub record ResponsePolicy : Type 0 where
  pub command : Command
  pub statuses : AcceptedStatuses

pub data OperationContractError : Type 0 where
  command_mismatch : (expected actual : Command) → OperationContractError
  unexpected_status : Command → (status : ℕ) → OperationContractError
  empty_status_policy credit_charge_overflow : Command → OperationContractError

unfoldable pub one_of : Command → List ℕ → Result OperationContractError ResponsePolicy
one_of command [] = err (empty_status_policy command)
one_of command (s ∷ statuses) =
    ok (record { command = command; statuses = one_of_statuses (s ∷ statuses) })

unfoldable pub any : Command → ResponsePolicy
any command = record { command = command; statuses = any_status }

unfoldable pub contains : List ℕ → ℕ → Bool
contains [] status = false
contains (s ∷ statuses) status = s == status || contains statuses status

-- `none` is a code that the enumeration does not name.
unfoldable pub accepts_wire_status : ResponsePolicy → Option ℕ → Bool
accepts_wire_status p status = elim p.statuses [
  | any_status ↦ true
  | one_of_statuses statuses ↦ elim status [ none ↦ false | some code ↦ contains statuses code ]
]

pub record CommandRequest : Type 0 where
  pub associated_cmd : Command
  pub req_payload_size : ℕ
  pub expected_resp_size : ℕ
  pub additional_data : Option (List ℕ)

pub record TypedOperation : Type 0 where
  pub response : ResponsePolicy
  pub outgoing : CommandRequest
  pub dependency : Option ObjectToken
  pub replay_policy : ReplayPolicy

unfoldable pub new : CommandRequest → ResponsePolicy → Result OperationContractError TypedOperation
new outgoing response =
    if not (command_eq outgoing.associated_cmd response.command)
    then err (command_mismatch response.command outgoing.associated_cmd)
    else ok (record {
      response = response;
      outgoing = outgoing;
      dependency = none;
      replay_policy = never_replay;
    })

unfoldable pub payload_bytes : TypedOperation → ℕ
payload_bytes op = elim op.outgoing.additional_data [ none ↦ 0 | some payload ↦ length payload ]

abbrev pub credit_bytes : ℕ
credit_bytes = 65536

abbrev pub is_charged : Command → Bool
is_charged read = true
is_charged write = true
is_charged ioctl = true
is_charged query_directory = true
is_charged _ = false

unfoldable pub credit_charge : TypedOperation → (large_mtu : Bool) → Result OperationContractError ℕ
credit_charge op large_mtu =
    let request = op.outgoing.req_payload_size in
    let response = op.outgoing.expected_resp_size in
    let units = 1 + (max request response - 1) / credit_bytes in
    if not large_mtu
    then ok 1
    else if not (is_charged op.response.command)
    then ok 1
    else if ltb u16_max units
    then err (credit_charge_overflow op.response.command)
    else ok units

unfoldable pub validate_response :
    TypedOperation → Command → (status : ℕ) → Result OperationContractError (Unit {0})
validate_response op command status =
    if not (command_eq command op.response.command)
    then err (command_mismatch op.response.command command)
    else if not (accepts_wire_status op.response (some status))
    then err (unexpected_status command status)
    else ok tt
