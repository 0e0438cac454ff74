-- ===== src/Client/GctCan.antt =====
-- client/src/gctcan.rs: requests to a GCT device on a CAN bus. A subscription is the list of the
-- notifications, in order, and whether the channel is closed behind them; the send between
-- subscribing and receiving is a call of the server.
pub mod Laws
use comsrv.Base.{
  ℕ, zero, suc, ◌+◌, ◌*◌, ◌%◌, ◌^◌, Bool, true, false, List, [], ◌∷◌, Option, none, some, length,
  get_or, set, replicate, ltb, leb, ◌==◌, ◌&&◌, ◌||◌, if◌then◌else◌, bit_or,
}
use comsrv.Protocol.Can.{
  CanInstrument, GctMessage, sys_ctrl, monitoring_data, monitoring_request, ddp, heartbeat,
  SysCtrlType, value, query, neither,
}
use comsrv.Client.{
  ClientError, other, endpoint_hang_up, Reply, ok, err, Request, Response, Call, and_then, ◌>>=◌,
  lift,
}
use comsrv.Client.Can.{Message, raw_data, raw_remote, gct, send, subscribe}

pub record MonitorIndex : Type 0 where
  pub group_index : ℕ
  pub reading_index : ℕ

-- `bytes` is the field `value`.
pub record MonitorValue : Type 0 where
  pub index : MonitorIndex
  pub bytes : List ℕ

unfoldable pub new_index : ℕ → ℕ → Option MonitorIndex
new_index group_index reading_index =
    if ltb 31 group_index
    then none
    else if ltb 63 reading_index
    then none
    else some (record { group_index = group_index; reading_index = reading_index })

-- `((group_index as u16) << 6) + (reading_index as u16)`
unfoldable pub get_combined : MonitorIndex → ℕ
get_combined i = i.group_index * 2 ^ 6 % 2 ^ 16 + i.reading_index

unfoldable pub new_node_id : ℕ → Option ℕ
new_node_id node_id = if leb 0x7F node_id || (node_id == 0) then none else some node_id

-- A call that never returns waits for its timeout.
pub data Wait (B : Type 0) : Type 0 where
  finished : Reply B → Wait B
  waits : Wait B

unfoldable pub contains : ℕ → List ℕ → Bool
contains x [] = false
contains x (y ∷ ys) = (y == x) || contains x ys

-- `request |= 1_u64 << x`, or the error of an index above 63.
unfoldable pub request_bits : ℕ → List ℕ → Reply ℕ
request_bits request [] = ok request
request_bits request (x ∷ readings) =
    let rest = request_bits (bit_or request (2 ^ x % 2 ^ 64)) readings in
    if ltb 63 x then err other else rest

unfoldable pub monitor_filter : (destination group : ℕ) → Message → Option MonitorValue
monitor_filter destination group (gct (monitoring_data src group_idx reading_idx bytes)) =
    if (src == destination) && (group_idx == group)
    then some (record {
      index = record { group_index = group_idx; reading_index = reading_idx };
      bytes = bytes;
    })
    else none
monitor_filter destination group (gct (sys_ctrl src dst cmd tp bytes)) = none
monitor_filter destination group (gct (monitoring_request src dst g readings)) = none
monitor_filter destination group (gct (ddp src dst bytes version)) = none
monitor_filter destination group (gct (heartbeat src product_id)) = none
monitor_filter destination group (raw_data msg) = none
monitor_filter destination group (raw_remote msg) = none

unfoldable pub flatten : List (Option MonitorValue) → List MonitorValue
flatten [] = []
flatten (none ∷ rest) = flatten rest
flatten (some v ∷ rest) = v ∷ flatten rest

unfoldable pub fills : Option MonitorValue → ℕ
fills none = 1
fills (some v) = 0

-- The loop over the subscription, with `closed` telling what comes after the values.
unfoldable pub collect :
    (readings : List ℕ) (closed : Bool)
    → List (Option MonitorValue)
    → (filled : ℕ) → List MonitorValue
    → Wait (List MonitorValue)
unfolding contains flatten fills
collect readings closed ret filled [] = if closed then finished (ok (flatten ret)) else waits
collect readings closed ret filled (v ∷ values) =
    let idx = v.index.reading_index in
    let filled' = filled + fills (get_or ret idx none) in
    let ret' = set ret idx (some v) in
    let skipped = collect readings closed ret filled values in
    let later = collect readings closed ret' filled' values in
    if contains idx readings
    then (if filled' == length readings then finished (ok (flatten ret')) else later)
    else skipped

unfoldable pub after_send : {S B : Type 0} → Reply (Unit {0}) × S → Wait B → Wait B × S
after_send (ok a, s) w = (w, s)
after_send (err e, s) w = (finished (err e), s)

-- `tokio::time::timeout` around a request.
unfoldable pub in_time : {S B : Type 0} → Wait B × S → Reply B × S
in_time (finished ret, s) = (ret, s)
in_time (waits, s) = (err ClientError.timeout, s)

unfoldable pub sysctrl_filter : (destination ref_cmd : ℕ) → Message → Option (List ℕ)
sysctrl_filter destination ref_cmd (gct (sys_ctrl src dst cmd value bytes)) =
    if (src == destination) && (cmd == ref_cmd) then some bytes else none
sysctrl_filter destination ref_cmd (gct (sys_ctrl src dst cmd query bytes)) = none
sysctrl_filter destination ref_cmd (gct (sys_ctrl src dst cmd neither bytes)) = none
sysctrl_filter destination ref_cmd (gct (monitoring_data src g r bytes)) = none
sysctrl_filter destination ref_cmd (gct (monitoring_request src dst g readings)) = none
sysctrl_filter destination ref_cmd (gct (ddp src dst bytes version)) = none
sysctrl_filter destination ref_cmd (gct (heartbeat src product_id)) = none
sysctrl_filter destination ref_cmd (raw_data msg) = none
sysctrl_filter destination ref_cmd (raw_remote msg) = none

unfoldable pub first_value : Bool → List (List ℕ) → Wait (List ℕ)
first_value closed (x ∷ values) = finished (ok x)
first_value true [] = finished (err endpoint_hang_up)
first_value false [] = waits

module _ {A S : Type 0} (rpc : Request A → Call S Response) (bus : CanInstrument)
    (controller_node_id : ℕ) where
  unfoldable pub monitor_with :
      (destination group : ℕ) (readings : List ℕ) (notifications : List Response) (closed : Bool)
      → Reply ℕ
      → S
      → Wait (List MonitorValue) × S
  unfolding after_send collect monitor_filter
  monitor_with destination group readings notifications closed (err e) s = (finished (err e), s)
  monitor_with destination group readings notifications closed (ok request) s =
      after_send
        (send rpc bus (gct (monitoring_request controller_node_id destination group request)) s)
        (collect readings closed (replicate 64 none) 0
          (subscribe (monitor_filter destination group) notifications))

  unfoldable pub monitor_request_no_timeout :
      (destination group : ℕ) (readings : List ℕ) (notifications : List Response) (closed : Bool)
      → S
      → Wait (List MonitorValue) × S
  unfolding monitor_with request_bits
  monitor_request_no_timeout destination group readings notifications closed s =
      monitor_with destination group readings notifications closed
        (if ltb 31 group then err other else request_bits 0 readings) s

  -- `notifications` are those that come before the time is over.
  unfoldable pub monitor_request :
      (destination group : ℕ) (readings : List ℕ) (notifications : List Response) (closed : Bool)
      → Call S (List MonitorValue)
  unfolding monitor_request_no_timeout in_time
  monitor_request destination group readings notifications closed s =
      in_time (monitor_request_no_timeout destination group readings notifications closed s)

  unfoldable pub sysctrl_write : (cmd destination : ℕ) → List ℕ → Call S (Unit {0})
  sysctrl_write cmd destination bytes =
      send rpc bus (gct (sys_ctrl controller_node_id destination cmd neither bytes))

  unfoldable pub sysctrl_write_read_no_timeout :
      (cmd destination : ℕ) (bytes : List ℕ) (notifications : List Response) (closed : Bool)
      → S
      → Wait (List ℕ) × S
  unfolding after_send first_value sysctrl_filter
  sysctrl_write_read_no_timeout cmd destination bytes notifications closed s =
      after_send (send rpc bus (gct (sys_ctrl controller_node_id destination cmd query bytes)) s)
        (first_value closed (subscribe (sysctrl_filter destination cmd) notifications))

  unfoldable pub sysctrl_read_no_timeout :
      (cmd destination : ℕ) (notifications : List Response) (closed : Bool) → S → Wait (List ℕ) × S
  unfolding sysctrl_write_read_no_timeout
  sysctrl_read_no_timeout cmd destination notifications closed =
      sysctrl_write_read_no_timeout cmd destination [] notifications closed

  unfoldable pub sysctrl_read :
      (cmd destination : ℕ) (notifications : List Response) (closed : Bool) → Call S (List ℕ)
  unfolding sysctrl_read_no_timeout in_time
  sysctrl_read cmd destination notifications closed s =
      in_time (sysctrl_read_no_timeout cmd destination notifications closed s)

  unfoldable pub sysctrl_write_read :
      (cmd destination : ℕ) (bytes : List ℕ) (notifications : List Response) (closed : Bool)
      → Call S (List ℕ)
  unfolding sysctrl_write_read_no_timeout in_time
  sysctrl_write_read cmd destination bytes notifications closed s =
      in_time (sysctrl_write_read_no_timeout cmd destination bytes notifications closed s)
