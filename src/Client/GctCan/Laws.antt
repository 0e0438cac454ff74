-- ===== src/Client/GctCan/Laws.antt =====
-- Requests to a GCT device against what arrives on a subscription.
use comsrv.Base.{
  ℕ, zero, suc, ◌+◌, ◌%◌, ◌<◌, ◌≤◌, ◌≡◌, ◌⊎◌, inl, inr, refl, Bool, true, false, List, [], ◌∷◌,
  ◌++◌, Option, none, some, length, get_or, set, replicate, All, ltb, ◌==◌, arith, Bool-cases, ◌≢◌,
  ==_self, ap, subst, sym,
}
use comsrv.Protocol.Can.{
  CanInstrument, CanAddress, DataFrame, data_frame, GctMessage, sys_ctrl, value, query, neither,
  validate, monitoring_data, monitoring_request, ddp, heartbeat, remote_frame, started, stopped,
  CanResponse, returns,
}
use comsrv.Gct.Encode.{encode}
use comsrv.Gct.Decoder.{Decoder, decode}
use comsrv.Gct.Decoder.SysCtrl.{encode_sysctrl}
use comsrv.Protocol.Error.{ok}
use comsrv.Client.{ClientError, Reply, Request, Response, Call}
use comsrv.Client.Can.{gct, message_of, filtered, prepend, subscribe, send}
use comsrv.Client.GctCan.{
  MonitorValue, Wait, finished, waits, contains, request_bits, monitor_filter, fills, collect,
  after_send, in_time, monitor_request_no_timeout, sysctrl_write_read_no_timeout, sysctrl_filter,
  first_value, monitor_with, monitor_request, sysctrl_write_read,
}

get-set : {B : Type 0} (xs : List B) (i : ℕ) (v d : B) → i < length xs → get_or (set xs i v) i d ≡ v
get-set [] i v d h = absurd (omega arith)
get-set (x ∷ xs) zero v d h = refl
get-set (x ∷ xs) (suc i) v d h = get-set xs i v d (omega arith)

length-set : {B : Type 0} (xs : List B) (i : ℕ) (v : B) → length (set xs i v) ≡ length xs
length-set [] i v = refl
length-set (x ∷ xs) zero v = refl
length-set (x ∷ xs) (suc i) v = ap suc (length-set xs i v)

get_replicate : {B : Type 0} (n i : ℕ) (b : B) → get_or (replicate n b) i b ≡ b
get_replicate zero i b = refl
get_replicate (suc n) zero b = refl
get_replicate (suc n) (suc i) b = get_replicate n i b

-- All readings are the same one.
abbrev pub Same : ℕ → List ℕ → Type 0
Same r readings = All (λ x. x ≡ r) readings

contains-Same : (r x : ℕ) (readings : List ℕ) → Same r readings → contains x readings ≡ true → x ≡ r
unfolding contains
contains-Same r x [] same h = absurd (ground arith)
contains-Same r x (y ∷ ys) (e, same) h = elim (Bool-cases (y == x)) [
  | inl t ↦ ground arith
  | inr t ↦ contains-Same r x ys same (rw t at h)
]

collect-none :
    (ret : List (Option MonitorValue)) (filled : ℕ) (values : List MonitorValue)
    → collect [] false ret filled values ≡ waits
unfolding collect contains
collect-none ret filled [] = refl
collect-none ret filled (v ∷ values) = collect-none ret filled values

collect-Same :
    (r : ℕ) (readings : List ℕ) (ret : List (Option MonitorValue)) (filled : ℕ)
    (values : List MonitorValue)
    → Same r readings
    → 2 ≤ length readings
    → r < length ret
    → filled + fills (get_or ret r none) ≡ 1
    → collect readings false ret filled values ≡ waits
unfolding collect fills
collect-Same r readings ret filled [] same two lt one = refl
collect-Same r readings ret filled (v ∷ values) same two lt one =
    elim (Bool-cases (contains v.index.reading_index readings)) [
      | inl c ↦
          let idx = v.index.reading_index in
          let ret' = set ret idx (some v) in
          let e : idx ≡ r = contains-Same r idx readings same c in
          let one' = subst (λ (x : ℕ). filled + fills (get_or ret x none) ≡ 1) (sym e) one in
          let kept =
            subst (λ (x : ℕ). get_or ret' x none ≡ some v) e
              (get-set ret idx (some v) none (omega arith)) in
          let more : (1 == length readings) ≡ false = ground arith in
          let ih =
            collect-Same r readings ret' 1 values same two
              (omega (arith, length-set ret idx (some v))) (rw kept refl) in
          rw (c, one', more) ih
      | inr c ↦ rw c (collect-Same r readings ret filled values same two lt one)
    ]

bits_fit :
    (request : ℕ) (readings : List ℕ) (bits : ℕ) (r : ℕ)
    → Same r readings
    → 1 ≤ length readings
    → request_bits request readings ≡ Reply.ok bits
    → r < 64
unfolding request_bits
bits_fit request [] bits r same h e = absurd (omega arith)
bits_fit request (x ∷ readings) bits r (s, same) h e = ground arith

-- The response is no value of this command from this device.
abbrev pub IsOther : (destination cmd : ℕ) → Response → Type 0
IsOther destination cmd r =
    (source : CanAddress) (to : ℕ) (reply : List ℕ)
    → r ≢ Response.can source (CanResponse.gct (sys_ctrl destination to cmd value reply))

filtered_other :
    (destination cmd : ℕ) (r : Response)
    → IsOther destination cmd r
    → filtered (sysctrl_filter destination cmd) (message_of r) ≡ none
unfolding filtered message_of sysctrl_filter
filtered_other d c (Response.can source (CanResponse.gct (sys_ctrl src dst cmd value bytes)))
      other =
    elim (Bool-cases (src == d)) [
      | inl e ↦ elim (Bool-cases (cmd == c)) [
        | inl e' ↦ absurd (
            other source dst bytes
              (let from_it : src ≡ d = ground arith in let same_cmd : cmd ≡ c = ground arith in cc))
        | inr e' ↦ rw (e, e') refl
      ]
      | inr e ↦ rw e refl
    ]
filtered_other d c (Response.can source (CanResponse.gct (sys_ctrl src dst cmd query bytes))) o =
    refl
filtered_other d c (Response.can source (CanResponse.gct (sys_ctrl src dst cmd neither bytes))) o =
    refl
filtered_other d c (Response.can source (CanResponse.gct (monitoring_data src g r bytes))) o = refl
filtered_other d c (Response.can source (CanResponse.gct (monitoring_request src dst g rs))) o =
    refl
filtered_other d c (Response.can source (CanResponse.gct (ddp src dst bytes version))) o = refl
filtered_other d c (Response.can source (CanResponse.gct (heartbeat src product_id))) o = refl
filtered_other d c (Response.can source (CanResponse.raw (data_frame f))) o = refl
filtered_other d c (Response.can source (CanResponse.raw (remote_frame f))) o = refl
filtered_other d c (Response.can source CanResponse.done) o = refl
filtered_other d c (Response.can source started) o = refl
filtered_other d c (Response.can source stopped) o = refl
filtered_other d c (Response.error e) o = refl
filtered_other d c (Response.bytes x) o = refl
filtered_other d c (Response.locked lock_id) o = refl
filtered_other d c Response.done o = refl

subscribe-other :
    (destination cmd : ℕ) (before after : List Response)
    → All (IsOther destination cmd) before
    → subscribe (sysctrl_filter destination cmd) (before ++ after)
      ≡ subscribe (sysctrl_filter destination cmd) after
unfolding subscribe prepend
subscribe-other d c [] after h = refl
subscribe-other d c (x ∷ before) after (o, h) =
    rw (filtered_other d c x o) (subscribe-other d c before after h)

found :
    (cmd destination to : ℕ) (reply : List ℕ) (source : CanAddress) (after : List Response)
    (closed : Bool)
    → first_value closed (
        subscribe
          (sysctrl_filter destination cmd)
          (Response.can source (CanResponse.gct (sys_ctrl destination to cmd value reply)) ∷ after))
      ≡ finished (Reply.ok reply)
unfolding subscribe message_of filtered prepend sysctrl_filter first_value
found cmd destination to reply source after closed =
    ground (arith, ==_self destination, ==_self cmd)

-- A device answers a command from 512 to 1023 with its value. The frame that carries the reply is
-- read as another command, and the subscription of the query does not take it.
pub sysctrl_filter-decode :
    (d : Decoder) (cmd destination controller : ℕ) (reply : List ℕ)
    → 512 ≤ cmd
    → validate (sys_ctrl destination controller cmd value reply) ≡ true
    → (f : DataFrame) × (seen : GctMessage) × (encode
          (sys_ctrl destination controller cmd value reply)
        ≡ ok (data_frame f ∷ []))
      × (decode d (data_frame f) ≡ returns (d, some seen))
      × (sysctrl_filter destination cmd (gct seen) ≡ none)
unfolding sysctrl_filter
sysctrl_filter-decode d cmd destination controller reply big v =
    let (f, carries) = encode_sysctrl d destination controller cmd value reply v in
    let differs : (cmd % 512 == cmd) ≡ false = ground arith in
    (
      f,
      sys_ctrl destination controller (cmd % 512) value reply,
      carries.encoded,
      carries.decoded,
      ground (arith, ==_self destination, differs),
    )

module _ {A S : Type 0} (rpc : Request A → Call S Response) (bus : CanInstrument)
    (controller_node_id : ℕ) where
  monitor_request_no_timeout-waits :
      (destination group bits r : ℕ) (readings : List ℕ) (notifications : List Response) (s s' : S)
      → group ≤ 31
      → request_bits 0 readings ≡ Reply.ok bits
      → send rpc bus
          (gct (GctMessage.monitoring_request controller_node_id destination group bits))
          s
        ≡ (Reply.ok tt, s')
      → (readings ≡ []) ⊎ (Same r readings × (2 ≤ length readings))
      → monitor_request_no_timeout rpc bus controller_node_id destination group readings
          notifications false s
        ≡ (waits, s')
  unfolding monitor_request_no_timeout monitor_with after_send
  monitor_request_no_timeout-waits destination group bits r readings notifications s s' g b sends
        (inl e) =
      let small : ltb 31 group ≡ false = ground arith in
      rw (small, b, sends)
        (rw e (
          ap (λ (w : Wait (List MonitorValue)). (w, s'))
            (collect-none (replicate 64 none) 0
              (subscribe (monitor_filter destination group) notifications))))
  monitor_request_no_timeout-waits destination group bits r readings notifications s s' g b sends
        (inr (same, two)) =
      let small : ltb 31 group ≡ false = ground arith in
      rw (small, b, sends)
        (ap (λ (w : Wait (List MonitorValue)). (w, s'))
          (collect-Same r readings (replicate 64 none) 0
            (subscribe (monitor_filter destination group) notifications) same two
            (bits_fit 0 readings bits r same (omega arith) b)
            (rw (get_replicate {B = Option MonitorValue} 64 r none) refl)))

  -- Let a monitor request for a group of at most 31 and readings below 64 be sent, on a
  -- subscription that stays open. If it is for no reading, or for one reading that is named twice
  -- or more, it never returns without a timeout, and fails with a timeout if it has one, whatever
  -- arrives on the subscription.
  pub monitor_request-timeout :
      (destination group bits r : ℕ) (readings : List ℕ) (notifications : List Response) (s s' : S)
      → group ≤ 31
      → request_bits 0 readings ≡ Reply.ok bits
      → send rpc bus
          (gct (GctMessage.monitoring_request controller_node_id destination group bits))
          s
        ≡ (Reply.ok tt, s')
      → (readings ≡ []) ⊎ (Same r readings × (2 ≤ length readings))
      → (monitor_request_no_timeout rpc bus controller_node_id destination group readings
            notifications false s
          ≡ (waits, s'))
        × (monitor_request rpc bus controller_node_id destination group readings notifications false
              s
            ≡ (Reply.err ClientError.timeout, s'))
  unfolding monitor_request in_time
  monitor_request-timeout destination group bits r readings notifications s s' g b sends which =
      let never =
        monitor_request_no_timeout-waits destination group bits r readings notifications s s' g b
          sends which in
      (never, rw never refl)

  -- A system control query that is sent returns the data of the first value of the same command
  -- from the device that was asked, from any bus, without a timeout and with one that is not over
  -- before. What comes before this value, which is no such value, is passed over, and what comes
  -- after it does not matter.
  pub sysctrl_write_read-reply :
      (cmd destination to : ℕ) (bytes reply : List ℕ) (source : CanAddress)
      (before after : List Response) (closed : Bool) (s s' : S)
      → send rpc bus (gct (sys_ctrl controller_node_id destination cmd query bytes)) s
        ≡ (Reply.ok tt, s')
      → All (IsOther destination cmd) before
      → (sysctrl_write_read_no_timeout rpc bus controller_node_id cmd destination bytes
            (before
              ++ Response.can source (CanResponse.gct (sys_ctrl destination to cmd value reply))
                ∷ after)
            closed
            s
          ≡ (finished (Reply.ok reply), s'))
        × (sysctrl_write_read rpc bus controller_node_id cmd destination bytes
              (before
                ++ Response.can source (CanResponse.gct (sys_ctrl destination to cmd value reply))
                  ∷ after)
              closed
              s
            ≡ (Reply.ok reply, s'))
  unfolding sysctrl_write_read sysctrl_write_read_no_timeout after_send in_time
  sysctrl_write_read-reply cmd destination to bytes reply source before after closed s s' sends
        none_before =
      let replied = found cmd destination to reply source after closed in
      let passed =
        subscribe-other destination cmd before
          (Response.can source (CanResponse.gct (sys_ctrl destination to cmd value reply)) ∷ after)
          none_before in
      (rw (sends, passed, replied) refl, rw (sends, passed, replied) refl)
