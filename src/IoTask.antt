-- ===== src/IoTask.antt =====
-- comsrv/src/iotask.rs: the task that owns a handler and answers requests to it, one after the
-- other. The handler is a function on a state of its own, and `none` where it panics; a request that
-- waits for its answer has a number.
pub mod Laws
use comsrv.Base.{
  ℕ, ◌+◌, ◌-◌, ◌≡◌, Bool, true, false, List, [], ◌∷◌, ◌++◌, Option, none, some, ◌==◌, if◌then◌else◌,
}
use comsrv.Protocol.Error.{Result, ok, err, internal_error}

-- `task req answer`, and the message that ends the task.
pub data RequestMsg (R : Type 0) : Type 0 where
  task : R → (answer : Option ℕ) → RequestMsg R
  drop : RequestMsg R

-- The task with its channel: `handles` counts the `IoTask`s, and `answers` has what was answered, in
-- order. The task itself holds two senders of its channel, in `copy_tx` and in `ctx`.
pub record Actor (H R P : Type 0) : Type 0 where
  pub handler : H
  pub queue : List (RequestMsg R)
  pub handles : ℕ
  pub running : Bool
  pub answers : List (ℕ × Result P)

abbrev pub own_senders : ℕ
own_senders = 2

unfoldable pub answered :
    {P : Type 0} → Option ℕ → Result P → List (ℕ × Result P) → List (ℕ × Result P)
answered none ret answers = answers
answered (some id) ret answers = answers ++ ((id, ret) ∷ [])

module _ {H R P : Type 0} where
  unfoldable pub new : H → Actor H R P
  new handler = record { handler = handler; queue = []; handles = 1; running = true; answers = [] }

  -- `UnboundedSender::send`, which fails once the receiver is gone.
  unfoldable pub post : RequestMsg R → Actor H R P → Actor H R P
  post msg a = if a.running then record a { queue = a.queue ++ (msg ∷ []) } else a

  unfoldable pub request : ℕ → R → Actor H R P → Actor H R P
  unfolding post
  request id req a =
      if a.running
      then post (task req (some id)) a
      else record a { answers = a.answers ++ ((id, err internal_error) ∷ []) }

  -- `IoContext::send`
  unfoldable pub send_self : R → Actor H R P → Actor H R P
  unfolding post
  send_self req a = post (task req none) a

  unfoldable pub disconnect : Actor H R P → Actor H R P
  unfolding post
  disconnect a = post drop a

  unfoldable pub clone_handle : Actor H R P → Actor H R P
  clone_handle a = record a { handles = a.handles + 1 }

  unfoldable pub drop_handle : Actor H R P → Actor H R P
  drop_handle a = record a { handles = a.handles - 1 }

  unfoldable pub handled : Option ℕ → Option (Result P × H) → Actor H R P → Actor H R P
  unfolding answered
  handled answer none a = record a { running = false }
  handled answer (some (ret, handler)) a = record a {
    handler = handler;
    answers = answered answer ret a.answers;
  }

  -- `wait_for_closed` returns.
  abbrev pub IsClosed : Actor H R P → Type 0
  IsClosed a = a.running ≡ false

module _ {H R P : Type 0} (handle : R → H → Option (Result P × H)) where
  unfoldable pub receive : List (RequestMsg R) → Actor H R P → Actor H R P
  unfolding handled
  receive [] a = if a.handles + own_senders == 0 then record a { running = false } else a
  receive (task req answer ∷ queue) a =
      handled answer (handle req a.handler) (record a { queue = queue })
  receive (drop ∷ queue) a = record a { queue = queue; running = false }

  -- One round of the loop.
  unfoldable pub round : Actor H R P → Actor H R P
  unfolding receive
  round a = if a.running then receive a.queue a else a

  -- What happens to the task of an instrument. The message `drop` is sent by `disconnect` only,
  -- which nothing calls.
  pub data Step : Actor H R P → Actor H R P → Type 0 where
    requests : (id : ℕ) (req : R) (a : Actor H R P) → Step a (request id req a)
    sends_self : (req : R) (a : Actor H R P) → Step a (send_self req a)
    clones : (a : Actor H R P) → Step a (clone_handle a)
    drops : (a : Actor H R P) → Step a (drop_handle a)
    rounds : (a : Actor H R P) → Step a (round a)

  pub data Reachable (h : H) : Actor H R P → Type 0 where
    start : Reachable h (new h)
    step : (a b : Actor H R P) → Reachable h a → Step a b → Reachable h b
