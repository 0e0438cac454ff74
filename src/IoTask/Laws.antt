-- ===== src/IoTask/Laws.antt =====
-- The task of an instrument: it answers in order, and it does not end.
use comsrv.Base.{
  ℕ, suc, ◌+◌, ◌≡◌, ◌≢◌, refl, sym, subst, if◌then◌else◌, ap, ◌∙◌, Bool, true, false, List, [], ◌∷◌,
  ◌++◌, append_assoc, append-nil, All, All-append, length, ◌==◌, zero, Option, none, some,
  Option-cases, inl, inr, arith,
}
use comsrv.Protocol.Error.{Result}
use comsrv.IoTask.{
  RequestMsg, task, drop, Actor, new, post, request, send_self, clone_handle, drop_handle, answered,
  handled, receive, round, Step, requests, sends_self, clones, drops, rounds, Reachable, start,
  step, IsClosed,
}

if_true : {X : Type 0} (b : Bool) (x y : X) → b ≡ true → (if b then x else y) ≡ x
if_true true x y e = refl
if_true false x y e = absurd (ground arith)

module _ {H R P : Type 0} (handle : R → H → Option (Result P × H)) where
  abbrev pub NeverPanics : Type 0
  NeverPanics = (req : R) (h : H) → handle req h ≢ none

  -- No message ends the task.
  abbrev pub IsTask : RequestMsg R → Type 0
  IsTask (task req answer) = Unit {0}
  IsTask drop = ⊥

  -- The task runs, and no message in its channel ends it.
  abbrev Lives : Actor H R P → Type 0
  Lives a = (a.running ≡ true) × All IsTask a.queue

  receive-Lives :
      (queue : List (RequestMsg R)) (a : Actor H R P)
      → NeverPanics
      → a.running ≡ true
      → a.queue ≡ queue
      → All IsTask queue
      → Lives (receive handle queue a)
  unfolding receive handled
  receive-Lives [] a never r e all =
      let open_channel : (a.handles + 2 == 0) ≡ false = ground arith in
      rw (open_channel) (r, rw e tt)
  receive-Lives (drop ∷ queue) a never r e (t, all) = absurd t
  receive-Lives (task req answer ∷ queue) a never r e (t, all) =
      elim (Option-cases (handle req a.handler)) [
        | inl n ↦ absurd (never req a.handler n)
        | inr ((ret, handler), s) ↦ rw s (r, all)
      ]

  post-Lives : (msg : RequestMsg R) (a : Actor H R P) → IsTask msg → Lives a → Lives (post msg a)
  unfolding post
  post-Lives msg a t (r, all) = rw r (refl, All-append IsTask a.queue (msg ∷ []) all (t, tt))

  round_running : (a : Actor H R P) → a.running ≡ true → round handle a ≡ receive handle a.queue a
  unfolding round
  round_running a r = if_true a.running (receive handle a.queue a) a r

  Step-Lives : (a b : Actor H R P) → NeverPanics → Step handle a b → Lives a → Lives b
  unfolding request send_self clone_handle drop_handle
  Step-Lives _ _ never (requests id req a) (r, all) =
      rw r (refl, All-append IsTask a.queue (task req (some id) ∷ []) all (tt, tt))
  Step-Lives _ _ never (sends_self req a) l = post-Lives (task req none) a tt l
  Step-Lives _ _ never (clones a) l = l
  Step-Lives _ _ never (drops a) l = l
  Step-Lives _ _ never (rounds a) (r, all) =
      subst Lives (sym (round_running a r)) (receive-Lives a.queue a never r refl all)

  Reachable-Lives : (h : H) (a : Actor H R P) → NeverPanics → Reachable handle h a → Lives a
  unfolding new
  Reachable-Lives h _ never start = (refl, tt)
  Reachable-Lives h _ never (step a b r t) = Step-Lives a b never t (Reachable-Lives h a never r)

  -- The task of a handler that never panics is never closed, however many requests were made and
  -- even after the last handle was dropped: it holds senders of its own channel. So who waits for it
  -- to be closed waits for ever.
  pub Reachable-IsClosed :
      (h : H) (a : Actor H R P) → NeverPanics → Reachable handle h a → ¬ IsClosed a
  Reachable-IsClosed h a never r closed =
      let (runs, all) = Reachable-Lives h a never r in ground arith

  abbrev replay_next : ℕ → Option (Result P × H) → (H → List (ℕ × Result P)) → List (ℕ × Result P)
  replay_next id none rest = []
  replay_next id (some (ret, h)) rest = (id, ret) ∷ rest h

  -- The requests handled one after the other, each on the state that the one before has left.
  abbrev pub replay : H → List (ℕ × R) → List (ℕ × Result P)
  replay h [] = []
  replay h ((id, req) ∷ reqs) = replay_next id (handle req h) (λ h'. replay h' reqs)

  abbrev pub tasks : List (ℕ × R) → List (RequestMsg R)
  tasks [] = []
  tasks ((id, req) ∷ reqs) = task req (some id) ∷ tasks reqs

  abbrev pub round_times : ℕ → Actor H R P → Actor H R P
  round_times zero a = a
  round_times (suc n) a = round_times n (round handle a)

  -- With these requests in its channel, a task whose handler never panics answers them in as many
  -- rounds, in order, each once, as if they were handled one after the other.
  pub round_times-replay :
      (reqs : List (ℕ × R)) (a : Actor H R P)
      → NeverPanics
      → a.running ≡ true
      → a.queue ≡ tasks reqs
      → (round_times (length reqs) a).answers ≡ a.answers ++ replay a.handler reqs
  unfolding receive handled answered
  round_times-replay [] a never r e = sym (append-nil a.answers)
  round_times-replay ((id, req) ∷ reqs) a never r e = elim (Option-cases (handle req a.handler)) [
    | inl n ↦ absurd (never req a.handler n)
    | inr ((ret, h'), s) ↦
        let next : Actor H R P = record a {
          handler = h';
          queue = tasks reqs;
          answers = a.answers ++ ((id, ret) ∷ []);
        } in
        let one : receive handle (tasks ((id, req) ∷ reqs)) a ≡ next = rw s refl in
        let received =
          round_running a r ∙ ap (λ (q : List (RequestMsg R)). receive handle q a) e ∙ one in
        ap (λ (b : Actor H R P). (round_times (length reqs) b).answers) received
        ∙ rw s (
            round_times-replay reqs next never r refl
            ∙ append_assoc a.answers ((id, ret) ∷ []) (replay h' reqs))
  ]
