-- ===== src/WebSocket/WriteChain/Draining.antt =====
-- src/server/WebSocket.cpp: frames that are queued are written.
use mathlib.Core.Path.{subst}
use geruest.Prelude.{
  ◌≡◌, refl, sym, ap, ◌∙◌, Bool, true, false, List, [], ◌∷◌, ◌++◌, append-nil, append_assoc, Option,
  none, some, Text, All,
}
use geruest.WebSocket.WriteChain.{
  PendingWrite, WriteChain, with_waiter, complete, take_item, end_write, pump, Step, pump_step,
  step, steps,
}
use geruest.WebSocket.WriteChain.Ordering.{frames, frames_of, IsOrdered, end_write-IsOrdered}

-- The rounds that write a queue, and the last one.
drains : List PendingWrite → List Step
drains [] = pump_step true ∷ []
drains (item ∷ queue) = pump_step true ∷ pump_step true ∷ drains queue

-- A chain whose coroutine begins a round with this queue.
abbrev ready : List PendingWrite → WriteChain → WriteChain
ready queue chain = record chain {
  writes_enabled = true;
  queue = queue;
  pumping = true;
  writing = none;
}

-- All was written, and the coroutine has ended.
pub record IsDrained (accepted : List Text) (chain : WriteChain) : Type 0 where
  pub written : chain.delivered ≡ accepted
  pub no_queue : chain.queue ≡ []
  pub ended : chain.pumping ≡ false

drains-IsDrained :
    (queue : List PendingWrite) (chain : WriteChain)
    → IsDrained (chain.delivered ++ frames queue) (steps (drains queue) (ready queue chain))
unfolding drains steps step pump take_item end_write complete
drains-IsDrained [] chain = record {
  written = sym (append-nil chain.delivered);
  no_queue = refl;
  ended = refl;
}
drains-IsDrained (item ∷ queue) chain =
    let after = record chain {
      delivered = chain.delivered ++ item.frame ∷ [];
      completed = with_waiter item.on_complete chain.completed;
    } in
    subst (λ fs. IsDrained fs (steps (drains queue) (ready queue after)))
      (append_assoc chain.delivered (item.frame ∷ []) (frames queue)) (drains-IsDrained queue after)

-- Rounds of the coroutine whose writes succeed.
abbrev pub ArePumps : List Step → Type 0
ArePumps = All (λ s. s ≡ pump_step true)

drains-ArePumps : (queue : List PendingWrite) → ArePumps (drains queue)
unfolding drains
drains-ArePumps [] = (refl, tt)
drains-ArePumps (item ∷ queue) = (refl, (refl, drains-ArePumps queue))

-- A chain is the one that its members say.
set : Bool → Bool → Option PendingWrite → WriteChain → WriteChain
set enabled pumping writing chain = record chain {
  writes_enabled = enabled;
  pumping = pumping;
  writing = writing;
}

set-same :
    (chain : WriteChain) (pumping : Bool) (writing : Option PendingWrite)
    → chain.writes_enabled ≡ true
    → chain.pumping ≡ pumping
    → chain.writing ≡ writing
    → chain ≡ set true pumping writing chain
unfolding set
set-same chain pumping writing e p w =
    ap (λ b. set b chain.pumping chain.writing chain) e
    ∙ ap (λ b. set true b chain.writing chain) p
    ∙ ap (λ o. set true pumping o chain) w

abbrev pub CanDrain : WriteChain → Type 0
CanDrain chain =
    (history : List Step) × ArePumps history × IsDrained chain.accepted (steps history chain)

ready-CanDrain :
    (chain : WriteChain) → IsOrdered (ready chain.queue chain) → CanDrain (ready chain.queue chain)
ready-CanDrain chain h = (
  drains chain.queue,
  drains-ArePumps chain.queue,
  subst (λ fs. IsDrained fs (steps (drains chain.queue) (ready chain.queue chain)))
      (sym (
        h.whole
        ∙ ap (λ fs. (chain.delivered ++ []) ++ fs) (h.queued refl)
        ∙ ap (λ fs. fs ++ frames chain.queue) (append-nil chain.delivered)))
      (drains-IsDrained chain.queue chain),
)

-- By what the coroutine is doing.
set-CanDrain :
    (pumping : Bool) (writing : Option PendingWrite) (chain : WriteChain)
    → IsOrdered (set true pumping writing chain)
    → CanDrain (set true pumping writing chain)
unfolding set steps step pump end_write complete
set-CanDrain false writing chain h =
    let (empty, still) = h.pumped refl refl in
    let all_written =
      h.whole
      ∙ ap (λ fs. (chain.delivered ++ frames_of writing) ++ fs) (h.queued refl ∙ ap frames empty)
      ∙ append-nil (chain.delivered ++ frames_of writing)
      ∙ ap (λ w. chain.delivered ++ frames_of w) still
      ∙ append-nil chain.delivered in
    ([], tt, record { written = sym all_written; no_queue = empty; ended = refl })
set-CanDrain true none chain h = ready-CanDrain chain h
set-CanDrain true (some item) chain h =
    let after = record chain {
      delivered = chain.delivered ++ item.frame ∷ [];
      completed = with_waiter item.on_complete chain.completed;
    } in
    let (history, pumps, drained) =
      ready-CanDrain after
        (end_write-IsOrdered true item (set true true (some item) chain) refl h) in
    (pump_step true ∷ history, (refl, pumps), drained)

-- From any chain in order whose writes are enabled, rounds of the coroutine whose writes succeed write
-- all that was queued, and the coroutine ends with an empty queue.
pub IsOrdered-drains :
    (chain : WriteChain) → IsOrdered chain → chain.writes_enabled ≡ true → CanDrain chain
IsOrdered-drains chain h e =
    let same = set-same chain chain.pumping chain.writing e refl refl in
    subst CanDrain (sym same)
      (set-CanDrain chain.pumping chain.writing chain (subst IsOrdered same h))
