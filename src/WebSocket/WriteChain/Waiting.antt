-- ===== src/WebSocket/WriteChain/Waiting.antt =====
-- src/server/WebSocket.cpp: a call of `write` that a failed write leaves waiting.
use mathlib.Core.Path.{subst}
use geruest.Prelude.{
  ℕ, ◌≡◌, ◌≢◌, refl, sym, ap, ◌∙◌, ◌⊎◌, Bool, false, not, List, [], ◌∷◌, Option, none, some, All,
  if_elim, arith,
}
use geruest.WebSocket.WriteChain.{
  PendingWrite, WriteChain, with_waiter, complete, schedule, write_and_wait, run_posted_item,
  run_posted, end_write, pump, Step, schedule_step, write_step, posted_step, pump_step,
  disable_step, step, steps,
}

-- A call of `write` whose frame is in the queue.
abbrev pub IsQueued : ℕ → List PendingWrite → Type 0
IsQueued waiter [] = ⊥
IsQueued waiter (item ∷ queue) = (item.on_complete ≡ some waiter) ⊎ IsQueued waiter queue

-- The call waits: its gate is closed, its frame is in the queue, and no posted function is its own.
pub record IsWaiting (waiter : ℕ) (chain : WriteChain) : Type 0 where
  pub closed : All (λ w. w ≢ waiter) chain.completed
  pub queued : IsQueued waiter chain.queue
  pub other : All (λ (item : PendingWrite). item.on_complete ≢ some waiter) chain.posted

-- Nothing is left that could go on with the queue.
pub record IsStuck (waiter : ℕ) (chain : WriteChain) : Type 0 where
  pub waits : IsWaiting waiter chain
  pub disabled : chain.writes_enabled ≡ false
  pub stopped : chain.pumping ≡ false
  pub still : chain.writing ≡ none

-- A step that is not a further call of `write` with the same gate.
abbrev pub IsOther : ℕ → Step → Type 0
IsOther waiter (write_step w frame) = w ≢ waiter
IsOther waiter (schedule_step frame) = Unit
IsOther waiter posted_step = Unit
IsOther waiter (pump_step succeeds) = Unit
IsOther waiter disable_step = Unit

with_waiter-closed :
    (waiter : ℕ) (on_complete : Option ℕ) (completed : List ℕ)
    → on_complete ≢ some waiter
    → All (λ w. w ≢ waiter) completed
    → All (λ w. w ≢ waiter) (with_waiter on_complete completed)
with_waiter-closed waiter none completed h k = k
with_waiter-closed waiter (some w) completed h k = ((λ e. h (ap some e)), k)

complete-IsStuck :
    (waiter : ℕ) (on_complete : Option ℕ) (chain : WriteChain)
    → on_complete ≢ some waiter
    → IsStuck waiter chain
    → IsStuck waiter (complete on_complete chain)
unfolding complete
complete-IsStuck waiter on_complete chain h s = record {
  waits = record {
    closed = with_waiter-closed waiter on_complete chain.completed h s.waits.closed;
    queued = s.waits.queued;
    other = s.waits.other;
  };
  disabled = s.disabled;
  stopped = s.stopped;
  still = s.still;
}

run_posted-IsStuck :
    (waiter : ℕ) (posted : List PendingWrite) (chain : WriteChain)
    → chain.posted ≡ posted
    → IsStuck waiter chain
    → IsStuck waiter (run_posted posted chain)
unfolding run_posted run_posted_item
run_posted-IsStuck waiter [] chain e s = s
run_posted-IsStuck waiter (item ∷ posted) chain e s =
    let (mine, others) =
      subst (All (λ (i : PendingWrite). i.on_complete ≢ some waiter)) e s.waits.other in
    if_elim (IsStuck waiter) (not chain.writes_enabled) _ _
      (λ _.
        complete-IsStuck waiter item.on_complete (record chain { posted = posted }) mine
          (record {
            waits = record { closed = s.waits.closed; queued = s.waits.queued; other = others };
            disabled = s.disabled;
            stopped = s.stopped;
            still = s.still;
          }))
      (λ enabled. absurd (ground (arith, enabled, s.disabled)))

pump-IsStuck :
    (waiter : ℕ) (succeeds : Bool) (writing : Option PendingWrite) (chain : WriteChain)
    → chain.writing ≡ writing
    → IsStuck waiter chain
    → IsStuck waiter (pump succeeds writing chain)
unfolding pump
pump-IsStuck waiter succeeds (some item) chain e s = absurd (some≢none (sym e ∙ s.still))
  where
    some≢none : some item ≢ none
    some≢none h = cc
pump-IsStuck waiter succeeds none chain e s =
    if_elim (IsStuck waiter) chain.pumping _ _ (λ on. absurd (ground (arith, on, s.stopped)))
      (λ _. s)

step-IsStuck :
    (waiter : ℕ) (s : Step) (chain : WriteChain)
    → IsOther waiter s
    → IsStuck waiter chain
    → IsStuck waiter (step s chain)
unfolding step schedule write_and_wait
step-IsStuck waiter (schedule_step frame) chain o s =
    if_elim (IsStuck waiter) (not chain.writes_enabled) _ _ (λ _. s)
      (λ enabled. absurd (ground (arith, enabled, s.disabled)))
step-IsStuck waiter (write_step w frame) chain o s =
    if_elim (IsStuck waiter) (not chain.writes_enabled) _ _
      (λ _. complete-IsStuck waiter (some w) chain (λ e. o (some_injective e)) s)
      (λ enabled. absurd (ground (arith, enabled, s.disabled)))
  where
    some_injective : some w ≡ some waiter → w ≡ waiter
    some_injective e = cc
step-IsStuck waiter posted_step chain o s = run_posted-IsStuck waiter chain.posted chain refl s
step-IsStuck waiter (pump_step succeeds) chain o s =
    pump-IsStuck waiter succeeds chain.writing chain refl s
step-IsStuck waiter disable_step chain o s = record {
  waits = record { closed = s.waits.closed; queued = s.waits.queued; other = s.waits.other };
  disabled = refl;
  stopped = s.stopped;
  still = s.still;
}

steps-IsStuck :
    (waiter : ℕ) (history : List Step) (chain : WriteChain)
    → All (IsOther waiter) history
    → IsStuck waiter chain
    → IsStuck waiter (steps history chain)
unfolding steps
steps-IsStuck waiter [] chain o s = s
steps-IsStuck waiter (x ∷ history) chain (o, os) s =
    steps-IsStuck waiter history (step x chain) os (step-IsStuck waiter x chain o s)

end_write-IsStuck :
    (waiter : ℕ) (item : PendingWrite) (chain : WriteChain)
    → item.on_complete ≢ some waiter
    → IsWaiting waiter chain
    → IsStuck waiter (end_write false item chain)
unfolding end_write complete
end_write-IsStuck waiter item chain h w = record {
  waits = record {
    closed = with_waiter-closed waiter item.on_complete chain.completed h w.closed;
    queued = w.queued;
    other = w.other;
  };
  disabled = refl;
  stopped = refl;
  still = refl;
}

-- When the write of a frame fails, a call of `write` whose frame waits behind it in the queue waits
-- for ever: whatever steps follow, its gate stays closed.
pub steps-write_waits :
    (waiter : ℕ) (item : PendingWrite) (chain : WriteChain) (history : List Step)
    → chain.writing ≡ some item
    → item.on_complete ≢ some waiter
    → IsWaiting waiter chain
    → All (IsOther waiter) history
    → IsWaiting waiter (steps (pump_step false ∷ history) chain)
unfolding steps step pump
steps-write_waits waiter item chain history e h w o =
    (steps-IsStuck waiter history (step (pump_step false) chain) o (
      subst (λ writing. IsStuck waiter (pump false writing chain)) (sym e)
        (end_write-IsStuck waiter item chain h w))).waits
