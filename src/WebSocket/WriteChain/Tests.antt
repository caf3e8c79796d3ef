-- ===== src/WebSocket/WriteChain/Tests.antt =====
-- Runs of the queue of frames, and instances of the theorems about it.
use geruest.Prelude.{◌≡◌, refl, inl, inr, true, false, List, [], ◌∷◌, none, some, codes, arith}
use geruest.WebSocket.WriteChain.{
  PendingWrite, WriteChain, new_chain, complete, start_pump_if_needed, enqueue_on_executor,
  schedule, write_and_wait, run_posted_item, run_posted, take_item, end_write, pump, Step,
  schedule_step, write_step, posted_step, pump_step, step, steps,
}
use geruest.WebSocket.WriteChain.Ordering.{IsOrdered, new_chain-IsOrdered, steps-IsOrdered}
use geruest.WebSocket.WriteChain.Draining.{CanDrain, IsOrdered-drains}
use geruest.WebSocket.WriteChain.Waiting.{IsWaiting, steps-write_waits}

-- Two calls of `write` and one of `schedule`; the coroutine has begun to write the first frame.
abbrev calls : List Step
calls =
    write_step 1 (codes "one")
    ∷ schedule_step (codes "two")
    ∷ posted_step
    ∷ write_step 3 (codes "three")
    ∷ pump_step true
    ∷ posted_step
    ∷ posted_step
    ∷ []

abbrev first : PendingWrite
first = record { frame = codes "one"; on_complete = some 1 }

abbrev called : WriteChain
called = record new_chain {
  queue =
      record { frame = codes "two"; on_complete = none }
      ∷ record { frame = codes "three"; on_complete = some 3 }
      ∷ [];
  pumping = true;
  writing = some first;
  accepted = codes "one" ∷ codes "two" ∷ codes "three" ∷ [];
}

chaining : Unit {0}
unfolding complete start_pump_if_needed enqueue_on_executor schedule write_and_wait run_posted_item
    run_posted take_item end_write pump step steps
chaining = tt

called_test : steps calls new_chain ≡ called
unfolding chaining
called_test = refl

pump_tests :
    ((steps (pump_step true ∷ pump_step true ∷ pump_step true ∷ []) called).delivered
      ≡ codes "one" ∷ codes "two" ∷ [])
    × ((steps (pump_step false ∷ posted_step ∷ pump_step true ∷ []) called).completed ≡ 1 ∷ [])
unfolding chaining
pump_tests = (refl, refl)

called-IsOrdered : IsOrdered called
called-IsOrdered = record {
  rest = codes "two" ∷ codes "three" ∷ [];
  whole = refl;
  queued = λ _. refl;
  pumped = λ _ off. absurd (ground (arith, off));
  idle = λ off. absurd (ground (arith, off));
}

steps-IsOrdered_example : IsOrdered (steps calls new_chain)
steps-IsOrdered_example = steps-IsOrdered calls new_chain new_chain-IsOrdered

IsOrdered-drains_example : CanDrain called
IsOrdered-drains_example = IsOrdered-drains called called-IsOrdered refl

steps-write_waits_example : IsWaiting 3 (
    steps
      (pump_step false ∷ pump_step true ∷ write_step 4 (codes "four") ∷ posted_step ∷ [])
      called)
steps-write_waits_example =
    steps-write_waits 3 first called
      (pump_step true ∷ write_step 4 (codes "four") ∷ posted_step ∷ []) refl (λ e. cc)
      (record { closed = tt; queued = inr (inl refl); other = tt })
      (tt, ((λ e. omega (arith, e)), (tt, tt)))
