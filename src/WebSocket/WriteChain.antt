-- ===== src/WebSocket/WriteChain.antt =====
-- src/server/WebSocket.cpp: `WriteChain`, the queue of frames that one coroutine writes to the socket.
-- The calls, the posted functions, the rounds of the coroutine and the ends of its writes follow each
-- other in any order; each is a step.
pub mod Ordering
pub mod Draining
pub mod Waiting
mod Tests
use geruest.Prelude.{
  ℕ, Bool, true, false, ◌||◌, not, List, [], ◌∷◌, ◌++◌, Option, none, some, Text, is_empty,
  if◌then◌else◌,
}

-- A frame, and the call of `write` that waits for it.
pub record PendingWrite : Type 0 where
  pub frame : Text
  pub on_complete : Option ℕ

-- Behind the source's members: the functions that are posted, the frame that is being written, the
-- calls of `write` whose gate is open, and of frames those that were taken into the queue and those
-- that were written.
pub record WriteChain : Type 0 where
  pub writes_enabled : Bool
  pub queue : List PendingWrite
  pub pumping : Bool
  pub posted : List PendingWrite
  pub writing : Option PendingWrite
  pub completed : List ℕ
  pub accepted : List Text
  pub delivered : List Text

abbrev pub new_chain : WriteChain
new_chain = record {
  writes_enabled = true;
  queue = [];
  pumping = false;
  posted = [];
  writing = none;
  completed = [];
  accepted = [];
  delivered = [];
}

-- `onComplete()`, if there is one.
abbrev pub with_waiter : Option ℕ → List ℕ → List ℕ
with_waiter none completed = completed
with_waiter (some waiter) completed = waiter ∷ completed

unfoldable pub complete : Option ℕ → WriteChain → WriteChain
complete on_complete chain = record chain { completed = with_waiter on_complete chain.completed }

unfoldable pub start_pump_if_needed : WriteChain → WriteChain
start_pump_if_needed chain =
    if chain.pumping || is_empty chain.queue then chain else record chain { pumping = true }

unfoldable pub enqueue_on_executor : PendingWrite → WriteChain → WriteChain
unfolding start_pump_if_needed
enqueue_on_executor item chain = start_pump_if_needed (record chain {
  queue = chain.queue ++ item ∷ [];
  accepted = chain.accepted ++ item.frame ∷ [];
})

-- `schedule`, to its call of `post`.
unfoldable pub schedule : Text → WriteChain → WriteChain
schedule frame chain =
    if not chain.writes_enabled
    then chain
    else record chain { posted = chain.posted ++ record { frame = frame; on_complete = none } ∷ [] }

-- `write`, to its loop; a call that returns at once has an open gate.
unfoldable pub write_and_wait : ℕ → Text → WriteChain → WriteChain
unfolding complete
write_and_wait waiter frame chain =
    if not chain.writes_enabled then complete (some waiter) chain else record chain {
      posted = chain.posted ++ record { frame = frame; on_complete = some waiter } ∷ [];
    }

-- A function that was posted by `schedule` or `write`.
unfoldable pub run_posted_item : PendingWrite → WriteChain → WriteChain
unfolding complete enqueue_on_executor
run_posted_item item chain =
    if not chain.writes_enabled
    then complete item.on_complete chain
    else enqueue_on_executor item chain

-- The executor runs the function that was posted first.
unfoldable pub run_posted : List PendingWrite → WriteChain → WriteChain
unfolding run_posted_item
run_posted [] chain = chain
run_posted (item ∷ posted) chain = run_posted_item item (record chain { posted = posted })

-- The start of a round of `pump`: it ends, or it has a frame to write.
unfoldable pub take_item : List PendingWrite → WriteChain → WriteChain
unfolding complete
take_item [] chain = record chain { pumping = false }
take_item (item ∷ queue) chain =
    if not chain.writes_enabled
    then record (complete item.on_complete (record chain { queue = queue })) { pumping = false }
    else record chain { queue = queue; writing = some item }

-- The end of a write, which succeeds or throws.
unfoldable pub end_write : Bool → PendingWrite → WriteChain → WriteChain
unfolding complete
end_write true item chain =
    complete item.on_complete
      (record chain { writing = none; delivered = chain.delivered ++ item.frame ∷ [] })
end_write false item chain =
    record (complete item.on_complete (record chain { writing = none; writes_enabled = false })) {
      pumping = false;
    }

-- The coroutine goes on: from its write, if there is one, or else with a round, if it runs.
unfoldable pub pump : Bool → Option PendingWrite → WriteChain → WriteChain
unfolding take_item end_write
pump succeeds (some item) chain = end_write succeeds item chain
pump succeeds none chain = if chain.pumping then take_item chain.queue chain else chain

pub data Step : Type 0 where
  schedule_step : Text → Step
  write_step : ℕ → Text → Step
  posted_step : Step
  pump_step : Bool → Step
  disable_step : Step

-- `disable_step` is the store of `markClosed`.
unfoldable pub step : Step → WriteChain → WriteChain
unfolding schedule write_and_wait run_posted pump
step (schedule_step frame) chain = schedule frame chain
step (write_step waiter frame) chain = write_and_wait waiter frame chain
step posted_step chain = run_posted chain.posted chain
step (pump_step succeeds) chain = pump succeeds chain.writing chain
step disable_step chain = record chain { writes_enabled = false }

unfoldable pub steps : List Step → WriteChain → WriteChain
unfolding step
steps [] chain = chain
steps (s ∷ rest) chain = steps rest (step s chain)
