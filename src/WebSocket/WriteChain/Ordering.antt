-- ===== src/WebSocket/WriteChain/Ordering.antt =====
-- src/server/WebSocket.cpp: the frames are written in the order in which they were queued.
use geruest.Prelude.{
  ℕ, ◌≡◌, ◌≢◌, refl, sym, ap, ◌∙◌, Bool, true, false, ◌||◌, not, List, [], ◌∷◌, ◌++◌, append-nil,
  append_assoc, Option, none, some, Text, is_empty, if_elim, arith,
}
use geruest.WebSocket.WriteChain.{
  PendingWrite, WriteChain, new_chain, complete, start_pump_if_needed, enqueue_on_executor,
  schedule, write_and_wait, run_posted_item, run_posted, take_item, end_write, pump, Step,
  schedule_step, write_step, posted_step, pump_step, disable_step, step, steps,
}

some≢none : {A : Type 0} {a : A} → some a ≢ none
some≢none e = cc

abbrev pub frames : List PendingWrite → List Text
frames [] = []
frames (item ∷ items) = item.frame ∷ frames items

abbrev pub frames_of : Option PendingWrite → List Text
frames_of none = []
frames_of (some item) = item.frame ∷ []

-- What was written, then the frame that is being written, stand at the front of what was queued; the
-- rest is the queue, as long as writes are enabled. A frame that waits has a coroutine that runs.
pub record IsOrdered (chain : WriteChain) : Type 0 where
  pub rest : List Text
  pub whole : chain.accepted ≡ (chain.delivered ++ frames_of chain.writing) ++ rest
  pub queued : chain.writes_enabled ≡ true → rest ≡ frames chain.queue
  pub pumped :
      chain.writes_enabled ≡ true
      → chain.pumping ≡ false
      → (chain.queue ≡ []) × (chain.writing ≡ none)
  pub idle : chain.pumping ≡ false → chain.writing ≡ none

pub new_chain-IsOrdered : IsOrdered new_chain
new_chain-IsOrdered = record {
  rest = [];
  whole = refl;
  queued = λ _. refl;
  pumped = λ _ _. (refl, refl);
  idle = λ _. refl;
}

frames-append : (xs ys : List PendingWrite) → frames (xs ++ ys) ≡ frames xs ++ frames ys
frames-append [] ys = refl
frames-append (x ∷ xs) ys = ap (λ fs. x.frame ∷ fs) (frames-append xs ys)

complete-IsOrdered :
    (waiter : Option ℕ) (chain : WriteChain) → IsOrdered chain → IsOrdered (complete waiter chain)
unfolding complete
complete-IsOrdered waiter chain h = record {
  rest = h.rest;
  whole = h.whole;
  queued = h.queued;
  pumped = h.pumped;
  idle = h.idle;
}

snoc-is_empty : (xs : List PendingWrite) (x : PendingWrite) → is_empty (xs ++ x ∷ []) ≡ false
snoc-is_empty [] x = refl
snoc-is_empty (y ∷ xs) x = refl

enqueued : PendingWrite → Bool → WriteChain → WriteChain
enqueued item pumping chain = record chain {
  queue = chain.queue ++ item ∷ [];
  accepted = chain.accepted ++ item.frame ∷ [];
  pumping = pumping;
}

enqueued-IsOrdered :
    (item : PendingWrite) (pumping : Bool) (chain : WriteChain)
    → pumping ≡ true
    → IsOrdered chain
    → IsOrdered (enqueued item pumping chain)
unfolding enqueued
enqueued-IsOrdered item pumping chain on h = record {
  rest = h.rest ++ item.frame ∷ [];
  whole =
      ap (λ fs. fs ++ item.frame ∷ []) h.whole
      ∙ append_assoc (chain.delivered ++ frames_of chain.writing) h.rest (item.frame ∷ []);
  queued = λ enabled.
      ap (λ fs. fs ++ item.frame ∷ []) (h.queued enabled)
      ∙ sym (frames-append chain.queue (item ∷ []));
  pumped = λ _ off. absurd (ground (arith, on, off));
  idle = λ off. absurd (ground (arith, on, off));
}

enqueue-IsOrdered :
    (item : PendingWrite) (chain : WriteChain)
    → IsOrdered chain
    → IsOrdered (enqueue_on_executor item chain)
unfolding enqueue_on_executor start_pump_if_needed enqueued
enqueue-IsOrdered item chain h =
    if_elim IsOrdered (chain.pumping || is_empty (chain.queue ++ item ∷ [])) _ _
      (λ e.
        enqueued-IsOrdered item chain.pumping chain
          (ground (arith, e, snoc-is_empty chain.queue item)) h)
      (λ _. enqueued-IsOrdered item true chain refl h)

-- Posting a function changes nothing that counts.
posted-IsOrdered :
    (posted : List PendingWrite) (chain : WriteChain)
    → IsOrdered chain
    → IsOrdered (record chain { posted = posted })
posted-IsOrdered posted chain h = record {
  rest = h.rest;
  whole = h.whole;
  queued = h.queued;
  pumped = h.pumped;
  idle = h.idle;
}

run_posted-IsOrdered :
    (posted : List PendingWrite) (chain : WriteChain)
    → IsOrdered chain
    → IsOrdered (run_posted posted chain)
unfolding run_posted run_posted_item
run_posted-IsOrdered [] chain h = h
run_posted-IsOrdered (item ∷ posted) chain h =
    let h' = posted-IsOrdered posted chain h in
    if_elim IsOrdered (not chain.writes_enabled) _ _
      (λ _. complete-IsOrdered item.on_complete (record chain { posted = posted }) h')
      (λ _. enqueue-IsOrdered item (record chain { posted = posted }) h')

-- A coroutine that has ended leaves no write, and where writes are enabled no queue.
stopped-IsOrdered :
    (chain : WriteChain)
    → IsOrdered chain
    → chain.writing ≡ none
    → (chain.writes_enabled ≡ true → chain.queue ≡ [])
    → IsOrdered (record chain { pumping = false })
stopped-IsOrdered chain h still done = record {
  rest = h.rest;
  whole = h.whole;
  queued = h.queued;
  pumped = λ enabled _. (done enabled, still);
  idle = λ _. still;
}

take_item-IsOrdered :
    (queue : List PendingWrite) (chain : WriteChain)
    → chain.queue ≡ queue
    → chain.writing ≡ none
    → chain.pumping ≡ true
    → IsOrdered chain
    → IsOrdered (take_item queue chain)
unfolding take_item
take_item-IsOrdered [] chain e still on h = stopped-IsOrdered chain h still (λ _. e)
take_item-IsOrdered (item ∷ queue) chain e still on h =
    if_elim IsOrdered (not chain.writes_enabled) _ _
      (λ off. record {
        rest = h.rest;
        whole = h.whole;
        queued = λ enabled. absurd (ground (arith, off, enabled));
        pumped = λ enabled _. absurd (ground (arith, off, enabled));
        idle = λ _. still;
      })
      (λ enabled. record {
        rest = frames queue;
        whole = next_frame (ground (arith, enabled));
        queued = λ _. refl;
        pumped = λ _ off. absurd (ground (arith, on, off));
        idle = λ off. absurd (ground (arith, on, off));
      })
  where
    next_frame :
        chain.writes_enabled ≡ true
        → chain.accepted ≡ (chain.delivered ++ item.frame ∷ []) ++ frames queue
    next_frame enabled =
        h.whole
        ∙ ap (λ w. (chain.delivered ++ frames_of w) ++ h.rest) still
        ∙ ap (λ fs. (chain.delivered ++ []) ++ fs) (h.queued enabled ∙ ap frames e)
        ∙ ap (λ fs. fs ++ item.frame ∷ frames queue) (append-nil chain.delivered)
        ∙ sym (append_assoc chain.delivered (item.frame ∷ []) (frames queue))

pub end_write-IsOrdered :
    (succeeds : Bool) (item : PendingWrite) (chain : WriteChain)
    → chain.writing ≡ some item
    → IsOrdered chain
    → IsOrdered (end_write succeeds item chain)
unfolding end_write complete
end_write-IsOrdered true item chain e h = record {
  rest = h.rest;
  whole =
      h.whole
      ∙ ap (λ w. (chain.delivered ++ frames_of w) ++ h.rest) e
      ∙ ap (λ fs. fs ++ h.rest) (sym (append-nil (chain.delivered ++ item.frame ∷ [])));
  queued = h.queued;
  pumped = λ enabled off. (absurd (some≢none (sym e ∙ (h.pumped enabled off).1)));
  idle = λ _. refl;
}
end_write-IsOrdered false item chain e h = record {
  rest = item.frame ∷ h.rest;
  whole =
      h.whole
      ∙ ap (λ w. (chain.delivered ++ frames_of w) ++ h.rest) e
      ∙ append_assoc chain.delivered (item.frame ∷ []) h.rest
      ∙ ap (λ fs. fs ++ item.frame ∷ h.rest) (sym (append-nil chain.delivered));
  queued = λ enabled. absurd (ground (arith, enabled));
  pumped = λ enabled _. absurd (ground (arith, enabled));
  idle = λ _. refl;
}

pump-IsOrdered :
    (succeeds : Bool) (writing : Option PendingWrite) (chain : WriteChain)
    → chain.writing ≡ writing
    → IsOrdered chain
    → IsOrdered (pump succeeds writing chain)
unfolding pump
pump-IsOrdered succeeds (some item) chain e h = end_write-IsOrdered succeeds item chain e h
pump-IsOrdered succeeds none chain e h =
    if_elim IsOrdered chain.pumping _ _ (λ on. take_item-IsOrdered chain.queue chain refl e on h)
      (λ _. h)

step-IsOrdered : (s : Step) (chain : WriteChain) → IsOrdered chain → IsOrdered (step s chain)
unfolding step schedule write_and_wait
step-IsOrdered (schedule_step frame) chain h =
    if_elim IsOrdered (not chain.writes_enabled) _ _ (λ _. h) (λ _. posted-IsOrdered _ chain h)
step-IsOrdered (write_step waiter frame) chain h =
    if_elim IsOrdered (not chain.writes_enabled) _ _ (λ _. complete-IsOrdered (some waiter) chain h)
      (λ _. posted-IsOrdered _ chain h)
step-IsOrdered posted_step chain h = run_posted-IsOrdered chain.posted chain h
step-IsOrdered (pump_step succeeds) chain h = pump-IsOrdered succeeds chain.writing chain refl h
step-IsOrdered disable_step chain h = record {
  rest = h.rest;
  whole = h.whole;
  queued = λ enabled. absurd (ground (arith, enabled));
  pumped = λ enabled _. absurd (ground (arith, enabled));
  idle = h.idle;
}

-- However calls, posted functions, rounds of the coroutine and closings follow each other: the frames
-- that were written are the first of those that were queued, in their order, then comes the frame that
-- is being written, and as long as writes are enabled the rest is the queue, and a frame that waits
-- has a coroutine that writes it. A coroutine that does not run has no write.
pub steps-IsOrdered :
    (history : List Step) (chain : WriteChain) → IsOrdered chain → IsOrdered (steps history chain)
unfolding steps
steps-IsOrdered [] chain h = h
steps-IsOrdered (s ∷ history) chain h =
    steps-IsOrdered history (step s chain) (step-IsOrdered s chain h)
