-- ===== src/Loop/Pending/Rounds.antt =====
-- net/EventLoop.cc: one call of `doPendingFunctors`.
use my_file_server.Common.{
  ◌+◌, ◌≡◌, refl, ap, ◌∙◌, arith, true, false, List, [], ◌∷◌, ◌++◌, length, length-append,
  append_assoc, append-nil,
}
use my_file_server.Loop.Pending.{
  EventLoop, wakeup, add_pending, needs_wakeup, queue_in_loop, queue_all, call_all, take_pending,
  stop_calling, do_pending_functors,
}

module _ {ℓ} {F : Type ℓ} where
  -- What a list of functors hands to `queueInLoop`, in order.
  pub handed_on : (queues : F → List F) → List F → List F
  handed_on queues [] = []
  handed_on queues (cb ∷ cbs) = queues cb ++ handed_on queues cbs

  -- While functors are called, what is queued stands behind what waits, and each wakes the loop.
  abbrev pub after : List F → EventLoop F → EventLoop F
  after cbs loop = record loop {
    pending_functors = loop.pending_functors ++ cbs;
    wakeups = loop.wakeups + length cbs;
  }

  after-nil : (loop : EventLoop F) → loop ≡ after [] loop
  after-nil loop = ground (arith, append-nil loop.pending_functors)

  after-after :
      (xs ys : List F) (loop : EventLoop F) → after ys (after xs loop) ≡ after (xs ++ ys) loop
  after-after xs ys loop =
      ground (arith, append_assoc loop.pending_functors xs ys, length-append xs ys)

  queue_in_loop-after :
      (cb : F) (loop : EventLoop F)
      → loop.calling_pending_functors ≡ true
      → queue_in_loop true cb loop ≡ after (cb ∷ []) loop
  unfolding queue_in_loop needs_wakeup add_pending wakeup
  queue_in_loop-after cb loop h = ground arith

  pub queue_all-after :
      (cbs : List F) (loop : EventLoop F)
      → loop.calling_pending_functors ≡ true
      → queue_all cbs loop ≡ after cbs loop
  unfolding queue_all
  queue_all-after [] loop h = after-nil loop
  queue_all-after (cb ∷ cbs) loop h =
      ap (queue_all cbs) (queue_in_loop-after cb loop h)
      ∙ queue_all-after cbs (after (cb ∷ []) loop) h
      ∙ after-after (cb ∷ []) cbs loop

  call_all-after :
      (queues : F → List F) (cbs : List F) (loop : EventLoop F)
      → loop.calling_pending_functors ≡ true
      → call_all queues cbs loop ≡ after (handed_on queues cbs) loop
  unfolding call_all handed_on
  call_all-after queues [] loop h = after-nil loop
  call_all-after queues (cb ∷ cbs) loop h =
      ap (call_all queues cbs) (queue_all-after (queues cb) loop h)
      ∙ call_all-after queues cbs (after (queues cb) loop) h
      ∙ after-after (queues cb) (handed_on queues cbs) loop

  -- `doPendingFunctors` calls the functors that wait, in order; what they queue is not called but
  -- waits, in order, for the next round, and wakes the loop once for each.
  do_pending_functors_lem :
      (queues : F → List F) (loop : EventLoop F)
      → do_pending_functors queues loop ≡ (
        loop.pending_functors,
        record loop {
          calling_pending_functors = false;
          pending_functors = handed_on queues loop.pending_functors;
          wakeups = loop.wakeups + length (handed_on queues loop.pending_functors);
        },
      )
  unfolding do_pending_functors take_pending stop_calling
  do_pending_functors_lem queues loop =
      ap (λ (l : EventLoop F). (loop.pending_functors, stop_calling l))
        (call_all-after queues loop.pending_functors (take_pending loop).1 refl)
