-- ===== src/Loop/Pending/Wakeup.antt =====
-- net/EventLoop.cc: the loop's thread and any number of other threads, interleaved.
use my_file_server.Common.{
  ℕ, ◌+◌, ◌-◌, ◌<◌, ◌≡◌, ◌≢◌, refl, sym, ap, ◌∙◌, arith, subst, Bool, true, false, List, [], ◌∷◌,
  ◌++◌, length, append_assoc, append-nil, if◌then◌else◌,
}
use my_file_server.Loop.Pending.Rounds.{after, queue_all-after}
use my_file_server.Loop.Pending.{
  EventLoop, new_loop, wakeup, handle_read, add_pending, needs_wakeup, queue_in_loop, queue_all,
  take_pending, stop_calling,
}

module _ {ℓ} (F : Type ℓ) where
  -- Where the loop's thread stands: in `poll`, in the handlers of the active channels, or in
  -- `doPendingFunctors` with the functors that are still to be called.
  pub data Phase : Type ℓ where
    polling handling : Phase
    calling : List F → Phase

  pub record System : Type ℓ where
    pub loop : EventLoop F
    pub phase : Phase
    -- the threads that have added a functor and not yet called `wakeup`
    pub late : ℕ
    -- the functors given to `queueInLoop`, and those that were called, in order
    pub queued : List F
    pub called : List F

module _ {ℓ} {F : Type ℓ} where
  unfoldable pub fresh : System F
  fresh = record { loop = new_loop; phase = polling; late = 0; queued = []; called = [] }

  -- One step. Another thread adds its functor under the lock and wakes the loop afterwards. `poll`
  -- may return at any time, since other channels and its time limit end it too.
  pub data Step (s : System F) : System F → Type ℓ where
    other_adds :
        (cb : F)
        → Step s (record s {
          loop = add_pending cb s.loop;
          late = if needs_wakeup false (add_pending cb s.loop) then s.late + 1 else s.late;
          queued = s.queued ++ cb ∷ [];
        })
    other_wakes : 0 < s.late → Step s (record s { loop = wakeup s.loop; late = s.late - 1 })
    poll_returns : s.phase ≡ polling → Step s (record s { phase = handling })
    wakeup_handled : s.phase ≡ handling → Step s (record s { loop = handle_read s.loop })
    handler_queues :
        (cb : F)
        → s.phase ≡ handling
        → Step s (record s { loop = queue_in_loop true cb s.loop; queued = s.queued ++ cb ∷ [] })
    takes :
        s.phase ≡ handling
        → Step s
            (record s { loop = (take_pending s.loop).1; phase = calling (take_pending s.loop).0 })
    calls :
        (cb : F) (cbs own : List F)
        → s.phase ≡ calling (cb ∷ cbs)
        → Step s (record s {
          loop = queue_all own s.loop;
          phase = calling cbs;
          queued = s.queued ++ own;
          called = s.called ++ cb ∷ [];
        })
    calls_end :
        s.phase ≡ calling [] → Step s (record s { loop = stop_calling s.loop; phase = polling })

  pub data Reach : System F → Type ℓ where
    start : Reach fresh
    later : {s t : System F} → Reach s → Step s t → Reach t

  abbrev pub to_call : Phase F → List F
  to_call (calling cbs) = cbs
  to_call _ = []

  abbrev pub is_calling : Phase F → Bool
  is_calling (calling cbs) = true
  is_calling _ = false

  -- What holds of every state that is reached.
  pub record IsAwake (s : System F) : Type ℓ where
    pub flagged : s.loop.calling_pending_functors ≡ is_calling s.phase
    -- every functor is called at most once, in the order of the calls of `queueInLoop`
    pub in_order : s.called ++ (to_call s.phase ++ s.loop.pending_functors) ≡ s.queued
    -- when a functor waits, the next `poll` returns at once, or will be woken
    pub awake :
        s.phase ≢ handling → 0 < length s.loop.pending_functors → 0 < s.loop.wakeups + s.late

  calling-ne-handling : (cbs : List F) → calling cbs ≢ handling
  calling-ne-handling cbs e = cc

  behind :
      (xs ys zs ws all : List F) → xs ++ (ys ++ zs) ≡ all → xs ++ (ys ++ (zs ++ ws)) ≡ all ++ ws
  behind xs ys zs ws all e =
      ap (xs ++◌) (sym (append_assoc ys zs ws))
      ∙ sym (append_assoc xs (ys ++ zs) ws)
      ∙ ap (◌++ ws) e

  queue_in_loop_fields :
      (cb : F) (loop : EventLoop F)
      → ((queue_in_loop true cb loop).calling_pending_functors ≡ loop.calling_pending_functors)
        × ((queue_in_loop true cb loop).pending_functors ≡ loop.pending_functors ++ cb ∷ [])
  unfolding queue_in_loop add_pending wakeup
  queue_in_loop_fields cb loop = ground arith

  woken :
      (own : List F) (loop : EventLoop F) (late : ℕ)
      → (0 < length loop.pending_functors → 0 < loop.wakeups + late)
      → 0 < length (loop.pending_functors ++ own)
      → 0 < (loop.wakeups + length own) + late
  woken [] loop late known h = ground (arith, append-nil loop.pending_functors)
  woken (cb ∷ cbs) loop late known h = omega arith

  Step-IsAwake : {s t : System F} → Step s t → IsAwake s → IsAwake t
  unfolding add_pending needs_wakeup wakeup handle_read queue_in_loop take_pending stop_calling
  Step-IsAwake {s} (other_adds cb) a = record {
    flagged = a.flagged;
    in_order =
        behind s.called (to_call s.phase) s.loop.pending_functors (cb ∷ []) s.queued a.in_order;
    awake = λ e h. omega arith;
  }
  Step-IsAwake {s} (other_wakes h) a = record {
    flagged = a.flagged;
    in_order = a.in_order;
    awake = λ e h. omega arith;
  }
  Step-IsAwake {s} (poll_returns p) a = record {
    flagged = a.flagged ∙ ap is_calling p;
    in_order =
        ap (λ (ph : Phase F). s.called ++ (to_call ph ++ s.loop.pending_functors)) (sym p)
        ∙ a.in_order;
    awake = λ e h. absurd (e refl);
  }
  Step-IsAwake {s} (wakeup_handled p) a = record {
    flagged = a.flagged;
    in_order = a.in_order;
    awake = λ e h. absurd (e p);
  }
  Step-IsAwake {s} (handler_queues cb p) a = record {
    flagged = (queue_in_loop_fields cb s.loop).0 ∙ a.flagged;
    in_order =
        ap (λ (xs : List F). s.called ++ (to_call s.phase ++ xs)) (queue_in_loop_fields cb s.loop).1
        ∙ behind s.called (to_call s.phase) s.loop.pending_functors (cb ∷ []) s.queued a.in_order;
    awake = λ e h. absurd (e p);
  }
  Step-IsAwake {s} (takes p) a = record {
    flagged = refl;
    in_order =
        ap (λ (xs : List F). s.called ++ xs) (append-nil s.loop.pending_functors)
        ∙ ap (λ (ph : Phase F). s.called ++ (to_call ph ++ s.loop.pending_functors)) (sym p)
        ∙ a.in_order;
    awake = λ e h. absurd (omega arith);
  }
  Step-IsAwake {s} (calls cb cbs own p) a =
      let flag : s.loop.calling_pending_functors ≡ true = a.flagged ∙ ap is_calling p in
      let grown : queue_all own s.loop ≡ after own s.loop = queue_all-after own s.loop flag in
      let known : 0 < length s.loop.pending_functors → 0 < s.loop.wakeups + s.late =
        a.awake (λ e. calling-ne-handling (cb ∷ cbs) (sym p ∙ e)) in
      record {
        flagged = ap (λ (l : EventLoop F). l.calling_pending_functors) grown ∙ flag;
        in_order =
            ap (λ (l : EventLoop F). (s.called ++ cb ∷ []) ++ (cbs ++ l.pending_functors)) grown
            ∙ behind (s.called ++ cb ∷ []) cbs s.loop.pending_functors own s.queued (
                append_assoc s.called (cb ∷ []) (cbs ++ s.loop.pending_functors)
                ∙ ap (λ (ph : Phase F). s.called ++ (to_call ph ++ s.loop.pending_functors)) (sym p)
                ∙ a.in_order);
        awake = λ e h.
            subst (λ (l : EventLoop F). 0 < length l.pending_functors → 0 < l.wakeups + s.late)
              (sym grown) (λ h'. woken own s.loop s.late known h') h;
      }
  Step-IsAwake {s} (calls_end p) a = record {
    flagged = refl;
    in_order =
        ap (λ (ph : Phase F). s.called ++ (to_call ph ++ s.loop.pending_functors)) (sym p)
        ∙ a.in_order;
    awake = λ e h. a.awake (λ e'. calling-ne-handling [] (sym p ∙ e')) h;
  }

  -- In every state that the loop's thread and other threads reach in any interleaving: the flag
  -- `callingPendingFunctors_` says whether functors are being called; the functors called, those
  -- taken and those that wait are in this order the ones given to `queueInLoop`; and outside of the
  -- handlers, when a functor waits, the eventfd is set or a thread is about to set it.
  pub Reach-IsAwake : {s : System F} → Reach s → IsAwake s
  unfolding new_loop fresh
  Reach-IsAwake start = record {
    flagged = refl;
    in_order = refl;
    awake = λ e h. absurd (omega arith);
  }
  Reach-IsAwake (later r st) = Step-IsAwake st (Reach-IsAwake r)
