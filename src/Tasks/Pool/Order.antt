-- ===== src/Tasks/Pool/Order.antt =====
-- base/ThreadPool.cc: any number of threads, interleaved.
use my_file_server.Common.{
  length, length-nil, length-append, ◌↔◌, ◌≡◌, refl, sym, ap, ◌∙◌, Bool, true, false, not, arith,
  List, [], ◌∷◌, ◌++◌, append_assoc, append-nil,
}
use my_file_server.Tasks.Pool.{
  TaskPool, task, nothing_yet, finished, new_pool, start, stop, add, look, look_at,
}

module _ {ℓ} (F : Type ℓ) where
  -- The pool, the tasks that were added, those that a thread has taken, and whether `stop` was called.
  pub record System : Type ℓ where
    pub pool : TaskPool F
    pub added : List F
    pub taken : List F
    pub stopped : Bool

module _ {ℓ} {F : Type ℓ} where
  unfoldable pub begun : System F
  begun = record { pool = start new_pool; added = []; taken = []; stopped = false }

  -- A step under the lock, of whichever thread.
  pub data Step (s : System F) : System F → Type ℓ where
    adds : (f : F) → Step s (record s { pool = add f s.pool; added = s.added ++ f ∷ [] })
    stops : Step s (record s { pool = stop s.pool; stopped = true })
    takes :
        (f : F) (pool : TaskPool F)
        → look s.pool ≡ task f pool
        → Step s (record s { pool = pool; taken = s.taken ++ f ∷ [] })

  pub data Reach : System F → Type ℓ where
    here : Reach begun
    later : {s t : System F} → Reach s → Step s t → Reach t

  look_task :
      (pool : TaskPool F) (fs : List F)
      → pool.queue ≡ fs
      → (f : F) (rest : TaskPool F) → look_at pool fs ≡ task f rest
      → (pool.queue ≡ f ∷ rest.queue) × (rest.running ≡ pool.running)
  unfolding look_at
  look_task pool [] q f rest e = absurd (ground (arith, e))
  look_task pool (g ∷ fs) q f rest e = ground (arith, e)

  -- What holds of every state that is reached.
  pub record IsFair (s : System F) : Type ℓ where
    -- every task is taken once at most, in the order in which they were added, and none is lost
    pub in_order : s.taken ++ s.pool.queue ≡ s.added
    pub flag : s.pool.running ≡ not s.stopped

  Step-IsFair : {s t : System F} → Step s t → IsFair s → IsFair t
  unfolding add stop look
  Step-IsFair {s} (adds f) i = record {
    in_order = sym (append_assoc s.taken s.pool.queue (f ∷ [])) ∙ ap (◌++ f ∷ []) i.in_order;
    flag = i.flag;
  }
  Step-IsFair {s} stops i = record { in_order = i.in_order; flag = refl }
  Step-IsFair {s} (takes f pool e) i =
      let (queue, running) = look_task s.pool s.pool.queue refl f pool e in
      record {
        in_order =
            append_assoc s.taken (f ∷ []) pool.queue ∙ ap (s.taken ++◌) (sym queue) ∙ i.in_order;
        flag = running ∙ i.flag;
      }

  -- Nothing was taken off the end exactly where nothing waits.
  all_taken :
      (taken waiting added : List F) → taken ++ waiting ≡ added → taken ≡ added → waiting ≡ []
  all_taken taken waiting added e all =
      length-nil waiting (omega (arith, length-append taken waiting, ap length (e ∙ sym all)))

  look_none :
      (pool : TaskPool F) (fs taken added : List F) (stopped : Bool)
      → taken ++ fs ≡ added
      → pool.running ≡ not stopped
      → ((look_at pool fs ≡ finished) ↔ ((stopped ≡ true) × (taken ≡ added)))
        × ((look_at pool fs ≡ nothing_yet) ↔ ((stopped ≡ false) × (taken ≡ added)))
  unfolding look_at
  look_none pool [] taken added true e r =
      let all = sym (append-nil taken) ∙ e in
      (
        ((λ h. (refl, all)), λ h. rw r refl),
        ((λ h. absurd (ground (arith, h, r))), λ h. absurd (ground (arith, h.0))),
      )
  look_none pool [] taken added false e r =
      let all = sym (append-nil taken) ∙ e in
      (
        ((λ h. absurd (ground (arith, h, r))), λ h. absurd (ground (arith, h.0))),
        ((λ h. (refl, all)), λ h. rw r refl),
      )
  look_none pool (f ∷ fs) taken added stopped e r = (
    (
      (λ h. absurd (ground (arith, h))),
      λ h. absurd (ground (arith, all_taken taken (f ∷ fs) added e h.1)),
    ),
    (
      (λ h. absurd (ground (arith, h))),
      λ h. absurd (ground (arith, all_taken taken (f ∷ fs) added e h.1)),
    ),
  )

  Reach-IsFair_only : {s : System F} → Reach s → IsFair s
  unfolding begun start new_pool
  Reach-IsFair_only here = record { in_order = refl; flag = refl }
  Reach-IsFair_only (later r st) = Step-IsFair st (Reach-IsFair_only r)

  -- In every state that threads reach in any interleaving: each task is taken once at most, in the
  -- order of the calls of `add`, and none is lost; and a thread that looks ends exactly where `stop`
  -- was called and every task was taken, and waits exactly where it was not and none is left.
  pub Reach-IsFair :
      {s : System F}
      → Reach s
      → IsFair s
        × ((look s.pool ≡ finished) ↔ ((s.stopped ≡ true) × (s.taken ≡ s.added)))
        × ((look s.pool ≡ nothing_yet) ↔ ((s.stopped ≡ false) × (s.taken ≡ s.added)))
  unfolding look
  Reach-IsFair {s} r =
      let fair : IsFair s = Reach-IsFair_only r in
      let (ends, waits) =
        look_none s.pool s.pool.queue s.taken s.added s.stopped fair.in_order fair.flag in
      (fair, ends, waits)
