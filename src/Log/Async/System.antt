-- ===== src/Log/Async/System.antt =====
-- logger/AsyncLogging.cc: any number of threads that log and the writing thread, interleaved.
use my_file_server.Common.{
  ℕ, ◌<◌, ◌≡◌, refl, sym, ap, subst, ◌∙◌, arith, Bool, true, false, List, [], ◌++◌, Bytes, length,
  ok, append_assoc, append-nil,
}
use my_file_server.Log.Stream.{FixedBuffer, new_buffer}
use my_file_server.Log.File.{Platform, LogFile}
use my_file_server.Log.File.Storing.{Takes}
use my_file_server.Log.File.Writing.{IsOpen, contents}
use my_file_server.Log.Async.{Front, Back, new_front, new_back, append, collect, finish}
use my_file_server.Log.Async.Buffers.{
  IsFront, IsIdle, IsWriting, texts, arrays, waiting, texts-append_list, arrays-append,
}
use my_file_server.Log.Async.Rounds.{append-waiting, collect-waiting, finish-contents}

pub record System : Type 0 where
  pub front : Front
  pub back : Back
  -- whether the writing thread is behind its lock
  pub is_writing : Bool
  -- the lines of all calls of `append`, the buffers taken under the lock, and those written
  pub lines : Bytes
  pub taken : List FixedBuffer
  pub written : List FixedBuffer

abbrev pub initial_system : (a b c d : Bytes) → LogFile → System
initial_system a b c d output = record {
  front = new_front a b;
  back = new_back c d output;
  is_writing = false;
  lines = [];
  taken = [];
  written = [];
}

module _ (p : Platform) (n : ℕ) where
  -- Lines are shorter than a buffer.
  pub data Step (s : System) : System → Type 0 where
    logs :
        (bytes line : Bytes) (f : Front)
        → length bytes ≡ n
        → length line < n
        → append bytes line s.front ≡ ok f
        → Step s (record s { front = f; lines = s.lines ++ line })
    collects :
        (f : Front) (b : Back)
        → s.is_writing ≡ false
        → collect s.front s.back ≡ ok (f, b)
        → Step s
            (record s { front = f; back = b; is_writing = true; taken = s.taken ++ b.to_write })
    finishes :
        (b : Back)
        → s.is_writing ≡ true
        → finish p s.back ≡ ok b
        → Step s (record s { back = b; is_writing = false; written = s.written ++ s.back.to_write })

  pub data Reach (start : System) : System → Type 0 where
    here : Reach start start
    later : {s t : System} → Reach start s → Step s t → Reach start t

  -- The writing thread has written what it took, but for what it is writing.
  abbrev pub InPhase : Back → (taken written : List FixedBuffer) → Bool → Type 0
  InPhase back taken written false = IsIdle n back × (taken ≡ written)
  InPhase back taken written true = IsWriting n back × (taken ≡ written ++ back.to_write)

  pub record IsOrdered (s : System) : Type 0 where
    pub front_ready : IsFront n s.front
    pub output_open : IsOpen s.back.output
    pub in_phase : InPhase s.back s.taken s.written s.is_writing
    -- the lines are what the buffers that were taken hold, and then what waits
    pub kept : texts s.taken ++ waiting s.front ≡ s.lines
    -- the files hold the arrays of the buffers that were written
    pub stored : contents s.back.output ≡ arrays s.written

  Step-IsOrdered : Takes p → {s t : System} → Step s t → IsOrdered s → IsOrdered t
  Step-IsOrdered takes {s} (logs bytes line f hb hl e) o =
      let (f', e', ready, text) = append-waiting n bytes line s.front o.front_ready hb hl in
      let same : f' ≡ f = cc in
      record {
        front_ready = subst (IsFront n) same ready;
        output_open = o.output_open;
        in_phase = o.in_phase;
        kept =
            ap (λ (g : Front). texts s.taken ++ waiting g) (sym same)
            ∙ ap (texts s.taken ++◌) text
            ∙ sym (append_assoc (texts s.taken) (waiting s.front) line)
            ∙ ap (◌++ line) o.kept;
        stored = o.stored;
      }
  Step-IsOrdered takes {s} (collects f b w e) o =
      let (idle, done) = subst (InPhase s.back s.taken s.written) w o.in_phase in
      let (f', b', e', ready, writing, none_waits, all, out) =
        collect-waiting n s.front s.back o.front_ready idle in
      let same_front : f' ≡ f = cc in
      let same_back : b' ≡ b = cc in
      record {
        front_ready = subst (IsFront n) same_front ready;
        output_open = subst IsOpen (sym out ∙ ap (λ (c : Back). c.output) same_back) o.output_open;
        in_phase = (subst (IsWriting n) same_back writing, ap (◌++ b.to_write) done);
        kept =
            ap (λ (xs : Bytes). texts (s.taken ++ b.to_write) ++ xs)
              (ap waiting (sym same_front) ∙ none_waits)
            ∙ append-nil (texts (s.taken ++ b.to_write))
            ∙ texts-append_list s.taken b.to_write
            ∙ ap (λ (c : Back). texts s.taken ++ texts c.to_write) (sym same_back)
            ∙ ap (texts s.taken ++◌) all
            ∙ o.kept;
        stored = ap (λ (c : Back). contents c.output) (sym same_back) ∙ ap contents out ∙ o.stored;
      }
  Step-IsOrdered takes {s} (finishes b w e) o =
      let (writing, done) = subst (InPhase s.back s.taken s.written) w o.in_phase in
      let (b', e', idle, out_open, out) = finish-contents p n s.back takes writing o.output_open in
      let same : b' ≡ b = cc in
      record {
        front_ready = o.front_ready;
        output_open = subst (λ (c : Back). IsOpen c.output) same out_open;
        in_phase = (subst (IsIdle n) same idle, done);
        kept = o.kept;
        stored =
            ap (λ (c : Back). contents c.output) (sym same)
            ∙ out
            ∙ ap (◌++ arrays s.back.to_write) o.stored
            ∙ sym (arrays-append s.written s.back.to_write);
      }

  -- The state before the first call: four buffers of `n` bytes, and a log that is open and empty.
  pub initial_system-IsOrdered :
      (a b c d : Bytes) (output : LogFile)
      → length a ≡ n
      → length b ≡ n
      → length c ≡ n
      → length d ≡ n
      → IsOpen output
      → contents output ≡ []
      → IsOrdered (initial_system a b c d output)
  unfolding new_front new_back texts arrays waiting
  initial_system-IsOrdered a b c d output ha hb hc hd o e = record {
    front_ready = record {
      buffer = new_buffer a;
      is_current = refl;
      fits = record { sized = ha; fixed = omega arith };
      spare_empty = record { empty_sized = hb; at_start = refl };
      refilled = λ e. absurd cc;
      full_fits = tt;
    };
    output_open = o;
    in_phase = (
      record {
        first_buffer = new_buffer c;
        second_buffer = new_buffer d;
        has_first = refl;
        has_second = refl;
        first_empty = record { empty_sized = hc; at_start = refl };
        second_empty = record { empty_sized = hd; at_start = refl };
        nothing_left = refl;
      },
      refl,
    );
    kept = refl;
    stored = e;
  }

  -- From a state in order, with an fwrite that takes at least a byte and at most what it is given: in
  -- any interleaving of calls of `append` and turns of the writing thread, the two sides stay in
  -- order: the lines are, in the order of the calls, the text of the buffers that were taken and then
  -- what waits in front, and the files hold the arrays of the buffers that were written.
  pub Reach-IsOrdered : Takes p → {s t : System} → IsOrdered s → Reach s t → IsOrdered t
  Reach-IsOrdered takes o here = o
  Reach-IsOrdered takes o (later r st) = Step-IsOrdered takes st (Reach-IsOrdered takes o r)

  -- Whether the writing thread's next step succeeds.
  abbrev pub Moves : System → Bool → Type 0
  Moves s false = (f : Front) × (b : Back) × (collect s.front s.back ≡ ok (f, b))
  Moves s true = (b : Back) × (finish p s.back ≡ ok b)

  Moves-phase :
      Takes p
      → (s : System) (w : Bool) → IsFront n s.front
      → IsOpen s.back.output
      → InPhase s.back s.taken s.written w
      → Moves s w
  Moves-phase takes s false v o (idle, done) =
      let (f, b, e, _, _, _, _, _) = collect-waiting n s.front s.back v idle in (f, b, e)
  Moves-phase takes s true v o (writing, done) =
      let (b, e, _, _, _) = finish-contents p n s.back takes writing o in (b, e)

  -- With an fwrite that takes at least a byte and at most what it is given, in every state that is
  -- reached from a state in order no call faults: `append` of a line that is shorter than a buffer
  -- returns, and the writing thread's next step returns.
  pub Reach-Moves :
      Takes p
      → {s t : System} → IsOrdered s
      → Reach s t
      → (bytes line : Bytes) → length bytes ≡ n
      → length line < n
      → ((f : Front) × (append bytes line t.front ≡ ok f)) × Moves t t.is_writing
  Reach-Moves takes {t} o r bytes line hb hl =
      let reached : IsOrdered t = Reach-IsOrdered takes o r in
      let (f, e, _, _) = append-waiting n bytes line t.front reached.front_ready hb hl in
      (
        (f, e),
        Moves-phase takes t t.is_writing reached.front_ready reached.output_open reached.in_phase,
      )
