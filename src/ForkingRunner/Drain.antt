-- ===== src/ForkingRunner/Drain.antt =====
-- The poll loop of src/exec/forking_runner.c reads both pipes to their ends.
use ctest.Prelude.{
  ℕ, zero, suc, ◌+◌, ◌≤◌, ◌<◌, ◌≡◌, refl, ap, ap₂, subst, ◌∙◌, sym, ◌⊎◌, inl, inr, ℤ, pos, negsuc,
  Bool, true, false, ◌||◌, List, [], ◌∷◌, ◌++◌, some, length, map, append-nil, Bool-cases, arith,
}
use ctest.Pipe.{grants}
use ctest.Output.Reader.{OutputReader, on_data_available}
use ctest.Output.Sized.{IsSized, contents}
use ctest.Output.Kept.{on_data_available-IsSized, on_data_available-contents, on_data_available-rc}
use ctest.ExecEvents.{Event, Storage}
use ctest.ExecEvents.Reader.{Reader, reader_on_data_available}
use ctest.ExecEvents.Phase.{AllSendable, Phase}
use ctest.ExecEvents.Step.{Moved, reader_on_data_available-Moved}
use ctest.ExecEvents.RoundTrip.{Phase-end}
use ctest.ForkingRunner.{negate, is_open}
use ctest.ForkingRunner.Wait.{
  pollin, Round, polled, Waiting, close_hooks, close_output, after_hooks, after_output,
  output_event, handle_output, hooks_event, handle_hooks, any_open, poll_loop,
}

-- A pipe that is read, with fewer than `m` bytes to come, or one that is read to its end.
abbrev pub Going : ℕ → List ℕ → ℤ → Type 0
Going m stream fd =
    ((n : ℕ) × ((fd ≡ pos (suc n)) × (length stream < m)))
    ⊎ ((n : ℕ) × ((fd ≡ negsuc n) × (stream ≡ [])))

pub record OutputIn (text : List ℕ) (m : ℕ) (r : OutputReader) (out : List ℕ) (fd : ℤ)
    : Type 0 where
  pub sized : IsSized r
  pub text_same : contents r ++ out ≡ text
  pub output_going : Going m out fd

empty-of-length : (s : List ℕ) → length s ≤ 0 → s ≡ []
empty-of-length [] p = refl
empty-of-length (x ∷ s) p = ground arith

or-false : (a b : Bool) → (a || b) ≡ false → (a ≡ false) × (b ≡ false)
or-false false b e = (refl, e)
or-false true b e = ground arith

module _ {F : Type 0} (storage : Storage F) where
  pub record HooksIn (es : List (Event F)) (m : ℕ) (r : Reader F) (hooks : List ℕ) (fd : ℤ)
      : Type 0 where
    pub pending : List (Event F)
    pub phase : Phase storage r pending hooks
    pub sendable : AllSendable storage pending
    pub events_same : r.events ++ pending ≡ es
    pub hooks_going : Going m hooks fd

  abbrev pub BothIn : List (Event F) → List ℕ → ℕ → ℕ → Waiting F → Type 0
  BothIn es text m k w =
      HooksIn es m w.events_reader w.hooks w.hooks_fd
      × OutputIn text k w.output_reader w.out w.output_fd

  -- What follows a read of the hooks' pipe that returned `c`.
  after_hooks-BothIn :
      (es : List (Event F)) (text : List ℕ) (m k c d : ℕ) (w : Waiting F)
      → HooksIn es (suc m) w.events_reader w.hooks w.hooks_fd
      → OutputIn text k w.output_reader w.out w.output_fd
      → w.hooks_fd ≡ pos (suc d)
      → (c ≡ 0 → w.hooks ≡ [])
      → c + length w.hooks < suc m
      → BothIn es text m k (after_hooks (pos c) w)
  unfolding after_hooks close_hooks negate
  after_hooks-BothIn es text m k zero d w h o e ended few = (
    record {
      pending = h.pending;
      phase = h.phase;
      sendable = h.sendable;
      events_same = h.events_same;
      hooks_going = inr (d, (ap negate e, ended refl));
    },
    o,
  )
  after_hooks-BothIn es text m k (suc c) d w h o e ended few = (
    record {
      pending = h.pending;
      phase = h.phase;
      sendable = h.sendable;
      events_same = h.events_same;
      hooks_going = inl (d, (e, omega (arith, few)));
    },
    o,
  )

  -- One event of the hooks' pipe.
  handle_hooks-BothIn :
      (es : List (Event F)) (text : List ℕ) (m k n : ℕ) (w : Waiting F)
      → BothIn es text (suc m) k w
      → (w' : Waiting F) × ((handle_hooks storage (pollin true (grants n)) w ≡ some w')
          × BothIn es text m k w')
  unfolding handle_hooks hooks_event is_open
  handle_hooks-BothIn es text m k n w (h, o) = elim h.hooks_going [
    | inr (d, (shut, at_end)) ↦
        let still : is_open w.hooks_fd ≡ false = ap is_open shut in
        rw (still, handle_hooks)
          (
            w,
            (
              refl,
              (
                record {
                  pending = h.pending;
                  phase = h.phase;
                  sendable = h.sendable;
                  events_same = h.events_same;
                  hooks_going = inr (d, (shut, at_end));
                },
                o,
              ),
            ),
          )
    | inl (d, (goes, few)) ↦
        let still : is_open w.hooks_fd ≡ true = ap is_open goes in
        let v : Moved storage w.events_reader h.pending w.hooks
            (reader_on_data_available storage true (grants n) w.events_reader w.hooks) =
          reader_on_data_available-Moved storage n w.events_reader h.pending w.hooks h.sendable
            h.phase in
        let w1 : Waiting F = record w { events_reader = v.reader; hooks = v.stream } in
        rw (still, v.result, handle_hooks, hooks_event)
          (
            after_hooks (pos v.count) w1,
            (
              refl,
              after_hooks-BothIn es text m k v.count d w1
                  (record {
                    pending = v.pending;
                    phase = v.phase;
                    sendable = v.sendable;
                    events_same = v.same ∙ h.events_same;
                    hooks_going = inl (d, (goes, omega (arith, few, v.counted)));
                  })
                  o goes
                  (λ z.
                    empty-of-length v.stream (omega (arith, v.counted, ap length (v.emptied z))))
                  (omega (arith, few, v.counted)),
            ),
          )
  ]

  -- The same for the output's pipe.
  after_output-BothIn :
      (es : List (Event F)) (text : List ℕ) (m k c d : ℕ) (w : Waiting F)
      → HooksIn es m w.events_reader w.hooks w.hooks_fd
      → OutputIn text (suc k) w.output_reader w.out w.output_fd
      → w.output_fd ≡ pos (suc d)
      → (c ≡ 0 → w.out ≡ [])
      → c + length w.out < suc k
      → BothIn es text m k (after_output (pos c) w)
  unfolding after_output close_output negate
  after_output-BothIn es text m k zero d w h o e ended few = (
    h,
    record {
      sized = o.sized;
      text_same = o.text_same;
      output_going = inr (d, (ap negate e, ended refl));
    },
  )
  after_output-BothIn es text m k (suc c) d w h o e ended few = (
    h,
    record {
      sized = o.sized;
      text_same = o.text_same;
      output_going = inl (d, (e, omega (arith, few)));
    },
  )

  handle_output-BothIn :
      (es : List (Event F)) (text : List ℕ) (m k n : ℕ) (w : Waiting F)
      → BothIn es text m (suc k) w
      → BothIn es text m k (handle_output (pollin true (grants n)) w)
  unfolding handle_output output_event is_open
  handle_output-BothIn es text m k n w (h, o) = elim o.output_going [
    | inr (d, (shut, at_end)) ↦
        let still : is_open w.output_fd ≡ false = ap is_open shut in
        rw (still, handle_output)
          (
            h,
            record {
              sized = o.sized;
              text_same = o.text_same;
              output_going = inr (d, (shut, at_end));
            },
          )
    | inl (d, (goes, few)) ↦
        let still : is_open w.output_fd ≡ true = ap is_open goes in
        let (_, r', out') = on_data_available true (grants n) w.output_reader w.out in
        let (c, (rc, emptied, counted)) = on_data_available-rc n w.output_reader w.out o.sized in
        let w1 : Waiting F = record w { output_reader = r'; out = out' } in
        rw (still, handle_output, rc)
          (after_output-BothIn es text m k c d w1 h
            (record {
              sized = on_data_available-IsSized true (grants n) w.output_reader w.out o.sized;
              text_same =
                  on_data_available-contents (grants n) w.output_reader w.out o.sized ∙ o.text_same;
              output_going = inl (d, (goes, omega (arith, few, counted)));
            })
            goes (λ z. empty-of-length out' (omega (arith, counted, ap length (emptied z))))
            (omega (arith, few, counted)))
  ]

  -- Both pipes readable in each round, with the sizes of the reads.
  abbrev pub all_readable : List (ℕ × ℕ) → List Round
  all_readable ns = map (λ n. polled (pollin true (grants n.0)) (pollin true (grants n.1))) ns

  -- Both pipes are at their ends.
  pub record Drained (es : List (Event F)) (text : List ℕ) (w : Waiting F) : Type 0 where
    pub told : w.events_reader.events ≡ es
    pub is_sized : IsSized w.output_reader
    pub captured : contents w.output_reader ≡ text

  at_end-empty :
      (m : ℕ) (stream : List ℕ) (fd : ℤ) → Going m stream fd → is_open fd ≡ false → stream ≡ []
  unfolding is_open
  at_end-empty m stream fd (inl (n, (e, few))) shut =
      let c : true ≡ false = sym (ap is_open e) ∙ shut in ground arith
  at_end-empty m stream fd (inr (n, (e, at_end))) shut = at_end

  any_open-Drained :
      (es : List (Event F)) (text : List ℕ) (m k : ℕ) (w : Waiting F)
      → BothIn es text m k w
      → any_open w ≡ false
      → Drained es text w
  unfolding any_open
  any_open-Drained es text m k w (h, o) e =
      let (hs, os) = or-false (is_open w.hooks_fd) (is_open w.output_fd) e in
      let none_left : w.hooks ≡ [] = at_end-empty m w.hooks w.hooks_fd h.hooks_going hs in
      let nothing : h.pending ≡ [] =
        Phase-end storage w.events_reader h.pending h.sendable
          (subst (λ (l : List ℕ). Phase storage w.events_reader h.pending l) none_left h.phase) in
      let none_out : w.out ≡ [] = at_end-empty k w.out w.output_fd o.output_going os in
      record {
        told =
            sym (append-nil w.events_reader.events)
            ∙ ap (λ (l : List (Event F)). w.events_reader.events ++ l) (sym nothing)
            ∙ h.events_same;
        is_sized = o.sized;
        captured =
            sym (append-nil (contents w.output_reader))
            ∙ ap (λ (l : List ℕ). contents w.output_reader ++ l) (sym none_out)
            ∙ o.text_same;
      }

  Going-zero : (stream : List ℕ) (fd : ℤ) → Going 0 stream fd → is_open fd ≡ false
  unfolding is_open
  Going-zero stream fd (inl (n, (e, few))) = ground arith
  Going-zero stream fd (inr (n, (e, at_end))) = ap is_open e

  -- With a read of each pipe in more rounds than bytes are to come, the loop ends.
  pub poll_loop-Drained :
      (es : List (Event F)) (text : List ℕ) (ns : List (ℕ × ℕ)) (w : Waiting F)
      → BothIn es text (length ns) (length ns) w
      → (w' : Waiting F) × ((poll_loop storage (all_readable ns) w ≡ some (false, w'))
          × Drained es text w')
  unfolding poll_loop any_open
  poll_loop-Drained es text [] w b =
      let e : any_open w ≡ false =
        ap₂ ◌||◌ (Going-zero w.hooks w.hooks_fd b.0.hooks_going)
          (Going-zero w.out w.output_fd b.1.output_going) in
      rw (e) (w, (refl, any_open-Drained es text 0 0 w b e))
  poll_loop-Drained es text (n ∷ ns) w b = elim (Bool-cases (any_open w)) [
    | inr e ↦
        rw (e, poll_loop)
          (w, (refl, any_open-Drained es text (suc (length ns)) (suc (length ns)) w b e))
    | inl e ↦
        let (w1, (done, b1)) = handle_hooks-BothIn es text (length ns) (suc (length ns)) n.0 w b in
        let (w2, (run, drained)) =
          poll_loop-Drained es text ns (handle_output (pollin true (grants n.1)) w1)
            (handle_output-BothIn es text (length ns) (length ns) n.1 w1 b1) in
        rw (e, done, poll_loop) (w2, (run, drained))
  ]
