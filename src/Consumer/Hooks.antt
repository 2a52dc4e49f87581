-- ===== src/Consumer/Hooks.antt =====
-- What a run of the worker loop hands to the derived class.
use cyc_flow.Base.{◌≡◌, refl, ap, inl, inr, false, not, if◌then◌else◌, Bool-cases, List, [], ◌∷◌}
use cyc_flow.Consumer.{ReaderOps, ConsumerHooks, Consumer, Round, loop, worker_loop}

module _ {ℓ κ μ} {R : Type ℓ} {S : Type κ} {B : Type μ} (ops : ReaderOps R B)
    (hooks : ConsumerHooks S B) where
  -- The valid batches that the reader gives while the consumer runs.
  abbrev pub handed : List (Round R) → R → List B
  handed [] r = []
  handed (round ∷ rounds) r =
      let more = handed rounds (ops.next (round.before r)).1 in
      let batch = (ops.next (round.before r)).0 in
      if not round.still_running then [] else if not (ops.is_valid batch) then [] else batch ∷ more

  abbrev pub consume_all : List B → S → S
  consume_all [] s = s
  consume_all (b ∷ batches) s = consume_all batches (hooks.consume b s)

  loop-handed :
      (rounds : List (Round R)) (r : R) (s : S)
      → (loop ops hooks rounds r s).1 ≡ consume_all (handed rounds r) s
  unfolding loop
  loop-handed [] r s = refl
  loop-handed (round ∷ rounds) r s = elim (Bool-cases round.still_running) [
    | inr e ↦ rw e refl
    | inl e ↦ elim (Bool-cases (ops.is_valid (ops.next (round.before r)).0)) [
      | inr f ↦ rw (e, f) refl
      | inl f ↦
          rw (e, f)
            (loop-handed rounds (ops.next (round.before r)).1
              (hooks.consume (ops.next (round.before r)).0 s))
    ]
  ]

  -- A run of the consumer's thread calls the start hook once, then the derived class with each
  -- valid batch of the reader, once and in order, up to the first batch that is not valid or the
  -- first test that finds the consumer stopped, then the stop hook once, and leaves the consumer
  -- not running.
  pub worker_loop-handed :
      (rounds : List (Round R)) (c : Consumer R S)
      → let c' = worker_loop ops hooks rounds c in
        (c'.derived
          ≡ hooks.on_consume_stop
              (consume_all (handed rounds c.reader) (hooks.on_consume_start c.derived)))
        × (c'.running ≡ false)
  unfolding worker_loop
  worker_loop-handed rounds c = (
    ap hooks.on_consume_stop (loop-handed rounds c.reader (hooks.on_consume_start c.derived)),
    refl,
  )
