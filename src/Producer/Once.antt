-- ===== src/Producer/Once.antt =====
-- The buffer of a producer is made once.
use cyc_flow.Base.{
  ℕ, ◌≡◌, ◌≢◌, refl, ap, sym, ◌∙◌, subst, inl, inr, true, false, ◌||◌, ◌==◌, if◌then◌else◌,
  Bool-cases, length, arith,
}
use cyc_flow.RecBuffer.{RecBuffer}
use cyc_flow.Producer.{
  WriterOps, ProducerHooks, Producer, is_missing, initialize, get_buffer, start, stop,
}

module _ {ℓ κ μ} {W : Type ℓ} {S : Type κ} {B : Type μ} (ops : WriterOps W B)
    (hooks : ProducerHooks S B) (make_writer : RecBuffer → ℕ → W) where
  initialize-kept :
      (p : Producer W S) → p.is_initialized ≡ true → initialize ops hooks make_writer p ≡ p
  unfolding initialize
  initialize-kept p e = simp (e) refl

  initialize-first :
      (p : Producer W S)
      → p.is_initialized ≡ false
      → length (hooks.define_rule p.derived).0.attrs ≢ 0
      → (initialize ops hooks make_writer p).is_initialized ≡ true
  unfolding initialize
  initialize-first p e n = simp (e, some_fields) refl
    where
      some_fields : (length (hooks.define_rule p.derived).0.attrs == 0) ≡ false
      some_fields = ground (arith, n)

  ready-after :
      (p : Producer W S)
      → length (hooks.define_rule p.derived).0.attrs ≢ 0
      → (initialize ops hooks make_writer p).is_initialized ≡ true
  ready-after p n = elim (Bool-cases p.is_initialized) [
    | inl e ↦ ap (λ q. q.is_initialized) (initialize-kept p e) ∙ e
    | inr e ↦ initialize-first p e n
  ]

  -- What `start` leaves of a producer that is initialized.
  start-kept :
      (p : Producer W S)
      → p.is_initialized ≡ true
      → ((start ops hooks make_writer p).is_initialized ≡ true)
        × ((start ops hooks make_writer p).buffer ≡ p.buffer)
  unfolding start
  start-kept p e = elim (Bool-cases p.running) [
    | inl f ↦ simp (f) (e, refl)
    | inr f ↦ simp (f) (subst Keeps (sym (initialize-kept p e)) (begun-kept p e))
  ]
    where
      begun : Producer W S → Producer W S
      begun q =
          if is_missing q.buffer || is_missing q.writer
          then q
          else record q { running = true; joinable = true }

      Keeps : Producer W S → Type 0
      Keeps q = ((begun q).is_initialized ≡ true) × ((begun q).buffer ≡ p.buffer)

      begun-kept :
          (q : Producer W S)
          → q.is_initialized ≡ true
          → ((begun q).is_initialized ≡ true) × ((begun q).buffer ≡ q.buffer)
      begun-kept q i = elim (Bool-cases (is_missing q.buffer || is_missing q.writer)) [
        | inl g ↦ simp (g) (i, refl)
        | inr g ↦ simp (g) (i, refl)
      ]

  stop-kept :
      (p : Producer W S)
      → ((stop ops hooks make_writer p).is_initialized ≡ p.is_initialized)
        × ((stop ops hooks make_writer p).buffer ≡ p.buffer)
  unfolding stop
  stop-kept p = elim (Bool-cases p.running) [
    | inl f ↦ simp (f) (refl, refl)
    | inr f ↦ simp (f) (refl, refl)
  ]

  -- The buffer that `getBuffer` gives is made once: asked again, after a start, and after a stop
  -- that follows it, the producer gives the same buffer, although each call runs `initialize`. (The
  -- derived class defines a rule with a field.)
  pub get_buffer-kept :
      (p : Producer W S)
      → length (hooks.define_rule p.derived).0.attrs ≢ 0
      → let (buffer, p') = get_buffer ops hooks make_writer p in
        let started = start ops hooks make_writer p' in
        ((get_buffer ops hooks make_writer p').0 ≡ buffer)
        × ((get_buffer ops hooks make_writer started).0 ≡ buffer)
        × ((get_buffer ops hooks make_writer (stop ops hooks make_writer started)).0 ≡ buffer)
  unfolding get_buffer
  get_buffer-kept p n = (
    ap (λ q. q.buffer) (initialize-kept p' ready),
    ap (λ q. q.buffer) (initialize-kept started s.0) ∙ s.1,
    ap (λ q. q.buffer) (initialize-kept (stop ops hooks make_writer started) (t.0 ∙ s.0))
        ∙ t.1
        ∙ s.1,
  )
    where
      p' : Producer W S
      p' = initialize ops hooks make_writer p

      started : Producer W S
      started = start ops hooks make_writer p'

      ready : p'.is_initialized ≡ true
      ready = ready-after p n

      s : (started.is_initialized ≡ true) × (started.buffer ≡ p'.buffer)
      s = start-kept p' ready

      t :
          ((stop ops hooks make_writer started).is_initialized ≡ started.is_initialized)
          × ((stop ops hooks make_writer started).buffer ≡ started.buffer)
      t = stop-kept started
