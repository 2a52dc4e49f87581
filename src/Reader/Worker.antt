-- ===== src/Reader/Worker.antt =====
-- `finish`, the worker's check and its plan keep the order of the buffered reader.
use cyc_flow.Base.{
  ℕ, ◌+◌, ◌≤◌, ◌<◌, ◌≡◌, sym, subst, ◌⊎◌, inl, inr, Bool, true, false, not, Bool-cases,
  if◌then◌else◌, some, List, sub64-eq, arith,
}
use cyc_flow.Chunk.{Byte}
use cyc_flow.Chunk.Log.{Holds}
use cyc_flow.RecBuffer.{RecBuffer, get_total_written_and_size}
use cyc_flow.RecBuffer.Read.{IsKept}
use cyc_flow.Reader.{Reader, finish, is_finished, check, plan}
use cyc_flow.Reader.Threads.{World, Phase}
use cyc_flow.Reader.Invariant.{InOrder, InPhase}

pub at_phase :
    {start base : ℕ} {w : World} (phase : Phase)
    → w.phase ≡ phase
    → InOrder start base w
    → InOrder start base (record w { phase = phase })
at_phase {start} {base} {w} phase e d = subst (λ q. InOrder start base (record w { phase = q })) e d

flags-InOrder :
    {start base : ℕ} {w : World} (running finishing : Bool) (target : ℕ)
    → InPhase w.phase
        (record w.reader { running = running; finishing = finishing; finish_target = target })
        w.buffer
    → InOrder start base w
    → InOrder start base (record w {
      reader = record w.reader { running = running; finishing = finishing; finish_target = target };
    })
flags-InOrder running finishing target phase d = record {
  holds = d.holds;
  small = d.small;
  unique = d.unique;
  known = d.known;
  kept = d.kept;
  sized = d.sized;
  capacity_positive = d.capacity_positive;
  bg_room = d.bg_room;
  active_room = d.active_room;
  short = d.short;
  bg_short = d.bg_short;
  capacity_short = d.capacity_short;
  in_phase = phase;
  from_start = d.from_start;
  idx_in = d.idx_in;
  next_cursor = d.next_cursor;
  active = d.active;
  background = d.background;
  covers = d.covers;
  shown = d.shown;
}

InPhase-finishing :
    (phase : Phase) (r : Reader) (b : RecBuffer) (finishing : Bool) (target : ℕ)
    → InPhase phase r b
    → InPhase phase (record r { finishing = finishing; finish_target = target }) b
InPhase-finishing Phase.idle r b finishing target p = p
InPhase-finishing (Phase.planned cursor count) r b finishing target p = p
InPhase-finishing (Phase.fetched read) r b finishing target p = p

pub finish-InOrder :
    {start base : ℕ} {w : World}
    → InOrder start base w
    → InOrder start base (record w { reader = finish w.buffer w.reader })
unfolding finish
finish-InOrder {start} {base} {w} d = elim (Bool-cases w.reader.running) [
  | inr e ↦
      subst
        (λ b. InOrder start base (record w {
          reader = if not b then w.reader else record w.reader {
            finishing = true;
            finish_target = w.buffer.impl.total_written;
          };
        }))
        (sym e) d
  | inl e ↦
      subst
        (λ b. InOrder start base (record w {
          reader = if not b then w.reader else record w.reader {
            finishing = true;
            finish_target = w.buffer.impl.total_written;
          };
        }))
        (sym e)
        (flags-InOrder w.reader.running true w.buffer.impl.total_written
          (InPhase-finishing w.phase w.reader w.buffer true w.buffer.impl.total_written d.in_phase)
          d)
]

check-cases : (r : Reader) → ((check r).1 ≡ r) ⊎ ((check r).1 ≡ record r { running = false })
unfolding check
check-cases r = elim (Bool-cases r.running) [
  | inr e ↦ inl (simp e)
  | inl e ↦ elim (Bool-cases (is_finished r)) [
    | inl f ↦ inr (simp (e, f))
    | inr f ↦ inl (simp (e, f))
  ]
]

pub check-InOrder :
    {start base : ℕ} {w : World}
    → w.phase ≡ Phase.idle
    → InOrder start base w
    → InOrder start base (record w { reader = (check w.reader).1 })
check-InOrder {start} {base} {w} e d = elim (check-cases w.reader) [
  | inl same ↦ subst (λ r. InOrder start base (record w { reader = r })) (sym same) d
  | inr stops ↦
      subst (λ r. InOrder start base (record w { reader = r })) (sym stops)
        (flags-InOrder false w.reader.finishing w.reader.finish_target
          (subst (λ q. InPhase q (record w.reader { running = false }) w.buffer) (sym e)
            (at_phase Phase.idle e d).in_phase)
          d)
]

plan-lem :
    (b : RecBuffer) {log : List Byte} (r : Reader) (cursor count : ℕ)
    → Holds b.impl log
    → IsKept r.reader_cursor b
    → 0 < r.capacity
    → plan b r ≡ some (cursor, count)
    → (cursor ≡ r.reader_cursor)
      × (0 < count)
      × (count ≤ r.capacity)
      × (cursor + count ≤ b.impl.total_written)
unfolding plan get_total_written_and_size
plan-lem b r cursor count h kept p e =
    ground (arith, sub64-eq b.impl.total_written r.reader_cursor kept.0 h.no_wrap, kept)

pub plan-InOrder :
    {start base : ℕ} {w : World} (cursor count : ℕ)
    → w.phase ≡ Phase.idle
    → w.reader.running ≡ true
    → w.reader.bg_is_full ≡ false
    → plan w.buffer w.reader ≡ some (cursor, count)
    → InOrder start base w
    → InOrder start base (record w { phase = Phase.planned cursor count })
plan-InOrder {start} {base} {w} cursor count e run free job d' = record {
  holds = d.holds;
  small = d.small;
  unique = d.unique;
  known = d.known;
  kept = d.kept;
  sized = d.sized;
  capacity_positive = d.capacity_positive;
  bg_room = d.bg_room;
  active_room = d.active_room;
  short = d.short;
  bg_short = d.bg_short;
  capacity_short = d.capacity_short;
  in_phase = (free, run, empty_bg d.in_phase, facts.0, facts.1, facts.2, facts.3);
  from_start = d.from_start;
  idx_in = d.idx_in;
  next_cursor = d.next_cursor;
  active = d.active;
  background = d.background;
  covers = d.covers;
  shown = d.shown;
}
  where
    d : InOrder start base (record w { phase = Phase.idle })
    d = at_phase Phase.idle e d'

    facts :
        (cursor ≡ w.reader.reader_cursor)
        × (0 < count)
        × (count ≤ w.reader.capacity)
        × (cursor + count ≤ w.buffer.impl.total_written)
    facts = plan-lem w.buffer w.reader cursor count d.holds d.kept d.capacity_positive job

    empty_bg : (w.reader.bg_is_full ≡ true) ⊎ (w.reader.bg_count ≡ 0) → w.reader.bg_count ≡ 0
    empty_bg (inr h) = h
    empty_bg (inl h) = absurd (cc)
