-- ===== src/PReg/Threads.antt =====
-- Calls of `getID` on many threads: each critical section is one step, in any order.
use native.Mathlib.Nat.{le_trans}
use cyc_flow.Base.{
  ℕ, ◌≤◌, ◌≡◌, ◌↔◌, ap, sym, ◌∙◌, some, [], ◌∷◌, ◌-◌, length, get_or, length-append, Option-cases,
  inl, inr, arith,
}
use cyc_flow.Text.{Text}
use cyc_flow.PReg.{PReg, find, register}
use cyc_flow.PReg.Inv.{
  IsValid, HasRoom, Registered, register-Registered, register-hit, find-Entries,
}

-- `look` is the section under the shared lock, `enter` the one under the exclusive lock.
pub data Step : PReg → PReg → Type 0 where
  look : (name : Text) (r : PReg) → Step r r
  enter : (name : Text) (r : PReg) → Step r (register name r).1

pub data Reach (r : PReg) : PReg → Type 0 where
  here : Reach r r
  next : {s t : PReg} → Reach r s → Step s t → Reach r t

register-grows :
    (name : Text) (r : PReg) → length r.id_to_name ≤ length (register name r).1.id_to_name
unfolding register
register-grows name r = elim (Option-cases (find name r.name_to_id)) [
  | inl e ↦ rw (e, register) (omega (arith, length-append r.id_to_name (name ∷ [])))
  | inr (id, e) ↦ rw (e, register) (omega arith)
]

Reach-grows : {r s : PReg} → Reach r s → length r.id_to_name ≤ length s.id_to_name
Reach-grows here = omega arith
Reach-grows (next p (look name s)) = Reach-grows p
Reach-grows (next p (enter name s)) = le_trans (Reach-grows p) (register-grows name s)

-- What later steps keep of a registry.
record IsLater (r s : PReg) : Type 0 where
  valid : IsValid s
  kept :
      (name : Text) (id : ℕ) → find name r.name_to_id ≡ some id → find name s.name_to_id ≡ some id

Reach-IsLater : {r s : PReg} → IsValid r → HasRoom s → Reach r s → IsLater r s
Reach-IsLater v room here = record { valid = v; kept = λ name id e. e }
Reach-IsLater v room (next p (look name s)) = Reach-IsLater v room p
Reach-IsLater v room (next p (enter name s)) =
    let before = Reach-IsLater v (omega (arith, register-grows name s)) p in
    let done = register-Registered name (omega (arith, register-grows name s)) before.valid in
    record { valid = done.valid; kept = λ other id e. done.kept other id (before.kept other id e) }

-- One thread has registered `a`; whatever critical sections other threads then run, a later
-- registration of `b` returns the same id exactly when `b` is `a`. (The registry is valid at the
-- start, and holds fewer names than an `int` counts at both registrations.)
pub register-agree :
    (a b : Text) {r s : PReg}
    → IsValid r
    → HasRoom r
    → HasRoom s
    → Reach (register a r).1 s
    → ((register b s).0 ≡ (register a r).0) ↔ (a ≡ b)
register-agree a b {r} {s} v room room' p = (same_name, same_id)
  where
    first : Registered a r (register a r)
    first = register-Registered a room v

    later : IsLater (register a r).1 s
    later = Reach-IsLater first.valid room' p

    known : find a s.name_to_id ≡ some (register a r).0
    known = later.kept a (register a r).0 first.found

    last : Registered b s (register b s)
    last = register-Registered b room' later.valid

    same_id : a ≡ b → (register b s).0 ≡ (register a r).0
    same_id e =
        ap (λ n. (register n s).0) (sym e) ∙ ap (λ o. o.0) (register-hit a s (register a r).0 known)

    same_name : (register b s).0 ≡ (register a r).0 → a ≡ b
    same_name e =
        sym
          (find-Entries a (register b s).1.name_to_id (register b s).1.id_to_name (register a r).0
            last.valid.entries (last.kept a (register a r).0 known)).2
        ∙ ap (λ k. get_or (register b s).1.id_to_name (k - 1) []) (sym e)
        ∙ (find-Entries b (register b s).1.name_to_id (register b s).1.id_to_name (register b s).0
            last.valid.entries last.found).2
