-- ===== src/PReg/Inv.antt =====
-- The invariant of the registry: its map and its array against each other.
use cyc_flow.Base.{
  ℕ, suc, ◌+◌, ◌-◌, ◌%◌, ◌^◌, ◌≤◌, ◌<◌, ◌≡◌, ap, sym, ◌∙◌, inl, inr, Bool-cases, Option-cases, none,
  some, List, [], ◌∷◌, ◌++◌, length, get_or, length-append, get_or-append_left, get_or-append_right,
  arith, dec_lt,
}
use cyc_flow.Text.{Text, text_eq, text_eq→eq, text_eq_refl}
use cyc_flow.PReg.{PReg, empty, find, register, get_id, get_name}

-- The registry holds fewer names than an `int` counts.
abbrev pub HasRoom : PReg → Type 0
HasRoom r = length r.id_to_name + 1 < 2 ^ 31

-- Each entry of the map is 1 above the position of its name in the array.
abbrev pub Entries : List (Text × ℕ) → List Text → Type 0
Entries [] names = Unit {0}
Entries ((name, id) ∷ rest) names =
    (0 < id) × (id ≤ length names) × (get_or names (id - 1) [] ≡ name) × Entries rest names

-- Each position of the array is found under its name.
abbrev pub Complete : PReg → Type 0
Complete r =
    (i : ℕ) → i < length r.id_to_name → find (get_or r.id_to_name i []) r.name_to_id ≡ some (suc i)

pub record IsValid (r : PReg) : Type 0 where
  pub bounded : length r.id_to_name < 2 ^ 31
  pub entries : Entries r.name_to_id r.id_to_name
  pub complete : Complete r

pub empty-IsValid : IsValid empty
unfolding empty
empty-IsValid = record {
  bounded = omega arith;
  entries = tt;
  complete = λ i h. absurd (omega arith);
}

-- What `find` answers is the id of the name.
pub find-Entries :
    (name : Text) (entries : List (Text × ℕ)) (names : List Text) (id : ℕ)
    → Entries entries names
    → find name entries ≡ some id
    → (0 < id) × (id ≤ length names) × (get_or names (id - 1) [] ≡ name)
unfolding find
find-Entries name [] names id v h = absurd (ground arith)
find-Entries name ((key, k) ∷ rest) names id v h = elim (Bool-cases (text_eq key name)) [
  | inl same ↦ ground (arith, text_eq→eq key name same)
  | inr other ↦ find-Entries name rest names id (ground arith) (ground arith)
]

Entries-append :
    (entries : List (Text × ℕ)) (names : List Text) (name : Text)
    → Entries entries names
    → Entries entries (names ++ name ∷ [])
Entries-append [] names name v = tt
Entries-append ((key, k) ∷ rest) names name (p, q, e, v) = (
  p,
  omega (arith, length-append names (name ∷ [])),
  get_or-append_left names (name ∷ []) (k - 1) [] (omega arith) ∙ e,
  Entries-append rest names name v,
)

-- Both ways of `register`: a known name changes nothing, a new one gets the next id.
pub register-hit :
    (name : Text) (r : PReg) (id : ℕ) → find name r.name_to_id ≡ some id → register name r ≡ (id, r)
unfolding register
register-hit name r id e = rw (e, register)

pub extend : Text → PReg → PReg
extend name r = record {
  name_to_id = (name, suc (length r.id_to_name)) ∷ r.name_to_id;
  id_to_name = r.id_to_name ++ name ∷ [];
}

pub register-miss :
    (name : Text) (r : PReg)
    → HasRoom r
    → find name r.name_to_id ≡ none
    → register name r ≡ (suc (length r.id_to_name), extend name r)
unfolding register extend
register-miss name r room e =
    rw (e, register)
      (λ i. (
        next i,
        record {
          name_to_id = (name, next i) ∷ r.name_to_id;
          id_to_name = r.id_to_name ++ name ∷ [];
        },
      ))
  where
    next : length (r.id_to_name ++ name ∷ []) % 2 ^ 32 ≡ suc (length r.id_to_name)
    next = omega (arith, length-append r.id_to_name (name ∷ []))

extend-Complete :
    (name : Text) (r : PReg) → find name r.name_to_id ≡ none → Complete r → Complete (extend name r)
unfolding extend find
extend-Complete name r e c i h = elim (dec_lt i (length r.id_to_name)) [
  | yes p ↦
      ap (λ k. find k (extend name r).name_to_id)
        (get_or-append_left r.id_to_name (name ∷ []) i [] p)
      ∙ elim (Bool-cases (text_eq name (get_or r.id_to_name i []))) [
        | inl same ↦ absurd (
            none≢some (
              sym e
              ∙ ap (λ n. find n r.name_to_id) (text_eq→eq name (get_or r.id_to_name i []) same)
              ∙ c i p))
        | inr other ↦ rw other (c i p)
      ]
  | no p ↦
      let last : i ≡ length r.id_to_name + 0 =
        omega (arith, length-append r.id_to_name (name ∷ [])) in
      let here : get_or (r.id_to_name ++ name ∷ []) i [] ≡ name =
        ap (λ k. get_or (r.id_to_name ++ name ∷ []) k []) last
        ∙ get_or-append_right r.id_to_name (name ∷ []) 0 [] in
      ap (λ k. find k (extend name r).name_to_id) here
      ∙ rw (text_eq_refl name) (ap some (omega arith))
]
  where
    none≢some : {n : ℕ} → ¬ (none ≡ some n)
    none≢some q = cc

extend-IsValid :
    (name : Text) {r : PReg}
    → HasRoom r
    → find name r.name_to_id ≡ none
    → IsValid r
    → IsValid (extend name r)
extend-IsValid name {r} room e v = record {
  bounded = unfold extend in omega (arith, length-append r.id_to_name (name ∷ []));
  entries =
      unfold extend in
      (
        omega arith,
        omega (arith, length-append r.id_to_name (name ∷ [])),
        ap (λ k. get_or (r.id_to_name ++ name ∷ []) k []) (omega arith)
            ∙ get_or-append_right r.id_to_name (name ∷ []) 0 [],
        Entries-append r.name_to_id r.id_to_name name v.entries,
      );
  complete = extend-Complete name r e v.complete;
}

-- What registering a name does: the registry stays valid, the name is found under the id returned,
-- and every name found before is found under its old id.
pub record Registered (name : Text) (r : PReg) (out : ℕ × PReg) : Type 0 where
  pub valid : IsValid out.1
  pub found : find name out.1.name_to_id ≡ some out.0
  pub kept :
      (other : Text) (id : ℕ)
      → find other r.name_to_id ≡ some id
      → find other out.1.name_to_id ≡ some id
  pub grows : length r.id_to_name ≤ length out.1.id_to_name

pub register-Registered :
    (name : Text) {r : PReg} → HasRoom r → IsValid r → Registered name r (register name r)
register-Registered name {r} room v = elim (Option-cases (find name r.name_to_id)) [
  | inr (id, e) ↦
      rw (register-hit name r id e)
        (record { valid = v; found = e; kept = λ other k p. p; grows = omega arith })
  | inl e ↦ rw (register-miss name r room e) (record {
    valid = extend-IsValid name room e v;
    found = unfold extend find in rw (text_eq_refl name);
    kept = λ other k p. new_kept e other k p;
    grows = unfold extend in omega (arith, length-append r.id_to_name (name ∷ []));
  })
]
  where
    new_kept :
        find name r.name_to_id ≡ none
        → (other : Text) (id : ℕ) → find other r.name_to_id ≡ some id
        → find other (extend name r).name_to_id ≡ some id
    new_kept e other id p =
        unfold extend find in
        elim (Bool-cases (text_eq name other)) [
          | inl same ↦
              absurd
                (differ (sym e ∙ ap (λ n. find n r.name_to_id) (text_eq→eq name other same) ∙ p))
          | inr not_same ↦ rw not_same p
        ]
      where
        differ : ¬ (none ≡ some id)
        differ q = cc

-- `getName` is the inverse of the map: the id of a known name leads back to it.
pub get_name-find :
    (name : Text) (id : ℕ) {r : PReg}
    → IsValid r
    → find name r.name_to_id ≡ some id
    → get_name id r ≡ name
unfolding get_name
get_name-find name id {r} v e =
    ground (arith, find-Entries name r.name_to_id r.id_to_name id v.entries e, v.bounded)

-- `getID` is its second section alone: the first look only saves the exclusive lock.
pub get_id-register : (name : Text) (r : PReg) → get_id name r ≡ register name r
unfolding get_id register
get_id-register name r = elim (Option-cases (find name r.name_to_id)) [
  | inl e ↦ rw (e, get_id)
  | inr (id, e) ↦ rw (e, get_id, register)
]

-- A name's id leads back to the name, whether it was known or is new, and `getID` keeps the
-- registry valid. (The registry holds fewer names than an `int` counts.)
pub get_name-get_id :
    (name : Text) {r : PReg}
    → HasRoom r
    → IsValid r
    → (get_name (get_id name r).0 (get_id name r).1 ≡ name) × IsValid (get_id name r).1
get_name-get_id name {r} room v =
    let done = register-Registered name room v in
    rw (get_id-register name r)
      (get_name-find name (register name r).0 done.valid done.found, done.valid)

-- Whatever name is asked for in between, `getID` goes on giving a known name the id it had, and
-- changes nothing for it. (The registry is valid and holds fewer names than an `int` counts.)
pub get_id-kept :
    (name other : Text) (id : ℕ) {r : PReg}
    → HasRoom r
    → IsValid r
    → find other r.name_to_id ≡ some id
    → get_id other (get_id name r).1 ≡ (id, (get_id name r).1)
get_id-kept name other id {r} room v known = rw (get_id-register name r) (
    get_id-register other (register name r).1
    ∙ register-hit other (register name r).1 id
        ((register-Registered name room v).kept other id known))
