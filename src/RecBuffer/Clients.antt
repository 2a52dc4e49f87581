-- ===== src/RecBuffer/Clients.antt =====
-- The list of subscribed clients.
use cyc_flow.Base.{
  ℕ, ◌≡◌, refl, inl, inr, false, not, ◌&&◌, ◌||◌, Bool-cases, List, [], ◌∷◌, ◌++◌, ◌==◌, ==→eq,
  arith,
}
use cyc_flow.RecBuffer.{RecBuffer, contains, erase, add_client, remove_client}

-- Each client stands in the list once.
abbrev pub IsUnique : List ℕ → Type 0
IsUnique [] = Unit
IsUnique (c ∷ clients) = (contains c clients ≡ false) × IsUnique clients

contains-append :
    (client new : ℕ) (clients : List ℕ)
    → contains client (clients ++ new ∷ []) ≡ (contains client clients || new == client)
unfolding contains
contains-append client new [] = ground arith
contains-append client new (c ∷ clients) = ground (arith, contains-append client new clients)

IsUnique-append :
    (client : ℕ) (clients : List ℕ)
    → IsUnique clients
    → contains client clients ≡ false
    → IsUnique (clients ++ client ∷ [])
unfolding contains
IsUnique-append client [] u h = (refl, tt)
IsUnique-append client (c ∷ clients) u h = (
  ground (arith, contains-append c client clients),
  IsUnique-append client clients u.1 (ground arith),
)

-- `addClient` subscribes the client, changes nothing for the others, and keeps the list free of
-- repeats.
pub add_client-contains :
    (client other : ℕ) (b : RecBuffer)
    → IsUnique b.clients
    → (contains other (add_client client b).clients ≡ (contains other b.clients || client == other))
      × IsUnique (add_client client b).clients
unfolding add_client
add_client-contains client other b u = elim (Bool-cases (contains client b.clients)) [
  | inl known ↦ rw known (ground (arith, ==→eq client other, known), u)
  | inr new ↦
      rw new (contains-append other client b.clients, IsUnique-append client b.clients u new)
]

contains-erase :
    (client other : ℕ) (clients : List ℕ)
    → IsUnique clients
    → contains other (erase client clients) ≡ (contains other clients && not (client == other))
unfolding contains erase
contains-erase client other [] u = refl
contains-erase client other (c ∷ clients) u = ground (
  arith,
  ==→eq c client,
  ==→eq client other,
  ==→eq c other,
  u.0,
  contains-erase client other clients u.1,
)

IsUnique-erase :
    (client : ℕ) (clients : List ℕ) → IsUnique clients → IsUnique (erase client clients)
unfolding erase
IsUnique-erase client [] u = tt
IsUnique-erase client (c ∷ clients) u = elim (Bool-cases (c == client)) [
  | inl here ↦ rw here u.1
  | inr there ↦
      rw there (
        ground (arith, contains-erase client c clients u.1, u.0),
        IsUnique-erase client clients u.1,
      )
]

-- `removeClient` of a list free of repeats unsubscribes the client, changes nothing for the others,
-- and keeps the list free of repeats.
pub remove_client-contains :
    (client other : ℕ) (b : RecBuffer)
    → IsUnique b.clients
    → (contains other (remove_client client b).clients
        ≡ (contains other b.clients && not (client == other)))
      × IsUnique (remove_client client b).clients
unfolding remove_client
remove_client-contains client other b u =
    (contains-erase client other b.clients u, IsUnique-erase client b.clients u)
