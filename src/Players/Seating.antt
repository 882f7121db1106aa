-- ===== src/Players/Seating.antt =====
-- What the seats of engine/src/player_manager.cc have to do with each other: the invariant, and the
-- facts on lists and maps that its preservation rests on. The children prove it of the methods.
pub mod Changes
pub mod Rounds
pub mod Sitters
use poker_epoll.Base.{
  ℕ, zero, suc, ◌+◌, ◌≤◌, ◌<◌, ◌≡◌, refl, ◌≢◌, List, [], ◌∷◌, ◌++◌, Option, none, some, Bool, true,
  false, ◌||◌, length, get_elem?, set, contains, Map, lookup, has_key, insert, erase, lookup-insert,
  ltb, ◌==◌, if◌then◌else◌, arith, replicate,
}
use poker_epoll.Rules.{PlayerId, max_players}
use poker_epoll.Players.{Player, PlayerManager, occupant, drop_first, new_manager}

abbrev pub id_of : Option Player → Option PlayerId
id_of none = none
id_of (some p) = some p.id

-- Who sits at a seat.
abbrev pub sitter : List (Option Player) → ℕ → Option PlayerId
sitter seats s = id_of (occupant seats s)

abbrev pub count : ℕ → List ℕ → ℕ
count s [] = 0
count s (x ∷ xs) = (if x == s then 1 else 0) + count s xs

-- How many players a seat is given to.
abbrev pub owners : ℕ → Map ℕ → ℕ
owners s [] = 0
owners s ((id, x) ∷ m) = (if x == s then 1 else 0) + owners s m

-- No key is listed twice.
abbrev pub Unique {ℓ} : {V : Type ℓ} → Map V → Type ℓ
Unique [] = Unit
Unique ((k, v) ∷ m) = (lookup k m ≡ none) × Unique m

abbrev pub Distinct : List ℕ → Type 0
Distinct [] = Unit
Distinct (x ∷ xs) = (contains x xs ≡ false) × Distinct xs

pub record IsSeated (m : PlayerManager) : Type 0 where
  pub seats_length : length m.seats ≡ max_players
  -- A seat of the table is open, or it is given to one player; there is no other seat.
  pub once :
      (s : ℕ) → count s m.open_seats + owners s m.index ≡ (if ltb s max_players then 1 else 0)
  pub accounted : length m.open_seats + length m.index ≡ max_players
  pub unique : Unique m.index
  pub held_once : Distinct m.holding
  pub held_known : (id : ℕ) → contains id m.holding ≡ true → has_key id m.index ≡ true
  -- A player sits at the seat that the index gives, unless they are held.
  pub placed :
      (id s : ℕ)
      → lookup id m.index ≡ some s
      → sitter m.seats s ≡ (if contains id m.holding then none else some id)
  pub vacant : (s : ℕ) → contains s m.open_seats ≡ true → sitter m.seats s ≡ none
  pub owned : (s id : ℕ) → sitter m.seats s ≡ some id → lookup id m.index ≡ some s

pub sitter-set :
    (seats : List (Option Player)) (s t : ℕ) (v : Option Player)
    → s < length seats
    → sitter (set seats s v) t ≡ (if t == s then id_of v else sitter seats t)
sitter-set [] s t v h = elim h [ ]
sitter-set (x ∷ seats) zero zero v h = refl
sitter-set (x ∷ seats) zero (suc t) v h = ground arith
sitter-set (x ∷ seats) (suc s) zero v h = ground arith
sitter-set (x ∷ seats) (suc s) (suc t) v h = ground (arith, sitter-set seats s t v)

pub count_pos : (s : ℕ) (xs : List ℕ) → contains s xs ≡ true → 0 < count s xs
count_pos s [] h = cc
count_pos s (x ∷ xs) h = ground (arith, count_pos s xs)

pub count-append : (s : ℕ) (xs ys : List ℕ) → count s (xs ++ ys) ≡ count s xs + count s ys
count-append s [] ys = omega arith
count-append s (x ∷ xs) ys = omega (arith, count-append s xs ys)

pub contains-append :
    (s : ℕ) (xs ys : List ℕ) → contains s (xs ++ ys) ≡ (contains s xs || contains s ys)
contains-append s [] ys = refl
contains-append s (x ∷ xs) ys = ground (arith, contains-append s xs ys)

pub contains-drop_first :
    (k j : ℕ) (xs : List ℕ)
    → Distinct xs
    → contains j (drop_first k xs) ≡ (if j == k then false else contains j xs)
contains-drop_first k j [] h = ground arith
contains-drop_first k j (x ∷ xs) h = ground (arith, contains-drop_first k j xs h.1)

pub drop_first-Distinct : (k : ℕ) (xs : List ℕ) → Distinct xs → Distinct (drop_first k xs)
drop_first-Distinct k [] h = tt
drop_first-Distinct k (x ∷ xs) h =
    ground (arith, drop_first-Distinct k xs h.1, contains-drop_first k x xs h.1)

pub append-Distinct :
    (k : ℕ) (xs : List ℕ) → Distinct xs → contains k xs ≡ false → Distinct (xs ++ k ∷ [])
append-Distinct k [] h e = (refl, tt)
append-Distinct k (x ∷ xs) h e =
    ground (arith, append-Distinct k xs h.1, contains-append x xs (k ∷ []))

pub owners-insert :
    (s k v : ℕ) (m : Map ℕ)
    → lookup k m ≡ none
    → owners s (insert k v m) ≡ owners s m + (if v == s then 1 else 0)
owners-insert s k v [] h = omega arith
owners-insert s k v (e ∷ m) h = ground (arith, owners-insert s k v m)

pub owners-erase :
    (s k v : ℕ) (m : Map ℕ)
    → lookup k m ≡ some v
    → owners s (erase k m) + (if v == s then 1 else 0) ≡ owners s m
owners-erase s k v [] h = cc
owners-erase s k v (e ∷ m) h = ground (arith, owners-erase s k v m)

pub owners_pos : (k s : ℕ) (m : Map ℕ) → lookup k m ≡ some s → 0 < owners s m
owners_pos k s [] h = cc
owners_pos k s (e ∷ m) h = ground (arith, owners_pos k s m)

-- Two players who are given one seat are two owners.
pub owners_two :
    (j k s : ℕ) (m : Map ℕ) → lookup j m ≡ some s → lookup k m ≡ some s → j ≢ k → 1 < owners s m
owners_two j k s [] h h' ne = cc
owners_two j k s (e ∷ m) h h' ne =
    ground (arith, owners_two j k s m, owners_pos j s m, owners_pos k s m)

module _ {ℓ} {V : Type ℓ} where
  pub length-insert_new :
      (k : ℕ) (v : V) (m : Map V) → lookup k m ≡ none → length (insert k v m) ≡ suc (length m)
  length-insert_new k v [] h = refl
  length-insert_new k v (e ∷ m) h = ground (arith, length-insert_new k v m)

  pub length-erase :
      (k : ℕ) (v : V) (m : Map V) → lookup k m ≡ some v → suc (length (erase k m)) ≡ length m
  length-erase k v [] h = cc
  length-erase k v (e ∷ m) h = ground (arith, length-erase k v m)

  pub lookup-erase :
      (j k : ℕ) (m : Map V)
      → Unique m
      → lookup j (erase k m) ≡ (if j == k then none else lookup j m)
  lookup-erase j k [] h = ground arith
  lookup-erase j k (e ∷ m) h = ground (arith, lookup-erase j k m h.1)

  pub insert-Unique : (k : ℕ) (v : V) (m : Map V) → Unique m → Unique (insert k v m)
  insert-Unique k v [] h = (refl, tt)
  insert-Unique k v (e ∷ m) h = ground (arith, insert-Unique k v m h.1, lookup-insert e.0 k v m)

  pub erase-Unique : (k : ℕ) (m : Map V) → Unique m → Unique (erase k m)
  erase-Unique k [] h = tt
  erase-Unique k (e ∷ m) h = ground (arith, erase-Unique k m h.1, lookup-erase e.0 k m h.1)
