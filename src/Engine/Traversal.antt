-- ===== src/Engine/Traversal.antt =====
-- How the traversal state of internal/engine/engine.go bounds a chain of pipes.
use tubo.Base.{
  ℕ, ◌+◌, ◌-◌, ◌≤◌, ◌<◌, ◌≡◌, refl, ◌↔◌, false, ◌||◌, List, [], ◌∷◌, ◌++◌, arith, Bytes, same_sym,
  contains_string, length, length-append, Result, ok, ◌>>=◌, bind-ok,
}
use mathlib.Core.List.{append_assoc, append-nil}
use tubo.Engine.{EngineError, TraversalState, advance, from_wire, has_repeat}

-- No id occurs twice.
abbrev pub Distinct : List Bytes → Type 0
Distinct [] = Unit {0}
Distinct (x ∷ xs) = (contains_string x xs ≡ false) × Distinct xs

-- `budget` hops in all: those made, which are distinct pipes, and those left.
pub record IsBounded (budget : ℕ) (s : TraversalState) : Type 0 where
  pub distinct : Distinct s.visited_ids
  pub spent : length s.visited_ids + s.remaining ≡ budget

contains_string-append :
    (a : Bytes) (xs ys : List Bytes)
    → contains_string a (xs ++ ys) ≡ (contains_string a xs || contains_string a ys)
unfolding contains_string
contains_string-append a [] ys = refl
contains_string-append a (x ∷ xs) ys = ground (arith, contains_string-append a xs ys)

Distinct-snoc :
    (xs : List Bytes) (a : Bytes)
    → Distinct xs
    → contains_string a xs ≡ false
    → Distinct (xs ++ (a ∷ []))
unfolding contains_string
Distinct-snoc [] a d h = (refl, tt)
Distinct-snoc (x ∷ xs) a d h = (
  ground (arith, contains_string-append x xs (a ∷ []), same_sym a x),
  Distinct-snoc xs a d.1 (ground arith),
)

abbrev NoneIn : List Bytes → List Bytes → Type 0
NoneIn seen [] = Unit {0}
NoneIn seen (x ∷ xs) = (contains_string x seen ≡ false) × NoneIn seen xs

NoneIn-cons :
    (a : Bytes) (seen xs : List Bytes)
    → NoneIn (a ∷ seen) xs ↔ ((contains_string a xs ≡ false) × NoneIn seen xs)
unfolding contains_string
NoneIn-cons a seen [] = (λ _. (refl, tt), λ _. tt)
NoneIn-cons a seen (x ∷ xs) = (
  λ h. ground (arith, same_sym a x, NoneIn-cons a seen xs),
  λ h. ground (arith, same_sym a x, NoneIn-cons a seen xs),
)

-- The loop over the set `seen` finds a repetition exactly when there is one.
has_repeat_iff :
    (seen xs : List Bytes) → (has_repeat seen xs ≡ false) ↔ (Distinct xs × NoneIn seen xs)
unfolding has_repeat
has_repeat_iff seen [] = (λ _. (tt, tt), λ _. refl)
has_repeat_iff seen (x ∷ xs) = (
  λ h. ground (arith, NoneIn-cons x seen xs, has_repeat_iff (x ∷ seen) xs),
  λ h. ground (arith, NoneIn-cons x seen xs, has_repeat_iff (x ∷ seen) xs),
)

NoneIn-nil : (xs : List Bytes) → NoneIn [] xs
unfolding contains_string
NoneIn-nil [] = tt
NoneIn-nil (x ∷ xs) = (refl, NoneIn-nil xs)

-- `FromWire` accepts exactly the chains of distinct pipes that leave a hop within a limit of 1 to
-- 8; the state then holds the chain, and the limit is its whole budget.
pub from_wire_iff :
    (visited : List Bytes) (hop_limit : ℕ) (s : TraversalState)
    → (from_wire visited hop_limit ≡ ok s) ↔ (
        (hop_limit ≤ 8)
        × (length visited < hop_limit)
        × (s.visited_ids ≡ visited)
        × (s.max_hops ≡ hop_limit)
        × IsBounded hop_limit s)
unfolding from_wire
from_wire_iff visited hop_limit s = (
  λ h. ground (arith, has_repeat_iff [] visited),
  λ h. ground (arith, has_repeat_iff [] visited, NoneIn-nil visited),
)

-- One state after another, one call of `Advance` for each pipe entered.
pub advances : TraversalState → List Bytes → Result EngineError TraversalState
advances s [] = ok s
advances s (id ∷ ids) = advance s id >>= λ t. advances t ids

advance-IsBounded :
    (budget : ℕ) (s t : TraversalState) (id : Bytes)
    → IsBounded budget s
    → advance s id ≡ ok t
    → IsBounded budget t
unfolding advance
advance-IsBounded budget s t id b h =
    ground (arith, Distinct-snoc s.visited_ids id, length-append s.visited_ids (id ∷ []))

abbrev entered_state : TraversalState → Bytes → TraversalState
entered_state s id = record s {
  visited_ids = s.visited_ids ++ (id ∷ []);
  remaining = s.remaining - 1;
}

advance_iff :
    (s t : TraversalState) (id : Bytes)
    → (advance s id ≡ ok t)
      ↔ ((0 < s.remaining) × (contains_string id s.visited_ids ≡ false) × (t ≡ entered_state s id))
unfolding advance
advance_iff s t id = (λ h. ground arith, λ h. ground arith)

Distinct-append_head :
    (xs ys : List Bytes) (a : Bytes) → Distinct (xs ++ (a ∷ ys)) → contains_string a xs ≡ false
unfolding contains_string
Distinct-append_head [] ys a d = refl
Distinct-append_head (x ∷ xs) ys a d =
    ground
      (arith, contains_string-append x xs (a ∷ ys), same_sym a x, Distinct-append_head xs ys a d.1)

-- From a state without repetition the chain can be entered, one `Advance` for each pipe, exactly
-- when no pipe comes twice and the hops suffice. The state then holds the whole chain in order,
-- and each entered pipe has taken one hop.
pub advances_iff :
    (ids : List Bytes) (s t : TraversalState)
    → Distinct s.visited_ids
    → (advances s ids ≡ ok t) ↔ (
        Distinct (s.visited_ids ++ ids)
        × (length ids ≤ s.remaining)
        × (t.visited_ids ≡ s.visited_ids ++ ids)
        × (t.remaining ≡ s.remaining - length ids)
        × (t.max_hops ≡ s.max_hops))
unfolding advances
advances_iff [] s t d = rw append-nil (λ h. ground arith, λ h. ground arith)
advances_iff (id ∷ ids) s t d = (
  λ h.
      let (s', entered, rest) = bind-ok (advance s id) (λ t'. advances t' ids) h in
      let (left, new, moved) = (advance_iff s s' id).0 entered in
      let later =
        (advances_iff ids (entered_state s id) t (Distinct-snoc s.visited_ids id d new)).0
          (rw (← moved) rest) in
      let (apart, short, chain, hops, limit) = rw (append_assoc s.visited_ids) at later in
      (apart, omega arith, chain, omega arith, limit),
  λ h.
      let (apart, short, chain, hops, limit) = h in
      let new = Distinct-append_head s.visited_ids ids id apart in
      let now : advance s id ≡ ok (entered_state s id) =
        (advance_iff s (entered_state s id) id).1 (omega arith, new, refl) in
      rw now (
        (advances_iff ids (entered_state s id) t (Distinct-snoc s.visited_ids id d new)).1
          (rw (append_assoc s.visited_ids) (apart, omega arith, chain, omega arith, limit))),
)
