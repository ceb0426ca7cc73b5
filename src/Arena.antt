-- ===== src/Arena.antt =====
-- src/arena.rs: slots addressed by index, a free list used as a stack, and mark bits for the
-- collector. An `ArenaId` is its index. A `Vec` is a list in index order, so `pop` takes the last
-- element. The casts to `u32` and the `u64` counter wrap.
pub mod Live
pub mod Sweep
pub mod Links
use kryhtajs.Prelude.{
  ℕ, zero, suc, ◌+◌, ◌%◌, ◌^◌, ◌<◌, ◌≡◌, Bool, true, false, not, ◌||◌, Option, none, some, List, [],
  ◌∷◌, ◌++◌, length, get_elem?, set, All, ◌==◌, if◌then◌else◌, replicate,
}

pub record Arena {ℓ} (A : Type ℓ) : Type ℓ where
  pub slots : List A
  pub free_list : List ℕ
  pub marks : List Bool
  pub allocations : ℕ

-- `Vec::pop`
abbrev pub pop {ℓ} : {A : Type ℓ} → List A → Option (A × List A)
pop [] = none
pop (x ∷ xs) = elim (pop xs) [ none ↦ some (x, []) | some (y, rest) ↦ some (y, x ∷ rest) ]

-- The loop of `sweep`: unmarked indices are pushed, and every mark is cleared.
unfoldable pub unmarked_from : ℕ → List Bool → List ℕ
unmarked_from i [] = []
unmarked_from i (true ∷ ms) = unmarked_from (suc i) ms
unmarked_from i (false ∷ ms) = (i % 2 ^ 32) ∷ unmarked_from (suc i) ms

unfoldable pub cleared : List Bool → List Bool
cleared [] = []
cleared (m ∷ ms) = false ∷ cleared ms

module _ {ℓ} {A : Type ℓ} where
  unfoldable pub empty : Arena A
  empty = record { slots = []; free_list = []; marks = []; allocations = 0 }

  -- The body of `alloc` after the counter, on what `free_list.pop()` returns.
  unfoldable alloc_at : Option (ℕ × List ℕ) → A → Arena A → Arena A × ℕ
  alloc_at (some (index, rest)) v a = (
    record a { slots = set a.slots index v; free_list = rest; marks = set a.marks index false },
    index,
  )
  alloc_at none v a =
      let index = length a.slots % 2 ^ 32 in
      (record a { slots = a.slots ++ v ∷ []; marks = a.marks ++ false ∷ [] }, index)

  unfoldable pub alloc : A → Arena A → Arena A × ℕ
  unfolding alloc_at
  alloc v a = alloc_at (pop a.free_list) v (record a { allocations = (a.allocations + 1) % 2 ^ 64 })

  unfoldable pub get : Arena A → ℕ → Option A
  get a id = get_elem? a.slots id

  -- A write through `get_mut`, which does nothing where the index is out of range.
  unfoldable pub put : Arena A → ℕ → A → Arena A
  put a id v = record a { slots = set a.slots id v }

  -- `take`: the slot's value, with the default left in its place.
  unfoldable pub take : A → Arena A → ℕ → Option A × Arena A
  take default a id = elim (get_elem? a.slots id) [
    | none ↦ (none, a)
    | some v ↦ (some v, record a { slots = set a.slots id default })
  ]

  unfoldable pub mark : Arena A → ℕ → Arena A
  mark a id = record a { marks = set a.marks id true }

  unfoldable pub is_marked : Arena A → ℕ → Bool
  is_marked a id = elim (get_elem? a.marks id) [ none ↦ false | some b ↦ b ]

  unfoldable pub sweep : Arena A → Arena A
  unfolding unmarked_from cleared
  sweep a = record a { free_list = unmarked_from 0 a.marks; marks = cleared a.marks }

  unfoldable pub from_parts : List A → List ℕ → ℕ → Arena A
  from_parts slots free_list allocations = record {
    slots = slots;
    free_list = free_list;
    marks = replicate (length slots) false;
    allocations = allocations;
  }

-- Whether an index is on the free list.
abbrev pub elem : ℕ → List ℕ → Bool
elem i [] = false
elem i (j ∷ js) = i == j || elem i js

abbrev pub NoRepeat : List ℕ → Type 0
NoRepeat [] = Unit
NoRepeat (j ∷ js) = (elem j js ≡ false) × NoRepeat js

-- One mark for each slot, and a free list of distinct slots; indices fit in 32 bits.
pub record IsWellFormed {ℓ} {A : Type ℓ} (a : Arena A) : Type 0 where
  pub marked : length a.marks ≡ length a.slots
  pub in_range : All (λ i. i < length a.slots) a.free_list
  pub distinct : NoRepeat a.free_list
  pub small : length a.slots < 2 ^ 32

-- A slot is live when it exists and is not free.
pub record IsLive {ℓ} {A : Type ℓ} (a : Arena A) (i : ℕ) : Type 0 where
  pub exists : i < length a.slots
  pub taken : elem i a.free_list ≡ false
