-- ===== src/Core/Pool.antt =====
-- The allocator of CatSyn/src/allostery/allostery.cpp for blocks of 4096 bytes and more: a region of
-- the address space for each of 16 size classes, a counter of the blocks cut from it, and a stack of
-- the blocks that were given back. Each call is one step: the stacks and counters are atomic. The
-- operating system's calls that reserve, commit and reset the pages are not modelled.
pub mod Classes
pub mod Blocks
pub mod Invariant
pub mod Served
pub mod Disjoint
mod Tests
use cat_syn.Prelude.{
  ℕ, zero, suc, ◌+◌, ◌-◌, ◌*◌, ◌/◌, ◌^◌, ◌%◌, Bool, true, false, Option, none, some, List, [], ◌∷◌,
  ltb, leb, ◌==◌, ◌&&◌, if◌then◌else◌,
}

abbrev pub num_size_classes : ℕ
num_size_classes = 16

-- `base`, `bin`
abbrev pub base : ℕ
base = 123145302310912

abbrev pub bin : ℕ
bin = 137438953472

-- `std::bit_width`; a size_t has at most 64 bits.
unfoldable pub bit_width : ℕ → ℕ → ℕ
bit_width zero n = 0
bit_width (suc fuel) n = elim (n == 0) [ true ↦ 0 | false ↦ suc (bit_width fuel (n / 2)) ]

-- `size_to_size_class`: `bit_width(size - 1) - 12` in a `size_t`, with its check.
unfoldable pub size_to_size_class : ℕ → Option ℕ
unfolding bit_width
size_to_size_class size =
    let c =
      (bit_width 64 ((size + 18446744073709551615) % 18446744073709551616) + 18446744073709551604)
      % 18446744073709551616 in
    if ltb c num_size_classes then some c else none

-- `1 << size_class_offset << size_class`
unfoldable pub class_to_size : ℕ → ℕ
class_to_size c = 4096 * 2 ^ c

abbrev pub class_of : ℕ → ℕ
class_of ptr = (ptr - base) / bin

-- `alloc_size` of a pointer of the pool.
unfoldable pub alloc_size : ℕ → ℕ
unfolding class_to_size
alloc_size ptr = class_to_size (class_of ptr)

unfoldable pub own_ptr : ℕ → Bool
own_ptr ptr = leb base ptr && ltb ptr (base + bin * num_size_classes)

pub record Pool : Type 0 where
  pub stacks : ℕ → List ℕ
  pub cur : ℕ → ℕ

abbrev pub update : {A : Type 0} → (ℕ → A) → ℕ → A → ℕ → A
update f c a d = if c == d then a else f d

-- A block from the stack of the class, or a new one, cut off the region; `none` is a failed check.
unfoldable pub take_block : Pool → ℕ → Option (ℕ × Pool)
unfolding class_to_size
take_block p c = elim (p.stacks c) [
  | ptr ∷ rest ↦ some (ptr, record p { stacks = update p.stacks c rest })
  | [] ↦
      let offset = (p.cur c * class_to_size c) % 18446744073709551616 in
      if ltb offset bin
      then some (base + bin * c + offset, record p { cur = update p.cur c (p.cur c + 1) })
      else none
]

-- `Pool::alloc`
unfoldable pub alloc : Pool → ℕ → Option (ℕ × Pool)
unfolding size_to_size_class take_block
alloc p size = elim (size_to_size_class size) [ none ↦ none | some c ↦ take_block p c ]

-- `Pool::dealloc`
unfoldable pub dealloc : Pool → ℕ → Option Pool
unfolding alloc_size size_to_size_class
dealloc p ptr = elim (size_to_size_class (alloc_size ptr)) [
  | none ↦ none
  | some c ↦ some (record p { stacks = update p.stacks c (ptr ∷ p.stacks c) })
]

-- What `consume_all` leaves in `temp`, the last block that it took on top, and the pushes back.
abbrev pub push_all : List ℕ → List ℕ → List ℕ
push_all [] ys = ys
push_all (x ∷ xs) ys = push_all xs (x ∷ ys)

reset_below : ℕ → Pool → Pool
reset_below zero p = p
reset_below (suc c) p =
    let q = reset_below c p in
    record q { stacks = update q.stacks c (push_all (push_all (q.stacks c) []) []) }

-- `low_memory`, with the time of the call before, which it gives back: 8 seconds apart at least.
unfoldable pub low_memory : ℕ → ℕ → Pool → ℕ × Pool
unfolding reset_below
low_memory cur_time last_time p =
    if ltb 8 ((cur_time + 18446744073709551616 - last_time) % 18446744073709551616)
    then (cur_time, reset_below num_size_classes p)
    else (last_time, p)

abbrev pub empty : Pool
empty = record { stacks = λ c. []; cur = λ c. 0 }
