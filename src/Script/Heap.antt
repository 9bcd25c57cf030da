-- ===== src/Script/Heap.antt =====
-- The bump allocator.
use nerves_initramfs.Base.{false, ℕ, ◌+◌, ◌%◌, ◌≤◌, ◌<◌, ◌≡◌, ◌⊎◌, inl, inr, arith, Bool-cases, ltb}
use nerves_initramfs.Script.Machine.{State, ok, stop, fatal, alloc_heap, round_up, heap_size}

-- An index that the allocator leaves: inside the heap, and a multiple of eight.
abbrev pub IsIndex : ℕ → Type 0
IsIndex n = (n ≤ heap_size) × (n % 8 ≡ 0)

pub round_up-le : (n : ℕ) → n ≤ heap_size → round_up n ≤ heap_size
round_up-le n h = omega arith

pub round_up_aligned : (i n : ℕ) → i % 8 ≡ 0 → round_up (i + n) ≡ i + round_up n
round_up_aligned i n h = omega arith

module _ {W : Type 0} where
  -- From an index that is a multiple of eight inside the heap, a block that fits is where the
  -- index was, wholly inside the heap and below the next index, which is again such an index; one
  -- that does not fit ends the program. The variables, the environment and the world stay.
  alloc_heap_lem :
      (n : ℕ) (s : State W)
      → IsIndex s.heap_index
      → ((heap_size < s.heap_index + n) × (alloc_heap n s ≡ (stop fatal, s)))
        ⊎ ((next : ℕ) × (s.heap_index + n ≤ next)
            × IsIndex next
            × (alloc_heap n s ≡ (ok s.heap_index, record s { heap_index = next })))
  unfolding alloc_heap
  alloc_heap_lem n s (low, aligned) = elim (Bool-cases (ltb heap_size (s.heap_index + n))) [
    | inl e ↦ inl (ground arith, rw e)
    | inr e ↦
        let fits : s.heap_index + n ≤ heap_size = ground arith in
        inr (
          round_up (s.heap_index + n),
          omega arith,
          (round_up-le (s.heap_index + n) fits, omega arith),
          rw e,
        )
  ]

  pub alloc_heap_fits :
      (n : ℕ) (s : State W)
      → s.heap_index % 8 ≡ 0
      → s.heap_index + round_up n ≤ heap_size
      → alloc_heap n s ≡ (ok s.heap_index, record s { heap_index = s.heap_index + round_up n })
  unfolding alloc_heap
  alloc_heap_fits n s aligned fits =
      let room : ltb heap_size (s.heap_index + n) ≡ false = ground arith in
      rw (room, round_up_aligned s.heap_index n aligned)
