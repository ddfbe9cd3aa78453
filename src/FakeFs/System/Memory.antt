-- ===== src/FakeFs/System/Memory.antt =====
-- `_render_free_m` of src/infra/fake_fs_data_handler.py, and that its columns add up.
use honey_mind.Prelude.{
  ℕ, ◌+◌, ◌-◌, ◌/◌, ◌≤◌, max, Text, codes, concat, show, pad_left, leb, [], ◌∷◌, if◌then◌else◌, ◌≡◌,
  arith,
}
use honey_mind.FakeFs.System.{System}

pub record Memory : Type 0 where
  pub total : ℕ
  pub used : ℕ
  pub free : ℕ
  pub shared : ℕ
  pub buff_cache : ℕ
  pub available : ℕ
  pub swap_total : ℕ
  pub swap_used : ℕ
  pub swap_free : ℕ

-- `-` stops at 0 as the code's `max`
unfoldable pub memory_of : ℕ → Memory
memory_of mem_total_kb =
    let total = mem_total_kb / 1024 in
    let used = max (total / 3) 1 in
    let free = total - used - 128 in
    let buff_cache = total - used - free in
    let swap_total = if leb 1024 total then 1024 else 0 in
    record {
      total = total;
      used = used;
      free = free;
      shared = max (total / 128) 1;
      buff_cache = buff_cache;
      available = free + buff_cache;
      swap_total = swap_total;
      swap_used = 0;
      swap_free = swap_total - 0;
    }

memory_text : Memory → Text
memory_text m = concat (
    (codes "              total        used        free      shared  buff/cache   available\n")
    ∷ (codes "Mem:           ")
    ∷ (pad_left 4 (show m.total))
    ∷ (codes "        ")
    ∷ (pad_left 4 (show m.used))
    ∷ (codes "        ")
    ∷ (pad_left 4 (show m.free))
    ∷ (codes "          ")
    ∷ (pad_left 2 (show m.shared))
    ∷ (codes "        ")
    ∷ (pad_left 4 (show m.buff_cache))
    ∷ (codes "        ")
    ∷ (pad_left 4 (show m.available))
    ∷ (codes "\n")
    ∷ (codes "Swap:          ")
    ∷ (pad_left 4 (show m.swap_total))
    ∷ (codes "        ")
    ∷ (pad_left 4 (show m.swap_used))
    ∷ (codes "        ")
    ∷ (pad_left 4 (show m.swap_free))
    ∷ (codes "\n")
    ∷ [])

unfoldable pub render_free_m : System → Text
unfolding memory_of memory_text
render_free_m s = memory_text (memory_of s.mem_total_kb)

-- The columns of `free -m` add up for a machine with at least one mebibyte: what is used, free and
-- cached makes the total, what is available is what is not used, and the swap is free or used.
pub memory_of-adds :
    (kb : ℕ)
    → 1024 ≤ kb
    → let m = memory_of kb in
      (m.used + m.free + m.buff_cache ≡ m.total)
      × (m.used + m.available ≡ m.total)
      × (m.swap_used + m.swap_free ≡ m.swap_total)
unfolding memory_of
memory_of-adds kb large = omega arith
