-- ===== src/Heap/Tests.antt =====
-- Small heaps of kernel/heap.c.
use neptune_os.Common.{ℕ, ◌+◌, ◌≡◌, refl, true, false, ◌||◌, some, List, [], ◌∷◌, arith}
use neptune_os.Heap.{
  FreeNode, join_prev, Heap, insert_large_node, kheap_init, at_boot, kalloc_enable_frees, heap_base,
  is_canonical, slab_classes,
}
use neptune_os.Heap.Alloc.{Fit, first_fit, kalloc, kfree, pick_slab_class}
use neptune_os.Heap.Joins.{inside, covered, Gapped}
use neptune_os.Heap.Free.{insert_large_node-Gapped}
use neptune_os.Heap.Reuse.{Reuses, kalloc-Reuses}
use neptune_os.Heap.Slabs.{Chosen, pick_slab_class-Room}

abbrev booted : Heap
unfolding kheap_init at_boot kalloc_enable_frees
booted =
    kalloc_enable_frees (kheap_init (at_boot (λ a. record { class_idx = 0; size = 0; align = 0 })))

-- The second block lies behind the first one's class of 64 bytes, inside of the 40 bytes asked for.
overrun_test : (kalloc 40 8 (kalloc 40 8 booted).1).0 ≡ (kalloc 40 8 booted).0 + 64
unfolding kalloc kheap_init at_boot kalloc_enable_frees
overrun_test = refl

class_test : (kalloc 40 8 booted).1.heap_cur ≡ (kalloc 40 8 booted).0 + 32
unfolding kalloc kheap_init at_boot kalloc_enable_frees
class_test = refl

-- The second free of a block of 1024 bytes that was used again puts it into the list of class 0.
abbrev used_twice : Heap
unfolding kalloc kfree kheap_init at_boot kalloc_enable_frees
used_twice = let (ptr, h) = kalloc 900 8 booted in kfree ptr (kalloc 900 8 (kfree ptr h)).1

wrong_class_test : used_twice.free_lists 0 ≡ (heap_base + 4096) ∷ []
unfolding kalloc kfree kheap_init at_boot kalloc_enable_frees
wrong_class_test = refl

abbrev hole : List FreeNode
hole = record { addr = 4096; size = 256 } ∷ record { addr = 8192; size = 64 } ∷ []

abbrev between : FreeNode
between = record { addr = 4352; size = 64 }

joined_test :
    insert_large_node between hole
    ≡ record { addr = 4096; size = 320 } ∷ record { addr = 8192; size = 64 } ∷ []
unfolding insert_large_node join_prev
joined_test = refl

hole-Gapped : Gapped 0 hole
hole-Gapped =
    ((omega arith, omega arith, omega arith), ((omega arith, omega arith, omega arith), tt))

canonical : is_canonical 4352 ≡ true
unfolding is_canonical
canonical = refl

between_apart : (x : ℕ) → inside between x ≡ true → covered hole x ≡ false
between_apart x i = ground (arith)

insert_large_node-Gapped_example :
    Gapped 0 (insert_large_node between hole)
    × ((x : ℕ) → covered (insert_large_node between hole) x ≡ (inside between x || covered hole x))
insert_large_node-Gapped_example =
    insert_large_node-Gapped between hole canonical (omega arith, omega arith, omega arith)
      hole-Gapped between_apart

pick_slab_class-Room_example : Chosen 64 16 slab_classes (pick_slab_class 40 8)
pick_slab_class-Room_example = pick_slab_class-Room 40 8 (omega arith)

-- The first node has room for a header and 100 bytes behind an address that is a multiple of 64.
abbrev with_hole : Heap
with_hole = record booted { free_large = hole }

abbrev fit : Fit
fit = record {
  node = record { addr = 4096; size = 256 };
  start = 4128;
  others = record { addr = 8192; size = 64 } ∷ [];
}

fit_test : first_fit 132 64 hole ≡ some fit
unfolding first_fit
fit_test = refl

kalloc-Reuses_example : Reuses with_hole fit 132 (kalloc 100 64 with_hole)
kalloc-Reuses_example =
    kalloc-Reuses 100 64 with_hole fit (omega arith) (omega arith) hole-Gapped fit_test
      (omega arith)
