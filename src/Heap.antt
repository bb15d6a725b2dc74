-- ===== src/Heap.antt =====
-- kernel/heap.c: the kernel heap. The free blocks are lists of addresses in the order of their links;
-- `hdrs` is the first 24 bytes of each block in use or in a slab's free list, as `struct alloc_hdr`.
-- `heap_lock` is held over each function. What maps a page belongs to kernel/mem.c and the page tables.
pub mod Alloc
pub mod Joins
pub mod Free
pub mod FirstFit
pub mod Reuse
pub mod Slabs
mod Tests
use neptune_os.Common.{
  ltb, ◌==◌, if◌then◌else◌, add64, sub64, ℕ, ◌+◌, ◌/◌, ◌^◌, Bool, true, false, not, ◌||◌, List, [],
  ◌∷◌, bit_and, bit_xor,
}

-- `HEAP_BASE`, `HEAP_PAYLOAD_OFFSET`, `HEAP_HDR_SIZE`, `LARGE_CLASS` and `large_split_min`.
abbrev pub heap_base : ℕ
heap_base = 0xFFFF900000000000

abbrev pub payload_offset : ℕ
payload_offset = 32

abbrev pub hdr_size : ℕ
hdr_size = 24

abbrev pub large_class : ℕ
large_class = 0xFFFFFFFFFFFFFFFF

abbrev pub large_split_min : ℕ
large_split_min = payload_offset + 32

-- `slab_classes`.
abbrev pub slab_classes : List ℕ
slab_classes = 64 ∷ 128 ∷ 256 ∷ 512 ∷ 1024 ∷ 2048 ∷ 4096 ∷ 8192 ∷ []

pub record AllocHdr : Type 0 where
  pub class_idx : ℕ
  pub size : ℕ
  pub align : ℕ

-- A node of `free_large`: its address and its size.
pub record FreeNode : Type 0 where
  pub addr : ℕ
  pub size : ℕ

pub record Heap : Type 0 where
  pub heap_cur : ℕ
  pub heap_end : ℕ
  pub heap_ready : Bool
  pub frees_enabled : Bool
  pub hdrs : ℕ → AllocHdr
  pub free_lists : ℕ → List ℕ
  pub free_large : List FreeNode
  pub total_allocs : ℕ
  pub total_frees : ℕ
  pub slab_allocs : ℕ → ℕ
  pub slab_reuses : ℕ → ℕ
  pub large_allocs : ℕ
  pub large_reuses : ℕ

unfoldable pub align_up_uint : ℕ → ℕ → ℕ
align_up_uint value align =
    bit_and (sub64 (add64 value align) 1) (bit_xor 0xFFFFFFFFFFFFFFFF (sub64 align 1))

unfoldable pub is_canonical : ℕ → Bool
is_canonical addr = addr / 2 ^ 47 == 0 || addr / 2 ^ 47 == 0x1FFFF

-- `map_next_page`, as far as the heap sees it.
unfoldable pub map_next_page : ℕ → ℕ
map_next_page heap_end = add64 heap_end 4096

-- A node before the nodes behind it, as one with the next where they touch.
unfoldable pub join_next : FreeNode → List FreeNode → List FreeNode
join_next node [] = node ∷ []
join_next node (cur ∷ rest) =
    if add64 node.addr node.size == cur.addr
    then record node { size = add64 node.size cur.size } ∷ rest
    else node ∷ cur ∷ rest

-- The node `prev` before the new one, as one with it where they touch, and then with the next again.
unfoldable pub join_prev : FreeNode → FreeNode → List FreeNode → List FreeNode
unfolding join_next
join_prev prev node rest =
    if add64 prev.addr prev.size == node.addr
    then join_next (record prev { size = add64 prev.size node.size }) rest
    else prev ∷ node ∷ rest

-- The new node as the first of a list, and then behind `prev`.
unfoldable pub behind : FreeNode → List FreeNode → List FreeNode
behind prev [] = prev ∷ []
behind prev (node ∷ rest) = join_prev prev node rest

-- The loop that looks for the place of the node, behind `prev`.
unfoldable pub insert_behind : FreeNode → FreeNode → List FreeNode → List FreeNode
unfolding join_next behind
insert_behind prev node [] = behind prev (node ∷ [])
insert_behind prev node (cur ∷ rest) =
    if ltb cur.addr node.addr
    then prev ∷ insert_behind cur node rest
    else behind prev (join_next node (cur ∷ rest))

unfoldable pub insert_sorted : FreeNode → List FreeNode → List FreeNode
unfolding join_next insert_behind
insert_sorted node [] = node ∷ []
insert_sorted node (cur ∷ rest) =
    if ltb cur.addr node.addr then insert_behind cur node rest else join_next node (cur ∷ rest)

unfoldable pub insert_large_node : FreeNode → List FreeNode → List FreeNode
unfolding is_canonical insert_sorted
insert_large_node node free =
    if node.addr == 0 || not (is_canonical node.addr) then free else insert_sorted node free

unfoldable pub insert_large_fragment : ℕ → ℕ → List FreeNode → List FreeNode
unfolding is_canonical insert_large_node
insert_large_fragment addr size free =
    if ltb size large_split_min
    then free
    else (if is_canonical addr
        then insert_large_node (record { addr = addr; size = size }) free
        else free)

-- The values of the variables at the start of the system.
unfoldable pub at_boot : (ℕ → AllocHdr) → Heap
at_boot memory = record {
  heap_cur = heap_base;
  heap_end = heap_base;
  heap_ready = false;
  frees_enabled = false;
  hdrs = memory;
  free_lists = λ i. [];
  free_large = [];
  total_allocs = 0;
  total_frees = 0;
  slab_allocs = λ i. 0;
  slab_reuses = λ i. 0;
  large_allocs = 0;
  large_reuses = 0;
}

unfoldable pub kheap_init : Heap → Heap
unfolding map_next_page
kheap_init h = record h {
  heap_cur = heap_base + 4096;
  heap_end = map_next_page (heap_base + 4096);
  heap_ready = true;
}

unfoldable pub kalloc_enable_frees : Heap → Heap
kalloc_enable_frees h = record h { frees_enabled = true }

unfoldable pub kheap_ready : Heap → ℕ
kheap_ready h = if h.heap_ready then 1 else 0
