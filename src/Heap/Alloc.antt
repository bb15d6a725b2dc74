-- ===== src/Heap/Alloc.antt =====
-- `kalloc` and `kfree` of kernel/heap.c.
use neptune_os.Common.{
  get_or, ltb, leb, ◌==◌, if◌then◌else◌, add64, sub64, update, ℕ, zero, suc, ◌+◌, ◌-◌, ◌/◌, not,
  ◌&&◌, ◌||◌, Option, none, some, List, [], ◌∷◌,
}
use neptune_os.Heap.{
  payload_offset, hdr_size, large_class, slab_classes, FreeNode, Heap, align_up_uint, is_canonical,
  map_next_page, insert_large_node, insert_large_fragment,
}

-- The loop over the classes, the first of them numbered `i`.
unfoldable pub pick_from : ℕ → ℕ → ℕ → List ℕ → Option ℕ
pick_from need req_align i [] = none
pick_from need req_align i (class ∷ rest) =
    if leb need class && leb req_align class then some i else pick_from need req_align (i + 1) rest

abbrev pub at_least_16 : ℕ → ℕ
at_least_16 align = if ltb align 16 then 16 else align

unfoldable pub pick_slab_class : ℕ → ℕ → Option ℕ
unfolding pick_from
pick_slab_class size align = pick_from (add64 size hdr_size) (at_least_16 align) 0 slab_classes

-- The loop maps a page in every round, until the heap reaches `target`.
unfoldable pub ensure_loop : ℕ → ℕ → ℕ → ℕ
unfolding map_next_page
ensure_loop zero target heap_end = heap_end
ensure_loop (suc fuel) target heap_end =
    let rest = ensure_loop fuel target (map_next_page heap_end) in
    if ltb heap_end target then rest else heap_end

unfoldable pub ensure_space : ℕ → ℕ → Heap → Heap
unfolding ensure_loop
ensure_space aligned_start need h =
    let target = add64 aligned_start need in
    record h { heap_end = ensure_loop (target / 4096 + 1 - h.heap_end / 4096) target h.heap_end }

-- Where `kalloc` would place a block in a free node, if it fits.
unfoldable pub placed : ℕ → ℕ → FreeNode → Option ℕ
unfolding align_up_uint
placed need req_align node =
    let node_end = add64 node.addr node.size in
    let start = sub64 (align_up_uint (add64 node.addr payload_offset) req_align) payload_offset in
    if leb need node.size && leb node.addr start && leb (add64 start need) node_end
    then some start
    else none

pub record Fit : Type 0 where
  pub node : FreeNode
  pub start : ℕ
  pub others : List FreeNode

-- The loop over `free_large`: the first node with room, and the list without it.
unfoldable pub first_fit : ℕ → ℕ → List FreeNode → Option Fit
unfolding placed
first_fit need req_align [] = none
first_fit need req_align (node ∷ rest) = elim (placed need req_align node) [
  | some start ↦ some (record { node = node; start = start; others = rest })
  | none ↦ elim (first_fit need req_align rest) [
    | none ↦ none
    | some fit ↦ some (record fit { others = node ∷ fit.others })
  ]
]

-- The free list after a block of `need` bytes has been cut out of a node.
unfoldable pub cut : ℕ → Fit → List FreeNode
unfolding insert_large_fragment
cut need fit =
    let node_end = add64 fit.node.addr fit.node.size in
    let block_end = add64 fit.start need in
    let front =
      if ltb fit.node.addr fit.start
      then insert_large_fragment fit.node.addr (sub64 fit.start fit.node.addr) fit.others
      else fit.others in
    if ltb block_end node_end
    then insert_large_fragment block_end (sub64 node_end block_end) front
    else front

abbrev pub write_hdr : ℕ → ℕ → ℕ → ℕ → Heap → Heap
write_hdr block class size align h = record h {
  hdrs = update h.hdrs block (record { class_idx = class; size = size; align = align });
}

-- `kalloc` from the list of large free nodes, from a slab's list, from new space for a slab, and from
-- new space for a large block. The result is the pointer, 0 for `NULL`.
unfoldable pub reuse_large : ℕ → ℕ → Fit → Heap → ℕ × Heap
unfolding cut
reuse_large need req_align fit h = (
  add64 fit.start payload_offset,
  write_hdr fit.start large_class need req_align (record h {
    free_large = cut need fit;
    total_allocs = add64 h.total_allocs 1;
    large_reuses = add64 h.large_reuses 1;
  }),
)

unfoldable pub reuse_slab : ℕ → ℕ → List ℕ → Heap → ℕ × Heap
reuse_slab i node rest h = (
  add64 node payload_offset,
  record h {
    free_lists = update h.free_lists i rest;
    total_allocs = add64 h.total_allocs 1;
    slab_reuses = update h.slab_reuses i (add64 (h.slab_reuses i) 1);
  },
)

unfoldable pub new_slab : ℕ → ℕ → Heap → ℕ × Heap
unfolding align_up_uint ensure_space
new_slab i req_align h =
    let block = align_up_uint h.heap_cur req_align in
    let class = get_or slab_classes i 0 in
    let space = ensure_space block class h in
    (
      add64 block payload_offset,
      write_hdr block i class req_align (record space {
        heap_cur = add64 block class;
        total_allocs = add64 h.total_allocs 1;
        slab_allocs = update h.slab_allocs i (add64 (h.slab_allocs i) 1);
      }),
    )

unfoldable pub new_large : ℕ → ℕ → Heap → ℕ × Heap
unfolding align_up_uint ensure_space
new_large need req_align h =
    let block = sub64 (align_up_uint (add64 h.heap_cur payload_offset) req_align) payload_offset in
    let space = ensure_space block need h in
    (
      add64 block payload_offset,
      write_hdr block large_class need req_align (record space {
        heap_cur = add64 block need;
        total_allocs = add64 h.total_allocs 1;
        large_allocs = add64 h.large_allocs 1;
      }),
    )

abbrev pub from_slab : ℕ → ℕ → Heap → ℕ × Heap
from_slab i req_align h = elim (h.free_lists i) [
  | node ∷ rest ↦ reuse_slab i node rest h
  | [] ↦ new_slab i req_align h
]

unfoldable pub kalloc : ℕ → ℕ → Heap → ℕ × Heap
unfolding first_fit reuse_large reuse_slab new_slab new_large pick_slab_class
kalloc size align h =
    let req_align = at_least_16 align in
    let need = add64 size payload_offset in
    if size == 0 then (0, h) else (elim (first_fit need req_align h.free_large) [
      | some fit ↦ reuse_large need req_align fit h
      | none ↦ elim (pick_slab_class size (if align == 0 then 8 else align)) [
        | some i ↦ from_slab i req_align h
        | none ↦ new_large need req_align h
      ]
    ])

-- The two kinds of blocks that `kfree` takes back.
unfoldable pub free_large_block : ℕ → Heap → Heap
unfolding is_canonical insert_large_node
free_large_block block h =
    if is_canonical block
    then record h {
      free_large =
          insert_large_node (record { addr = block; size = (h.hdrs block).size }) h.free_large;
      total_frees = add64 h.total_frees 1;
    }
    else h

-- The link of the block takes the place of the class in its header.
unfoldable pub free_slab_block : ℕ → ℕ → Heap → Heap
unfolding is_canonical
free_slab_block idx block h =
    if is_canonical block
    then record h {
      hdrs =
          update h.hdrs block (record (h.hdrs block) { class_idx = get_or (h.free_lists idx) 0 0 });
      free_lists = update h.free_lists idx (block ∷ h.free_lists idx);
      total_frees = add64 h.total_frees 1;
    }
    else h

unfoldable pub kfree : ℕ → Heap → Heap
unfolding free_large_block free_slab_block
kfree ptr h =
    let block = sub64 ptr payload_offset in
    let idx = (h.hdrs block).class_idx in
    if ptr == 0 || not h.frees_enabled
    then h
    else (if idx == large_class
        then free_large_block block h
        else (if leb 8 idx then h else free_slab_block idx block h))
