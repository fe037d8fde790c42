-- ===== src/Vm/Heap.antt =====
-- The allocator of src/pmalloc.c. Its nodes lie in the memory of the machine, at host addresses:
-- `prev` at offset 0, `next` at 8, `size` at 16, and `sizeof(ll_item_t)` is 24. Pointers to nodes
-- step by whole nodes, so `current + n` is `n * 24` bytes further. The nodes of a list are distinct
-- and lie in the block, so a walk of more than `memsize` steps goes round in a circle.
use mihini.Prelude.{ℕ, zero, suc, ◌+◌, ◌-◌, ◌*◌, ◌^◌, ◌==◌, ltb, leb, not, ◌&&◌, if◌then◌else◌, u32}
use mihini.Vm.State.{
  Heap, diverge, set_heap, M, Action, pure, undefined_behaviour, skip, when, ◌>>=◌, ◌>>◌, get,
}
use mihini.Vm.Memory.{read_bytes, write_bytes}

abbrev pub null : ℕ
null = 0

abbrev pub sizeof_ll_item : ℕ
sizeof_ll_item = 24

-- `node + n` on `ll_item_t *`
abbrev pub node_add : ℕ → ℕ → ℕ
node_add node n = node + n * sizeof_ll_item

abbrev pub node_sub : ℕ → ℕ → ℕ
node_sub node n = node - n * sizeof_ll_item

-- An access to the `n` bytes at a host address.
unfoldable pub host_read : ℕ → ℕ → M ℕ
host_read a n = do s ← get; if leb s.base a then read_bytes (a - s.base) n else undefined_behaviour

unfoldable pub host_write : ℕ → ℕ → ℕ → Action
host_write a n v = do
  s ← get
  if leb s.base a then write_bytes (a - s.base) n v else undefined_behaviour

abbrev pub get_prev : ℕ → M ℕ
get_prev node = host_read node 8

abbrev pub get_next : ℕ → M ℕ
get_next node = host_read (node + 8) 8

abbrev pub get_size : ℕ → M ℕ
get_size node = host_read (node + 16) 4

abbrev pub set_prev : ℕ → ℕ → Action
set_prev node v = host_write node 8 v

abbrev pub set_next : ℕ → ℕ → Action
set_next node v = host_write (node + 8) 8 v

abbrev pub set_size : ℕ → ℕ → Action
set_size node v = host_write (node + 16) 4 v

abbrev pub modify_heap : (Heap → Heap) → Action
modify_heap f = do s ← get; set_heap (f s.heap)

-- The argument `root`, which is the address of one of the two globals.
pub data Root : Type 0 where
  available assigned : Root

unfoldable pub get_root : Root → M ℕ
get_root available = do s ← get; pure s.heap.available
get_root assigned = do s ← get; pure s.heap.assigned

unfoldable pub set_root : Root → ℕ → Action
set_root available node = modify_heap λ h. record h { available = node }
set_root assigned node = modify_heap λ h. record h { assigned = node }

abbrev pub add_freemem : ℕ → Action
add_freemem n = modify_heap λ h. record h { freemem = u32 (h.freemem + n) }

abbrev pub sub_freemem : ℕ → Action
sub_freemem n = modify_heap λ h. record h { freemem = u32 (h.freemem + 2 ^ 32 - n) }

-- `__totalnodes++`, `__totalnodes--` and `__totalmem += __freemem`
unfoldable pub count_node : Action
count_node = modify_heap λ h. record h { totalnodes = u32 (h.totalnodes + 1) }

unfoldable pub uncount_node : Action
uncount_node = modify_heap λ h. record h { totalnodes = u32 (h.totalnodes + 2 ^ 32 - 1) }

unfoldable pub add_totalmem : Action
add_totalmem = modify_heap λ h. record h { totalmem = u32 (h.totalmem + h.freemem) }

-- The end of `ll_remove` for a node that is the root
unfoldable pub fixup_root : Root → ℕ → Action
fixup_root root node = do
  prev ← get_prev node
  if not (prev == null) then set_root root prev else do next ← get_next node; set_root root next

-- The links of the node are read again after each store, which may have changed them.
unfoldable pub ll_remove : Root → ℕ → Action
ll_remove root node = do
  prev ← get_prev node
  when (not (prev == null)) (do next ← get_next node; set_next prev next)
  next ← get_next node
  when (not (next == null)) (do before ← get_prev node; set_prev next before)
  r ← get_root root
  when (node == r) (fixup_root root node)
  set_next node null
  set_prev node null

-- `while(current->next != NULL && node > current->next) current = current->next;`
unfoldable pub find_place : ℕ → ℕ → ℕ → M ℕ
find_place zero current node = diverge
find_place (suc fuel) current node = do
  next ← get_next current
  if not (next == null) && ltb next node then find_place fuel next node else pure current

unfoldable pub ll_insert_sorted : Root → ℕ → Action
ll_insert_sorted root node = do
  r ← get_root root
  if r == null
      then (do set_root root node; set_prev node null; set_next node null)
      else if ltb node r
      then (do set_prev r node; set_next node r; set_root root node)
      else do
        s ← get
        current ← find_place (s.memsize + 1) r node
        oldnext ← get_next current
        if oldnext == null then (do set_prev node current; set_next current node) else do
          set_next current node
          set_prev node current
          set_next node oldnext
          set_prev oldnext node

unfoldable pub paddblock : ℕ → ℕ → Action
paddblock ptr size = do
  set_size ptr (u32 (size + 2 ^ 32 - sizeof_ll_item))
  usable ← get_size ptr
  add_freemem usable
  add_totalmem
  ll_insert_sorted available ptr
  count_node

-- `while(current != NULL && current->size < size) current = current->next;`
unfoldable pub find_block : ℕ → ℕ → ℕ → M ℕ
find_block zero current size = diverge
find_block (suc fuel) current size = if current == null then pure null else do
  room ← get_size current
  if ltb room size then (do next ← get_next current; find_block fuel next size) else pure current

-- The branch of `pmalloc` for a block that is not of the exact size.
unfoldable pub split_block : ℕ → ℕ → ℕ → Action
split_block current room size = do
  let newfree = node_add (node_add current sizeof_ll_item) size
  set_size newfree (u32 (room + 2 ^ 33 - sizeof_ll_item - size))
  set_size current size
  ll_insert_sorted available newfree
  sub_freemem sizeof_ll_item
  count_node

-- The rest of `pmalloc`, once a block is found.
unfoldable pub allocate : ℕ → ℕ → M ℕ
allocate current size = do
  ll_remove available current
  ll_insert_sorted assigned current
  room ← get_size current
  when (not (room == size)) (split_block current room size)
  given ← get_size current
  sub_freemem given
  pure (node_add current sizeof_ll_item)

unfoldable pub pmalloc : ℕ → M ℕ
pmalloc size = do
  s ← get
  current ← find_block (s.memsize + 1) s.heap.available size
  if current == null then pure null else allocate current size

-- `for(uint32_t i=0; i<size; i++) mem[i]=0;` with `left` rounds to go
unfoldable pub clear_bytes : ℕ → ℕ → Action
clear_bytes zero a = skip
clear_bytes (suc left) a = do host_write a 1 0; clear_bytes left (a + 1)

unfoldable pub pcalloc : ℕ → ℕ → M ℕ
pcalloc num size = do
  mem ← pmalloc (u32 (num * size))
  if mem == null then pure null else do clear_bytes size mem; pure mem

-- `while(node->prev!=NULL && node == node->prev + sizeof(ll_item_t) + node->prev->size)`
unfoldable pub scan_backward : ℕ → ℕ → M ℕ
scan_backward zero node = diverge
scan_backward (suc fuel) node = do
  prev ← get_prev node
  if prev == null then pure node else do
    room ← get_size prev
    if node == node_add (node_add prev sizeof_ll_item) room
        then scan_backward fuel prev
        else pure node

-- `while(node->next == node + sizeof(ll_item_t) + node->size)`, its body first
unfoldable pub merge_next : ℕ → ℕ → Action
merge_next node next = do
  more ← get_size next
  add_freemem sizeof_ll_item
  ll_remove available next
  uncount_node
  room ← get_size node
  set_size node (u32 (room + (more + sizeof_ll_item)))

unfoldable pub merge_forward : ℕ → ℕ → Action
merge_forward zero node = diverge
merge_forward (suc fuel) node = do
  next ← get_next node
  room ← get_size node
  if next == node_add (node_add node sizeof_ll_item) room
      then (do merge_next node next; merge_forward fuel node)
      else skip

-- `pfree` up to the two scans
unfoldable pub release : ℕ → Action
release node = do
  ll_remove assigned node
  size ← get_size node
  add_freemem size
  ll_insert_sorted available node

unfoldable pub pfree : ℕ → Action
pfree ptr = do
  let node = node_sub ptr sizeof_ll_item
  release node
  s ← get
  first ← scan_backward (s.memsize + 1) node
  merge_forward (s.memsize + 1) first

unfoldable pub psizeof : ℕ → M ℕ
psizeof ptr = get_size (node_sub ptr sizeof_ll_item)

-- The metrics
unfoldable pub ptotalmem : M ℕ
ptotalmem = do s ← get; pure s.heap.totalmem

unfoldable pub pfreemem : M ℕ
pfreemem = do s ← get; pure s.heap.freemem

unfoldable pub pusedmem : M ℕ
pusedmem = do s ← get; pure (u32 (s.heap.totalmem + 2 ^ 32 - s.heap.freemem))

unfoldable pub poverheadmem : M ℕ
poverheadmem = do s ← get; pure (u32 (s.heap.totalnodes * sizeof_ll_item))
