-- ===== src/Dll.antt =====
-- The doubly linked list of src/dll.c, on a store of nodes. An address is a number, and 0 is NULL.
-- `calloc` gives an address that was not given before, and does not fail; `free` takes the node
-- away. An access through NULL or to a node that is not there is undefined, `none`.
pub mod Chain
pub mod Shape
pub mod Front
pub mod Back
pub mod Pop
pub mod Walk
mod Examples
use mihini.Prelude.{
  true, ℕ, zero, suc, ◌+◌, ◌-◌, ◌^◌, ◌==◌, not, if◌then◌else◌, u32, Option, none, some, update,
  Bool,
}
use mihini.Prelude.Options.{◌>>=◌}

pub record DllNode : Type 0 where
  pub next : ℕ
  pub prev : ℕ
  pub value : ℕ

-- `first`, `last` and `count` are the fields of `dll_t`; `fresh` is the next address of `calloc`.
pub record Dll : Type 0 where
  pub first : ℕ
  pub last : ℕ
  pub count : ℕ
  pub nodes : ℕ → Option DllNode
  pub fresh : ℕ

-- The node behind a pointer that is followed
abbrev pub node_at : Dll → ℕ → Option DllNode
node_at list a = if a == 0 then none else list.nodes a

abbrev pub put_node : Dll → ℕ → DllNode → Dll
put_node list a n = record list { nodes = update list.nodes a (some n) }

-- `a->next = next` and `a->prev = prev`
unfoldable pub set_next : Dll → ℕ → ℕ → Option Dll
set_next list a next = do n ← node_at list a; some (put_node list a (record n { next = next }))

unfoldable pub set_prev : Dll → ℕ → ℕ → Option Dll
set_prev list a prev = do n ← node_at list a; some (put_node list a (record n { prev = prev }))

abbrev pub free_node : Dll → ℕ → Dll
free_node list a = record list { nodes = update list.nodes a none }

-- The new node has the address `list.fresh`.
unfoldable pub dll_node_new : Dll → ℕ → Dll
dll_node_new list value =
    record (put_node list list.fresh (record { next = 0; prev = 0; value = value })) {
      fresh = list.fresh + 1;
    }

abbrev pub count_up : Dll → Dll
count_up list = record list { count = u32 (list.count + 1) }

abbrev pub count_down : Dll → Dll
count_down list = record list { count = u32 (list.count + 2 ^ 32 - 1) }

-- The branch that `dll_push` and `dll_unshift` share, for a list that is empty.
unfoldable pub add_only : Dll → ℕ → Dll
add_only list value =
    count_up (record (dll_node_new list value) { first = list.fresh; last = list.fresh })

unfoldable pub dll_push : Dll → ℕ → Option Dll
dll_push list value = if list.first == 0 then some (add_only list value) else do
  let new = list.fresh
  let prev = list.last
  linked ← set_prev (record (dll_node_new list value) { last = new }) new prev
  behind ← set_next linked prev new
  some (count_up behind)

unfoldable pub dll_unshift : Dll → ℕ → Option Dll
dll_unshift list value = if list.first == 0 then some (add_only list value) else do
  let new = list.fresh
  let prev = list.first
  linked ← set_next (record (dll_node_new list value) { first = new }) new prev
  before ← if prev == 0 then some linked else set_prev linked prev new
  some (count_up before)

-- The value, or NULL of an empty list, and the list.
unfoldable pub dll_pop : Dll → Option (Option ℕ × Dll)
dll_pop list = if list.first == 0 then some (none, list) else do
  let last = list.last
  n ← node_at list last
  let cut = record list { last = n.prev }
  ended ← if n.prev == 0 then some cut else set_next cut n.prev 0
  let emptied = if ended.first == last then record ended { first = 0 } else ended
  some (some n.value, free_node (count_down emptied) last)

unfoldable pub dll_shift : Dll → Option (Option ℕ × Dll)
dll_shift list = if list.first == 0 then some (none, list) else do
  let first = list.first
  n ← node_at list first
  let cut = record list { first = n.next }
  ended ← if n.next == 0 then some cut else set_prev cut n.next 0
  let emptied = if ended.last == first then record ended { last = 0 } else ended
  some (some n.value, free_node (count_down emptied) first)

-- `dll_new`
unfoldable pub dll_new : Dll
dll_new = record { first = 0; last = 0; count = 0; nodes = λ a. none; fresh = 1 }

-- `func` may change its context, not the list; `true` ends the loop. `fuel` bounds the rounds.
unfoldable pub iterate_loop {ℓ} :
    {C : Type ℓ} → ℕ → Dll → (ℕ → C → Bool × C) → Bool → ℕ → C → Option C
iterate_loop zero list func forward current context = none
iterate_loop (suc fuel) list func forward current context =
    if current == 0 then some context else do
      n ← node_at list current
      let (stop, next) = func n.value context
      let rest = iterate_loop fuel list func forward (if forward then n.next else n.prev) next
      if stop then some next else rest

unfoldable pub dll_iterate {ℓ} : {C : Type ℓ} → ℕ → Dll → (ℕ → C → Bool × C) → C → Bool → Option C
dll_iterate fuel list func context forward = iterate_loop fuel list func forward list.first context

unfoldable pub free_loop : ℕ → Dll → ℕ → Option Dll
free_loop zero list current = none
free_loop (suc fuel) list current =
    if current == 0
    then some list
    else do n ← node_at list current; free_loop fuel (free_node list current) n.next

-- The count keeps its value.
unfoldable pub dll_free : ℕ → Dll → Option Dll
dll_free fuel list = do
  freed ← free_loop fuel list list.first
  some (record freed { first = 0; last = 0 })
