-- ===== src/Vm/State.antt =====
-- `vmstate_t` of src/vm.h, the globals of src/pmalloc.c, and the effect of a step of the machine.
use mihini.Prelude.{ℕ, Bool, List, [], ◌∷◌, ◌++◌, update, bit_or, if◌then◌else◌}

-- What the machine writes to the host's stdout, and the messages that it prints to stderr.
pub data Event : Type 0 where
  put_char : ℕ → Event
  print : List ℕ → Event
  dump_header : ℕ → Event
  dump_row : ℕ → List ℕ → Event
  unknown_mode : ℕ → Event
  unknown_width : ℕ → Event
  unknown_opcode : ℕ → Event
  unknown_syscall : ℕ → Event
  no_float8 : Event

-- The globals `__available`, `__assigned`, `__freemem`, `__totalmem` and `__totalnodes`. A list
-- head is a host address, and 0 is NULL.
pub record Heap : Type 0 where
  pub available : ℕ
  pub assigned : ℕ
  pub freemem : ℕ
  pub totalmem : ℕ
  pub totalnodes : ℕ

-- `registers` is the view `N[16]` of the union. `memory` is the allocated block of `memsize` bytes,
-- which begins at the host address `base`.
pub record Vm : Type 0 where
  pub registers : ℕ → ℕ
  pub condition : ℕ
  pub ip : ℕ
  pub memory : ℕ → ℕ
  pub memsize : ℕ
  pub base : ℕ
  pub stopped : Bool
  pub heap : Heap
  pub output : List Event

-- `undefined` is undefined behaviour of C: an access outside the block, a division by zero, a shift
-- by the width of its type or more, a signed overflow. `out_of_fuel` is a loop that has not ended.
pub data Run (A : Type 0) : Type 0 where
  ok : A → Vm → Run A
  undefined : Run A
  out_of_fuel : Run A

abbrev pub M : Type 0 → Type 0
M A = Vm → Run A

-- The steps below are shut, so that a proof can go by a rule for each of them.
unfoldable pub pure : {A : Type 0} → A → M A
pure a s = ok a s

unfoldable pub undefined_behaviour : {A : Type 0} → M A
undefined_behaviour s = undefined

unfoldable pub diverge : {A : Type 0} → M A
diverge s = out_of_fuel

abbrev pub and_then : {A B : Type 0} → Run A → (A → M B) → Run B
and_then (ok a s) k = k a s
and_then undefined k = undefined
and_then out_of_fuel k = out_of_fuel

infixl 5 ◌>>=◌ ◌>>◌
unfoldable pub ◌>>=◌ : {A B : Type 0} → M A → (A → M B) → M B
◌>>=◌ m k s = and_then (m s) k

abbrev pub ◌>>◌ : {A B : Type 0} → M A → M B → M B
m >> n = m >>= λ _. n

abbrev pub Action : Type 0
Action = M (Unit {0})

abbrev pub skip : Action
skip = pure tt

abbrev pub when : Bool → Action → Action
when b m = if b then m else skip

unfoldable pub get : M Vm
get s = ok s s

unfoldable pub set_ip : ℕ → Action
set_ip a s = ok tt (record s { ip = a })

-- `state->condition = c` and `state->condition |= c`
unfoldable pub set_condition : ℕ → Action
set_condition c s = ok tt (record s { condition = c })

unfoldable pub or_condition : ℕ → Action
or_condition c s = ok tt (record s { condition = bit_or s.condition c })

-- `state->registers.N[reg] = v`
unfoldable pub set_register : ℕ → ℕ → Action
set_register reg v s = ok tt (record s { registers = update s.registers reg v })

unfoldable pub set_stopped : Bool → Action
set_stopped b s = ok tt (record s { stopped = b })

unfoldable pub set_heap : Heap → Action
set_heap h s = ok tt (record s { heap = h })

unfoldable pub emit : Event → Action
emit e s = ok tt (record s { output = s.output ++ (e ∷ []) })

-- What a proof or a test that runs the steps unfolds.
unfoldable pub steps : Unit {0}
unfolding pure undefined_behaviour diverge ◌>>=◌ get set_ip set_condition or_condition set_register
    set_stopped set_heap emit
steps = tt
