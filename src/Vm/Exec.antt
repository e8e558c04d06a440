-- ===== src/Vm/Exec.antt =====
-- The body of the loop over threads of `_execute_array`: one pixel, for one thread.
use zdx_paralell_pyxel_vm.Base.{
  ℕ, ◌+◌, ◌-◌, ◌*◌, ◌/◌, ◌%◌, Bool, true, false, ◌&&◌, ◌||◌, Option, none, some, ltb, leb, ◌==◌,
  if◌then◌else◌, put,
}
use zdx_paralell_pyxel_vm.Vm.Isa.{
  Pixel, Opcode, set_reg, set_b, not_a, add_thread, sub, mul, div, copy_out, if_a_eq, cmp, load_mem,
  store_mem, verify_freq, save_state, jmp, halt, other, rev_opmap,
}
use zdx_paralell_pyxel_vm.Vm.Machine.{
  Raster, Cpu, invalid_load, invalid_store, unknown_opcode, Outcome, next, raise, slots, frame_at,
  regs, set_regs, set_slot,
}

-- `& 0xFF` of a sum, a difference, a product and a complement of natural numbers.
abbrev pub byte : ℕ → ℕ
byte n = n % 256

abbrev pub byte_sub : ℕ → ℕ → ℕ
byte_sub a b = (a + (256 - b % 256)) % 256

abbrev pub byte_not : ℕ → ℕ
byte_not a = 255 - a % 256

abbrev pub same_pixel : Pixel → Pixel → Bool
same_pixel p q = p.r == q.r && p.g == q.g && p.b == q.b

-- An R channel that the dispatch has no branch for.
unfoldable pub exec_unknown : Pixel → Cpu → Outcome
exec_unknown p c =
    if p.r == 0 then next c else if c.strict_mode then raise (unknown_opcode p) c.vm else next c

-- The branches of the dispatch. `p` is the pixel of thread `y` at column `x`.
unfoldable pub exec : Raster → Pixel → ℕ → ℕ → Cpu → Opcode → Outcome
unfolding exec_unknown
exec img p x y c halt = next (record c { halted = put c.halted y true })
exec img p x y c save_state = elim (frame_at c.frame_registry p.g) [
  | none ↦ next c
  | some path ↦ next (record c { vm = record c.vm { next_frame = some path } })
]
exec img p x y c verify_freq =
    let same = same_pixel p (img.pixel y (img.width - 1 - x)) in
    next (set_regs y (record (regs c y) { a = if same then 1 else 0 }) c)
exec img p x y c set_reg = next (set_regs y (record (regs c y) { a = p.b }) c)
exec img p x y c set_b = next (set_regs y (record (regs c y) { b = p.b }) c)
exec img p x y c add_thread =
    let r = regs c y in next (set_regs y (record r { out = byte (r.a + r.b) }) c)
exec img p x y c if_a_eq =
    if (regs c y).a == p.b then next c else next (record c { skip_next = put c.skip_next y true })
exec img p x y c load_mem =
    if ltb p.g slots
    then next (set_regs y (record (regs c y) { a = c.shared p.g }) c)
    else if c.strict_mode
    then raise (invalid_load p.g) c.vm
    else next c
exec img p x y c store_mem =
    if ltb p.g slots
    then next (set_slot p.g (regs c y).a c)
    else if c.strict_mode
    then raise (invalid_store p.g) c.vm
    else next c
exec img p x y c not_a = let r = regs c y in next (set_regs y (record r { a = byte_not r.a }) c)
exec img p x y c sub = let r = regs c y in next (set_regs y (record r { a = byte_sub r.a r.b }) c)
exec img p x y c mul = let r = regs c y in next (set_regs y (record r { a = byte (r.a * r.b) }) c)
exec img p x y c div =
    let r = regs c y in next (set_regs y (record r { a = if r.b == 0 then 0 else r.a / r.b }) c)
exec img p x y c cmp =
    let r = regs c y in next (set_regs y (record r { out = if r.a == r.b then 1 else 0 }) c)
exec img p x y c copy_out = let r = regs c y in next (set_regs y (record r { a = r.out }) c)
exec img p x y c jmp = elim c.jump_to [
  | some first ↦ next c
  | none ↦ if ltb p.g img.width then next (record c { jump_to = some p.g }) else next c
]
exec img p x y c (other name) = exec_unknown p c

unfoldable pub dispatch : Raster → Pixel → ℕ → ℕ → Cpu → Option Opcode → Outcome
unfolding exec
dispatch img p x y c none = exec_unknown p c
dispatch img p x y c (some op) = exec img p x y c op

-- `thread["T"] = x`, before the pixel is read.
abbrev pub tick : ℕ → ℕ → Cpu → Cpu
tick x y c = set_regs y (record (regs c y) { t = x }) c

-- One turn of `for y in range(self.threads)`.
unfoldable pub step_thread : Raster → ℕ → ℕ → Cpu → Outcome
unfolding dispatch
step_thread img x y c =
    if leb img.height y || c.halted y
    then next c
    else if c.skip_next y
    then next (record c { skip_next = put c.skip_next y false })
    else let p = img.pixel y x in dispatch img p x y (tick x y c) (rev_opmap c.opmap p.r)
