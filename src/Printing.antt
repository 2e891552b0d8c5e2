-- ===== src/Printing.antt =====
-- What the kernel writes to the terminal: the printing functions of disastrOS_pcb.c,
-- disastrOS_timer.c, disastrOS_descriptor.c and disastrOS_resource.c, and disastrOS_printStatus of
-- disastrOS.c. A function returns what it writes; a null pointer that it follows is a fault.
pub mod Status
pub mod Joined
use Prim.Native.String.{String}
use disastr_os_queues.Base.{
  ℕ, zero, suc, ℤ, pos, List, [], ◌∷◌, ◌++◌, Bool, true, false, eq_ℤ, if◌then◌else◌, pos_part,
}
use disastr_os_queues.LinkedList.{Ptr, is_null}
use disastr_os_queues.Kernel.{
  System, Cmd, ListRef, out_of_fuel, pure, ◌>>=◌, ◌>>◌, get, get_head, next_item, get_pcb,
  get_resource, get_queue, get_message, get_descriptor, children, descriptors_ptrs, messages,
  readers, writers, non_block, timer_list, resources_list, ready_list, waiting_list, zombie_list,
}

-- A piece of a format, `%d`, and `%s` for the text at an address.
pub data Piece : Type 0 where
  text : String → Piece
  number : ℤ → Piece
  chars : Ptr → Piece

abbrev pub Output : Type 0
Output = List Piece

abbrev pub print_queue_messages : Bool
print_queue_messages = false

abbrev pub print_queue_readers : Bool
print_queue_readers = true

abbrev pub print_queue_writers : Bool
print_queue_writers = true

abbrev pub print_queue_nonblock : Bool
print_queue_nonblock = true

abbrev pub print_queue_attributes : Bool
print_queue_attributes = true

-- `while (aux)` with an element each, `between` if one more follows, and `behind` in any case.
unfoldable pub print_items : ℕ → (Ptr → Cmd Output) → (between behind : Output) → Ptr → Cmd Output
print_items zero element between behind aux = λ _. out_of_fuel
print_items (suc rounds) element between behind aux = if is_null aux then pure [] else do
  e ← element aux
  next ← next_item aux
  rest ← print_items rounds element between behind next
  pure (e ++ ((if is_null next then [] else between) ++ (behind ++ rest)))

unfoldable pub print_pid : Ptr → Cmd Output
print_pid aux = do s ← get; c ← get_pcb (s.pcb_ptrs aux); pure (number c.pid ∷ [])

unfoldable pub pcb_ptr_list_print : ℕ → ListRef → Cmd Output
unfolding print_items print_pid
pcb_ptr_list_print rounds l = do
  h ← get_head l
  items ← print_items rounds print_pid (text ", " ∷ []) [] h.first
  pure (text "(" ∷ (items ++ text ")" ∷ []))

unfoldable pub pcb_print : ℕ → Ptr → Cmd Output
pcb_print rounds pcb = do
  c ← get_pcb pcb
  kids ← pcb_ptr_list_print rounds (children pcb)
  pure (text "[pid: " ∷ number c.pid ∷ text ", child: " ∷ (kids ++ text "]" ∷ []))

unfoldable pub pcb_list_print : ℕ → ListRef → Cmd Output
unfolding print_items
pcb_list_print rounds l = do
  h ← get_head l
  items ←
      print_items rounds (λ pcb. do o ← pcb_print rounds pcb; pure (text "\t" ∷ o)) (text "," ∷ [])
        (text "\n" ∷ []) h.first
  pure (text "{\n" ∷ (items ++ text "}\n" ∷ []))

unfoldable pub print_timer : Ptr → Cmd Output
print_timer aux = do
  s ← get
  c ← get_pcb (s.timers aux).pcb
  pure (
      text "(pid:"
      ∷ number c.pid
      ∷ text ", t:"
      ∷ number (s.timers aux).awakening_time
      ∷ text ")"
      ∷ [])

unfoldable pub timer_list_print : ℕ → ListRef → Cmd Output
unfolding print_items print_timer
timer_list_print rounds l = do
  h ← get_head l
  items ← print_items rounds print_timer (text ", " ∷ []) [] h.first
  pure (text "[" ∷ (items ++ text "]" ∷ []))

unfoldable pub print_descriptor : Ptr → Cmd Output
print_descriptor aux = do
  d ← get_descriptor aux
  r ← get_resource d.resource
  pure (text "(fd: " ∷ number d.fd ∷ text ", rid:" ∷ number r.id ∷ text ")" ∷ [])

unfoldable descriptor_list_print : ℕ → ListRef → Cmd Output
unfolding print_items print_descriptor
descriptor_list_print rounds l = do
  h ← get_head l
  items ← print_items rounds print_descriptor (text ", " ∷ []) [] h.first
  pure (text "[" ∷ (items ++ text "]" ∷ []))

unfoldable pub print_descriptor_ptr : Ptr → Cmd Output
print_descriptor_ptr aux = do
  s ← get
  d ← get_descriptor (s.descriptor_ptrs aux)
  c ← get_pcb d.pcb
  r ← get_resource d.resource
  pure (
      text "(pid: "
      ∷ number c.pid
      ∷ text ", fd: "
      ∷ number d.fd
      ∷ text ", rid:"
      ∷ number r.id
      ∷ text ")"
      ∷ [])

unfoldable pub descriptor_ptr_list_print : ℕ → ListRef → Cmd Output
unfolding print_items print_descriptor_ptr
descriptor_ptr_list_print rounds l = do
  h ← get_head l
  items ← print_items rounds print_descriptor_ptr (text ", " ∷ []) [] h.first
  pure (text "[" ∷ (items ++ text "]" ∷ []))
