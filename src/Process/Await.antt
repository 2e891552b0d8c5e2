-- ===== src/Process/Await.antt =====
-- internal_wait for a process that is not a child of the caller.
use disastr_os_queues.Base.{
  ℕ, zero, suc, ◌<◌, ◌≡◌, refl, false, true, List, [], ◌∷◌, arith, ℤ, pos, eq_ℤ, ltb_ℤ, has, length,
  ap, ◌∙◌, if◌then◌else◌,
}
use disastr_os_queues.LinkedList.{Ptr, null, is_null}
use disastr_os_queues.LinkedList.Chain.{head_or, last_or, Seg, IsList}
use disastr_os_queues.Process.{
  is_zombie, find_awaited, awaits_zombie, reap, wait_for_child, internal_wait,
}
use disastr_os_queues.Kernel.{System, int, pointer, ok, get_pcb, pure, ◌>>=◌, get_head}

-- None of the children, given by their list items, has the process number.
abbrev NoneHas : System → ℤ → List Ptr → Type 0
NoneHas s pid [] = Unit {0}
NoneHas s pid (c ∷ cs) =
    (is_null (s.pcb_ptrs c) ≡ false)
    × (eq_ℤ (s.pcbs (s.pcb_ptrs c)).pid pid ≡ false)
    × NoneHas s pid cs

-- The process of the last item.
abbrev last_pcb : System → Ptr → List Ptr → Ptr
last_pcb s before [] = before
last_pcb s before (c ∷ cs) = last_pcb s (s.pcb_ptrs c) cs

find_awaited-last :
    (s : System) (pid : ℤ) (rounds : ℕ) (p ptr pcb : Ptr) (cs : List Ptr)
    → ltb_ℤ (pos 0) pid ≡ true
    → Seg s.items p cs null
    → has null cs ≡ false
    → NoneHas s pid cs
    → length cs < rounds
    → find_awaited rounds pid (head_or cs null) ptr pcb s ≡ ok (last_or ptr cs, last_pcb s pcb cs) s
unfolding find_awaited
find_awaited-last s pid zero p ptr pcb cs h g k n fuel = elim fuel [ ]
find_awaited-last s pid (suc rounds) p ptr pcb [] h g k n fuel = refl
find_awaited-last s pid (suc rounds) p ptr pcb (c ∷ cs) h (a, b, g) k (some, ne, n) fuel =
    let c_some : is_null c ≡ false = ground arith in
    let positive : eq_ℤ pid (pos 0) ≡ false = ground arith in
    rw (c_some, some, positive, ne, c_some, b)
      (find_awaited-last s pid rounds c c (s.pcb_ptrs c) cs h g (ground arith) n (omega arith))

last_pcb-some :
    (s : System) (pid : ℤ) (before : Ptr) (cs : List Ptr)
    → is_null before ≡ false
    → NoneHas s pid cs
    → is_null (last_pcb s before cs) ≡ false
last_pcb-some s pid before [] h n = h
last_pcb-some s pid before (c ∷ cs) h n = last_pcb-some s pid (s.pcb_ptrs c) cs n.0 n.2

reap_or_wait :
    (s : System) (result item child : Ptr)
    → is_null child ≡ false
    → (do
      dead ← (do c ← get_pcb child; pure (is_zombie c.status))
      if dead then reap result item child else wait_for_child)
        s
      ≡ (if is_zombie (s.pcbs child).status then reap result item child else wait_for_child) s
reap_or_wait s result item child h = rw h

-- A process that waits for a number that none of its children has gets no error: the call takes
-- its last child for the awaited one, which is reaped if it is a zombie, and else the caller sleeps.
pub internal_wait-last :
    (s : System) (rounds : ℕ) (pid : ℤ) (result c : Ptr) (cs : List Ptr)
    → is_null s.running ≡ false
    → (s.pcbs s.running).syscall_args 0 ≡ int pid
    → (s.pcbs s.running).syscall_args 1 ≡ pointer result
    → ltb_ℤ (pos 0) pid ≡ true
    → IsList s.items (s.pcbs s.running).children (c ∷ cs)
    → NoneHas s pid (c ∷ cs)
    → length (c ∷ cs) < rounds
    → let child = last_pcb s (s.pcb_ptrs c) cs in
      internal_wait rounds s
      ≡ (if is_zombie (s.pcbs child).status
            then reap result (last_or c cs) child
            else wait_for_child)
          s
unfolding internal_wait awaits_zombie get_head
internal_wait-last s rounds pid result c cs some a0 a1 positive l n fuel =
    let h = l.non_null in
    let c_some : is_null (s.pcbs s.running).children.first ≡ false =
      ap is_null l.first ∙ ground arith in
    let found : find_awaited rounds pid (s.pcbs s.running).children.first null null s
        ≡ ok (last_or c cs, last_pcb s (s.pcb_ptrs c) cs) s =
      ap (λ x. find_awaited rounds pid x null null s) l.first
      ∙ find_awaited-last s pid rounds null null null (c ∷ cs) positive l.linked l.non_null n
          fuel in
    let dead = last_pcb-some s pid (s.pcb_ptrs c) cs n.0 n.2 in
    rw (some, a0, some, a1, some, c_some, found, positive, dead)
      (reap_or_wait s result (last_or c cs) (last_pcb s (s.pcb_ptrs c) cs) dead)
