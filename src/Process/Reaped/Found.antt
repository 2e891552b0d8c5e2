-- ===== src/Process/Reaped/Found.antt =====
-- The loop of internal_wait that stops at an awaited child.
use disastr_os_queues.Base.{
  ℕ, zero, suc, ℤ, pos, eq_ℤ, Bool, true, false, not, ◌&&◌, ◌||◌, ◌<◌, ◌≡◌, List, [], ◌∷◌, ◌++◌,
  arith, has, length,
}
use disastr_os_queues.LinkedList.{Ptr, null, is_null}
use disastr_os_queues.LinkedList.Chain.{Seg, head_or}
use disastr_os_queues.Process.{is_zombie, find_awaited}
use disastr_os_queues.Kernel.{System, Pcb, ok}

-- Does a call that waits for `pid` stop at this process?
unfoldable pub is_awaited : ℤ → Pcb → Bool
is_awaited pid c =
    (eq_ℤ pid (pos 0) && is_zombie c.status) || (not (eq_ℤ pid (pos 0)) && eq_ℤ c.pid pid)

-- The call passes by each of the children, given by their list items.
abbrev pub AllPassed : System → ℤ → List Ptr → Type 0
AllPassed s pid [] = Unit {0}
AllPassed s pid (c ∷ cs) =
    (is_null (s.pcb_ptrs c) ≡ false)
    × (is_awaited pid (s.pcbs (s.pcb_ptrs c)) ≡ false)
    × AllPassed s pid cs

pub find_awaited-first :
    (s : System) (pid : ℤ) (rounds : ℕ) (p ptr pcb item : Ptr) (cs ds : List Ptr)
    → Seg s.items p (cs ++ item ∷ ds) null
    → has null (cs ++ item ∷ ds) ≡ false
    → AllPassed s pid cs
    → is_null (s.pcb_ptrs item) ≡ false
    → is_awaited pid (s.pcbs (s.pcb_ptrs item)) ≡ true
    → length (cs ++ item ∷ ds) < rounds
    → find_awaited rounds pid (head_or (cs ++ item ∷ ds) null) ptr pcb s
      ≡ ok (item, s.pcb_ptrs item) s
unfolding find_awaited is_awaited
find_awaited-first s pid zero p ptr pcb item cs ds h k a some is fuel = elim fuel [ ]
find_awaited-first s pid (suc rounds) p ptr pcb item [] ds h k a some is fuel =
    let item_some : is_null item ≡ false = ground arith in rw (item_some, some, is)
find_awaited-first s pid (suc rounds) p ptr pcb item (c ∷ cs) ds (_, b, h) k (some_c, ne, a) some is
      fuel =
    let c_some : is_null c ≡ false = ground arith in
    rw (c_some, some_c, ne, c_some, b)
      (find_awaited-first s pid rounds c c (s.pcb_ptrs c) item cs ds h (ground arith) a some is
        (omega arith))
