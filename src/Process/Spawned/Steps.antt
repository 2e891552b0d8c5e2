-- ===== src/Process/Spawned/Steps.antt =====
-- The steps of internal_spawn.
use mathlib.Core.Path.{subst}
use disastr_os_queues.Base.{
  ℕ, pos, incr, ◌+◌, ◌-◌, ◌^◌, ◌≤◌, ◌≡◌, refl, true, false, List, [], ◌∷◌, ◌++◌, arith, has, ap,
  sym, ◌∙◌, ◌==◌, update, count, one_self, one_ne, count-append, not-has_of_count, count_of_has,
}
use disastr_os_queues.LinkedList
use disastr_os_queues.LinkedList.{Ptr, null, is_null}
use disastr_os_queues.LinkedList.Chain.{IsList, IsList-frame, last_or}
use disastr_os_queues.LinkedList.Insert.{Inserted}
use disastr_os_queues.PoolAllocator.Free.{IsPool, IsPlaced, block, handed}
use disastr_os_queues.Pcb.{pcb_alloc, pcb_ptr_alloc}
use disastr_os_queues.Kernel.{
  System, Pcb, ProcessStatus, trampoline, pcb_pool, pcb_ptr_pool, children, ready_list, ok,
  list_append,
}
use disastr_os_queues.Kernel.Lists.{after, list_append_ok}
use disastr_os_queues.Kernel.Blocks.{get_block_ok}

-- The running process can spawn one more: there is a free block `i` for the process and a free block
-- `j` for its item among the children, neither of which stands in a list.
pub record Spawnable (s : System) : Type 0 where
  pub kids : List Ptr
  pub ready : List Ptr
  pub i : ℕ
  pub j : ℕ
  pub free : List ℕ
  pub frees : List ℕ
  pub some : is_null s.running ≡ false
  pub pool : IsPool s.pools.pcb (i ∷ free)
  pub placed : IsPlaced s.pools.pcb
  pub pool_ptr : IsPool s.pools.pcb_ptr (j ∷ frees)
  pub placed_ptr : IsPlaced s.pools.pcb_ptr
  pub mine : IsList s.items (s.pcbs s.running).children kids
  pub others : IsList s.items s.ready_list ready
  pub apart :
      (a : Ptr)
      → count a (s.running ∷ block s.pools.pcb i ∷ block s.pools.pcb_ptr j ∷ [])
          + count a kids
          + count a ready
        ≤ 1

module _ (s : System) (k : Spawnable s) where
  abbrev pub c : Ptr
  c = block s.pools.pcb k.i

  abbrev pub e : Ptr
  e = block s.pools.pcb_ptr k.j

  pub c_some : is_null c ≡ false
  c_some = let h = k.placed.buffer_pos in ground arith

  pub e_some : is_null e ≡ false
  e_some = let h = k.placed_ptr.buffer_pos in ground arith

  e_ne_c : (e == c) ≡ false
  e_ne_c = one_ne e c (let a = k.apart c in let b = one_self c in omega arith)

  pub running_ne_c : (s.running == c) ≡ false
  running_ne_c = one_ne s.running c (let a = k.apart c in let b = one_self c in omega arith)

  pub c_ne_running : (c == s.running) ≡ false
  c_ne_running =
      one_ne c s.running (let a = k.apart s.running in let b = one_self s.running in omega arith)

  c-not-ready : has c k.ready ≡ false
  c-not-ready = not-has_of_count c k.ready (let a = k.apart c in let b = one_self c in omega arith)

  e-not-kid : has e k.kids ≡ false
  e-not-kid = not-has_of_count e k.kids (let a = k.apart e in let b = one_self e in omega arith)

  kid_apart : (a : Ptr) → has a k.kids ≡ true → ((c == a) ≡ false) × ((e == a) ≡ false)
  kid_apart a h =
      let n = count_of_has a k.kids h in
      let o = k.apart a in (one_ne c a (omega arith), one_ne e a (omega arith))

  ready_apart :
      (a : Ptr)
      → has a k.ready ≡ true
      → (has a (e ∷ k.kids) ≡ false) × ((c == a) ≡ false) × ((e == a) ≡ false)
  ready_apart a h =
      let n = count_of_has a k.ready h in
      let o = k.apart a in
      (
        not-has_of_count a (e ∷ k.kids) (omega arith),
        one_ne c a (omega arith),
        one_ne e a (omega arith),
      )

  pub kids-not-ready : (a : Ptr) → has a (k.kids ++ e ∷ []) ≡ true → has a (c ∷ k.ready) ≡ false
  kids-not-ready a h =
      let n = count_of_has a (k.kids ++ e ∷ []) h in
      let o = k.apart a in
      not-has_of_count a (c ∷ k.ready) (omega (arith, count-append a k.kids (e ∷ [])))

  -- The states between the calls.
  abbrev pub made : Pcb
  made = record (s.pcbs c) {
    pid = s.last_pid;
    return_value = pos 0;
    status = ProcessStatus.invalid;
    last_fd = pos 0;
    signals = 0;
    signals_mask = 2 ^ 32 - 1;
    descriptors = LinkedList.init;
    parent = null;
    timer = null;
    children = LinkedList.init;
  }

  abbrev pub s1 : System
  s1 = record s {
    pools = record s.pools { pcb = handed s.pools.pcb k.i };
    pcbs = update s.pcbs c made;
    items = update s.items c (record { prev = 0; next = 0 });
    last_pid = incr s.last_pid;
  }

  abbrev pub born : Pcb
  born = record (s1.pcbs c) { status = ProcessStatus.ready; parent = s.running }

  abbrev s2 : System
  s2 = record s1 { pcbs = update s1.pcbs c born }

  abbrev pub s3 : System
  s3 = record s2 {
    pools = record s1.pools { pcb_ptr = handed s.pools.pcb_ptr k.j };
    items = update s1.items e (record { prev = 0; next = 0 });
    pcb_ptrs = update s.pcb_ptrs e c;
  }

  pub alloc_ok : pcb_alloc s ≡ ok c s1
  unfolding pcb_alloc
  alloc_ok = rw (get_block_ok pcb_pool s k.i k.pool.chain.0 k.pool.chain.1, c_some) refl

  pub ptr_alloc_ok : pcb_ptr_alloc c s2 ≡ ok e s3
  unfolding pcb_ptr_alloc
  ptr_alloc_ok =
      rw (get_block_ok pcb_ptr_pool s2 k.j k.pool_ptr.chain.0 k.pool_ptr.chain.1, e_some) refl

  caller_kept : s3.pcbs s.running ≡ s.pcbs s.running
  caller_kept = rw c_ne_running refl

  abbrev pub s4 : System
  s4 =
      after (children s.running)
        (LinkedList.insert (s3.pcbs s.running).children s3.items (last_or null k.kids) e) s3

  abbrev pub s5 : System
  s5 = after ready_list (LinkedList.insert s.ready_list s4.items (last_or null k.ready) c) s4

  kids_now : IsList s3.items (s3.pcbs s.running).children k.kids
  kids_now =
      subst (λ p. IsList s3.items p.children k.kids) (sym caller_kept)
        (IsList-frame k.mine λ a h. let (x, y) = kid_apart a h in rw (y, x) refl)

  pub append_kid :
      (list_append (children s.running) e s3 ≡ ok e s4)
      × Inserted s3.items e k.kids
          (k.kids ++ e ∷ [])
          (LinkedList.insert (s3.pcbs s.running).children s3.items (last_or null k.kids) e)
  append_kid =
      list_append_ok (children s.running) s3 k.some k.kids e kids_now e_some (ground arith)
        (ground arith) e-not-kid

  pub append_ready :
      (list_append ready_list c s4 ≡ ok c s5)
      × Inserted s4.items c k.ready
          (k.ready ++ c ∷ [])
          (LinkedList.insert s.ready_list s4.items (last_or null k.ready) c)
  append_ready =
      let kept : s4.items c ≡ record { prev = 0; next = 0 } =
        append_kid.1.same c
          (not-has_of_count c (e ∷ k.kids) (let a = k.apart c in let b = one_self c in omega arith))
        ∙ ground (arith, e_ne_c) in
      list_append_ok ready_list s4 refl k.ready c
        (IsList-frame k.others
          λ a h. let (x, y, z) = ready_apart a h in append_kid.1.same a x ∙ rw (z, y) refl)
        c_some (ap (λ x. x.next) kept) (ap (λ x. x.prev) kept) c-not-ready

  abbrev pub s6 : System
  s6 = record s5 {
    pcbs =
        update s5.pcbs s.running
          (record (s5.pcbs s.running) { syscall_retvalue = (s5.pcbs c).pid });
  }

  abbrev pub s7 : (f args : Ptr) → System
  s7 f args = record s6 {
    pcbs = update s6.pcbs c (record (s6.pcbs c) { cpu_state = trampoline f args });
  }
