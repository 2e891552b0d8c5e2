-- ===== src/Files/Opened/Steps.antt =====
-- The steps of internal_openResource that make a descriptor.
use disastr_os_queues.Base.{
  ℕ, incr, ◌+◌, ◌≤◌, ◌≡◌, refl, true, false, List, [], ◌∷◌, ◌++◌, arith, has, ap, ◌∙◌, ◌==◌, update,
  update_self, count, one_self, one_ne, not-has_of_count, count_of_has, count-append,
}
use disastr_os_queues.LinkedList
use disastr_os_queues.LinkedList.{Ptr, null, is_null}
use disastr_os_queues.LinkedList.Chain.{IsList, IsList-frame, last_or}
use disastr_os_queues.LinkedList.Insert.{Inserted}
use disastr_os_queues.PoolAllocator.Free.{IsPool, IsPlaced, block, handed}
use disastr_os_queues.Descriptor.{descriptor_alloc, descriptor_ptr_alloc}
use disastr_os_queues.Kernel.{
  System, descriptor_pool, descriptor_ptr_pool, descriptors, descriptors_ptrs, ok, list_append,
}
use disastr_os_queues.Kernel.Lists.{after, list_append_ok}
use disastr_os_queues.Kernel.Blocks.{get_block_ok}

-- The running process can open the resource `res`: there is a free block `i` for the descriptor and
-- a free block `j` for its item, neither of which stands in a list.
pub record Openable (s : System) (res : Ptr) : Type 0 where
  pub ds : List Ptr
  pub es : List Ptr
  pub i : ℕ
  pub j : ℕ
  pub free : List ℕ
  pub frees : List ℕ
  pub some : is_null s.running ≡ false
  pub res_some : is_null res ≡ false
  pub pool : IsPool s.pools.descriptor (i ∷ free)
  pub placed : IsPlaced s.pools.descriptor
  pub pool_ptr : IsPool s.pools.descriptor_ptr (j ∷ frees)
  pub placed_ptr : IsPlaced s.pools.descriptor_ptr
  pub mine : IsList s.items (s.pcbs s.running).descriptors ds
  pub openers : IsList s.items (s.resources res).descriptors_ptrs es
  pub apart :
      (a : Ptr)
      → count a (block s.pools.descriptor i ∷ block s.pools.descriptor_ptr j ∷ [])
          + count a ds
          + count a es
        ≤ 1

module _ (s : System) (res : Ptr) (k : Openable s res) where
  abbrev pub d : Ptr
  d = block s.pools.descriptor k.i

  abbrev pub e : Ptr
  e = block s.pools.descriptor_ptr k.j

  pub d_some : is_null d ≡ false
  d_some = let h = k.placed.buffer_pos in ground arith

  e_some : is_null e ≡ false
  e_some = let h = k.placed_ptr.buffer_pos in ground arith

  d_ne_e : (e == d) ≡ false
  d_ne_e = one_ne e d (let a = k.apart d in let b = one_self d in omega arith)

  d-not-mine : has d k.ds ≡ false
  d-not-mine = not-has_of_count d k.ds (let a = k.apart d in let b = one_self d in omega arith)

  e-not-opener : has e k.es ≡ false
  e-not-opener = not-has_of_count e k.es (let a = k.apart e in let b = one_self e in omega arith)

  opener-apart :
      (a : Ptr)
      → has a k.es ≡ true
      → (has a (d ∷ k.ds) ≡ false) × ((d == a) ≡ false) × ((e == a) ≡ false)
  opener-apart a h =
      let c = count_of_has a k.es h in
      let o = k.apart a in
      (
        not-has_of_count a (d ∷ k.ds) (omega arith),
        one_ne d a (omega arith),
        one_ne e a (omega arith),
      )

  mine-apart : (a : Ptr) → has a k.ds ≡ true → ((d == a) ≡ false) × ((e == a) ≡ false)
  mine-apart a h =
      let c = count_of_has a k.ds h in
      let o = k.apart a in (one_ne d a (omega arith), one_ne e a (omega arith))

  -- The states between the calls.
  abbrev s1 : System
  s1 = record s {
    pools = record s.pools { descriptor = handed s.pools.descriptor k.i };
    items = update s.items d (record { prev = 0; next = 0 });
    descriptor_items = update s.descriptor_items d (record (s.descriptor_items d) {
      fd = (s.pcbs s.running).last_fd;
      resource = res;
      pcb = s.running;
      reader = null;
      writer = null;
      blocker = null;
    });
  }

  abbrev s2 : System
  s2 = record s1 {
    pcbs =
        update s.pcbs s.running
          (record (s.pcbs s.running) { last_fd = incr (s.pcbs s.running).last_fd });
    pools = record s1.pools { descriptor_ptr = handed s.pools.descriptor_ptr k.j };
    items = update s1.items e (record { prev = 0; next = 0 });
    descriptor_ptrs = update s.descriptor_ptrs e d;
  }

  pub alloc_ok : descriptor_alloc (s.pcbs s.running).last_fd res s.running s ≡ ok d s1
  unfolding descriptor_alloc
  alloc_ok = rw (get_block_ok descriptor_pool s k.i k.pool.chain.0 k.pool.chain.1, d_some, d_some)

  abbrev s1' : System
  s1' = record s1 { pcbs = s2.pcbs }

  pub ptr_alloc_ok : descriptor_ptr_alloc d s1' ≡ ok e s2
  unfolding descriptor_ptr_alloc
  ptr_alloc_ok =
      rw (get_block_ok descriptor_ptr_pool s1' k.j k.pool_ptr.chain.0 k.pool_ptr.chain.1, e_some)

  pub running_self : (s.running == s.running) ≡ true
  running_self = ground arith

  mine_now : IsList s2.items (s2.pcbs s.running).descriptors k.ds
  mine_now =
      rw running_self (IsList-frame k.mine λ a h. let (x, y) = mine-apart a h in rw (y, x) refl)

  abbrev s3 : System
  s3 =
      after (descriptors s.running)
        (LinkedList.insert (s2.pcbs s.running).descriptors s2.items (last_or null k.ds) d) s2

  abbrev s4 : System
  s4 = record s3 {
    descriptor_items = update s3.descriptor_items d (record (s3.descriptor_items d) { ptr = e });
  }

  abbrev pub s5 : System
  s5 =
      after (descriptors_ptrs res)
        (LinkedList.insert (s.resources res).descriptors_ptrs s4.items (last_or null k.es) e) s4

  pub append_mine :
      (list_append (descriptors s.running) d s2 ≡ ok d s3)
      × Inserted s2.items d k.ds
          (k.ds ++ d ∷ [])
          (LinkedList.insert (s2.pcbs s.running).descriptors s2.items (last_or null k.ds) d)
  append_mine =
      list_append_ok (descriptors s.running) s2 k.some k.ds d mine_now d_some
        (rw d_ne_e (ground arith)) (rw d_ne_e (ground arith)) d-not-mine

  pub append_opener :
      (list_append (descriptors_ptrs res) e s4 ≡ ok e s5)
      × Inserted s4.items e k.es
          (k.es ++ e ∷ [])
          (LinkedList.insert (s.resources res).descriptors_ptrs s4.items (last_or null k.es) e)
  append_opener =
      let kept : s3.items e ≡ record { prev = 0; next = 0 } =
        append_mine.1.same e
          (not-has_of_count e (d ∷ k.ds) (let a = k.apart e in let b = one_self e in omega arith))
        ∙ ground arith in
      list_append_ok (descriptors_ptrs res) s4 k.res_some k.es e
        (IsList-frame k.openers
          λ a h. let (x, y, z) = opener-apart a h in append_mine.1.same a x ∙ rw (z, y) refl)
        e_some (ap (λ c. c.next) kept) (ap (λ c. c.prev) kept) e-not-opener

  abbrev s6 : System
  s6 = record s5 {
    pcbs =
        update s5.pcbs s.running
          (record (s5.pcbs s.running) { syscall_retvalue = (s5.descriptor_items d).fd });
  }

  pub head_kept :
      (s6.pcbs s.running).descriptors
      ≡ (LinkedList.insert (s2.pcbs s.running).descriptors s2.items (last_or null k.ds) d).0
  head_kept =
      ap (λ c. c.descriptors)
        (update_self s5.pcbs s.running
          (record (s5.pcbs s.running) { syscall_retvalue = (s5.descriptor_items d).fd }))
      ∙ ap (λ c. c.descriptors)
          (update_self s2.pcbs s.running (record (s2.pcbs s.running) {
            descriptors =
                (LinkedList.insert (s2.pcbs s.running).descriptors s2.items (last_or null k.ds)
                  d).0;
          }))

  pub mine-not-opener : (a : Ptr) → has a (k.ds ++ d ∷ []) ≡ true → has a (e ∷ k.es) ≡ false
  mine-not-opener a h =
      let c = count_of_has a (k.ds ++ d ∷ []) h in
      let o = k.apart a in
      not-has_of_count a (e ∷ k.es) (omega (arith, count-append a k.ds (d ∷ [])))

  -- No other object of the kernel's lists is linked anew.
  pub items-outside :
      (a : Ptr) → has a (d ∷ k.ds) ≡ false → has a (e ∷ k.es) ≡ false → s5.items a ≡ s.items a
  items-outside a not_mine not_opener =
      let same = append_opener.1.same a not_opener ∙ append_mine.1.same a not_mine in
      let (x, y) : ((d == a) ≡ false) × ((e == a) ≡ false) = (ground arith, ground arith) in
      same ∙ rw (y, x) refl
