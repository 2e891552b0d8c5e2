-- ===== src/Files/Closed.antt =====
-- internal_closeResource on a descriptor of the running process.
use mathlib.Core.Path.{subst}
use disastr_os_queues.Base.{
  ℕ, ℤ, pos, ◌+◌, ◌≤◌, ◌<◌, ◌≡◌, true, false, List, ◌∷◌, ◌++◌, arith, has, ap, sym, ◌∙◌, update,
  update_self, count, count-append, not-has_of_count, count_of_has, eq_ℤ, length,
}
use disastr_os_queues.LinkedList
use disastr_os_queues.LinkedList.{Ptr, null, is_null}
use disastr_os_queues.LinkedList.Chain.{IsList, IsList-frame}
use disastr_os_queues.LinkedList.Detach.{Detached}
use disastr_os_queues.LinkedList.Walk.{first_match, first_where-first_match}
use disastr_os_queues.PoolAllocator.{success}
use disastr_os_queues.PoolAllocator.Free.{IsPool, IsPlaced, block}
use disastr_os_queues.PoolAllocator.Release
use disastr_os_queues.PoolAllocator.Release.{returned, returned-IsPool}
use disastr_os_queues.Descriptor.{descriptor_free, descriptor_ptr_free, descriptor_by_fd}
use disastr_os_queues.Files.{internal_close_resource}
use disastr_os_queues.Kernel.{
  System, descriptor_pool, descriptor_ptr_pool, descriptors, descriptors_ptrs, Ends, ok, get_head,
  int, list_detach, search_list,
}
use disastr_os_queues.Kernel.Lists.{after, list_detach_ok}
use disastr_os_queues.Kernel.Blocks

-- The descriptor number `i` and the item number `j` are out of the lists and free again.
pub record Closed (s : System) (res : Ptr) (i j : ℕ) (ds es : List Ptr) (free frees : List ℕ)
    (t : System) : Type 0 where
  pub mine : IsList t.items (t.pcbs s.running).descriptors ds
  pub openers : IsList t.items (t.resources res).descriptors_ptrs es
  pub pool : IsPool t.pools.descriptor (i ∷ free)
  pub pool_ptr : IsPool t.pools.descriptor_ptr (j ∷ frees)
  pub result : (t.pcbs s.running).syscall_retvalue ≡ pos 0
  pub next_fd : (t.pcbs s.running).last_fd ≡ (s.pcbs s.running).last_fd

module _ (s : System) (res : Ptr) (before behind ebefore ebehind : List Ptr) (i j : ℕ)
    (free frees : List ℕ) (some : is_null s.running ≡ false) (pool : IsPool s.pools.descriptor free)
    (placed : IsPlaced s.pools.descriptor) (in_range : i < s.pools.descriptor.size_max)
    (busy : has i free ≡ false) (pool_ptr : IsPool s.pools.descriptor_ptr frees)
    (placed_ptr : IsPlaced s.pools.descriptor_ptr)
    (in_range_ptr : j < s.pools.descriptor_ptr.size_max) (busy_ptr : has j frees ≡ false)
    (mine : IsList s.items
      (s.pcbs s.running).descriptors
      (before ++ block s.pools.descriptor i ∷ behind))
    (res_is : (s.descriptor_items (block s.pools.descriptor i)).resource ≡ res)
    (ptr_is : (s.descriptor_items (block s.pools.descriptor i)).ptr
      ≡ block s.pools.descriptor_ptr j)
    (res_some : is_null res ≡ false)
    (openers : IsList s.items
      (s.resources res).descriptors_ptrs
      (ebefore ++ block s.pools.descriptor_ptr j ∷ ebehind))
    (apart : (a : Ptr)
      → count a (before ++ block s.pools.descriptor i ∷ behind)
          + count a (ebefore ++ block s.pools.descriptor_ptr j ∷ ebehind)
        ≤ 1) where
  abbrev d : Ptr
  d = block s.pools.descriptor i

  abbrev e : Ptr
  e = block s.pools.descriptor_ptr j

  d_some : is_null d ≡ false
  d_some = let h = placed.buffer_pos in ground arith

  e_some : is_null e ≡ false
  e_some = let h = placed_ptr.buffer_pos in ground arith

  abbrev s1 : System
  s1 = after (descriptors s.running) (LinkedList.detach (s.pcbs s.running).descriptors s.items d) s

  abbrev s2 : System
  s2 =
      after (descriptors_ptrs res) (LinkedList.detach (s.resources res).descriptors_ptrs s1.items e)
        s1

  abbrev s3 : System
  s3 = record s2 { pools = record s.pools { descriptor = returned s.pools.descriptor i } }

  abbrev s4 : System
  s4 = record s3 { pools = record s3.pools { descriptor_ptr = returned s.pools.descriptor_ptr j } }

  detach_mine :
      (list_detach (descriptors s.running) d s ≡ ok d s1)
      × Detached s.items d
          (before ++ d ∷ behind)
          (before ++ behind)
          (LinkedList.detach (s.pcbs s.running).descriptors s.items d)
  detach_mine = list_detach_ok (descriptors s.running) s some before behind d mine d_some

  openers-mine :
      (a : Ptr) → has a (ebefore ++ e ∷ ebehind) ≡ true → has a (before ++ d ∷ behind) ≡ false
  openers-mine a h =
      let c = count_of_has a (ebefore ++ e ∷ ebehind) h in
      let o = apart a in not-has_of_count a (before ++ d ∷ behind) (omega arith)

  mine-openers :
      (a : Ptr) → has a (before ++ behind) ≡ true → has a (ebefore ++ e ∷ ebehind) ≡ false
  mine-openers a h =
      let c = count_of_has a (before ++ behind) h in
      let o = apart a in
      not-has_of_count a (ebefore ++ e ∷ ebehind)
        (omega (arith, count-append a before behind, count-append a before (d ∷ behind)))

  detach_opener :
      (list_detach (descriptors_ptrs res) e s1 ≡ ok e s2)
      × Detached s1.items e
          (ebefore ++ e ∷ ebehind)
          (ebefore ++ ebehind)
          (LinkedList.detach (s.resources res).descriptors_ptrs s1.items e)
  detach_opener =
      list_detach_ok (descriptors_ptrs res) s1 res_some ebefore ebehind e
        (IsList-frame openers λ a h. detach_mine.1.same a (openers-mine a h)) e_some

  free_ok : descriptor_free d s2 ≡ ok success s3
  unfolding descriptor_free
  free_ok =
      Blocks.release_block_ok descriptor_pool s2 d (returned s.pools.descriptor i) success
        (Release.release_block_ok s.pools.descriptor free i placed pool in_range busy)

  free_ptr_ok : descriptor_ptr_free e s3 ≡ ok success s4
  unfolding descriptor_ptr_free
  free_ptr_ok =
      Blocks.release_block_ok descriptor_ptr_pool s3 e (returned s.pools.descriptor_ptr j) success (
        Release.release_block_ok s.pools.descriptor_ptr frees j placed_ptr pool_ptr in_range_ptr
          busy_ptr)

  abbrev s5 : System
  s5 = record s4 {
    pcbs = update s1.pcbs s.running (record (s1.pcbs s.running) { syscall_retvalue = pos 0 });
  }

  closed : Closed s res i j (before ++ behind) (ebefore ++ ebehind) free frees s5
  closed =
      let mine_head = (LinkedList.detach (s.pcbs s.running).descriptors s.items d).0 in
      let first =
        update_self s.pcbs s.running (record (s.pcbs s.running) { descriptors = mine_head }) in
      let last =
        update_self s1.pcbs s.running (record (s1.pcbs s.running) { syscall_retvalue = pos 0 }) in
      let opener_head = (LinkedList.detach (s.resources res).descriptors_ptrs s1.items e).0 in
      let opener =
        update_self s.resources res (record (s.resources res) { descriptors_ptrs = opener_head }) in
      record {
        mine =
            subst (λ h. IsList s5.items h (before ++ behind))
              (sym (ap (λ c. c.descriptors) last ∙ ap (λ c. c.descriptors) first))
              (IsList-frame detach_mine.1.list λ a h. detach_opener.1.same a (mine-openers a h));
        openers =
            subst (λ h. IsList s5.items h (ebefore ++ ebehind))
              (sym (ap (λ c. c.descriptors_ptrs) opener)) detach_opener.1.list;
        pool = returned-IsPool s.pools.descriptor free i placed pool in_range busy;
        pool_ptr =
            returned-IsPool s.pools.descriptor_ptr frees j placed_ptr pool_ptr in_range_ptr
              busy_ptr;
        result = ap (λ c. c.syscall_retvalue) last;
        next_fd = ap (λ c. c.last_fd) last ∙ ap (λ c. c.last_fd) first;
      }

  -- On a descriptor of the running process, `internal_closeResource` takes the descriptor out of
  -- the list of the process and its item out of the list of the resource, keeps the others in their
  -- order, makes both blocks free again, and answers 0. The two lists have no address in common.
  pub internal_close_resource-Closed :
      (rounds : ℕ) (fd : ℤ)
      → (s.pcbs s.running).syscall_args 0 ≡ int fd
      → length (before ++ d ∷ behind) < rounds
      → first_match (λ a. eq_ℤ (s.descriptor_items a).fd fd) (before ++ d ∷ behind) ≡ d
      → Ends
          (λ _ t. Closed s res i j (before ++ behind) (ebefore ++ ebehind) free frees t)
          (internal_close_resource rounds s)
  unfolding internal_close_resource descriptor_by_fd search_list get_head
  internal_close_resource-Closed rounds fd a0 fuel found =
      let r = first_where-first_match rounds (λ a. eq_ℤ (s.descriptor_items a).fd fd) mine fuel in
      rw
        (
          some, a0, some, r, found, d_some, detach_mine.0, d_some, d_some, res_is, ptr_is,
          detach_opener.0, e_some, free_ok, free_ptr_ok, some,
        )
        closed
