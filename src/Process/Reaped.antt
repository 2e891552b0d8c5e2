-- ===== src/Process/Reaped.antt =====
-- internal_wait for a child that is a zombie.
pub mod Found
use mathlib.Core.Path.{subst}
use disastr_os_queues.Base.{
  ℕ, zero, suc, ℤ, pos, eq_ℤ, ltb_ℤ, Bool, true, false, not, ◌&&◌, ◌||◌, ◌+◌, ◌≤◌, ◌<◌, ◌≡◌, refl,
  List, [], ◌∷◌, ◌++◌, arith, has, ap, sym, ◌∙◌, ◌==◌, update, update_self, count, count-append,
  one_self, one_ne, not-has_of_count, count_of_has, length, if◌then◌else◌, and_false, Bool-cases,
  inl, inr,
}
use disastr_os_queues.LinkedList
use disastr_os_queues.LinkedList.{Ptr, null, is_null}
use disastr_os_queues.LinkedList.Chain.{IsList, IsList-frame, Seg, head_or, head_or-some}
use disastr_os_queues.LinkedList.Detach.{Detached}
use disastr_os_queues.PoolAllocator.{success}
use disastr_os_queues.PoolAllocator.Free.{IsPool, IsPlaced, block}
use disastr_os_queues.PoolAllocator.Release
use disastr_os_queues.PoolAllocator.Release.{returned, returned-IsPool}
use disastr_os_queues.Pcb.{pcb_free, pcb_ptr_free}
use disastr_os_queues.Process.{is_zombie, find_awaited, awaits_zombie, reap, internal_wait}
use disastr_os_queues.Process.Reaped.Found.{AllPassed, is_awaited, find_awaited-first}
use disastr_os_queues.Kernel.{
  System, Pcb, pure, modify, pcb_pool, pcb_ptr_pool, children, zombie_list, Ends, ok, get_head, int,
  pointer, list_detach,
}
use disastr_os_queues.Kernel.Lists.{after, list_detach_ok}
use disastr_os_queues.Kernel.Blocks

-- The running process has the child with the list item number `j`, a zombie in block number `i`;
-- the two lists that it stands in have no address in common.
pub record Reapable (s : System) : Type 0 where
  pub before : List Ptr
  pub behind : List Ptr
  pub zbefore : List Ptr
  pub zbehind : List Ptr
  pub i : ℕ
  pub j : ℕ
  pub free : List ℕ
  pub frees : List ℕ
  pub some : is_null s.running ≡ false
  pub pool : IsPool s.pools.pcb free
  pub placed : IsPlaced s.pools.pcb
  pub in_range : i < s.pools.pcb.size_max
  pub busy : has i free ≡ false
  pub pool_ptr : IsPool s.pools.pcb_ptr frees
  pub placed_ptr : IsPlaced s.pools.pcb_ptr
  pub in_range_ptr : j < s.pools.pcb_ptr.size_max
  pub busy_ptr : has j frees ≡ false
  pub mine : IsList s.items (s.pcbs s.running).children (before ++ block s.pools.pcb_ptr j ∷ behind)
  pub zombies : IsList s.items s.zombie_list (zbefore ++ block s.pools.pcb i ∷ zbehind)
  pub child : s.pcb_ptrs (block s.pools.pcb_ptr j) ≡ block s.pools.pcb i
  pub dead : is_zombie (s.pcbs (block s.pools.pcb i)).status ≡ true
  pub apart :
      (a : Ptr)
      → count a (s.running ∷ [])
          + count a (before ++ block s.pools.pcb_ptr j ∷ behind)
          + count a (zbefore ++ block s.pools.pcb i ∷ zbehind)
        ≤ 1

-- The child is out of both lists, its two blocks are free, and the running process, which goes on,
-- has its number for an answer and its return value at the address, unless that is null.
pub record Reaped (s : System) (k : Reapable s) (result : Ptr) (t : System) : Type 0 where
  pub mine : IsList t.items (t.pcbs s.running).children (k.before ++ k.behind)
  pub zombies : IsList t.items t.zombie_list (k.zbefore ++ k.zbehind)
  pub pool : IsPool t.pools.pcb (k.i ∷ k.free)
  pub pool_ptr : IsPool t.pools.pcb_ptr (k.j ∷ k.frees)
  pub answer : (t.pcbs s.running).syscall_retvalue ≡ (s.pcbs (block s.pools.pcb k.i)).pid
  pub value : t.ints ≡ (
      if is_null result
      then s.ints
      else update s.ints result (s.pcbs (block s.pools.pcb k.i)).return_value)
  pub running : t.running ≡ s.running

module _ (s : System) (k : Reapable s) where
  abbrev c : Ptr
  c = block s.pools.pcb k.i

  abbrev e : Ptr
  e = block s.pools.pcb_ptr k.j

  c_some : is_null c ≡ false
  c_some = let h = k.placed.buffer_pos in ground arith

  e_some : is_null e ≡ false
  e_some = let h = k.placed_ptr.buffer_pos in ground arith

  running_ne_c : (s.running == c) ≡ false
  running_ne_c = one_ne s.running c (
      let a = k.apart c in
      let b = one_self c in omega (arith, count-append c k.zbefore (c ∷ k.zbehind)))

  abbrev s1 : System
  s1 = after (children s.running) (LinkedList.detach (s.pcbs s.running).children s.items e) s

  abbrev s2 : System
  s2 = record s1 { pools = record s.pools { pcb_ptr = returned s.pools.pcb_ptr k.j } }

  abbrev s3 : System
  s3 = after zombie_list (LinkedList.detach s.zombie_list s1.items c) s2

  detach_mine :
      (list_detach (children s.running) e s ≡ ok e s1)
      × Detached s.items e
          (k.before ++ e ∷ k.behind)
          (k.before ++ k.behind)
          (LinkedList.detach (s.pcbs s.running).children s.items e)
  detach_mine = list_detach_ok (children s.running) s k.some k.before k.behind e k.mine e_some

  zombies-mine :
      (a : Ptr)
      → has a (k.zbefore ++ c ∷ k.zbehind) ≡ true
      → has a (k.before ++ e ∷ k.behind) ≡ false
  zombies-mine a h =
      let n = count_of_has a (k.zbefore ++ c ∷ k.zbehind) h in
      let o = k.apart a in not-has_of_count a (k.before ++ e ∷ k.behind) (omega arith)

  mine-zombies :
      (a : Ptr) → has a (k.before ++ k.behind) ≡ true → has a (k.zbefore ++ c ∷ k.zbehind) ≡ false
  mine-zombies a h =
      let n = count_of_has a (k.before ++ k.behind) h in
      let o = k.apart a in
      not-has_of_count a (k.zbefore ++ c ∷ k.zbehind)
        (omega (arith, count-append a k.before k.behind, count-append a k.before (e ∷ k.behind)))

  detach_zombie :
      (list_detach zombie_list c s2 ≡ ok c s3)
      × Detached s1.items c
          (k.zbefore ++ c ∷ k.zbehind)
          (k.zbefore ++ k.zbehind)
          (LinkedList.detach s.zombie_list s1.items c)
  detach_zombie =
      list_detach_ok zombie_list s2 refl k.zbefore k.zbehind c
        (IsList-frame k.zombies λ a h. detach_mine.1.same a (zombies-mine a h)) c_some

  free_ptr_ok : pcb_ptr_free e s1 ≡ ok success s2
  unfolding pcb_ptr_free
  free_ptr_ok = Blocks.release_block_ok pcb_ptr_pool s1 e (returned s.pools.pcb_ptr k.j) success (
      Release.release_block_ok s.pools.pcb_ptr k.frees k.j k.placed_ptr k.pool_ptr k.in_range_ptr
        k.busy_ptr)

  module _ (result : Ptr) where
    abbrev s4 : System
    s4 = record s3 {
      pcbs =
          update s1.pcbs s.running
            (record (s1.pcbs s.running) { syscall_retvalue = (s.pcbs c).pid });
    }

    abbrev s5 : System
    s5 = record s4 {
      ints = if is_null result then s.ints else update s.ints result (s.pcbs c).return_value;
    }

    abbrev s6 : System
    s6 = record s5 { pools = record s2.pools { pcb = returned s.pools.pcb k.i } }

    free_ok : pcb_free c s5 ≡ ok success s6
    unfolding pcb_free
    free_ok =
        Blocks.release_block_ok pcb_pool s5 c (returned s.pools.pcb k.i) success
          (Release.release_block_ok s.pools.pcb k.free k.i k.placed k.pool k.in_range k.busy)

    store_ok :
        (if is_null result
            then pure tt
            else modify (λ t. record t { ints = update t.ints result (s.pcbs c).return_value }))
          s4
        ≡ ok tt s5
    store_ok = elim (Bool-cases (is_null result)) [ inl h ↦ rw h | inr h ↦ rw h ]

    reap_ok : reap result e c s ≡ ok tt s6
    unfolding reap
    reap_ok = rw (
      detach_mine.0, free_ptr_ok, detach_zombie.0, c_some, running_ne_c, k.some, store_ok, free_ok,
    )

    reaped : Reaped s k result s6
    reaped =
        let mine_head = (LinkedList.detach (s.pcbs s.running).children s.items e).0 in
        let first =
          update_self s.pcbs s.running (record (s.pcbs s.running) { children = mine_head }) in
        let last =
          update_self s1.pcbs s.running
            (record (s1.pcbs s.running) { syscall_retvalue = (s.pcbs c).pid }) in
        record {
          mine =
              subst (λ h. IsList s3.items h (k.before ++ k.behind))
                (sym (ap (λ x. x.children) last ∙ ap (λ x. x.children) first))
                (IsList-frame detach_mine.1.list λ a h. detach_zombie.1.same a (mine-zombies a h));
          zombies = detach_zombie.1.list;
          pool = returned-IsPool s.pools.pcb k.free k.i k.placed k.pool k.in_range k.busy;
          pool_ptr =
              returned-IsPool s.pools.pcb_ptr k.frees k.j k.placed_ptr k.pool_ptr k.in_range_ptr
                k.busy_ptr;
          answer = ap (λ x. x.syscall_retvalue) last;
          value = refl;
          running = refl;
        }

    -- `internal_wait` for a child that is a zombie, the first one that the call stops at: the child
    -- leaves the children and the zombies, its block and that of its list item are free again, and
    -- the caller goes on with its number as the answer and gets its return value.
    pub internal_wait-Reaped :
        (rounds : ℕ) (pid : ℤ)
        → (s.pcbs s.running).syscall_args 0 ≡ int pid
        → (s.pcbs s.running).syscall_args 1 ≡ pointer result
        → AllPassed s pid k.before
        → is_awaited pid (s.pcbs c) ≡ true
        → length (k.before ++ e ∷ k.behind) < rounds
        → Ends (λ _ t. Reaped s k result t) (internal_wait rounds s)
    unfolding internal_wait awaits_zombie get_head
    internal_wait-Reaped rounds pid a0 a1 passed is fuel =
        let child_some : is_null (s.pcb_ptrs e) ≡ false = ap is_null k.child ∙ c_some in
        let found : find_awaited rounds pid (s.pcbs s.running).children.first null null s
            ≡ ok (e, c) s =
          ap (λ x. find_awaited rounds pid x null null s) k.mine.first
          ∙ (find_awaited-first s pid rounds null null null e k.before k.behind k.mine.linked
                k.mine.non_null passed child_some (ap (λ x. is_awaited pid (s.pcbs x)) k.child ∙ is)
                fuel
              ∙ ap (λ x. ok (e, x) s) k.child) in
        let kids : is_null (s.pcbs s.running).children.first ≡ false =
          ap is_null k.mine.first ∙ head_or-some k.before e k.behind k.mine.non_null in
        rw
          (
            k.some,
            a0,
            k.some,
            a1,
            k.some,
            kids,
            found,
            c_some,
            and_false (ltb_ℤ (pos 0) pid),
            c_some,
            k.dead,
            reap_ok,
          )
          reaped
