-- ===== src/Process/Spawned.antt =====
-- internal_spawn.
pub mod Steps
use mathlib.Core.Path.{subst}
use disastr_os_queues.Base.{
  ℕ, pos, incr, ◌+◌, ◌-◌, ◌^◌, ◌≤◌, ◌≡◌, refl, true, false, List, [], ◌∷◌, ◌++◌, arith, has, ap,
  sym, ◌∙◌, ◌==◌, update, update_self, update_ne, count, one_self, one_ne, count-append,
  not-has_of_count, count_of_has,
}
use disastr_os_queues.LinkedList
use disastr_os_queues.LinkedList.{Ptr, null, is_null}
use disastr_os_queues.LinkedList.Chain.{IsList, IsList-frame, last_or}
use disastr_os_queues.LinkedList.Insert.{Inserted}
use disastr_os_queues.PoolAllocator.Free.{IsPool, IsPlaced, block, handed}
use disastr_os_queues.Pcb.{pcb_alloc, pcb_ptr_alloc}
use disastr_os_queues.Process.{internal_spawn, new_child}
use disastr_os_queues.Kernel.{
  System, Pcb, ProcessStatus, trampoline, pcb_pool, pcb_ptr_pool, children, ready_list, Ends, ok,
  pointer, list_append,
}
use disastr_os_queues.Kernel.Lists.{after, list_append_ok}
use disastr_os_queues.Kernel.Blocks.{get_block_ok}
use disastr_os_queues.Process.Spawned.Steps
use disastr_os_queues.Process.Spawned.Steps.{Spawnable}

-- The new process `c` is ready to run `f`, and its item `e` stands among the children.
pub record Spawned (s : System) (c e f args : Ptr) (kids ready : List Ptr) (t : System)
    : Type 0 where
  pub mine : IsList t.items (t.pcbs s.running).children (kids ++ e ∷ [])
  pub child : t.pcb_ptrs e ≡ c
  pub is_ready : IsList t.items t.ready_list (ready ++ c ∷ [])
  pub pid : (t.pcbs c).pid ≡ s.last_pid
  pub parent : (t.pcbs c).parent ≡ s.running
  pub status : (t.pcbs c).status ≡ ProcessStatus.ready
  pub context : (t.pcbs c).cpu_state ≡ trampoline f args
  pub result : (t.pcbs s.running).syscall_retvalue ≡ s.last_pid
  pub next_pid : t.last_pid ≡ incr s.last_pid
  pub running : t.running ≡ s.running

module _ (s : System) (k : Spawnable s) where
  args_kept :
      (n : ℕ) → ((Steps.s6 s k).pcbs s.running).syscall_args n ≡ (s.pcbs s.running).syscall_args n
  args_kept n = rw (Steps.c_ne_running s k) (ground arith)

  new_pid : ((Steps.s5 s k).pcbs (Steps.c s k)).pid ≡ s.last_pid
  new_pid = rw (Steps.running_ne_c s k) (ground arith)

  child_kept : (Steps.s6 s k).pcbs (Steps.c s k) ≡ (Steps.born s k)
  child_kept =
      rw (Steps.running_ne_c s k) (update_self (Steps.s1 s k).pcbs (Steps.c s k) (Steps.born s k))

  module _ (f args : Ptr) where
    caller_kids :
        ((Steps.s7 s k f args).pcbs s.running).children
        ≡ (LinkedList.insert
            ((Steps.s3 s k).pcbs s.running).children
            (Steps.s3 s k).items
            (last_or null k.kids)
            (Steps.e s k)).0
    caller_kids =
        let head =
          (LinkedList.insert ((Steps.s3 s k).pcbs s.running).children (Steps.s3 s k).items
            (last_or null k.kids) (Steps.e s k)).0 in
        let here : ((Steps.s7 s k f args).pcbs s.running).children
            ≡ ((Steps.s4 s k).pcbs s.running).children =
          rw (Steps.c_ne_running s k) (ground arith) in
        here
        ∙ ap (λ x. x.children)
            (update_self (Steps.s3 s k).pcbs s.running
              (record ((Steps.s3 s k).pcbs s.running) { children = head }))

    child_now :
        (Steps.s7 s k f args).pcbs (Steps.c s k)
        ≡ record ((Steps.s6 s k).pcbs (Steps.c s k)) { cpu_state = trampoline f args }
    child_now =
        update_self (Steps.s6 s k).pcbs (Steps.c s k)
          (record ((Steps.s6 s k).pcbs (Steps.c s k)) { cpu_state = trampoline f args })

    answer :
        ((Steps.s7 s k f args).pcbs s.running).syscall_retvalue
        ≡ ((Steps.s5 s k).pcbs (Steps.c s k)).pid
    answer =
        ap (λ x. x.syscall_retvalue)
          (update_ne (Steps.s6 s k).pcbs (Steps.c s k)
            (record ((Steps.s6 s k).pcbs (Steps.c s k)) { cpu_state = trampoline f args }) s.running
            (Steps.c_ne_running s k))
        ∙ ap (λ x. x.syscall_retvalue)
            (update_self (Steps.s5 s k).pcbs s.running (record ((Steps.s5 s k).pcbs s.running) {
              syscall_retvalue = ((Steps.s5 s k).pcbs (Steps.c s k)).pid;
            }))

    spawned : Spawned s (Steps.c s k) (Steps.e s k) f args k.kids k.ready (Steps.s7 s k f args)
    spawned = record {
      mine =
          subst (λ h. IsList (Steps.s5 s k).items h (k.kids ++ (Steps.e s k) ∷ []))
            (sym caller_kids)
            (IsList-frame (Steps.append_kid s k).1.list
              λ a h. (Steps.append_ready s k).1.same a ((Steps.kids-not-ready s k) a h));
      child = ground arith;
      is_ready = (Steps.append_ready s k).1.list;
      pid =
          ap (λ x. x.pid) child_now
          ∙ (ap (λ x. x.pid) child_kept
              ∙ ap (λ x. x.pid) (update_self s.pcbs (Steps.c s k) (Steps.made s k)));
      parent = ap (λ x. x.parent) child_now ∙ ap (λ x. x.parent) child_kept;
      status = ap (λ x. x.status) child_now ∙ ap (λ x. x.status) child_kept;
      context = ap (λ x. x.cpu_state) child_now;
      result = answer ∙ new_pid;
      next_pid = refl;
      running = refl;
    }

    -- With a free block each for a process and an item, `internal_spawn` makes a process that is
    -- k.ready to run the function on its argument: it has the next process number and the running
    -- process as its parent, and stands at the end of the k.ready list, and its item at the end of
    -- the children of the running process, which goes on and gets the number as the answer.
    pub internal_spawn-Spawned :
        (s.pcbs s.running).syscall_args 0 ≡ pointer f
        → (s.pcbs s.running).syscall_args 1 ≡ pointer args
        → Ends
            (λ _ t. Spawned s (Steps.c s k) (Steps.e s k) f args k.kids k.ready t)
            (internal_spawn s)
    unfolding internal_spawn new_child
    internal_spawn-Spawned a0 a1 =
        rw
          (
            (Steps.alloc_ok s k),
            (Steps.c_some s k),
            (Steps.c_some s k),
            (Steps.ptr_alloc_ok s k),
            (Steps.e_some s k),
            (Steps.append_kid s k).0,
            (Steps.append_ready s k).0,
            (Steps.c_some s k),
            k.some,
            (Steps.c_some s k),
            k.some,
            args_kept 0,
            a0,
            k.some,
            args_kept 1,
            a1,
            (Steps.c_some s k),
          )
          spawned
