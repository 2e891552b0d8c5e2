-- ===== src/Boot/Started.antt =====
-- disastrOS_start: the state in which the first process begins.
use mathlib.Core.Path.{subst}
use disastr_os_queues.Base.{
  ℕ, suc, pos, incr, ◌+◌, ◌-◌, ◌*◌, ◌<◌, ◌^◌, ◌≡◌, refl, false, List, [], arith, ap, sym, ◌∙◌,
  update, update_self, if_false,
}
use disastr_os_queues.LinkedList
use disastr_os_queues.LinkedList.{Ptr, null, is_null, ListHead, Items}
use disastr_os_queues.LinkedList.Chain.{IsList}
use disastr_os_queues.PoolAllocator.{PoolAllocator}
use disastr_os_queues.PoolAllocator.Free.{IsPool, from, fresh-IsPool, handed, handed-IsPool, block}
use disastr_os_queues.Pcb.{pcb_alloc}
use disastr_os_queues.Boot.{Memory, disastr_os_start, init_lists, static_globals}
use disastr_os_queues.Boot.Pools.{Small, booted, init_pools_ok}
use disastr_os_queues.Kernel.{
  System, Pcb, ProcessStatus, trampoline, Pools, pcb_pool, Ends, ok, get_block, Cmd, switched,
  modify, set_pcb, ◌>>=◌, ◌>>◌,
}
use disastr_os_queues.Kernel.Blocks.{whole, get_block_ok}

-- The block numbers from `i` on.
unfoldable pub numbers : ℕ → ℕ → List ℕ
numbers n i = from n i

-- The first process runs and is the init process, every list is empty, and of every allocator all
-- blocks are free but the one of the process.
pub record Started (m : Memory) (f args : Ptr) (t : System) : Type 0 where
  pub running : t.running ≡ m.pcb.pcb_buffer
  pub init_pcb : t.init_pcb ≡ m.pcb.pcb_buffer
  pub pid : (t.pcbs m.pcb.pcb_buffer).pid ≡ pos 0
  pub next_pid : t.last_pid ≡ pos 1
  pub status : (t.pcbs m.pcb.pcb_buffer).status ≡ ProcessStatus.running
  pub context : (t.pcbs m.pcb.pcb_buffer).cpu_state ≡ trampoline f args
  pub parent : (t.pcbs m.pcb.pcb_buffer).parent ≡ null
  pub children : IsList t.items (t.pcbs m.pcb.pcb_buffer).children []
  pub descriptors : IsList t.items (t.pcbs m.pcb.pcb_buffer).descriptors []
  pub ready : IsList t.items t.ready_list []
  pub waiting : IsList t.items t.waiting_list []
  pub zombies : IsList t.items t.zombie_list []
  pub timers : IsList t.items t.timer_list []
  pub resources : IsList t.items t.resources_list []
  pub pcb : IsPool t.pools.pcb (numbers 1023 1)
  pub pcb_ptr : IsPool t.pools.pcb_ptr (numbers 1024 0)
  pub timer_item : IsPool t.pools.timer_item (numbers 1024 0)
  pub resource : IsPool t.pools.resources (numbers 1024 0)
  pub queues : IsPool t.pools.queues (numbers 256 0)
  pub msg_strings : IsPool t.pools.msg_strings (numbers 32768 0)
  pub queue_users : IsPool t.pools.queue_users (numbers 1024 0)
  pub message : IsPool t.pools.message (numbers 32768 0)
  pub descriptor : IsPool t.pools.descriptor (numbers 1024 0)
  pub descriptor_ptr : IsPool t.pools.descriptor_ptr (numbers 1024 0)

empty-IsList : (items : Items) → IsList items LinkedList.init []
empty-IsList items = record {
  first = refl;
  last = refl;
  size = refl;
  linked = tt;
  non_null = refl;
  distinct = tt;
}

whole-IsPool :
    (a : PoolAllocator) (item_size n : ℕ) (buffer : Ptr) (memory_size : ℕ)
    → 0 < n
    → IsPool (whole a item_size n buffer memory_size) (numbers n 0)
unfolding numbers
whole-IsPool a item_size n buffer memory_size positive =
    fresh-IsPool a item_size n buffer (λ _. pos 0) memory_size positive

-- Without the first block.
handed-whole :
    (a : PoolAllocator) (item_size n : ℕ) (buffer : Ptr) (memory_size : ℕ)
    → IsPool (handed (whole a item_size (suc n) buffer memory_size) 0) (numbers n 1)
unfolding numbers
handed-whole a item_size n buffer memory_size =
    (handed-IsPool (whole a item_size (suc n) buffer memory_size) 0 (from n 1)
      (fresh-IsPool a item_size (suc n) buffer (λ _. pos 0) memory_size (omega arith))).pool

module _ (s : System) (m : Memory) (f args : Ptr) (small : Small m)
    (placed : is_null m.pcb.pcb_buffer ≡ false) where
  abbrev c : Ptr
  c = m.pcb.pcb_buffer

  abbrev fresh_pools : Pools
  fresh_pools = booted m s.pools

  -- The states between the calls.
  abbrev t1 : System
  t1 = init_lists (record s { pools = fresh_pools; init_pcb = null })

  abbrev made : Pcb
  made = record (s.pcbs c) {
    pid = s.last_pid;
    return_value = pos 0;
    status = ProcessStatus.invalid;
    last_fd = pos 0;
    signals = 0;
    signals_mask = 2 ^ 32 - 1;
    descriptors = LinkedList.init;
    parent = null;
    timer = null;
    children = LinkedList.init;
  }

  abbrev t2 : System
  t2 = record t1 {
    pools = record fresh_pools { pcb = handed fresh_pools.pcb 0 };
    pcbs = update s.pcbs c made;
    items = update s.items c (record { prev = 0; next = 0 });
    last_pid = incr s.last_pid;
  }

  abbrev t3 : System
  t3 = record t2 {
    running = c;
    init_pcb = c;
    pcbs =
        update t2.pcbs c
          (record (t2.pcbs c) { status = ProcessStatus.running; cpu_state = trampoline f args });
  }

  got : get_block pcb_pool t1 ≡ ok c (record t1 { pools = t2.pools })
  got =
      let first_block : block fresh_pools.pcb 0 ≡ c = omega arith in
      get_block_ok pcb_pool t1 0 refl (omega arith)
      ∙ ap (λ p. ok p (record t1 { pools = t2.pools })) first_block

  pub alloc_ok : pcb_alloc t1 ≡ ok c t2
  unfolding pcb_alloc
  alloc_ok = rw (got, placed) refl

  first_now :
      t3.pcbs c ≡ record made { status = ProcessStatus.running; cpu_state = trampoline f args }
  first_now =
      let with : Pcb → Pcb =
        λ d. record d { status = ProcessStatus.running; cpu_state = trampoline f args } in
      update_self t2.pcbs c (with (t2.pcbs c)) ∙ ap with (update_self s.pcbs c made)

  empty-of : (h : ListHead) → h ≡ LinkedList.init → IsList t3.items h []
  empty-of h e = subst (λ x. IsList t3.items x []) (sym e) (empty-IsList t3.items)

  started : s.last_pid ≡ pos 0 → Started m f args t3
  started number = record {
    running = refl;
    init_pcb = refl;
    pid = ap (λ d. d.pid) first_now ∙ number;
    next_pid = ap incr number;
    status = ap (λ d. d.status) first_now;
    context = ap (λ d. d.cpu_state) first_now;
    parent = ap (λ d. d.parent) first_now;
    children = empty-of _ (ap (λ d. d.children) first_now);
    descriptors = empty-of _ (ap (λ d. d.descriptors) first_now);
    ready = empty-IsList t3.items;
    waiting = empty-IsList t3.items;
    zombies = empty-IsList t3.items;
    timers = empty-IsList t3.items;
    resources = empty-IsList t3.items;
    pcb =
        handed-whole s.pools.pcb m.pcb.pcb_size 1023 m.pcb.pcb_buffer (1024 * (m.pcb.pcb_size + 4));
    pcb_ptr =
        whole-IsPool s.pools.pcb_ptr m.pcb.pcb_ptr_size 1024 m.pcb.pcb_ptr_buffer
          (1024 * (m.pcb.pcb_ptr_size + 4)) (omega arith);
    timer_item =
        whole-IsPool s.pools.timer_item m.timer_item_size 1024 m.timer_item_buffer
          (1024 * (m.timer_item_size + 4)) (omega arith);
    resource =
        whole-IsPool s.pools.resources m.resource_size 1024 m.resource_buffer
          (1024 * (m.resource_size + 4)) (omega arith);
    queues =
        whole-IsPool s.pools.queues m.queue_size 256 m.queue_buffer (256 * (m.queue_size + 4))
          (omega arith);
    msg_strings =
        whole-IsPool s.pools.msg_strings 128 32768 m.msg_string_buffer (32768 * (128 + 4))
          (omega arith);
    queue_users =
        whole-IsPool s.pools.queue_users m.queue_user_size 1024 m.queue_user_buffer
          (1024 * (m.queue_user_size + 4)) (omega arith);
    message =
        whole-IsPool s.pools.message m.message_size 32768 m.message_buffer
          (32768 * (m.message_size + 4)) (omega arith);
    descriptor =
        whole-IsPool s.pools.descriptor m.descriptor.descriptor_size 1024
          m.descriptor.descriptor_buffer (32768 * (m.descriptor.descriptor_size + 4)) (omega arith);
    descriptor_ptr =
        whole-IsPool s.pools.descriptor_ptr m.descriptor.descriptor_ptr_size 1024
          m.descriptor.descriptor_ptr_buffer (32768 * (m.descriptor.descriptor_ptr_size + 4))
          (omega arith);
  }

  abbrev begin : Cmd (Unit {0})
  begin = do
    first ← pcb_alloc
    modify λ t. record t { running = first; init_pcb = first }
    set_pcb first λ c. record c { status = ProcessStatus.running; cpu_state = trampoline f args }

  start_ok : s.shutdown_now ≡ false → disastr_os_start m f args s ≡ ok tt t3
  unfolding disastr_os_start
  start_ok going =
      rw (init_pools_ok m small s)
        (ap (λ k. k t1) (sym (if_false (λ t. switched t) begin going)) ∙ rw (alloc_ok, placed) refl)

-- `disastrOS_start`, called as the program begins, with static buffers of less than 2 ^ 31 bytes:
-- the first process is made with the process number 0, runs the given function, and is the init
-- process; every list is empty, and of every allocator all blocks are free, in ascending order, but
-- the one of the process.
pub disastr_os_start-Started :
    (s : System) (m : Memory) (f args : Ptr)
    → Small m
    → is_null m.pcb.pcb_buffer ≡ false
    → Ends (λ _ t. Started m f args t) (disastr_os_start m f args (static_globals s))
unfolding static_globals
disastr_os_start-Started s m f args small placed =
    rw (start_ok (static_globals s) m f args small placed refl)
      (started (static_globals s) m f args small placed refl)
