-- ===== src/Files/Opened.antt =====
-- internal_openResource on a resource that is there.
pub mod Steps
use mathlib.Core.Path.{subst}
use disastr_os_queues.Base.{
  incr, ◌+◌, ◌≤◌, ◌≡◌, refl, true, false, List, [], ◌∷◌, ◌++◌, arith, has, ap, sym, ◌∙◌, ◌==◌,
  update, update_self, count, one_self, one_ne, not-has_of_count, count_of_has, count-append,
}
use disastr_os_queues.LinkedList
use disastr_os_queues.LinkedList.{Ptr, null, is_null}
use disastr_os_queues.LinkedList.Chain.{IsList, IsList-frame, last_or}
use disastr_os_queues.LinkedList.Insert.{Inserted}
use disastr_os_queues.PoolAllocator.Free.{IsPool, IsPlaced, block, handed}
use disastr_os_queues.Descriptor.{descriptor_alloc, descriptor_ptr_alloc}
use disastr_os_queues.Files.{open_descriptor}
use disastr_os_queues.Kernel.{
  System, descriptor_pool, descriptor_ptr_pool, descriptors, descriptors_ptrs, Ends, ok,
  list_append,
}
use disastr_os_queues.Kernel.Lists.{after, list_append_ok}
use disastr_os_queues.Kernel.Blocks.{get_block_ok}
use disastr_os_queues.Files.Opened.Steps
use disastr_os_queues.Files.Opened.Steps.{Openable}

-- The descriptor `d` for the resource `res` stands at the end of the list of the running process,
-- and its item `e` at the end of that of the resource.
pub record Opened (s : System) (res d e : Ptr) (ds es : List Ptr) (t : System) : Type 0 where
  pub mine : IsList t.items (t.pcbs s.running).descriptors (ds ++ d ∷ [])
  pub openers : IsList t.items (t.resources res).descriptors_ptrs (es ++ e ∷ [])
  pub resource : (t.descriptor_items d).resource ≡ res
  pub pcb : (t.descriptor_items d).pcb ≡ s.running
  pub fd : (t.descriptor_items d).fd ≡ (s.pcbs s.running).last_fd
  pub ptr : (t.descriptor_items d).ptr ≡ e
  pub back : t.descriptor_ptrs e ≡ d
  pub next_fd : (t.pcbs s.running).last_fd ≡ incr (s.pcbs s.running).last_fd
  pub result : (t.pcbs s.running).syscall_retvalue ≡ (s.pcbs s.running).last_fd

-- What the call leaves as it is: all but the running process, the resource's openers, the new
-- descriptor and its item, with the two pools of these, and the links in the two lists.
pub record Untouched (s : System) (res d e : Ptr) (ds es : List Ptr) (t : System) : Type 0 where
  pub resources : t.resources_list ≡ s.resources_list
  pub id : (t.resources res).id ≡ (s.resources res).id
  pub type : (t.resources res).type ≡ (s.resources res).type
  pub value : (t.resources res).value ≡ (s.resources res).value
  pub me : t.pcbs s.running ≡ record (s.pcbs s.running) {
    last_fd = (t.pcbs s.running).last_fd;
    descriptors = (t.pcbs s.running).descriptors;
    syscall_retvalue = (t.pcbs s.running).syscall_retvalue;
  }
  pub other_pcbs : (p : Ptr) → (s.running == p) ≡ false → t.pcbs p ≡ s.pcbs p
  pub other_resources : (p : Ptr) → (res == p) ≡ false → t.resources p ≡ s.resources p
  pub other_descriptors : (p : Ptr) → (d == p) ≡ false → t.descriptor_items p ≡ s.descriptor_items p
  pub other_descriptor_ptrs :
      (p : Ptr) → (e == p) ≡ false → t.descriptor_ptrs p ≡ s.descriptor_ptrs p
  pub frame : t ≡ record s {
    items = t.items;
    pcbs = t.pcbs;
    resources = t.resources;
    descriptor_items = t.descriptor_items;
    descriptor_ptrs = t.descriptor_ptrs;
    pools = record s.pools {
      descriptor = t.pools.descriptor;
      descriptor_ptr = t.pools.descriptor_ptr;
    };
  }
  pub outside : (a : Ptr) → has a (d ∷ ds) ≡ false → has a (e ∷ es) ≡ false → t.items a ≡ s.items a

module _ (s : System) (res : Ptr) (k : Openable s res) where
  pub open_descriptor-Opened :
      Ends
        (λ _ t.
          Opened s res (Steps.d s res k) (Steps.e s res k) k.ds k.es t
          × Untouched s res (Steps.d s res k) (Steps.e s res k) k.ds k.es t)
        (open_descriptor res s)
  unfolding open_descriptor
  open_descriptor-Opened =
      let self : ((Steps.d s res k) == (Steps.d s res k)) ≡ true = ground arith in
      let res_self : (res == res) ≡ true = ground arith in
      let e_self : ((Steps.e s res k) == (Steps.e s res k)) ≡ true = ground arith in
      rw
        (
          k.some,
          (Steps.alloc_ok s res k),
          (Steps.d_some s res k),
          k.some,
          (Steps.ptr_alloc_ok s res k),
          (Steps.append_mine s res k).0,
          (Steps.d_some s res k),
          (Steps.append_opener s res k).0,
          (Steps.d_some s res k),
          k.some,
        )
        (
          record {
            mine =
                subst (λ h. IsList (Steps.s5 s res k).items h (k.ds ++ (Steps.d s res k) ∷ []))
                  (sym (Steps.head_kept s res k))
                  (IsList-frame (Steps.append_mine s res k).1.list λ a h.
                    (Steps.append_opener s res k).1.same a ((Steps.mine-not-opener s res k) a h));
            openers = rw res_self (Steps.append_opener s res k).1.list;
            resource = ground arith;
            pcb = ground arith;
            fd = ground arith;
            ptr = ground arith;
            back = ground arith;
            next_fd = rw (Steps.running_self s res k) refl;
            result = rw (self, (Steps.running_self s res k)) refl;
          },
          record {
            resources = refl;
            id = rw res_self refl;
            type = rw res_self refl;
            value = rw res_self refl;
            me = rw (Steps.running_self s res k) refl;
            other_pcbs = λ p ne. rw ne refl;
            other_resources = λ p ne. rw ne refl;
            other_descriptors = λ p ne. rw ne refl;
            other_descriptor_ptrs = λ p ne. rw ne refl;
            frame = refl;
            outside = Steps.items-outside s res k;
          },
        )
