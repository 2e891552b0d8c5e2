-- ===== src/Files/Created.antt =====
-- internal_openResource on a number that no resource has, with the flag to create one.
use disastr_os_queues.Base.{
  ℕ, ℤ, eq_ℤ, eq_ℤ-self, has_flag, ◌+◌, ◌≤◌, ◌<◌, ◌≡◌, true, false, refl, List, [], ◌∷◌, ◌++◌,
  arith, has, ◌∙◌, ◌==◌, update, count, one_self, one_ne, not-has_of_count, count_of_has,
  count-append, length, Bool-cases, inl, inr,
}
use disastr_os_queues.LinkedList
use disastr_os_queues.LinkedList.{Ptr, null, is_null}
use disastr_os_queues.LinkedList.Chain.{IsList, IsList-frame, last_or}
use disastr_os_queues.LinkedList.Insert.{Inserted}
use disastr_os_queues.LinkedList.Walk.{first_match, first_where-first_match}
use disastr_os_queues.PoolAllocator.Free.{IsPool, IsPlaced, block, handed}
use disastr_os_queues.Resource.{resource_alloc, resource_by_id}
use disastr_os_queues.Files.{open_descriptor, open_existing, internal_open_resource}
use disastr_os_queues.Files.Opened.{Opened, Untouched, open_descriptor-Opened}
use disastr_os_queues.Files.Opened.Steps.{Openable}
use disastr_os_queues.Kernel.{
  System, resources_pool, resources_list, list_append, Ends, Ends-mono, ok, get_head, int,
  create_flag, excl_flag, search_list,
}
use disastr_os_queues.Kernel.Lists.{after, list_append_ok}
use disastr_os_queues.Kernel.Blocks.{get_block_ok}

-- The running process can create a resource and open it: there is a free block `h` for the
-- resource, `i` for the descriptor and `j` for its item, none of which stands in a list.
pub record Creatable (s : System) : Type 0 where
  pub rs : List Ptr
  pub ds : List Ptr
  pub h : ℕ
  pub i : ℕ
  pub j : ℕ
  pub left : List ℕ
  pub free : List ℕ
  pub frees : List ℕ
  pub some : is_null s.running ≡ false
  pub pool_resource : IsPool s.pools.resources (h ∷ left)
  pub placed_resource : IsPlaced s.pools.resources
  pub pool : IsPool s.pools.descriptor (i ∷ free)
  pub placed : IsPlaced s.pools.descriptor
  pub pool_ptr : IsPool s.pools.descriptor_ptr (j ∷ frees)
  pub placed_ptr : IsPlaced s.pools.descriptor_ptr
  pub resources : IsList s.items s.resources_list rs
  pub mine : IsList s.items (s.pcbs s.running).descriptors ds
  pub apart :
      (a : Ptr)
      → count a (
            block s.pools.resources h
            ∷ block s.pools.descriptor i
            ∷ block s.pools.descriptor_ptr j
            ∷ [])
          + count a rs
          + count a ds
        ≤ 1

-- The resource `r` stands at the end of the list of resources, and the running process has it open
-- as the descriptor `d`; what `value` points to was not written.
pub record Created (s : System) (id type : ℤ) (r d e : Ptr) (rs ds : List Ptr) (t : System)
    : Type 0 where
  pub list : IsList t.items t.resources_list (rs ++ r ∷ [])
  pub number : (t.resources r).id ≡ id
  pub kind : (t.resources r).type ≡ type
  pub stale : (t.resources r).value ≡ (s.resources r).value
  pub opened : Opened s r d e ds [] t

module _ (s : System) (id type : ℤ) (k : Creatable s) where
  abbrev r : Ptr
  r = block s.pools.resources k.h

  abbrev d : Ptr
  d = block s.pools.descriptor k.i

  abbrev e : Ptr
  e = block s.pools.descriptor_ptr k.j

  r_some : is_null r ≡ false
  r_some = let h = k.placed_resource.buffer_pos in ground arith

  -- The resource was allocated, and then put into the list.
  abbrev s1 : System
  s1 = record s {
    pools = record s.pools { resources = handed s.pools.resources k.h };
    items = update s.items r (record { prev = 0; next = 0 });
    resources =
        update s.resources r
          (record (s.resources r) { id = id; type = type; descriptors_ptrs = LinkedList.init });
  }

  abbrev s2 : System
  s2 = after resources_list (LinkedList.insert s.resources_list s1.items (last_or null k.rs) r) s1

  alloc_ok : resource_alloc id type s ≡ ok r s1
  unfolding resource_alloc
  alloc_ok =
      rw
        (
          get_block_ok resources_pool s k.h k.pool_resource.chain.0 k.pool_resource.chain.1,
          r_some,
          r_some,
        )
        refl

  r-not-listed : has r k.rs ≡ false
  r-not-listed = not-has_of_count r k.rs (let a = k.apart r in let b = one_self r in omega arith)

  append_ok :
      (list_append resources_list r s1 ≡ ok r s2)
      × Inserted s1.items r k.rs
          (k.rs ++ r ∷ [])
          (LinkedList.insert s.resources_list s1.items (last_or null k.rs) r)
  append_ok =
      list_append_ok resources_list s1 refl k.rs r
        (IsList-frame k.resources λ a h.
          let c = count_of_has a k.rs h in
          let o = k.apart a in let ne = one_ne r a (omega arith) in rw ne refl)
        r_some (ground arith) (ground arith) r-not-listed

  -- The descriptors of the process are not linked anew.
  mine_kept : IsList s2.items (s.pcbs s.running).descriptors k.ds
  mine_kept = IsList-frame k.mine λ a h.
      let c = count_of_has a k.ds h in
      let o = k.apart a in
      let ne = one_ne r a (omega arith) in
      append_ok.1.same a (not-has_of_count a (r ∷ k.rs) (omega arith)) ∙ rw ne refl

  unopened : IsList s2.items (s2.resources r).descriptors_ptrs []
  unopened =
      let self : (r == r) ≡ true = ground arith in
      rw self (record {
        first = refl;
        last = refl;
        size = refl;
        linked = tt;
        non_null = refl;
        distinct = tt;
      })

  abbrev openable : Openable s2 r
  openable = record {
    ds = k.ds;
    es = [];
    i = k.i;
    j = k.j;
    free = k.free;
    frees = k.frees;
    some = k.some;
    res_some = r_some;
    pool = k.pool;
    placed = k.placed;
    pool_ptr = k.pool_ptr;
    placed_ptr = k.placed_ptr;
    mine = mine_kept;
    openers = unopened;
    apart = λ a. let o = k.apart a in omega arith;
  }

  -- What opening the new resource leaves is what the whole call does.
  created :
      (t : System)
      → Opened s2 r d e k.ds [] t
      → Untouched s2 r d e k.ds [] t
      → Created s id type r d e k.rs k.ds t
  created t o u =
      let self : (r == r) ≡ true = ground arith in
      record {
        list = rw u.resources (
            IsList-frame append_ok.1.list λ a h.
              let c = count_of_has a (k.rs ++ r ∷ []) h in
              let b = count-append a k.rs (r ∷ []) in
              let w = k.apart a in
              u.outside a (not-has_of_count a (d ∷ k.ds) (omega arith))
                (not-has_of_count a (e ∷ []) (omega arith)));
        number = u.id ∙ rw self refl;
        kind = u.type ∙ rw self refl;
        stale = u.value ∙ rw self refl;
        opened = record {
          mine = o.mine;
          openers = o.openers;
          resource = o.resource;
          pcb = o.pcb;
          fd = o.fd;
          ptr = o.ptr;
          back = o.back;
          next_fd = o.next_fd;
          result = o.result;
        };
      }

  -- No process has the new resource open, so the exclusive flag is no obstacle.
  create_ok :
      (P : Unit {0} → System → Type 0)
      → Ends P (open_descriptor r s2)
      → (rounds : ℕ) (mode : ℤ) → (s.pcbs s.running).syscall_args 0 ≡ int id
      → (s.pcbs s.running).syscall_args 1 ≡ int type
      → (s.pcbs s.running).syscall_args 2 ≡ int mode
      → length k.rs < rounds
      → is_null (first_match (λ a. eq_ℤ (s.resources a).id id) k.rs) ≡ true
      → has_flag mode create_flag ≡ true
      → Ends P (internal_open_resource rounds s)
  unfolding internal_open_resource open_existing resource_by_id search_list get_head
  create_ok P rest rounds mode a0 a1 a2 fuel missing create =
      let found =
        first_where-first_match rounds (λ a. eq_ℤ (s.resources a).id id) k.resources fuel in
      let self : (r == r) ≡ true = ground arith in
      elim (Bool-cases (has_flag mode excl_flag)) [
        | inl excl ↦
            rw
              (
                k.some, a0, k.some, a1, k.some, a2, found, create, excl, missing, alloc_ok, r_some,
                append_ok.0, r_some, self, eq_ℤ-self,
              )
              rest
        | inr any ↦
            rw
              (
                k.some, a0, k.some, a1, k.some, a2, found, create, any, missing, alloc_ok, r_some,
                append_ok.0, r_some, self, eq_ℤ-self,
              )
              rest
      ]

  -- With the flag to create, and free blocks, `internal_openResource` on a number that no resource
  -- has puts a new resource of this number and type at the end of the list, opens it for the
  -- process, and answers the number of the descriptor, with the exclusive flag and without it. The
  -- pointer `value` of the new resource is what its block held before.
  pub internal_open_resource-Created :
      (rounds : ℕ) (mode : ℤ)
      → (s.pcbs s.running).syscall_args 0 ≡ int id
      → (s.pcbs s.running).syscall_args 1 ≡ int type
      → (s.pcbs s.running).syscall_args 2 ≡ int mode
      → length k.rs < rounds
      → is_null (first_match (λ a. eq_ℤ (s.resources a).id id) k.rs) ≡ true
      → has_flag mode create_flag ≡ true
      → Ends (λ _ t. Created s id type r d e k.rs k.ds t) (internal_open_resource rounds s)
  internal_open_resource-Created =
      create_ok (λ _ t. Created s id type r d e k.rs k.ds t)
        (Ends-mono (λ _ t. Opened s2 r d e k.ds [] t × Untouched s2 r d e k.ds [] t)
          (λ _ t. Created s id type r d e k.rs k.ds t) (open_descriptor r s2)
          (open_descriptor-Opened s2 r openable) λ _ t o. created t o.0 o.1)
