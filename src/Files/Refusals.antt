-- ===== src/Files/Refusals.antt =====
-- What internal_openResource and internal_destroyResource refuse.
use disastr_os_queues.Base.{
  ℕ, ℤ, pos, ◌<◌, ◌≡◌, refl, true, false, List, length, eq_ℤ, has_flag, not, ◌&&◌, Option, none,
  some, if◌then◌else◌, Bool-cases, inl, inr, ap, sym, ◌∙◌,
}
use disastr_os_queues.LinkedList.{Ptr, is_null, first_where}
use disastr_os_queues.LinkedList.Chain.{IsList}
use disastr_os_queues.LinkedList.Walk.{first_match, first_where-first_match}
use disastr_os_queues.Resource.{resource_by_id}
use disastr_os_queues.Files.{open_existing, internal_open_resource, internal_destroy_resource}
use disastr_os_queues.Kernel.{
  System, Resource, int, retvalue, get_head, search_list, create_flag, excl_flag, eresourceopen,
  eresourcenoexcl, eresourceclose, eresourceinuse, resources_list, ok,
}

-- The error for a resource `res` that was found with the contents `r`, or null, if the call may not
-- go on.
abbrev pub open_refusal : Ptr → (type mode : ℤ) → Resource → Option ℤ
open_refusal res type mode r =
    if is_null res
    then (if has_flag mode create_flag then none else some eresourceopen)
    else if has_flag mode create_flag && has_flag mode excl_flag
    then some eresourcenoexcl
    else if not (eq_ℤ r.type type)
    then some eresourceopen
    else if has_flag mode excl_flag && not (eq_ℤ r.descriptors_ptrs.size (pos 0))
    then some eresourcenoexcl
    else none

same_error : (a b : ℤ) → some a ≡ some b → a ≡ b
same_error a b h = cc

no_error : (a : ℤ) → ◌≡◌ {A = Option ℤ} none (some a) → ⊥
no_error a h = cc

module _ (s : System) (rounds : ℕ) (id type mode v : ℤ) (rs : List Ptr) (res : Ptr)
    (running : is_null s.running ≡ false) (a0 : (s.pcbs s.running).syscall_args 0 ≡ int id)
    (a1 : (s.pcbs s.running).syscall_args 1 ≡ int type)
    (a2 : (s.pcbs s.running).syscall_args 2 ≡ int mode) (l : IsList s.items s.resources_list rs)
    (fuel : length rs < rounds) (found : first_match (λ a. eq_ℤ (s.resources a).id id) rs ≡ res)
    (r : open_refusal res type mode (s.resources res) ≡ some v) where
  answer :
      (e : ℤ) → open_refusal res type mode (s.resources res) ≡ some e → retvalue e s ≡ retvalue v s
  answer e p = ap (λ x. retvalue x s) (same_error e v (sym p ∙ r))

  search :
      first_where rounds (λ a. eq_ℤ (s.resources a).id id) s.items s.resources_list.first ≡ some res
  search = first_where-first_match rounds (λ a. eq_ℤ (s.resources a).id id) l fuel ∙ ap some found

  missing : is_null res ≡ true → internal_open_resource rounds s ≡ retvalue v s
  unfolding internal_open_resource open_existing resource_by_id search_list get_head
  missing gone = elim (Bool-cases (has_flag mode create_flag)) [
    | inl create ↦
        let nothing : open_refusal res type mode (s.resources res) ≡ none =
          rw (gone, create) refl in
        absurd (no_error v (sym nothing ∙ r))
    | inr fetch ↦
        let run : internal_open_resource rounds s ≡ retvalue eresourceopen s =
          rw (running, a0, running, a1, running, a2, search, fetch, gone, running) refl in
        run ∙ answer eresourceopen (rw (gone, fetch) refl)
  ]

  -- The type and the flags, where the call goes on with the resource.
  existing :
      is_null res ≡ false
      → has_flag mode create_flag && has_flag mode excl_flag ≡ false
      → open_existing res type mode s ≡ retvalue v s
  unfolding open_existing
  existing there shared = elim (Bool-cases (eq_ℤ (s.resources res).type type)) [
    | inr other ↦
        let run : open_existing res type mode s ≡ retvalue eresourceopen s =
          rw (there, there, other) refl in
        run ∙ answer eresourceopen (rw (there, shared, other) refl)
    | inl same ↦
        elim (Bool-cases
          (has_flag mode excl_flag && not (eq_ℤ (s.resources res).descriptors_ptrs.size (pos 0)))) [
            | inl alone ↦
                let run : open_existing res type mode s ≡ retvalue eresourcenoexcl s =
                  rw (there, there, same, alone) refl in
                run ∙ answer eresourcenoexcl (rw (there, shared, same, alone) refl)
            | inr goes ↦
                let nothing : open_refusal res type mode (s.resources res) ≡ none =
                  rw (there, shared, same, goes) refl in
                absurd (no_error v (sym nothing ∙ r))
          ]
  ]

  found_there : is_null res ≡ false → internal_open_resource rounds s ≡ retvalue v s
  unfolding internal_open_resource resource_by_id search_list get_head
  found_there there = elim (Bool-cases (has_flag mode create_flag)) [
    | inr fetch ↦
        let run : internal_open_resource rounds s ≡ open_existing res type mode s =
          rw (running, a0, running, a1, running, a2, search, fetch) refl in
        run ∙ existing there (rw fetch refl)
    | inl create ↦ elim (Bool-cases (has_flag mode excl_flag)) [
      | inr shared ↦
          let run : internal_open_resource rounds s ≡ open_existing res type mode s =
            rw (running, a0, running, a1, running, a2, search, create, there, shared) refl in
          run ∙ existing there (rw (create, shared) refl)
      | inl alone ↦
          let run : internal_open_resource rounds s ≡ retvalue eresourcenoexcl s =
            rw (running, a0, running, a1, running, a2, search, create, there, alone, running)
              refl in
          run ∙ answer eresourcenoexcl (rw (there, create, alone) refl)
    ]
  ]

  -- `internal_openResource` answers the error of the first test that fails, and changes nothing
  -- else: a resource that is missing and not to be created, one that is there and was to be created
  -- exclusively, one of another type, and one that is open and was to be opened exclusively.
  pub internal_open_resource_refused : internal_open_resource rounds s ≡ retvalue v s
  internal_open_resource_refused = elim (Bool-cases (is_null res)) [
    | inl gone ↦ missing gone
    | inr there ↦ found_there there
  ]

-- The error for the resource `res` with so many openings, null if there is none.
abbrev pub destroy_refusal : Ptr → ℤ → Option ℤ
destroy_refusal res openings =
    if is_null res
    then some eresourceclose
    else if not (eq_ℤ openings (pos 0))
    then some eresourceinuse
    else none

module _ (s : System) (rounds : ℕ) (id v : ℤ) (rs : List Ptr) (res : Ptr)
    (running : is_null s.running ≡ false) (a0 : (s.pcbs s.running).syscall_args 0 ≡ int id)
    (l : IsList s.items s.resources_list rs) (fuel : length rs < rounds)
    (found : first_match (λ a. eq_ℤ (s.resources a).id id) rs ≡ res)
    (r : destroy_refusal res (s.resources res).descriptors_ptrs.size ≡ some v) where
  destroy_search : resource_by_id rounds resources_list id s ≡ ok res s
  unfolding resource_by_id search_list get_head
  destroy_search =
      let there = first_where-first_match rounds (λ a. eq_ℤ (s.resources a).id id) l fuel in
      rw (there, found)

  destroy_missing : is_null res ≡ true → internal_destroy_resource rounds s ≡ retvalue v s
  unfolding internal_destroy_resource
  destroy_missing gone =
      let expected : destroy_refusal res (s.resources res).descriptors_ptrs.size
          ≡ some eresourceclose =
        rw gone refl in
      let run : internal_destroy_resource rounds s ≡ retvalue eresourceclose s =
        rw (running, a0, destroy_search, gone, running) refl in
      run ∙ ap (λ x. retvalue x s) (same_error eresourceclose v (sym expected ∙ r))

  destroy_used : is_null res ≡ false → internal_destroy_resource rounds s ≡ retvalue v s
  unfolding internal_destroy_resource
  destroy_used there = elim (Bool-cases (eq_ℤ (s.resources res).descriptors_ptrs.size (pos 0))) [
    | inl idle ↦
        let nothing : destroy_refusal res (s.resources res).descriptors_ptrs.size ≡ none =
          rw (there, idle) refl in
        absurd (no_error v (sym nothing ∙ r))
    | inr used ↦
        let expected : destroy_refusal res (s.resources res).descriptors_ptrs.size
            ≡ some eresourceinuse =
          rw (there, used) refl in
        let run : internal_destroy_resource rounds s ≡ retvalue eresourceinuse s =
          rw (running, a0, destroy_search, there, there, used, running) refl in
        run ∙ ap (λ x. retvalue x s) (same_error eresourceinuse v (sym expected ∙ r))
  ]

  -- `internal_destroyResource` changes nothing but its answer when no resource has the number, and
  -- when a process has the resource open: it answers that the resource cannot be closed, or that it
  -- is in use.
  pub internal_destroy_resource_refused : internal_destroy_resource rounds s ≡ retvalue v s
  internal_destroy_resource_refused = elim (Bool-cases (is_null res)) [
    | inl gone ↦ destroy_missing gone
    | inr there ↦ destroy_used there
  ]
