-- ===== src/Process/Exit/Reported/Steps.antt =====
-- The steps of internal_exit for a process that its parent waits for, up to the timers.
use mathlib.Core.Path.{subst}
use disastr_os_queues.Base.{
  ℕ, ℤ, eq_ℤ, true, false, ◌≡◌, refl, List, [], ◌∷◌, ◌++◌, arith, has, ap, sym, ◌∙◌, ◌==◌, update,
  update_self, update_ne, if◌then◌else◌, count, count_of_has, not-has_of_count, one_self, ◌+◌, ◌≤◌,
  ◌<◌, Bool-cases, inl, inr, length,
}
use disastr_os_queues.LinkedList
use disastr_os_queues.LinkedList.{Ptr, null, is_null, ListHead}
use disastr_os_queues.LinkedList.Chain.{IsList, IsList-frame, last_or}
use disastr_os_queues.LinkedList.Detach.{Detached}
use disastr_os_queues.LinkedList.Insert.{Inserted}
use disastr_os_queues.LinkedList.Walk.{first_match, first_where-first_match}
use disastr_os_queues.Pcb.{pcb_ptr_by_pid}
use disastr_os_queues.Process.Exit.{
  parent_awaits, wake_parent, settle, send_signal, report_to_parent,
}
use disastr_os_queues.Process.Exit.Round.{signalled, signalled-same}
use disastr_os_queues.Process.Exit.Kept.{field-same}
use disastr_os_queues.Process.Exit.Reported.Parent.{Awaited, Awaiting, parent_awaits-true}
use disastr_os_queues.Kernel.{
  System, Pcb, ProcessStatus, zombie_list, waiting_list, children, ok, pointer, list_append,
  list_detach, search_list, get_head, sigchld, pure, modify,
}
use disastr_os_queues.Kernel.Lists.{after, list_append_ok, list_detach_ok}

pcb_ptr_by_pid_ok :
    (t : System) (rounds : ℕ) (p : Ptr) (pid : ℤ) (xs : List Ptr) (x : Ptr)
    → is_null p ≡ false
    → IsList t.items (t.pcbs p).children xs
    → length xs < rounds
    → first_match (λ a. eq_ℤ (t.pcbs (t.pcb_ptrs a)).pid pid) xs ≡ x
    → pcb_ptr_by_pid rounds (children p) pid t ≡ ok x t
unfolding pcb_ptr_by_pid search_list get_head
pcb_ptr_by_pid_ok t rounds p pid xs x some list fuel found =
    let r = first_where-first_match rounds (λ a. eq_ℤ (t.pcbs (t.pcb_ptrs a)).pid pid) list fuel in
    rw (some, r, found)

module _ (s : System) (k : Awaited s) (exitval : ℤ) (result : Ptr) where
  abbrev pub parent : Ptr
  parent = (s.pcbs s.running).parent

  abbrev waiting : List Ptr
  waiting = k.ys ++ parent ∷ k.zs

  abbrev siblings : List Ptr
  siblings = k.before ++ k.item ∷ k.behind

  -- The states between the calls.
  abbrev pub u0 : System
  u0 = record s {
    pcbs = update s.pcbs s.running (record (s.pcbs s.running) { return_value = exitval });
  }

  abbrev pub u1 : System
  u1 = record u0 {
    pcbs = update u0.pcbs s.running (record (u0.pcbs s.running) { status = ProcessStatus.zombie });
  }

  abbrev pub u2 : System
  u2 =
      after zombie_list (LinkedList.insert s.zombie_list s.items (last_or null k.zombies) s.running)
        u1

  abbrev pub u3 : System
  u3 = record u2 { pcbs = update u1.pcbs parent (signalled sigchld (u1.pcbs parent)) }

  abbrev pub u4 : System
  u4 = after waiting_list (LinkedList.detach s.waiting_list u2.items parent) u3

  abbrev pub u5 : System
  u5 = record u4 {
    pcbs = update u3.pcbs parent (record (u3.pcbs parent) { status = ProcessStatus.running });
  }

  abbrev pub u6 : System
  u6 = after (children parent) (LinkedList.detach (u5.pcbs parent).children u4.items k.item) u5

  abbrev pub u7 : System
  u7 = record u6 {
    pcbs =
        update u6.pcbs parent
          (record (u6.pcbs parent) { syscall_retvalue = (s.pcbs s.running).pid });
  }

  abbrev pub u8 : System
  u8 = record u7 { ints = if is_null result then s.ints else update s.ints result exitval }

  parent_ne_running : (parent == s.running) ≡ false
  parent_ne_running = let h = k.not_parent in ground arith

  -- The members of a list stand in no other.
  out :
      (a : Ptr) (xs ys : List Ptr)
      → has a xs ≡ true
      → count a xs + count a ys ≤ 1
      → has a ys ≡ false
  out a xs ys h o = let n = count_of_has a xs h in not-has_of_count a ys (omega arith)

  pub append_zombie :
      (list_append zombie_list s.running u1 ≡ ok s.running u2)
      × Inserted s.items s.running k.zombies
          (k.zombies ++ s.running ∷ [])
          (LinkedList.insert s.zombie_list s.items (last_or null k.zombies) s.running)
  append_zombie =
      list_append_ok zombie_list u1 refl k.zombies s.running k.buried k.some k.unlinked.0
        k.unlinked.1
        (not-has_of_count s.running k.zombies
          (let o = k.apart s.running in let b = one_self s.running in omega arith))

  pub detach_parent :
      (list_detach waiting_list parent u3 ≡ ok parent u4)
      × Detached u2.items parent waiting
          (k.ys ++ k.zs)
          (LinkedList.detach s.waiting_list u2.items parent)
  detach_parent =
      list_detach_ok waiting_list u3 refl k.ys k.zs parent
        (IsList-frame k.waiting λ a h.
          append_zombie.1.same a
            (out a waiting (s.running ∷ k.zombies) h (let o = k.apart a in omega arith)))
        k.parent_some

  -- The children of the parent are not touched before they are searched.
  siblings_kept : (u5.pcbs parent).children ≡ (s.pcbs parent).children
  siblings_kept =
      field-same (λ c. c.children) u3.pcbs parent
        (record (u3.pcbs parent) { status = ProcessStatus.running }) parent refl
      ∙ (signalled-same (λ c. c.children) sigchld u1.pcbs parent parent (λ c. refl)
          ∙ (field-same (λ c. c.children) u0.pcbs s.running
                (record (u0.pcbs s.running) { status = ProcessStatus.zombie }) parent refl
              ∙ field-same (λ c. c.children) s.pcbs s.running
                  (record (s.pcbs s.running) { return_value = exitval }) parent refl))

  pid_kept : (q : Ptr) → (u5.pcbs q).pid ≡ (s.pcbs q).pid
  pid_kept q =
      field-same (λ c. c.pid) u3.pcbs parent
        (record (u3.pcbs parent) { status = ProcessStatus.running }) q refl
      ∙ (signalled-same (λ c. c.pid) sigchld u1.pcbs parent q (λ c. refl)
          ∙ (field-same (λ c. c.pid) u0.pcbs s.running
                (record (u0.pcbs s.running) { status = ProcessStatus.zombie }) q refl
              ∙ field-same (λ c. c.pid) s.pcbs s.running
                  (record (s.pcbs s.running) { return_value = exitval }) q refl))

  siblings5 : IsList u5.items (u5.pcbs parent).children siblings
  siblings5 =
      subst (λ h. IsList u5.items h siblings) (sym siblings_kept)
        (IsList-frame k.siblings λ a h.
          detach_parent.1.same a (out a siblings waiting h (let o = k.apart a in omega arith))
          ∙ append_zombie.1.same a
              (out a siblings (s.running ∷ k.zombies) h (let o = k.apart a in omega arith)))

  pub detach_item :
      (list_detach (children parent) k.item u5 ≡ ok k.item u6)
      × Detached u4.items k.item siblings
          (k.before ++ k.behind)
          (LinkedList.detach (u5.pcbs parent).children u4.items k.item)
  detach_item =
      list_detach_ok (children parent) u5 k.parent_some k.before k.behind k.item siblings5
        k.item_some

  pub search_ok :
      (rounds : ℕ)
      → length siblings < rounds
      → pcb_ptr_by_pid rounds (children parent) (s.pcbs s.running).pid u5 ≡ ok k.item u5
  search_ok rounds fuel =
      let pid = (s.pcbs s.running).pid in
      let tests : (λ a. eq_ℤ (u5.pcbs (s.pcb_ptrs a)).pid pid)
          ≡ (λ a. eq_ℤ (s.pcbs (s.pcb_ptrs a)).pid pid) =
        λ i a. eq_ℤ (pid_kept (s.pcb_ptrs a) i) pid in
      pcb_ptr_by_pid_ok u5 rounds parent pid siblings k.item k.parent_some siblings5 fuel
        (ap (λ f. first_match f siblings) tests ∙ k.found)

  pub me1 :
      u1.pcbs s.running
      ≡ record (s.pcbs s.running) { return_value = exitval; status = ProcessStatus.zombie }
  me1 =
      let with : Pcb → Pcb = λ c. record c { status = ProcessStatus.zombie } in
      update_self u0.pcbs s.running (with (u0.pcbs s.running))
      ∙ ap with
          (update_self s.pcbs s.running (record (s.pcbs s.running) { return_value = exitval }))

  -- The dying process as its parent's answer sees it.
  me3 :
      u3.pcbs s.running
      ≡ record (s.pcbs s.running) { return_value = exitval; status = ProcessStatus.zombie }
  me3 =
      update_ne u1.pcbs parent (signalled sigchld (u1.pcbs parent)) s.running parent_ne_running
      ∙ me1

  pub parent3 : u3.pcbs parent ≡ signalled sigchld (s.pcbs parent)
  parent3 =
      update_self u1.pcbs parent (signalled sigchld (u1.pcbs parent))
      ∙ ap (signalled sigchld) (
          update_ne u0.pcbs s.running (record (u0.pcbs s.running) { status = ProcessStatus.zombie })
            parent k.not_parent
          ∙ update_ne s.pcbs s.running (record (s.pcbs s.running) { return_value = exitval }) parent
              k.not_parent)

  -- The writes to the parent spare it.
  pub me7 :
      u7.pcbs s.running
      ≡ record (s.pcbs s.running) { return_value = exitval; status = ProcessStatus.zombie }
  me7 =
      let head = (LinkedList.detach (u5.pcbs parent).children u4.items k.item).0 in
      update_ne u6.pcbs parent
        (record (u6.pcbs parent) { syscall_retvalue = (s.pcbs s.running).pid }) s.running
        parent_ne_running
      ∙ (update_ne u5.pcbs parent (record (u5.pcbs parent) { children = head }) s.running
            parent_ne_running
          ∙ (update_ne u3.pcbs parent (record (u3.pcbs parent) { status = ProcessStatus.running })
                s.running parent_ne_running
              ∙ me3))

  -- The parent in the end.
  pub parent7 : u7.pcbs parent ≡ record (s.pcbs parent) {
    status = ProcessStatus.running;
    signals = (signalled sigchld (s.pcbs parent)).signals;
    syscall_retvalue = (s.pcbs s.running).pid;
    children = (LinkedList.detach (u5.pcbs parent).children u4.items k.item).0;
  }
  parent7 =
      let head = (LinkedList.detach (u5.pcbs parent).children u4.items k.item).0 in
      let answered : Pcb → Pcb = λ c. record c { syscall_retvalue = (s.pcbs s.running).pid } in
      let left : Pcb → Pcb = λ c. record (answered c) { children = head } in
      let woken : Pcb → Pcb = λ c. record (left c) { status = ProcessStatus.running } in
      update_self u6.pcbs parent (answered (u6.pcbs parent))
      ∙ (ap answered (update_self u5.pcbs parent (record (u5.pcbs parent) { children = head }))
          ∙ (ap left (
                update_self u3.pcbs parent
                  (record (u3.pcbs parent) { status = ProcessStatus.running }))
              ∙ ap woken parent3))

  store_ok :
      (if is_null result
          then pure tt
          else modify (λ t. record t { ints = update t.ints result exitval }))
        u7
      ≡ ok tt u8
  store_ok = elim (Bool-cases (is_null result)) [ inl h ↦ rw h | inr h ↦ rw h ]

  pub wake_parent_ok :
      (rounds : ℕ)
      → (s.pcbs parent).syscall_args 1 ≡ pointer result
      → length siblings < rounds
      → wake_parent rounds parent u3 ≡ ok parent u8
  unfolding wake_parent
  wake_parent_ok rounds a1 fuel =
      let me_pid : (u3.pcbs s.running).pid ≡ (s.pcbs s.running).pid = ap (λ c. c.pid) me3 in
      let me_value : (u3.pcbs s.running).return_value ≡ exitval = ap (λ c. c.return_value) me3 in
      let argument : (u7.pcbs parent).syscall_args 1 ≡ pointer result =
        ap (λ c. c.syscall_args 1) parent7 ∙ a1 in
      rw (
        k.some,
        detach_parent.0,
        k.parent_some,
        k.parent_some,
        me_pid,
        search_ok rounds fuel,
        detach_item.0,
        k.parent_some,
        k.parent_some,
        argument,
        me_value,
        store_ok,
      )

  pub settle_ok :
      (rounds : ℕ)
      → Awaiting (s.pcbs parent) (s.pcbs s.running).pid
      → settle rounds s.running u0 ≡ report_to_parent rounds parent u3
  unfolding settle send_signal
  settle_ok rounds awaits =
      let me_parent : (u1.pcbs s.running).parent ≡ parent = ap (λ c. c.parent) me1 in
      let me_pid : (u1.pcbs s.running).pid ≡ (s.pcbs s.running).pid = ap (λ c. c.pid) me1 in
      let still : Awaiting (signalled sigchld (s.pcbs parent)) (s.pcbs s.running).pid = record {
        waits = awaits.waits;
        calls = awaits.calls;
        number = awaits.number;
        argument = awaits.argument;
        matches = awaits.matches;
      } in
      let awaited : parent_awaits (u3.pcbs parent) (s.pcbs s.running).pid u3 ≡ ok true u3 =
        ap (λ c. parent_awaits c (s.pcbs s.running).pid u3) parent3
        ∙ parent_awaits-true (signalled sigchld (s.pcbs parent)) (s.pcbs s.running).pid u3 still in
      rw (
        k.some, append_zombie.0, k.some, me_parent, k.parent_some, k.parent_some, me_pid, awaited,
        k.some,
      )
