-- ===== src/Schedule/Rotate.antt =====
-- The round robin of internal_schedule.
use mathlib.Core.Path.{subst}
use disastr_os_queues.Base.{
  ◌≡◌, refl, false, List, [], ◌∷◌, ◌++◌, arith, has, ap, sym, ◌∙◌, ◌==◌, update, not-has-cons,
  not-has-tail, not-has-skip,
}
use disastr_os_queues.LinkedList
use disastr_os_queues.LinkedList.{Ptr, null, is_null, ListItem}
use disastr_os_queues.LinkedList.Chain.{IsList, SameOutside}
use disastr_os_queues.Schedule.{rotate}
use disastr_os_queues.Kernel.{System, ProcessStatus, ready_list, Ends, get_head}
use disastr_os_queues.Kernel.Lists.{after, list_append_ok, list_detach_ok}

-- The object stands in no list.
abbrev pub IsUnlinked : System → Ptr → Type 0
IsUnlinked s p = ((s.items p).prev ≡ null) × ((s.items p).next ≡ null)

-- The ready list and the running process after a turn of the round robin.
pub record Rotated (s : System) (next : Ptr) (xs : List Ptr) (t : System) : Type 0 where
  pub list : IsList t.items t.ready_list (xs ++ s.running ∷ [])
  pub running : t.running ≡ next
  pub unlinked : IsUnlinked t next
  pub status : (t.pcbs next).status ≡ ProcessStatus.running
  pub waiting : t.waiting_list ≡ s.waiting_list
  pub status_before : (t.pcbs s.running).status ≡ ProcessStatus.ready
  pub same : SameOutside (next ∷ s.running ∷ xs) s.items t.items
  pub timer_list : t.timer_list ≡ s.timer_list
  pub timers : t.timers ≡ s.timers
  pub timer : (a : Ptr) → (t.pcbs a).timer ≡ (s.pcbs a).timer
  pub pools : t.pools ≡ s.pools
  pub time : t.time ≡ s.time

module _ (s : System) (xs : List Ptr) (some : is_null s.running ≡ false)
    (out : has s.running xs ≡ false) (alone : IsUnlinked s s.running) where
  rotate_first :
      IsList s.items s.ready_list (s.ready_list.first ∷ xs)
      → is_null s.ready_list.first ≡ false
      → (s.ready_list.first == s.running) ≡ false
      → Ends (λ _ t. Rotated s s.ready_list.first xs t) (rotate s)
  unfolding rotate get_head
  rotate_first l first ne =
      let (e, r) = list_detach_ok ready_list s refl [] xs s.ready_list.first l first in
      let removed =
        after ready_list (LinkedList.detach s.ready_list s.items s.ready_list.first) s in
      let s' : System = record removed {
        pcbs = update s.pcbs s.running (record (s.pcbs s.running) { status = ProcessStatus.ready });
      } in
      let kept = r.same s.running (not-has-cons s.running _ xs ne out) in
      let (f, i) =
        list_append_ok ready_list s' refl xs s.running r.list some (rw kept alone.1)
          (rw kept alone.0) out in
      let ne' : (s.running == s.ready_list.first) ≡ false = ground arith in
      let left =
        i.same s.ready_list.first (not-has-cons _ s.running xs ne' l.distinct.0) ∙ r.unlinked in
      rw (first, e, some, f, first)
        (record {
          list = i.list;
          running = refl;
          unlinked = (ap (λ k. k.prev) left, ap (λ k. k.next) left);
          waiting = refl;
          status = ground arith;
          status_before = rw ne (ground arith);
          same = λ a h.
              i.same a (not-has-tail a _ s.running xs h)
              ∙ r.same a (not-has-skip a _ s.running xs h);
          timer_list = refl;
          timers = refl;
          timer = λ a. ground arith;
          pools = refl;
          time = refl;
        })

  -- With a first ready process `next`, `internal_schedule` (past the timers) makes it the running
  -- one, takes it out of the ready list and puts the process that ran at the end of that list.
  pub rotate-Rotated :
      (next : Ptr)
      → IsList s.items s.ready_list (next ∷ xs)
      → (next == s.running) ≡ false
      → Ends (λ _ t. Rotated s next xs t) (rotate s)
  rotate-Rotated next l ne =
      let some_next : is_null next ≡ false = let h = l.non_null in ground arith in
      let e = l.first in
      subst (λ y. Ends (λ _ t. Rotated s y xs t) (rotate s)) e
        (rotate_first (subst (λ y. IsList s.items s.ready_list (y ∷ xs)) (sym e) l)
          (ap is_null e ∙ some_next) (ap (λ y. y == s.running) e ∙ ne))
