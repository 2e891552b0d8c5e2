-- ===== src/Process/Exit/Timers.antt =====
-- The loop of internal_exit that releases the timers of the process.
use mathlib.Core.Path.{subst}
use mathlib.Core.List.{append_assoc}
use disastr_os_queues.Base.{
  ℕ, zero, suc, true, false, ◌≡◌, refl, List, [], ◌∷◌, ◌++◌, arith, has, ap, sym, ◌∙◌, ◌==◌,
  if◌then◌else◌, Bool-cases, inl, inr, length, ◌+◌, ◌<◌, has-append, has_tail, has_head, ==_iff,
}
use disastr_os_queues.LinkedList
use disastr_os_queues.LinkedList.{Ptr, null, is_null, ListItem}
use disastr_os_queues.LinkedList.Chain.{
  IsList, head_or, Seg-right, ne_of_has, ne_of_not_has, Distinct-right, Distinct-apart,
  Disjoint-head,
}
use disastr_os_queues.LinkedList.Detach.{Detached}
use disastr_os_queues.PoolAllocator
use disastr_os_queues.PoolAllocator.{success}
use disastr_os_queues.PoolAllocator.Free.{IsPool, IsPlaced}
use disastr_os_queues.PoolAllocator.Release
use disastr_os_queues.PoolAllocator.Release.{returned, returned-IsPool}
use disastr_os_queues.PoolAllocator.Taken.{IsTaken, IsReturned, IsTaken-returned}
use disastr_os_queues.Timer.{timer_item_free}
use disastr_os_queues.Timer.Order.{Timers}
use disastr_os_queues.Process.Exit.{release_timers}
use disastr_os_queues.Kernel.{System, timer_list, timer_item_pool, Ends, Ends-mono, ok, list_detach}
use disastr_os_queues.Kernel.Lists.{after, list_detach_ok}
use disastr_os_queues.Kernel.Blocks

-- The timers of other processes.
unfoldable pub others : Timers → Ptr → List Ptr → List Ptr
others timers p [] = []
others timers p (t ∷ ts) =
    if (timers t).pcb == p then others timers p ts else t ∷ others timers p ts

pub has-others :
    (timers : Timers) (p a : Ptr) (ts : List Ptr)
    → has a (others timers p ts) ≡ true
    → has a ts ≡ true
unfolding others
has-others timers p a [] h = h
has-others timers p a (t ∷ ts) h = elim (Bool-cases ((timers t).pcb == p)) [
  | inl own ↦
      let gone : others timers p (t ∷ ts) ≡ others timers p ts = rw own refl in
      has_tail a t ts (has-others timers p a ts (ap (has a) (sym gone) ∙ h))
  | inr other ↦
      let kept : others timers p (t ∷ ts) ≡ t ∷ others timers p ts = rw other refl in
      let rest = has-others timers p a ts in
      let here : has a (t ∷ others timers p ts) ≡ true = ap (has a) (sym kept) ∙ h in
      ground (arith, rest)
]

-- The timers are a list of blocks that were handed out.
pub record IsTimed (s : System) (ts : List Ptr) (free : List ℕ) : Type 0 where
  pub list : IsList s.items s.timer_list ts
  pub pool : IsPool s.pools.timer_item free
  pub placed : IsPlaced s.pools.timer_item
  pub taken : (t : Ptr) → has t ts ≡ true → IsTaken s.pools.timer_item free t

-- The timers of the process are gone, their blocks are free, and nothing else is changed.
pub record Freed (s : System) (before ts : List Ptr) (free : List ℕ) (t : System) : Type 0 where
  pub free' : List ℕ
  pub timed : IsTimed t (before ++ others s.timers s.running ts) free'
  pub amount : length free' + length (others s.timers s.running ts) ≡ length free + length ts
  pub kept : (i : ℕ) → has i free ≡ true → has i free' ≡ true
  pub released :
      (a : Ptr)
      → has a ts ≡ true
      → has a (others s.timers s.running ts) ≡ false
      → IsReturned s.pools.timer_item free' a
  pub same : (a : Ptr) → has a (before ++ ts) ≡ false → t.items a ≡ s.items a
  pub frame : t ≡ record s {
    items = t.items;
    timer_list = t.timer_list;
    pools = record s.pools { timer_item = t.pools.timer_item };
  }

has-middle : (before : List Ptr) (t : Ptr) (ts : List Ptr) → has t (before ++ t ∷ ts) ≡ true
has-middle before t ts = ground (arith, has-append t before (t ∷ ts))

outside :
    (a : Ptr) (before : List Ptr) (t : Ptr) (ts : List Ptr)
    → has a (before ++ t ∷ ts) ≡ false
    → ((t == a) ≡ false) × (has a (before ++ ts) ≡ false)
outside a before t ts h = (
  ground (arith, has-append a before (t ∷ ts)),
  ground (arith, has-append a before (t ∷ ts), has-append a before ts),
)

-- The first of the timers behind `before` belongs to the process.
module _ (s : System) (before ts : List Ptr) (t : Ptr) (free : List ℕ)
    (k : IsTimed s (before ++ t ∷ ts) free) where
  t_some : is_null t ≡ false
  t_some = ne_of_has t null (before ++ t ∷ ts) (has-middle before t ts) k.list.non_null

  abbrev timer : IsTaken s.pools.timer_item free t
  timer = k.taken t (has-middle before t ts)

  abbrev detached : System
  detached = after timer_list (LinkedList.detach s.timer_list s.items t) s

  abbrev freed : System
  freed = record detached {
    pools = record s.pools { timer_item = returned s.pools.timer_item timer.number };
  }

  detach_ok :
      (list_detach timer_list t s ≡ ok t detached)
      × Detached s.items t
          (before ++ t ∷ ts)
          (before ++ ts)
          (LinkedList.detach s.timer_list s.items t)
  detach_ok = list_detach_ok timer_list s refl before ts t k.list t_some

  free_ok : timer_item_free t detached ≡ ok success freed
  unfolding timer_item_free
  free_ok =
      Blocks.release_block_ok timer_item_pool detached t (returned s.pools.timer_item timer.number)
        success
        (ap (PoolAllocator.release_block s.pools.timer_item) timer.here
          ∙ Release.release_block_ok s.pools.timer_item free timer.number k.placed k.pool
              timer.in_range timer.busy)

  next_is : (s.items t).next ≡ head_or ts null
  next_is = let q = Seg-right s.items null before (t ∷ ts) null k.list.linked in q.1

  t-out : has t (before ++ ts) ≡ false
  t-out =
      let d = Distinct-right before (t ∷ ts) k.list.distinct in
      let o = Disjoint-head before t ts (Distinct-apart before (t ∷ ts) k.list.distinct) in
      ground (arith, has-append t before ts, d.0)

  freed-IsTimed : IsTimed freed (before ++ ts) (timer.number ∷ free)
  freed-IsTimed = record {
    list = detach_ok.1.list;
    pool =
        returned-IsPool s.pools.timer_item free timer.number k.placed k.pool timer.in_range
          timer.busy;
    placed = record {
      item_pos = k.placed.item_pos;
      buffer_pos = k.placed.buffer_pos;
      small = k.placed.small;
      space = k.placed.space;
    };
    taken = λ u h.
        let whole : has u (before ++ t ∷ ts) ≡ true =
          ground (arith, has-append u before (t ∷ ts), has-append u before ts) in
        IsTaken-returned s.pools.timer_item free t u timer (k.taken u whole)
          (ne_of_not_has t u (before ++ ts) t-out h);
  }

  release_round :
      (rounds : ℕ)
      → ((s.timers t).pcb == s.running) ≡ true
      → release_timers (suc rounds) t s ≡ release_timers rounds (head_or ts null) freed
  unfolding release_timers
  release_round rounds own = rw (t_some, t_some, next_is, own, detach_ok.0, t_some, free_ok) refl

  keep_round :
      (rounds : ℕ)
      → ((s.timers t).pcb == s.running) ≡ false
      → release_timers (suc rounds) t s ≡ release_timers rounds (head_or ts null) s
  unfolding release_timers
  keep_round rounds other = rw (t_some, t_some, next_is, other) refl

  keep_first :
      (others s.timers s.running (t ∷ ts) ≡ t ∷ others s.timers s.running ts)
      → (u : System) → Freed s (before ++ t ∷ []) ts free u
      → Freed s before (t ∷ ts) free u
  keep_first e u r = record {
    free' = r.free';
    timed =
        subst (λ l. IsTimed u l r.free')
          (append_assoc before (t ∷ []) (others s.timers s.running ts)
            ∙ ap (λ l. before ++ l) (sym e))
          r.timed;
    amount = ap (λ l. length r.free' + length l) e ∙ (let a = r.amount in omega arith);
    kept = r.kept;
    released = λ a h out.
        let out' : has a (t ∷ others s.timers s.running ts) ≡ false = ap (has a) (sym e) ∙ out in
        r.released a (ground arith) (ground arith);
    same = λ a h. r.same a (ap (has a) (append_assoc before (t ∷ []) ts) ∙ h);
    frame = r.frame;
  }

  free_first :
      (others s.timers s.running (t ∷ ts) ≡ others s.timers s.running ts)
      → (u : System) → Freed freed before ts (timer.number ∷ free) u
      → Freed s before (t ∷ ts) free u
  free_first e u r = record {
    free' = r.free';
    timed = subst (λ l. IsTimed u (before ++ l) r.free') (sym e) r.timed;
    amount = ap (λ l. length r.free' + length l) e ∙ (let a = r.amount in omega arith);
    kept = λ i h. r.kept i (has_tail i timer.number free h);
    released = λ a h out. elim (Bool-cases (t == a)) [
      | inl same ↦ record {
        number = timer.number;
        here = sym ((==_iff t a).0 same) ∙ timer.here;
        listed = r.kept timer.number (has_head timer.number free);
      }
      | inr differ ↦
          let r' = r.released a (ground arith) (ap (has a) (sym e) ∙ out) in
          record { number = r'.number; here = r'.here; listed = r'.listed }
    ];
    same = λ a h. let (far, near) = outside a before t ts h in r.same a near ∙ detach_ok.1.same a h;
    frame = r.frame;
  }

pub release_timers-Freed :
    (rounds : ℕ) (s : System) (before ts : List Ptr) (free : List ℕ)
    → IsTimed s (before ++ ts) free
    → length ts < rounds
    → Ends (λ _ t. Freed s before ts free t) (release_timers rounds (head_or ts null) s)
unfolding release_timers others
release_timers-Freed zero s before ts free k fuel = elim fuel [ ]
release_timers-Freed (suc rounds) s before [] free k fuel = record {
  free' = free;
  timed = k;
  amount = refl;
  kept = λ i h. h;
  released = λ a h. let no : ⊥ = cc in absurd no;
  same = λ a h. refl;
  frame = refl;
}
release_timers-Freed (suc rounds) s before (t ∷ ts) free k fuel =
    elim (Bool-cases ((s.timers t).pcb == s.running)) [
      | inl own ↦
          let gone = freed s before ts t free k in
          let number = (k.taken t (has-middle before t ts)).number in
          let rest =
            release_timers-Freed rounds gone before ts (number ∷ free)
              (freed-IsTimed s before ts t free k) (omega arith) in
          subst (Ends λ _ u. Freed s before (t ∷ ts) free u)
            (sym (release_round s before ts t free k rounds own))
            (Ends-mono (λ _ u. Freed gone before ts (number ∷ free) u)
              (λ _ u. Freed s before (t ∷ ts) free u) (release_timers rounds (head_or ts null) gone)
              rest λ _ u r. free_first s before ts t free k (rw own refl) u r)
      | inr other ↦
          let k' : IsTimed s ((before ++ t ∷ []) ++ ts) free =
            subst (λ l. IsTimed s l free) (sym (append_assoc before (t ∷ []) ts)) k in
          let rest = release_timers-Freed rounds s (before ++ t ∷ []) ts free k' (omega arith) in
          subst (Ends λ _ u. Freed s before (t ∷ ts) free u)
            (sym (keep_round s before ts t free k rounds other))
            (Ends-mono (λ _ u. Freed s (before ++ t ∷ []) ts free u)
              (λ _ u. Freed s before (t ∷ ts) free u) (release_timers rounds (head_or ts null) s)
              rest λ _ u r. keep_first s before ts t free k (rw other refl) u r)
    ]
