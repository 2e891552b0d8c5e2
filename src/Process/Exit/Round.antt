-- ===== src/Process/Exit/Round.antt =====
-- One round of the loop of internal_exit over the children, and what it does to the init process.
use Prim.Native.Nat.{bit_and, bit_or}
use disastr_os_queues.Base.{ℕ, suc, false, ◌≡◌, List, [], ◌∷◌, ◌++◌, arith, has, ap, ◌∙◌, update}
use disastr_os_queues.LinkedList
use disastr_os_queues.LinkedList.{Ptr, null, is_null, ListHead, Items}
use disastr_os_queues.LinkedList.Chain.{IsList, last_or}
use disastr_os_queues.LinkedList.Detach.{Detached}
use disastr_os_queues.LinkedList.Insert.{Inserted}
use disastr_os_queues.Process.Exit.{send_signal, reparent_children}
use disastr_os_queues.Process.Exit.Kept.{field-same}
use disastr_os_queues.Kernel.{System, Pcb, children, ok, get_head, sighup, list_append, list_detach}
use disastr_os_queues.Kernel.Lists.{after, list_append_ok, list_detach_ok}

-- A process with one more signal, unless it is masked.
abbrev pub signalled : ℕ → Pcb → Pcb
signalled signal c = record c { signals = bit_or c.signals (bit_and signal c.signals_mask) }

-- A signal changes no other field, of whichever process.
pub signalled-same {ℓ} :
    {A : Type ℓ} (field : Pcb → A) (signal : ℕ) (pcbs : Ptr → Pcb) (p q : Ptr)
    → ((c : Pcb) → field (signalled signal c) ≡ field c)
    → field (update pcbs p (signalled signal (pcbs p)) q) ≡ field (pcbs q)
signalled-same field signal pcbs p q same =
    field-same field pcbs p (signalled signal (pcbs p)) q (same (pcbs p))

module _ (s : System) (some : is_null s.running ≡ false) (init_some : is_null s.init_pcb ≡ false)
    (x : Ptr) (xs inits : List Ptr)
    (mine : IsList s.items (s.pcbs s.running).children (x ∷ xs)) where
  x_some : is_null x ≡ false
  x_some = let h = mine.non_null in ground arith

  abbrev pub s1 : System
  s1 = after (children s.running) (LinkedList.detach (s.pcbs s.running).children s.items x) s

  abbrev pub s2 : System
  s2 =
      after (children s.init_pcb)
        (LinkedList.insert (s1.pcbs s.init_pcb).children s1.items (last_or null inits) x) s1

  abbrev pub s3 : System
  s3 = record s2 {
    pcbs = update s2.pcbs (s.pcb_ptrs x) (signalled sighup (s2.pcbs (s.pcb_ptrs x)));
  }

  pub detach_child :
      (list_detach (children s.running) x s ≡ ok x s1)
      × Detached s.items x (x ∷ xs) xs (LinkedList.detach (s.pcbs s.running).children s.items x)
  detach_child = list_detach_ok (children s.running) s some [] xs x mine x_some

  pub append_child :
      IsList s1.items (s1.pcbs s.init_pcb).children inits
      → has x inits ≡ false
      → (list_append (children s.init_pcb) x s1 ≡ ok x s2)
        × Inserted s1.items x inits
            (inits ++ x ∷ [])
            (LinkedList.insert (s1.pcbs s.init_pcb).children s1.items (last_or null inits) x)
  append_child theirs fresh =
      list_append_ok (children s.init_pcb) s1 init_some inits x theirs x_some
        (ap (λ i. i.next) detach_child.1.unlinked) (ap (λ i. i.prev) detach_child.1.unlinked) fresh

  pub round_ok :
      (rounds : ℕ)
      → IsList s1.items (s1.pcbs s.init_pcb).children inits
      → has x inits ≡ false
      → is_null (s.pcb_ptrs x) ≡ false
      → reparent_children (suc rounds) s ≡ reparent_children rounds s3
  unfolding reparent_children get_head send_signal
  round_ok rounds theirs fresh child_some =
      let first_some : is_null (s.pcbs s.running).children.first ≡ false =
        ap is_null mine.first ∙ x_some in
      let detach_first : list_detach (children s.running) (s.pcbs s.running).children.first s
          ≡ ok x s1 =
        ap (λ p. list_detach (children s.running) p s) mine.first ∙ detach_child.0 in
      rw (some, first_some, detach_first, x_some, (append_child theirs fresh).0, child_some)
