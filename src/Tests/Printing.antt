-- ===== src/Tests/Printing.antt =====
-- The ready list of the sample state, printed: processes 200 and 300, without children.
use mathlib.Core.Path.{subst}
use disastr_os_queues.Base.{◌≡◌, refl, true, List, [], ◌∷◌, ◌++◌, arith, has, sym}
use disastr_os_queues.LinkedList.{Ptr}
use disastr_os_queues.LinkedList.Chain.{IsList}
use disastr_os_queues.Printing.{text, pcb_list_print}
use disastr_os_queues.Printing.Joined.{joined, show_pcb, IsShowable, pcb_list_print-joined}
use disastr_os_queues.Tests.{
  sample, sample_pcbs, sample_items, empty_list, ready-IsList, waiting-IsList,
}
use disastr_os_queues.Kernel.{ok, ready_list}

abbrev childless : Ptr → List Ptr
childless p = []

both-IsShowable : (p : Ptr) → has p (200 ∷ 300 ∷ []) ≡ true → IsShowable sample 9 childless p
both-IsShowable p h =
    let none : (sample_pcbs p).children ≡ empty_list = ground arith in
    record {
      some = ground arith;
      list = subst (λ l. IsList sample_items l []) (sym none) waiting-IsList;
      fuel = omega arith;
      there = λ c k. cc;
    }

pcb_list_print-joined_example :
    pcb_list_print 9 ready_list sample
    ≡ ok
        (text "{\n"
          ∷ (joined
                (λ p. text "\t" ∷ show_pcb sample childless p)
                (text "," ∷ [])
                (text "\n" ∷ [])
                (200 ∷ 300 ∷ [])
              ++ text "}\n" ∷ []))
        sample
pcb_list_print-joined_example =
    pcb_list_print-joined sample 9 childless ready_list (200 ∷ 300 ∷ []) refl ready-IsList
      (omega arith) both-IsShowable
