-- ===== src/Tests/Handover.antt =====
-- Process 100 sends the text at 3000 into its descriptor 3; process 200 receives it at 3200.
use disastr_os_queues.Base.{refl, [], ◌∷◌, arith, pos, eq_ℤ, ◌≡◌, inl, inr, ◌==◌, if◌then◌else◌}
use disastr_os_queues.LinkedList.Walk.{first_match}
use disastr_os_queues.PoolAllocator.Outside.{behind}
use disastr_os_queues.Files.Open.{IsOpen}
use disastr_os_queues.Messages.Handover.{resume, hand_over, HandedOver, hand_over-HandedOver}
use disastr_os_queues.Kernel.{System, ProcessStatus, Pcb, Ends}
use disastr_os_queues.Tests.{list_of, empty_list, pcb, waiting-IsList}
use disastr_os_queues.Tests.Queues.{empty_queue, one_free-IsPool, one_free-IsPlaced, one-IsList}

abbrev receiver : Pcb
receiver = record (pcb (pos 2) ProcessStatus.ready empty_list) {
  descriptors = list_of 12500 12500 1;
}

abbrev shared_queue : System
shared_queue = record empty_queue { pcbs = λ p. if p == 200 then receiver else empty_queue.pcbs p }

sender-IsOpen : IsOpen shared_queue 9 (pos 3) 12000 8000
unfolding first_match
sender-IsOpen = record {
  running_some = refl;
  opened = 12000 ∷ [];
  list = one-IsList 12000 refl refl refl;
  fuel = omega arith;
  found = refl;
  ds_some = refl;
  resource_some = refl;
  value = refl;
}

found_receiver :
    first_match
      (λ a. eq_ℤ ((resume 200 3200 (pos 3) shared_queue).descriptor_items a).fd (pos 3))
      (12500 ∷ [])
    ≡ 12500
unfolding first_match
found_receiver = refl

abbrev receiver_open : IsOpen (resume 200 3200 (pos 3) shared_queue) 9 (pos 3) 12500 8000
receiver_open = record {
  running_some = refl;
  opened = 12500 ∷ [];
  list = one-IsList 12500 refl refl refl;
  fuel = omega arith;
  found = found_receiver;
  ds_some = refl;
  resource_some = refl;
  value = refl;
}

hand_over-HandedOver_example :
    Ends
      (λ _ t. HandedOver shared_queue 8000 200 3000 3200 t)
      (hand_over 9 200 3200 (pos 3) shared_queue)
hand_over-HandedOver_example =
    hand_over-HandedOver shared_queue 8000 3000 200 3200 0 0 [] [] refl refl refl waiting-IsList
      (one_free-IsPool 9000) (one_free-IsPlaced 9000 (omega arith) (omega arith))
      (one_free-IsPool 11000) (one_free-IsPlaced 11000 (omega arith) (omega arith)) (refl, refl)
      (behind 2016 (omega arith) refl (omega arith)) 9 (pos 3) (pos 3) 12000 12500 sender-IsOpen
      refl refl receiver_open refl refl refl (omega arith) (inl (omega arith)) (inr (omega arith))
