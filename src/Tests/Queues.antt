-- ===== src/Tests/Queues.antt =====
-- Process 100 has opened a queue as descriptor 3: its messages are sent, received and waited for.
use disastr_os_queues.Base.{
  ℕ, ◌≡◌, refl, true, false, [], ◌∷◌, ◌+◌, ◌-◌, arith, pos, inl, ◌==◌, leb, ltb, has, ◌<◌, ◌&&◌,
  if◌then◌else◌,
}
use disastr_os_queues.LinkedList.{Ptr, null}
use disastr_os_queues.LinkedList.Chain.{IsList}
use disastr_os_queues.LinkedList.Walk.{first_match}
use disastr_os_queues.PoolAllocator.{PoolAllocator, null_idx, detached_idx}
use disastr_os_queues.PoolAllocator.Free.{IsPool, IsPlaced}
use disastr_os_queues.PoolAllocator.Outside.{behind}
use disastr_os_queues.Files.Open.{IsOpen}
use disastr_os_queues.Messages.{
  copy, internal_send_message, internal_recv_message, internal_wake_up_queue, run_check,
  wakeup_flag_condition_send,
}
use disastr_os_queues.Messages.Blocking.{Blocked}
use disastr_os_queues.Messages.Copy.{copied_length, copy-char}
use disastr_os_queues.Messages.Fifo.{
  Enqueued, Received, internal_send_message-Enqueued, internal_recv_message-Received,
}
use disastr_os_queues.Messages.Full.{internal_send_message-Blocked}
use disastr_os_queues.Messages.Wake.{Woken, waiting_process, internal_wake_up_queue-Woken}
use disastr_os_queues.Resource.QueueObject.{free_messages}
use disastr_os_queues.Resource.QueueObject.Half.{Halved, free_messages-Halved}
use disastr_os_queues.Kernel.{
  System, ProcessStatus, int, pointer, list_ref, check, condition_send, Pcb, Ends, readers,
  no_msg_sent,
}
use disastr_os_queues.Tests.{
  sample, sample_items, sample_pcbs, sample_queue, sample_pools, list_of, empty_list, pcb,
  full_pool, strings-IsPlaced, waiting-IsList,
}

-- The address 3000 holds a text: the characters 7 and 8, and a zero.
abbrev pub text : Ptr → ℕ
text p = if p == 3000 then 7 else if p == 3001 then 8 else 0

-- The first block is free.
abbrev pub one_free : Ptr → PoolAllocator
one_free p = record (full_pool p) {
  free_list = λ i. if i == 0 then null_idx else detached_idx;
  size = pos 1;
  first_idx = pos 0;
}

abbrev caller : Pcb
caller = record (pcb (pos 1) ProcessStatus.running empty_list) {
  descriptors = list_of 12000 12000 1;
  syscall_args = λ i. if i == 0 then pointer 3000 else int (pos 3);
}

-- The queue is empty, and has room.
abbrev pub empty_queue : System
empty_queue = record sample {
  pcbs = λ p. if p == 100 then caller else sample_pcbs p;
  descriptor_items = λ p. record (sample.descriptor_items p) { fd = pos 3 };
  bytes = text;
  pools = record sample_pools { msg_strings = one_free 9000; message = one_free 11000 };
}

-- It has no room.
abbrev full_queue : System
full_queue = record empty_queue { queues = λ _. record sample_queue { max_messages = pos 0 } }

-- It holds the message 11040.
abbrev filled_queue : System
filled_queue = record empty_queue {
  queues = λ _. record sample_queue { messages = list_of 11040 11040 1 };
  pools = sample_pools;
}

-- Process 200 is a reader that waits, and process 100 wakes it.
abbrev waker : Pcb
waker = record (pcb (pos 1) ProcessStatus.running empty_list) {
  syscall_args = λ i.
      if i == 0
      then check condition_send
      else if i == 1
      then pointer 8000
      else list_ref (readers 8000);
}

abbrev waited_queue : System
waited_queue = record filled_queue {
  pcbs = λ p. if p == 100 then waker else pcb (pos 2) ProcessStatus.waiting empty_list;
  queues = λ _. record sample_queue {
    messages = list_of 11040 11040 1;
    readers = list_of 10000 10000 1;
  };
  queue_users = λ _. record { pid = pos 2; status = ProcessStatus.waiting };
  waiting_list = list_of 400 400 1;
  ready_list = empty_list;
}

pub one-IsList :
    (x : Ptr)
    → (x == 0) ≡ false
    → (sample_items x).prev ≡ null
    → (sample_items x).next ≡ null
    → IsList sample_items (list_of x x 1) (x ∷ [])
one-IsList x h p n = record {
  first = refl;
  last = refl;
  size = refl;
  linked = (p, n, tt);
  non_null = ground arith;
  distinct = (refl, tt);
}

pub empty-IsOpen : IsOpen empty_queue 9 (pos 3) 12000 8000
unfolding first_match
empty-IsOpen = record {
  running_some = refl;
  opened = 12000 ∷ [];
  list = one-IsList 12000 refl refl refl;
  fuel = omega arith;
  found = refl;
  ds_some = refl;
  resource_some = refl;
  value = refl;
}

full-IsOpen : IsOpen full_queue 9 (pos 3) 12000 8000
unfolding first_match
full-IsOpen = record {
  running_some = refl;
  opened = 12000 ∷ [];
  list = one-IsList 12000 refl refl refl;
  fuel = omega arith;
  found = refl;
  ds_some = refl;
  resource_some = refl;
  value = refl;
}

filled-IsOpen : IsOpen filled_queue 9 (pos 3) 12000 8000
unfolding first_match
filled-IsOpen = record {
  running_some = refl;
  opened = 12000 ∷ [];
  list = one-IsList 12000 refl refl refl;
  fuel = omega arith;
  found = refl;
  ds_some = refl;
  resource_some = refl;
  value = refl;
}

pub one_free-IsPool : (p : Ptr) → IsPool (one_free p) (0 ∷ [])
one_free-IsPool p = record {
  chain = (refl, omega arith, refl);
  distinct = (refl, tt);
  size = refl;
  detached = λ i lt out. ground arith;
}

pub one_free-IsPlaced : (p : Ptr) → (0 < p) → (p < 20000) → IsPlaced (one_free p)
one_free-IsPlaced p h k = record {
  item_pos = omega arith;
  buffer_pos = h;
  small = omega arith;
  space = omega arith;
}

internal_send_message-Enqueued_example :
    Ends
      (λ _ t. Enqueued empty_queue 8000 11000 9000 3000 [] t)
      (internal_send_message 9 empty_queue)
internal_send_message-Enqueued_example =
    internal_send_message-Enqueued empty_queue 8000 3000 [] 0 0 [] [] refl refl refl waiting-IsList
      (one_free-IsPool 9000) (one_free-IsPlaced 9000 (omega arith) (omega arith))
      (one_free-IsPool 11000) (one_free-IsPlaced 11000 (omega arith) (omega arith)) (refl, refl)
      refl refl (omega arith) 9 (pos 3) 12000 empty-IsOpen refl refl

internal_recv_message-Received_example :
    Ends (λ _ t. Received filled_queue 8000 11040 3000 [] t) (internal_recv_message 9 filled_queue)
internal_recv_message-Received_example =
    internal_recv_message-Received filled_queue 9 (pos 3) 12000 8000 11040 3000 [] filled-IsOpen
      refl refl refl refl (one-IsList 11040 refl refl refl) refl strings-IsPlaced
      (behind 2056 (omega arith) refl (omega arith))

internal_send_message-Blocked_example :
    Ends (λ _ t. Blocked full_queue 10040 no_msg_sent [] t) (internal_send_message 9 full_queue)
internal_send_message-Blocked_example =
    internal_send_message-Blocked full_queue 9 (pos 3) 12000 8000 full-IsOpen refl refl []
      waiting-IsList (refl, refl) refl refl refl

none_ready : (a : Ptr) → has a [] ≡ true → has a (400 ∷ []) ≡ false
none_ready a h = cc

met : run_check condition_send (waited_queue.queues 8000) ≡ true
unfolding run_check wakeup_flag_condition_send
met = refl

first : waiting_process waited_queue (400 ∷ []) 10000 ≡ 400
unfolding first_match
first = refl

internal_wake_up_queue-Woken_example :
    Ends (λ _ t. Woken waited_queue 10000 400 [] [] [] t) (internal_wake_up_queue 9 waited_queue)
internal_wake_up_queue-Woken_example =
    internal_wake_up_queue-Woken waited_queue 9 [] [] [] 400 (one-IsList 400 refl refl refl)
      (omega arith) waiting-IsList none_ready refl condition_send 8000 (readers 8000) [] [] 10000
      refl refl refl refl met refl (one-IsList 10000 refl refl refl) tt refl first (omega arith)

free_messages-Halved_example :
    Ends (λ _ t. Halved 8000 (11040 ∷ []) t) (free_messages 9 (pos 0) 8000 filled_queue)
free_messages-Halved_example =
    free_messages-Halved 9 8000 (11040 ∷ []) filled_queue refl (one-IsList 11040 refl refl refl)
      strings-IsPlaced (behind 2056 (omega arith) refl (omega arith), tt) (omega arith)

copy-char_example : copy 5 9000 3000 text 9001 ≡ (
    if leb 9000 9001 && ltb 9001 (9000 + copied_length 5 3000 text)
    then text (3000 + (9001 - 9000))
    else text 9001)
copy-char_example = copy-char 5 9000 3000 text 9001 (inl (omega arith))

-- Three characters are copied, the zero among them.
two_characters : copied_length 5 3000 text ≡ 3
unfolding copied_length
two_characters = refl
