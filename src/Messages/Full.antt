-- ===== src/Messages/Full.antt =====
-- internal_sendMessage on a full queue, and internal_recvMessage on an empty one.
use disastr_os_queues.Base.{ℕ, ℤ, ◌≡◌, false, List, [], ltb_ℤ, has}
use disastr_os_queues.LinkedList.{Ptr, is_null}
use disastr_os_queues.LinkedList.Chain.{IsList}
use disastr_os_queues.LinkedList.Detach.{pop-nil}
use disastr_os_queues.Files.Open.{IsOpen, queue_by_fd_ok, queue_entries_ok}
use disastr_os_queues.Schedule.Rotate.{IsUnlinked}
use disastr_os_queues.Messages.{internal_send_message, internal_recv_message}
use disastr_os_queues.Messages.Blocking.{Blocked, block_on-Blocked}
use disastr_os_queues.Kernel.{
  System, int, pointer, messages, Ends, ok, list_pop, no_msg_sent, no_msg_received,
}

list_pop_empty :
    (s : System) (q : Ptr)
    → is_null q ≡ false
    → IsList s.items (s.queues q).messages []
    → list_pop (messages q) s ≡ ok 0 s
unfolding list_pop
list_pop_empty s q some l = rw (some, pop-nil l)

module _ (s : System) (rounds : ℕ) (fd : ℤ) (ds q : Ptr) (o : IsOpen s rounds fd ds q)
    (q_some : is_null q ≡ false) (number : (s.pcbs s.running).syscall_args 1 ≡ int fd)
    (ws : List Ptr) (w : IsList s.items s.waiting_list ws) (alone : IsUnlinked s s.running)
    (out : has s.running ws ≡ false) where
  -- On a full queue `internal_sendMessage` marks the process's entry among the writers, puts the
  -- process at the end of the waiting list, and answers that no message was sent. The process is
  -- still the running one.
  pub internal_send_message-Blocked :
      ltb_ℤ (s.queues q).messages.size (s.queues q).max_messages ≡ false
      → is_null (s.descriptor_items ds).writer ≡ false
      → Ends
          (λ _ t. Blocked s (s.descriptor_items ds).writer no_msg_sent ws t)
          (internal_send_message rounds s)
  unfolding internal_send_message
  internal_send_message-Blocked full some =
      rw
        (
          o.running_some,
          number,
          queue_by_fd_ok s rounds fd ds q o,
          queue_entries_ok s rounds fd ds q o,
          q_some,
          full,
          o.ds_some,
        )
        (block_on-Blocked s (s.descriptor_items ds).writer no_msg_sent ws w o.running_some some
          alone out)

  -- On an empty queue `internal_recvMessage`, given a buffer, marks the process's entry among the
  -- readers, puts the process at the end of the waiting list, and answers that no message was
  -- received. The process is still the running one.
  pub internal_recv_message-Blocked :
      (msg : Ptr)
      → is_null msg ≡ false
      → (s.pcbs s.running).syscall_args 0 ≡ pointer msg
      → IsList s.items (s.queues q).messages []
      → is_null (s.descriptor_items ds).reader ≡ false
      → Ends
          (λ _ t. Blocked s (s.descriptor_items ds).reader no_msg_received ws t)
          (internal_recv_message rounds s)
  unfolding internal_recv_message
  internal_recv_message-Blocked msg msg_some buffer empty some =
      rw
        (
          o.running_some,
          number,
          queue_by_fd_ok s rounds fd ds q o,
          queue_entries_ok s rounds fd ds q o,
          o.running_some,
          buffer,
          msg_some,
          list_pop_empty s q q_some empty,
          o.ds_some,
        )
        (block_on-Blocked s (s.descriptor_items ds).reader no_msg_received ws w o.running_some some
          alone out)
