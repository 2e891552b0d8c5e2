-- ===== src/Files/Open.antt =====
-- disastrOS_queue_by_fd and disastrOS_queue_entries on a descriptor of the running process.
use disastr_os_queues.Base.{ℕ, ℤ, ◌<◌, ◌≡◌, false, List, eq_ℤ, length}
use disastr_os_queues.LinkedList.{Ptr, is_null}
use disastr_os_queues.LinkedList.Chain.{IsList}
use disastr_os_queues.LinkedList.Walk.{first_match, first_where-first_match}
use disastr_os_queues.Descriptor.{descriptor_by_fd}
use disastr_os_queues.Files.{queue_by_fd, queue_entries}
use disastr_os_queues.Kernel.{System, ok, get_head, search_list}

-- The running process has a descriptor `ds` with the number `fd`, for a resource with the value
-- `q`, and the rounds are enough to find it.
pub record IsOpen (s : System) (rounds : ℕ) (fd : ℤ) (ds q : Ptr) : Type 0 where
  pub running_some : is_null s.running ≡ false
  pub opened : List Ptr
  pub list : IsList s.items (s.pcbs s.running).descriptors opened
  pub fuel : length opened < rounds
  pub found : first_match (λ a. eq_ℤ (s.descriptor_items a).fd fd) opened ≡ ds
  pub ds_some : is_null ds ≡ false
  pub resource_some : is_null (s.descriptor_items ds).resource ≡ false
  pub value : (s.resources (s.descriptor_items ds).resource).value ≡ q

module _ (s : System) (rounds : ℕ) (fd : ℤ) (ds q : Ptr) (o : IsOpen s rounds fd ds q) where
  pub queue_entries_ok : queue_entries rounds fd s ≡ ok ds s
  unfolding queue_entries descriptor_by_fd search_list get_head
  queue_entries_ok =
      let r =
        first_where-first_match rounds (λ a. eq_ℤ (s.descriptor_items a).fd fd) o.list o.fuel in
      rw (o.running_some, r, o.found)

  pub queue_by_fd_ok : queue_by_fd rounds fd s ≡ ok q s
  unfolding queue_by_fd descriptor_by_fd search_list get_head
  queue_by_fd_ok =
      let r =
        first_where-first_match rounds (λ a. eq_ℤ (s.descriptor_items a).fd fd) o.list o.fuel in
      rw (o.running_some, r, o.found, o.ds_some, o.ds_some, o.resource_some, o.value)
