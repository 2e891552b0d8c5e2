-- ===== src/Kernel/Constants.antt =====
-- disastrOS_constants.h: the constants that the modelled code uses.
use disastr_os_queues.Base.{ℕ, ℤ, negsuc}

abbrev pub max_num_processes : ℕ
max_num_processes = 1024

abbrev pub max_num_resources : ℕ
max_num_resources = 1024

abbrev pub max_num_descriptors_per_process : ℕ
max_num_descriptors_per_process = 32

abbrev pub max_num_messages_per_queue : ℕ
max_num_messages_per_queue = 128

abbrev pub max_num_strings : ℕ
max_num_strings = 32768

abbrev pub max_num_queues : ℕ
max_num_queues = 256

abbrev pub max_message_size : ℕ
max_message_size = 128

-- Signals.
abbrev pub sigchld : ℕ
sigchld = 1

abbrev pub sighup : ℕ
sighup = 2

-- Errors of system calls.
abbrev pub esyscall_not_implemented : ℤ
esyscall_not_implemented = negsuc 1

abbrev pub esyscall_out_of_range : ℤ
esyscall_out_of_range = negsuc 2

abbrev pub ewait : ℤ
ewait = negsuc 4

abbrev pub espawn : ℤ
espawn = negsuc 5

abbrev pub esleep : ℤ
esleep = negsuc 6

abbrev pub eresourcecreate : ℤ
eresourcecreate = negsuc 7

abbrev pub eresourceopen : ℤ
eresourceopen = negsuc 8

abbrev pub eresourcenoexcl : ℤ
eresourcenoexcl = negsuc 9

abbrev pub eresourcenofd : ℤ
eresourcenofd = negsuc 10

abbrev pub eresourceclose : ℤ
eresourceclose = negsuc 11

abbrev pub eresourceinuse : ℤ
eresourceinuse = negsuc 12

abbrev pub no_msg_received : ℤ
no_msg_received = negsuc 13

abbrev pub no_msg_sent : ℤ
no_msg_sent = negsuc 14

abbrev pub equeueopen : ℤ
equeueopen = negsuc 15

abbrev pub shutting : ℤ
shutting = negsuc 17

-- Errors of the queue interface.
abbrev pub eagain : ℤ
eagain = negsuc 100

abbrev pub invalid_fd : ℤ
invalid_fd = negsuc 101

abbrev pub invalid_attribute : ℤ
invalid_attribute = negsuc 102

abbrev pub att_not_set : ℤ
att_not_set = negsuc 103

abbrev pub buffer_too_small : ℤ
buffer_too_small = negsuc 104

abbrev pub msg_too_big : ℤ
msg_too_big = negsuc 105

abbrev pub action_not_allowed : ℤ
action_not_allowed = negsuc 106

abbrev pub invalid_value : ℤ
invalid_value = negsuc 109

abbrev pub operation_not_available : ℤ
operation_not_available = negsuc 111

abbrev pub list_insertion_error : ℤ
list_insertion_error = negsuc 113

-- Numbers of system calls.
abbrev pub max_syscalls : ℕ
max_syscalls = 32

abbrev pub call_preempt : ℕ
call_preempt = 1

abbrev pub call_fork : ℕ
call_fork = 2

abbrev pub call_wait : ℕ
call_wait = 3

abbrev pub call_exit : ℕ
call_exit = 4

abbrev pub call_spawn : ℕ
call_spawn = 5

abbrev pub call_sleep : ℕ
call_sleep = 6

abbrev pub call_open_resource : ℕ
call_open_resource = 7

abbrev pub call_close_resource : ℕ
call_close_resource = 8

abbrev pub call_destroy_resource : ℕ
call_destroy_resource = 9

abbrev pub call_shutdown : ℕ
call_shutdown = 10

abbrev pub call_send_msg : ℕ
call_send_msg = 11

abbrev pub call_recv_msg : ℕ
call_recv_msg = 12

abbrev pub call_wakeup_queue : ℕ
call_wakeup_queue = 13

abbrev pub call_open_queue : ℕ
call_open_queue = 14

-- Flags of resources and of queues.
abbrev pub create_flag : ℕ
create_flag = 0x1

abbrev pub excl_flag : ℕ
excl_flag = 0x4

abbrev pub rdonly : ℕ
rdonly = 0o1

abbrev pub wronly : ℕ
wronly = 0o2

abbrev pub creat : ℕ
creat = 0o10

abbrev pub q_excl : ℕ
q_excl = 0o20

abbrev pub nonblock : ℕ
nonblock = 0o40
