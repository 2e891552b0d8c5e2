-- ===== src/Lib.antt =====
-- A model of disastrOS with message queues: a small operating system in C that runs in one Unix
-- process, with processes, timers, resources and message queues, and the theorems about it.
--
-- How the parts interact. Every kernel object begins with a ListItem and lives in a block of a
-- static pool; the lists of linked_list.c link the objects, and pool_allocator.c hands out the
-- blocks. A process makes a system call (disastrOS_syscall), the trap looks the handler up by its
-- number, and the handler changes the objects and the globals, `running` among them. The timer
-- interrupt and most of the calls end in a change of the running process. The queue functions that
-- a process calls (dmq_*) read the kernel's objects themselves and make several system calls.
--
-- Which file models what (a child of a file has the theorems about it, unless it says otherwise):
--   Base                 numbers, tests, functions as stores, and lists
--   LinkedList           linked_list.c, linked_list.h
--   PoolAllocator        pool_allocator.c, pool_allocator.h
--   Kernel               the state (disastrOS_globals.h and the structures of the other headers), the
--                        constants (disastrOS_constants.h), and commands on the state
--   Pcb, Timer, Descriptor
--                        disastrOS_pcb.c, disastrOS_timer.c, disastrOS_descriptor.c
--   Resource             the resources of disastrOS_resource.c; Resource/QueueObject the queues, their
--                        users, messages and strings
--   Schedule             disastrOS_schedule.c, disastrOS_preempt.c, disastrOS_sleep.c, and
--                        timerInterrupt of disastrOS.c; Schedule/Plan is the scheduler without lists
--                        in memory (who runs, who is ready, who waits, the alarms), and
--                        Schedule/Refine says when a state represents a plan; Schedule/Invariant is
--                        the state that the scheduler works on, and Schedule/Runs has the sequences of
--                        clock ticks and preemptions
--   Process              disastrOS_fork.c, disastrOS_spawn.c, disastrOS_wait.c; Process/Exit has
--                        disastrOS_exit.c
--   Files                disastrOS_open_resource.c, disastrOS_close_resource.c,
--                        disastrOS_destroy_resource.c, disastrOS_open_queue.c, and
--                        disastrOS_queue_by_fd and disastrOS_queue_entries of disastrOS.c
--   Messages             disastrOS_send_msg.c, disastrOS_receive_msg.c, disastrOS_wake_queue.c
--   Trap                 disastrOS_syscall and disastrOS_trap of disastrOS.c, disastrOS_shutdown.c
--   Calls                the calls of a process, disastrOS_fork to disastrOS_openQueue in disastrOS.c
--   Dmq                  disastrOS_queue.c
--   Boot                 disastrOS_start of disastrOS.c
--   Printing             the printing functions of disastrOS_pcb.c, disastrOS_timer.c,
--                        disastrOS_descriptor.c and disastrOS_resource.c; Printing/Status has those of
--                        the queues and resources, and disastrOS_printStatus of disastrOS.c
--   Tests                states of the kernel, and runs on them
-- Names are those of the source in small letters: List_insert is `insert` of LinkedList,
-- internal_sendMessage is `internal_send_message`, TimerList_add is `timer_list_add`.
--
-- How the state is modelled. An address is a natural number, 0 the null pointer. The ListItem of
-- each object is in one store, `items`, and the rest of it in the store of its type; a ListHead
-- inside an object or a global is named by a `ListRef`. A command takes the state to a result and
-- the next state (`ok`), to a `fault` (a null pointer followed, an array left, an assertion failed),
-- to `switched` (a system call after which another process, or none, has the processor), or to
-- `out_of_fuel`. The characters of texts, strings and buffers are in the store `bytes`. The free list
-- of a pool is a store of its own: a text longer than its string block, which only a message size above
-- MAX_MESSAGE_SIZE lets in, does not reach it in the model, and the theorems about sending take a size
-- of at most a block.
--
-- Numbers. The `int` fields are integers of any size: where the source would overflow one, C leaves
-- the behaviour open. What the allocator computes from sizes and addresses is cut down to an `int`
-- of 32 bits in the model as in the code.
--
-- Fuel. A loop along a list takes a number of rounds and is cut off as `out_of_fuel`. One more round
-- than the list has members is enough, and the theorems about such a loop have that as their
-- hypothesis and state the result that the loop ends in.
--
-- Not modelled: the processor contexts and the signals (ucontext and setitimer, of the C library and
-- the operating system), of which only the place where a process goes on is kept; the log file and
-- the printing inside the handlers (Printing has the printing functions by themselves); the test
-- program disastrOS_test.c. Static buffers and the sizes of structures are
-- parameters of the start (`Memory`). The contents of a block that is not written on allocation are
-- what the block held before.
mod Base
pub mod LinkedList
pub mod PoolAllocator
pub mod Kernel
pub mod Pcb
pub mod Timer
pub mod Descriptor
pub mod Resource
pub mod Schedule
pub mod Process
pub mod Files
pub mod Messages
pub mod Trap
pub mod Calls
pub mod Dmq
pub mod Boot
pub mod Printing
pub mod Tests
