-- ===== src/Lib.antt =====
-- Verification of the C++ of these notes: the concurrent data structures and the thread pool of
-- cpp/concurrency, the coroutine transform of cpp/c++20/coroutines, the visitors
-- and the type erasure of cpp/c++_software_design, and two small programs.
--
-- Base holds shared names, tests and lists. Interleaving is the model of concurrency: a component
-- is a memory, a place `Pc` for each thread with its local variables, and a relation `Move` with
-- one constructor for each access to memory that others share. A run is any sequence of steps of
-- any threads, so every schedule counts; the memory is sequentially consistent, although the code
-- asks for weaker orders in places. A step may carry an event, the point at which an operation
-- takes effect, and Containers has the abstract queue and stack that replay the events. Addresses
-- are numbers, 0 is the null pointer, and an allocation may take any free address, a deleted one
-- too. To touch a node that is not allocated is no step of the relation. Chain is a linked list
-- in such a memory.
--
-- SpscQueue is cpp/concurrency/concurrent_data_structure/spsc_queue_unbounded.cpp, with one
-- producer and one consumer. QueueNode is its node, and that of the next.
-- LockedQueue is cpp/concurrency/concurrent_data_structure/threadsafe_queue.cpp, with both
-- mutexes and the condition variable, for any number of threads.
-- LeakyStack is cpp/concurrency/concurrent_data_structure/lockfree_stack_memory_leak.cpp, with
-- compare-exchanges that may fail for nothing. StackNode is its node.
-- HazardStack is cpp/concurrency/concurrent_data_structure/lockfree_stack_hazard_pointer.cpp, for any
-- number of threads that start and end. A node that is deleted may be allocated again at once. The
-- exception of a thread that finds no spot ends its operation; the loop over the 100 spots has one
-- step for each.
-- SplitStack is cpp/concurrency/concurrent_data_structure/lockfree_stack_split_ref_count.cpp, for any
-- number of threads. A count in a std::atomic<int> wraps around modulo 2^32; the increment of an
-- external_count at the largest int is undefined, and no step. Its view counts the threads that hold
-- each node.
-- MpmcQueue is cpp/concurrency/concurrent_data_structure/mpmc_queue_ref_count.cpp, for any number of
-- threads. A push has its event when tail moves past its node, by its own thread or another.
-- ThreadPool is cpp/concurrency/thread_pool/thread_pool.cpp. Each call on a queue holds its mutex
-- throughout and is a function on the list of its tasks. Below it, Lifecycle interleaves the workers with
-- the thread that makes the pool, submits and destroys it, one call on a queue at a time; Bags is the
-- abstract pool. What a task does is left open: it may submit, and call runPendingTask.
-- The destructors of SpscQueue, LockedQueue and MpmcQueue run when no thread is in the queue, on fuel for the
-- rounds of their loop, one more than there are items; Steps/Unreached says which nodes are allocated then,
-- and MpmcQueue/Owners which thread answers for the item in the last node.
-- Coroutine is cpp/c++20/coroutines: Lifetime is manual_lifetime.hpp, World and Task are
-- coroutine.hpp and task.hpp, Square is compiler_transform.cpp. `none` is undefined behaviour.
-- The coroutine f, which is declared there only, is a parameter, and `Behaves` says what is
-- relied on of it. To destroy a coroutine destroys the task that it holds, so `destroy_handle`
-- runs on fuel, the depth of this nesting; 2 is enough for g. Handle is the rest of `coroutine_handle`.
-- StopTokens is cpp/c++20/stop.cpp: its two threads, with the stop state and the callbacks on it. The
-- threads sleep for any time. Registry is the abstract stop state.
--
-- Shapes is cpp/c++_software_design/visitor, a module for each of its five programs. The
-- functions that draw are left open there and are a parameter. Square, which four of the programs
-- leave out as similar to Circle, is modelled so.
-- TypeErasure is cpp/c++_software_design/type_erasure: Virtual is te.hpp, FunctionPointers te_md.hpp,
-- SmallBuffer te_sbo.hpp, and Reference te_ref.hpp. Design says what the first two have in common,
-- and Values runs programs over it. The classes of shapes and drawers are parameters, and the
-- arguments of constructors are rvalues, so that a Shape owns what it holds; new gives an address
-- that was never used.
-- Statics.Singleton is cpp/c++_software_design/singleton/singleton.cpp, and Injected says what its clients are
-- promised; Statics.Magic is cpp/magic_static.cpp. The classes behind the interface are parameters, and one
-- thread runs.
-- TestResource is cppcon/allocator/pmr.cpp; the parent resource is a parameter.
-- BankAccount is coursework-review/eecs482/race_condition.cpp, run by a schedule of its two
-- threads.
--
-- Interleaving/Continuations has the rule by which a bound on the steps of a thread holds for every way in which
-- the system goes on; SpscQueue/WaitFree, MpmcQueue/Bound and ThreadPool/Lifecycle/Bound apply it.
-- In each concurrent component, Invariant and Steps say what holds between the steps, and that
-- each step keeps it; Linearizable draws the conclusions; Tests are concrete runs.
--
-- Not modelled: lockfree_stack_ref_count1.cpp of cpp/concurrency, whose nodes the library counts, as it does
-- those of MpmcQueue; cpp/cppcon/template/is_one_of.cpp, which the compiler runs.
pub mod Base
pub mod Interleaving
pub mod Chain
pub mod Containers
pub mod QueueNode
pub mod StackNode
pub mod SpscQueue
pub mod LockedQueue
pub mod LeakyStack
pub mod Shapes
pub mod Coroutine
pub mod ThreadPool
pub mod BankAccount
pub mod HazardStack
pub mod MpmcQueue
pub mod TypeErasure
pub mod TestResource
pub mod SplitStack
pub mod Statics
pub mod StopTokens
