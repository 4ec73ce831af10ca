-- ===== src/Lib.antt =====
-- quick-cmake: the library skutils, a set of C++20 headers, and the command-line tools built on it.
--
-- The parts that are modelled, each in a module of its own with its theorems below it and its runs
-- and examples in a module Tests:
--   Str        include/skutils/string_utils.h: startWith, endWith, strip, _split and the four split,
--              isspace, contains, count (Str/Search), dirname, basename, basenameWithoutExt. A text
--              is a list of bytes, as std::string has them. The loops of _split and count have as
--              fuel one more than the length of the text, which is enough where each round takes at
--              least one byte.
--   Args       include/skutils/argparser.h: ArgParser. std::map is an association list in key order
--              (Args/Map). std::stoi and std::stod are the parameters of `Conversions`, without a
--              law on what they accept. What SK_ERROR writes to std::cerr is kept
--              as a list of messages. The loop of parse has as fuel the number of arguments and one;
--              each round takes at least one argument. parse calls Str's split and strip.
--   UnionFind  include/skutils/containers/unionfind_set.h, UnionFindSet<int>. find has as fuel the
--              number of elements; no chain of parents of a well-formed set is longer.
--   UnionFindMap  the same file, the template UnionFindSet<T, Less>, over any type and comparison.
--              find has as fuel one more than the number of entries of the map.
--   Graph      include/skutils/containers/graph.h, and the constructor of UnionFindSet<int> from a
--              graph, which calls UnionFind's connect for each edge.
--   ThreadPool include/skutils/threadpool.h: WorkQueue and ThreadPool. A pool is a record of where each
--              worker stands in doWork, the holder of mtx_, the queue and where the destructor
--              stands; each action that the code does atomically is an `Action`, and a run is a
--              list of them in any order. Waiting on the condition variable may end without a
--              notification. submit is two actions, its push and its notify_one.
--   TopK       include/skutils/containers/topk_queue.h: topk_queue and topbottomk_queue, over any type
--              and comparison; std::priority_queue is a list with its top in front.
--   Du         src/ducpp.cpp: du, du_pool and topN, which pushes on TopK's topbottomk_queue. The file
--              system is a tree that does not change while the tool runs and whose directories can be
--              read; a directory's iterator gives its entries in the order of the tree. size_t wraps at 2 ^ 64.
--   Heap       include/skutils/containers/heap.h: Heap, over any type and comparison. adjustDown and
--              adjustUp have as fuel one more than the number of values and than the index, enough
--              since the index doubles or halves from 1 on.
--   Process    include/skutils/process_executor.h: Process/Posix and Process/Windows. The operating
--              system is a parameter, a record of the calls on a state of any type; on Windows
--              ReadFile and WaitForSingleObject may never return. The loops that wait for a child
--              have as fuel a number of rounds that is shown to exist where the clock of the system
--              goes on, or where these calls return and the child writes finitely many bytes.
--   Printer    include/skutils/printer.h, the C++20 branch: toString on a data type of the cases that
--              its dispatch tells apart, and format, colorful_format, print, println and dump.
--   Random     include/skutils/random.h: RandomUtil, with the generator's integers as a parameter;
--              the strings, names and addresses call Printer's format.
--   Lc         include/skutils/containers/lc.h: vector2List, reverseList and listToString on a store of
--              nodes, and treeToString. The loops over a list have as fuel its length.
--   Combine    src/combine_files.cpp: collect_files, what combine_files writes, and the options of main,
--              which call Args and Printer. The file system is a tree that does not change while the
--              tool runs and whose directories can be read; the time and the working directory are
--              parameters. File names are those of POSIX.
--   SkipList   include/skutils/containers/skiplist.h: SkipList on a store of nodes, with the draws of
--              its levels as a parameter. The loop on a level has as fuel one more than node_num.
--   ModernTools  src/moderntools.cpp: the tools that main downloads and the links of their releases,
--              on Str, Printer and Args/Map, with the network as a parameter.
--   WhenAll    include/skutils/coroutine/task.h: when_all over a vector, as a step relation whose
--              steps are the atomic accesses to WhenAllState.
--   Await      include/skutils/coroutine/task.h, co_await of Task: the frames, promises and
--              continuations of the coroutines of one thread, and include/skutils/coroutine/
--              sync_await.h. The bodies are any bodies that share a state; a task is made where it is
--              awaited. A run has as fuel its number of steps.
--   EventBus   include/skutils/event_manager.h: the workers, the timer thread and Stop as actions that
--              interleave, where a worker in Pop goes on when its condition holds; timerQueue_ is
--              TopK's priority queue. EventBus/Handlers: Subscribe and Publish, each as one step.
--   EventLoop  include/skutils/coroutine/event_loop.h: EventLoop with one thread in run. post and stop
--              are steps that may come at any time, and the thread takes the wait's swap, the call of a
--              task and its pop as a step each; an access to running_ is one step.
--   Generator  include/skutils/coroutine/generator.h: promise_type, Iterator and begin, over any body
--              of the coroutine. A range-for has as fuel the number of values.
--   Ownership  the handles of Task<T>, Task<void> and Generator<T>: construction, moves, destruction.
--   Outcome    how a call ends: a value, an exception, undefined behaviour (an index out of range),
--              a call of the system that never returns, or fuel that ran out.
--   Prelude    lists over the native numbers, tests, signed integers.
--
-- Ints that the code uses as indices and counts are natural numbers, and are assumed to stay in
-- range; the weights and the arguments of addEdge are signed.
--
-- Not modelled: what only prints, reads the environment or calls the system (net_tools.h,
-- io_uring_async.h, which are calls of libcurl and of the kernel); std::regex (replace, trim); dbg.h,
-- which is a third-party header, and header_only/skutils.h, which is generated; the examples; the
-- C++17 branch of printer.h, which repeats the C++20 one; when_all of two tasks of different types;
-- the other tools under src/.
mod Prelude
pub mod Outcome
pub mod Str
pub mod Args
pub mod UnionFind
pub mod UnionFindMap
pub mod Graph
pub mod SkipList
pub mod ThreadPool
pub mod TopK
pub mod Du
pub mod Heap
pub mod Printer
pub mod Process
pub mod EventBus
pub mod EventLoop
pub mod Generator
pub mod ModernTools
pub mod Ownership
pub mod Random
pub mod Lc
pub mod Await
pub mod Combine
pub mod WhenAll
