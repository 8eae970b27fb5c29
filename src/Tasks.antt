-- ===== src/Tasks.antt =====
-- The dialogs that show what runs: the list of processes, the threads, the heap and the modules of a
-- process, the windows, and the blacklist of processes. What the system reports (a ToolHelp snapshot,
-- EnumWindows) is a list of entries here, in the order in which they are reported. `g_ProcID` and
-- `g_ThreadID` are texts that the list of processes and the list of threads set.
pub mod Threads
pub mod Heap
pub mod Modules
pub mod Blacklist
pub mod Processes
pub mod Paths
pub mod Window
pub mod StatusBar
pub mod CpuLoad
pub mod SetUp
