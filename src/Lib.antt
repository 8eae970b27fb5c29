-- ===== src/Lib.antt =====
-- ProcessMangerAlpha: a task manager for Windows with a viewer for PE files, a cleaner of build
-- files and a virus scan. This library models the handlers of its dialogs as functions, and proves
-- what they show and do.
--
-- The parts, and where they are. The sources are in ProcessMangerAlpha/, but for that of Server.
--   Base, Base/..           lists over the native numbers, Boolean tests, shared names
--   Text, Text/RoundTrip    CString.Format and _tcstol (C library), as functions on character codes
--   ListView, ListView/..   CListCtrl (MFC), an interface of operations and their documented effect,
--                           with the loops that fill a list and remove its marked rows; `listed` in
--                           ListView/Listed is an implementation of it
--   TreeView, TreeView/Noted
--                           CTreeCtrl (MFC), an interface of the same kind
--   Base/Buffers, Text/Hex  arrays of bytes with the copies into them, and the digits of an MD5
--   Pe/Globals              the globals of GlobalVals.h, and the handlers' monad
--   Pe/Image, Pe/Headers    the buffer `fileBuff`, and the offsets of the PE headers
--   Pe/Address              rvaTofoa and foaTorva of GlobalVals.cpp
--   Pe/FileDialog           CPEFileDialog.cpp
--   Pe/AddressCalc          CAddCalcDialog.cpp
--   Pe/Directories          CDirListDialog.cpp, CTLSTableDialog.cpp, CDelayLoadTableDialog.cpp
--   Pe/Exports, Pe/Imports, Pe/Relocations
--                           CExportTableDialog.cpp, CImportTableDialog.cpp, CRelocDialog.cpp
--   Pe/Resources            CResTableDialog.cpp: the loops, and in Pe/Resources/Dialog its handlers
--   Scan                    the walk through a folder, which the next three share
--   Scan/Cleaner, Scan/Files, Scan/Viruses
--                           CVSCleanerDialog.cpp, CFilesDialog.cpp, CByPathKillingDialog.cpp and
--                           CAllKillingDialog.cpp; Scan/Deleting is their delete button,
--                           Scan/Viruses/Loading how the scans read TheVirus.txt,
--                           Scan/Viruses/Threads the three threads of the scan of all disks,
--                           Scan/Viruses/WholeFolder where the scan of a folder puts its
--                           rows, Scan/Viruses/Stopped its thread, as calls on the list, and
--                           Scan/Viruses/Reopened what a dialog that is opened again starts from
--   Tasks                   ProcessMangerAlphaDlg.cpp (the list of processes in Tasks/Processes, the
--                           paths in Tasks/Paths, the hot key, menu and memory in Tasks/Window, the
--                           timers in Tasks/StatusBar, the load of the CPU in Tasks/CpuLoad, the
--                           start in Tasks/SetUp), CThreadsDialog.cpp,
--                           CHeapDialog.cpp, CModulesDialog.cpp, CWindowsDialog.cpp,
--                           CBlacklistDialog.cpp
--   Services                CServListDialog.cpp
--   Registry                CStartUpDialog.cpp, CSoftwareUninstallDialog.cpp
--   Crypto                  EnDeCrypt.cpp
--   Client                  CVirusDefenceDialog.cpp: its two messages; Client/Dialog its set-up and
--                           the buttons that open a dialog
--   Server                  TheVirusServer/TheVirusServer.cpp: a round of its loop; Server/StartUp what
--                           comes before the loop, Server/Library what the rounds do to the library
--   Tests                   runs on concrete inputs
--
-- How they interact. The PE dialogs share one buffer and the name of the last section that a
-- conversion met: both are in Globals, and each handler is an Action over them. Every table dialog
-- goes through rvaTofoa. A dialog with two lists reads an address back from the text of the first
-- list, so the round trips of Text/RoundTrip join the two. The scans share the walk and differ in
-- what they do for a file. The client and the server exchange the messages of MYMSG: in
-- Client/Session a message that the client sends is what a round of the server receives, and what
-- the server sends is what the client receives; Client/Detection goes on to the scans, which read
-- the file that the client writes. A handler has the name of its function in snake case; a button's
-- handler is named for what it does, with its function in the comment above it. Undefined
-- behaviour (a read outside the buffer, a null pointer, the end of a function without a return) is
-- `none`.
--
-- Bounds and fuel. A DWORD is a number below 2 ^ 32, and its sums and differences wrap (add_dword,
-- sub_dword). The loops that end at an empty entry (imports, thunks, relocation blocks) take fuel;
-- one more than the number of entries is enough. The rounds of imports and thunks go forward in the
-- file, so that more fuel than it has bytes is enough for them; the relocation blocks are as long as
-- the file says, and may lead back. The loop that splits the postfixes takes the
-- length of its text, which is enough since each round takes a character away.
--
-- What is not modelled. The system's answers (snapshots, registry, service manager, file contents,
-- drives and devices, clicks) are arguments. MySQL is a parameter (Database in Server), with the
-- effect of an INSERT as a hypothesis that leaves the order of the rows open (Inserts in
-- Server/Library); so is OpenSSL (OpenSsl in Crypto, RsaLib in Crypto/Rsa), with what it documents
-- of the cipher as a hypothesis (IsEcb in Crypto/Des). What a call of recv delivers of the stream
-- is an argument; a message is taken to come in one piece, and Server/Coalesced has several of them
-- come together. Floating point numbers are a parameter (Floats in Tasks/CpuLoad), with what IEEE
-- 754 says of whole numbers as a hypothesis (IsExact). A thread that fills a list is the sequence
-- of its calls on the list, and terminating it stops the sequence (ListView/Edits,
-- Scan/Viruses/Threads); what it reads and writes of a shared number are steps of their own. The
-- frame of the application, the painting, fonts and menus drawn, and the MySQL headers, which are a
-- copy of another project's, are left out.
pub mod Base
pub mod Text
pub mod ListView
pub mod TreeView
pub mod Pe
pub mod Scan
pub mod Tasks
pub mod Services
pub mod Registry
pub mod Server
pub mod Crypto
pub mod Client
pub mod Tests
