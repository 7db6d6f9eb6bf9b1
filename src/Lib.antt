-- ===== src/Lib.antt =====
-- Verification of the rSystemOS kernel.
--
-- The kernel is one 32-bit program on one processor: interrupt handlers (keyboard, mouse, timer) push
-- events into a queue, the main loop takes them out and hands them to the window manager and its
-- programs, threads share the processor, and a file system lives on a disk behind a storage thread.
-- Each part below is a function on its explicit state, named after the C function it models.
--
-- * Event (kernel/event.c): the event queue. Order: what the main loop gets to see.
-- * Keys, Keyboard (include/keyboard.h, drivers/keyboard.c): from scancodes to key events.
-- * Mouse (kernel/mouse.c): packets, the cursor's place and mouse events.
-- * Thread (kernel/thread.c): the table of threads and the scheduler. A call that switches the
--   context is split at the switch. Schedule and Turns are about
--   searches and switches, Steps about the calls, Halt about the CPU that an exit leaves with nothing
--   to run, Running about sequences of calls.
-- * Storage (kernel/storage_thread.c): the linked queue of disk requests.
-- * Heap (lib/heap.c): the allocator. Layout: the blocks in the region; Alloc and Restore: its calls.
-- * Fs (kernel/fs.c, include/fs.h): the file system. Name, Disk, Table, Entry, Content, Copy and
--   Paths hold its operations; Lookup is about finding a name, Stored, Region, Commits and
--   Reboot about the disk and the memory.
-- * Textbox, Editbuf (gui/textbox.c, gui/editbuf.c): the character grid and the editor's buffer. Text,
--   Lines, Typing and Render are about the document, its lines, its keys and its display.
-- * Lineedit, Listbox, Scrollbar, Rect (gui/lineedit.c, gui/listbox.c, gui/scrollbar.c, gui/rect.c,
--   gui/splitter.c): widgets, without their drawing.
-- * Calculator (gui/apps/calculator.c): the calculator's keys and display.
-- * Cc (kernel/cc.c): the compiler of the C subset. Lexer, Tree, Parser, Statements, Emit, Codegen and
--   Compile hold its operations; Image is the machine code of a tree; Progress, Total, Branches and
--   Terminates are about its fuel, Emits, Straight, Jumps and Generates about the bytes, Correct and
--   Program about the whole.
-- * Treeview (gui/treeview.c): the tree of folders, over Fs. Rows is about its walk.
-- * Menubar (gui/menubar.c): the menu bar. Hits is about the labels.
-- * Taskbar (gui/taskbar.c) and Wm (gui/wm.c, gui/window.c, gui/apps/program_manager.c,
--   gui/apps/info.c): the window manager. Frame, Windows, Layout, Launch, Clicks and Input hold its
--   operations, with the applications' callbacks as a parameter; Info puts the Info window's own in
--   their place. Ids, Valid, Invariant, Handlers and Moves are about the manager's pointers, Bounds,
--   Tiling, Restore and Drag about the windows' places.
-- * Str, Stdlib (lib/string.c, lib/stdlib.c): strings and numbers.
-- * Prelude (shared names, integers, arrays and strings) and Tests (the theorems at concrete inputs).
--
-- The C files are under src/. A C array is a list; a write out of range is dropped; the
-- well-formedness predicates say where the indices are. `int` is an integer that does not wrap,
-- save in `atoi`, where it has 32 bits; the heap's `unsigned int` wraps at 2 ^ 32. Loops are
-- recursions on the list or on a bound: the length of the text for `reverse`, the number itself
-- for `itoa`'s digits, the table's size for the scheduler's and the file system's searches, 128
-- steps for the chain of parent folders and a depth of 16 for a folder copy, as the code has
-- them. The walk of the folder tree has 128 levels, as each adds a row to a table of 128; the
-- compiler's loops and recursive descent have one step for each byte of the source and two more,
-- as each step takes a token.
--
-- Not modelled: the storage worker's loop, drawing, ports and interrupt set-up, which are machine
-- access; the painting of the desktop, wm_composite; the terminal, the file manager and
-- the other programs, which are larger parts of their own. What the compiled code does when the
-- processor runs it is not modelled.
pub mod Prelude
pub mod Keys
pub mod Event
pub mod Textbox
pub mod Editbuf
pub mod Heap
pub mod Fs
pub mod Str
pub mod Rect
pub mod Listbox
pub mod Thread
pub mod Storage
pub mod Keyboard
pub mod Mouse
pub mod Lineedit
pub mod Stdlib
pub mod Cc
pub mod Menubar
pub mod Treeview
pub mod Taskbar
pub mod Wm
pub mod Calculator
pub mod Scrollbar
pub mod Tests
