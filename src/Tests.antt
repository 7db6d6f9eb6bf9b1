-- ===== src/Tests.antt =====
-- The theorems at concrete inputs: small states of each component.
mod Compiler
mod Windows
use kernel_basic.Prelude.{
  ℕ, ◌+◌, ◌-◌, ◌%◌, ◌≤◌, ◌<◌, ◌≡◌, zero, suc, ap, ◌↔◌, ◌⊎◌, refl, true, false, List, [], ◌∷◌, ◌++◌,
  none, some, arith, length, get_or, replicate, ltb, leb, ◌&&◌, ◌||◌, if◌then◌else◌, drop,
}
use kernel_basic.Prelude.Int.{pos}
use kernel_basic.Prelude.Bytes.{c_text}
use kernel_basic.Keys.{key_up}
use kernel_basic.Event.{boot_queue, EventType.key_down as down_event, EventType.key_up as up_event}
use kernel_basic.Event.Order
use kernel_basic.Treeview.{Treeview, treeview_init, treeview_rebuild}
use kernel_basic.Treeview.Rows
use kernel_basic.Fs.Disk.{
  Fs, Super, no_entry, fs_format, fs_magic, fs_version, fs_data_lba, fs_type_folder, fs_type_file,
  fs_root, fs_max_entries,
}
use kernel_basic.Fs.Stored.{IsStored, AllInRegion, fs_format-IsStored}
use kernel_basic.Fs.Reboot.{
  Call, create, delete, write_file, reboot, perform_all, reboot-perform_all,
}
use kernel_basic.Fs.Name.{fs_set_name, fs_name_len, text-fs_set_name}
use kernel_basic.Heap.{heap_init, kmalloc, kfree, finish, first_fit, align4}
use kernel_basic.Heap.Alloc.{
  Allocated, TooSmall, kmalloc-Allocated, kmalloc_wraps, heap_init-IsValid,
}
use kernel_basic.Heap.Restore.{kfree-kmalloc, kfree-IsValid}
use kernel_basic.Heap.Layout
use kernel_basic.Editbuf.{Editbuf, editbuf_key, line_start, line_end, eb_up, eb_down, no_goal}
use kernel_basic.Editbuf.Text
use kernel_basic.Editbuf.Lines
use kernel_basic.Editbuf.Typing
use kernel_basic.Editbuf.Render
use kernel_basic.Textbox.{Textbox, textbox_clear, textbox_puts, textbox_scroll}
use kernel_basic.Textbox.Invariant
use kernel_basic.Thread.{
  Sched, boot, thread_init, thread_create, thread_exit, exit_to, ready_loop, switch_to, create_in,
  place, set_up, find_free_slot, free_loop, preempt_disable, preempt_enable, pick_next,
  thread_block, thread_wake, is_running, is_ready, state_of, max_threads, zero_thread,
}
use kernel_basic.Thread.Schedule
use kernel_basic.Thread.Turns
use kernel_basic.Thread.Running
use kernel_basic.Thread.Halt
use kernel_basic.Keyboard.{keyboard_irq_handler, key_mod_shift, key_mod_ctrl, key_mod_alt, Keyboard}
use kernel_basic.Keyboard.Keystrokes
use kernel_basic.Lineedit.{Lineedit, lineedit_key}
use kernel_basic.Lineedit.Typed
use kernel_basic.Calculator.{Calculator, calculator_on_init, calc_append_digit, cleared}
use kernel_basic.Calculator.Display
use kernel_basic.Scrollbar.{Scrollbar, scrollbar_drag_to}
use kernel_basic.Scrollbar.Drag
use kernel_basic.Stdlib.{atoi}
use kernel_basic.Stdlib.Decimal
use kernel_basic.Str.{strcmp, strcpy, reverse, strlen}
use kernel_basic.Str.Laws
use kernel_basic.Fs.Disk.{entry}
use kernel_basic.Fs.Table.{fs_find}
use kernel_basic.Fs.Lookup
use kernel_basic.Storage.{Queue, enqueue, dequeue}
use kernel_basic.Storage.Requests
use kernel_basic.Mouse.{Mouse, mouse_irq_handler}
use kernel_basic.Mouse.Cursor
use kernel_basic.Listbox.{
  Listbox, listbox_range_select, listbox_ensure_visible, listbox_visible_rows, listbox_max_rows,
}
use kernel_basic.Listbox.Selection

boot_queue-IsValid : Order.IsValid boot_queue
boot_queue-IsValid = record {
  storage = refl;
  tail_in = omega arith;
  count_in = omega arith;
  head_at = refl;
}

abbrev some_ops : List Order.Op
some_ops = Order.wait ∷ Order.push down_event (pos 65) (pos 0) ∷ Order.wait ∷ []

run_refines_example :
    Order.run boot_queue some_ops ≡ Order.fifo_run (Order.contents boot_queue) some_ops
run_refines_example = Order.run_refines some_ops boot_queue boot_queue-IsValid

abbrev fresh_super : Super
fresh_super = record {
  magic = fs_magic;
  version = fs_version;
  next_free = fs_data_lba;
  reserved = 0;
}

abbrev fresh_fs : Fs
fresh_fs = record {
  super = fresh_super;
  table = replicate fs_max_entries no_entry;
  disk = record {
    super_sector = fresh_super;
    table_sectors = replicate fs_max_entries no_entry;
    sectors = λ k. [];
  };
}

-- The file system after a format.
abbrev formatted : Fs
formatted = fs_format fresh_fs

formatted-IsStored : IsStored formatted
formatted-IsStored = fs_format-IsStored fresh_fs refl

-- A folder is made, a file in it is written, and the folder's removal is refused.
abbrev fs_calls : List Call
fs_calls =
    create fs_root (97 ∷ 0 ∷ []) fs_type_folder 7
    ∷ create (pos 0) (98 ∷ 0 ∷ []) fs_type_file 8
    ∷ write_file 1 (1 ∷ 2 ∷ 3 ∷ []) 3 9
    ∷ delete 0
    ∷ []

reboot_example :
    (reboot fresh_super [] (perform_all formatted fs_calls) ≡ perform_all formatted fs_calls)
    × AllInRegion (perform_all formatted fs_calls).table
    × ((perform_all formatted fs_calls).disk.sectors 4098 ≡ formatted.disk.sectors 4098)
reboot_example = reboot-perform_all fs_calls formatted fresh_super [] 4098 formatted-IsStored refl

text-fs_set_name_example :
    c_text (fs_set_name (replicate 100 0) (97 ∷ 98 ∷ 0 ∷ [])) ≡ c_text (97 ∷ 98 ∷ 0 ∷ [])
unfolding fs_name_len
text-fs_set_name_example = text-fs_set_name (replicate 100 0) (97 ∷ 98 ∷ 0 ∷ []) refl (omega arith)

kmalloc_example : Allocated 10 heap_init (kmalloc 10 heap_init)
kmalloc_example = kmalloc-Allocated 10 heap_init heap_init-IsValid (omega arith) (omega arith)

kmalloc_wraps_example : TooSmall 0xFFFFFFFF heap_init (kmalloc 0xFFFFFFFF heap_init)
kmalloc_wraps_example =
    kmalloc_wraps 0xFFFFFFFF heap_init heap_init-IsValid (omega arith) (omega arith)

kfree-kmalloc_example : kfree 3145740 (kmalloc 10 heap_init).1 ≡ some heap_init
unfolding kmalloc heap_init finish first_fit align4
kfree-kmalloc_example =
    kfree-kmalloc 10 heap_init {p = 3145740} {h' = (kmalloc 10 heap_init).1} heap_init-IsValid
      (omega arith) refl

kfree-IsValid_example : Layout.IsValid heap_init
unfolding kfree
kfree-IsValid_example = kfree-IsValid {h = heap_init} {h' = heap_init} 0 heap_init-IsValid refl

-- "a", a line break and "b", with the cursor at the end.
abbrev two_lines : Editbuf
two_lines = record {
  bytes = 97 ∷ 10 ∷ 98 ∷ 0 ∷ [];
  len = 3;
  cap = 4;
  cursor = 3;
  goal_col = no_goal;
  top_line = 0;
  dirty = false;
}

two_lines-IsValid : Text.IsValid two_lines
two_lines-IsValid = record { storage = refl; len_in = omega arith; cursor_in = omega arith }

text-editbuf_key_example :
    Text.text (editbuf_key two_lines 99).0 ≡ Typing.edit 4 99 (Text.text two_lines) 3
text-editbuf_key_example = Typing.text-editbuf_key two_lines 99 two_lines-IsValid

editbuf_key-IsValid_example : Text.IsValid (editbuf_key two_lines key_up).0
editbuf_key-IsValid_example = Typing.editbuf_key-IsValid {eb = two_lines} key_up two_lines-IsValid

eb_down-eb_up_example : (eb_down (eb_up two_lines)).cursor ≡ 3
unfolding line_start
eb_down-eb_up_example = Lines.eb_down-eb_up two_lines two_lines-IsValid refl (λ e. ground arith)

-- Two rows of two characters.
abbrev small_box : Textbox
small_box = record {
  cols = 2;
  rows = 2;
  stride = 3;
  cells = replicate 6 7;
  cursor_row = 0;
  cursor_col = 0;
}

small_box-IsValid : Invariant.IsValid (textbox_clear small_box)
small_box-IsValid = Invariant.textbox_clear-IsValid small_box (omega arith) (omega arith) refl refl

textbox_puts_example :
    Invariant.IsValid (textbox_puts (textbox_clear small_box) (97 ∷ 98 ∷ 99 ∷ 0 ∷ []))
textbox_puts_example =
    Invariant.textbox_puts-IsValid (97 ∷ 98 ∷ 99 ∷ 0 ∷ []) {tb = textbox_clear small_box}
      small_box-IsValid

abbrev booted_sched : Sched
booted_sched = thread_init 100 (boot heap_init)

booted-IsValid : Schedule.IsValid booted_sched
booted-IsValid = Running.boot-IsValid heap_init 100

-- A second thread is made, and the first one exits; the second exits too, and a tick comes.
abbrev exited_sched : Sched
exited_sched = Running.perform Running.tick (
    Running.perform Running.exit
      (Running.perform Running.exit (Running.perform (Running.create 200 64) booted_sched)))

reaches_example : Halt.IsConsistent exited_sched
unfolding Running.perform thread_init boot thread_create thread_exit exit_to pick_next ready_loop
    switch_to create_in place set_up find_free_slot free_loop kmalloc heap_init finish first_fit
    align4 preempt_disable preempt_enable
reaches_example = Running.Reaches-IsConsistent heap_init 100 exited_sched (
    Running.called Running.tick refl (
      Running.called Running.exit refl (
        Running.called Running.exit refl
          (Running.called (Running.create 200 64) refl Running.booted))))

pick_next_example :
    ((t : ℕ) × (d : ℕ) × (pick_next booted_sched ≡ some t)
      × Schedule.IsFirstReady booted_sched.threads booted_sched.current 1 max_threads t d)
    ⊎ (((e : ℕ)
          → 1 ≤ e
          → e ≤ max_threads
          → is_ready (state_of booted_sched ((booted_sched.current + e) % max_threads)) ≡ false)
        × (pick_next booted_sched ≡ (
            if is_running (state_of booted_sched booted_sched.current)
            then some booted_sched.current
            else none)))
pick_next_example = Turns.pick_next-turns booted_sched

thread_block-wake_example :
    let r = thread_block (thread_wake booted_sched booted_sched.current) in
    (r.1 ≡ true)
    × (is_running (state_of r.0 booted_sched.current) ≡ true)
    × (r.0.current ≡ booted_sched.current)
    × ((get_or r.0.threads booted_sched.current zero_thread).wake_pending ≡ false)
thread_block-wake_example = Running.thread_block-wake booted_sched booted-IsValid

-- Nothing held, and no prefix pending.
abbrev idle_keys : Keyboard
idle_keys = record { mods = 0; extended = false }

shift_tracks_example :
    let m = (keyboard_irq_handler 0x2A idle_keys boot_queue).0.mods in
    let n = (keyboard_irq_handler 0xAA idle_keys boot_queue).0.mods in
    (Keystrokes.holds m key_mod_shift ≡ true)
    × (Keystrokes.holds n key_mod_shift ≡ false)
    × (Keystrokes.holds m key_mod_ctrl ≡ false)
    × (Keystrokes.holds n key_mod_ctrl ≡ false)
    × (Keystrokes.holds m key_mod_alt ≡ false)
    × (Keystrokes.holds n key_mod_alt ≡ false)
    × (m < 8)
    × (n < 8)
shift_tracks_example = Keystrokes.shift_tracks idle_keys boot_queue (omega arith) refl

-- A field that holds "a".
abbrev one_letter : Lineedit
one_letter = record { text = 97 ∷ replicate 47 0; len = 1; active = true; prompt = 0 }

lineedit_key_example : Typed.Follows one_letter 8 (lineedit_key one_letter 8)
lineedit_key_example =
    Typed.lineedit_key_lem one_letter 8 (record { storage = refl; room = omega arith; ends = refl })

-- The result 12 on the display.
abbrev twelve : Calculator
twelve = record {
  display = 49 ∷ 50 ∷ replicate 14 0;
  display_len = 2;
  acc = pos 12;
  pending_op = 0;
  entry_active = false;
}

calc_append_digit_example :
    let r = calc_append_digit twelve 55 in
    Display.IsValid r
    × (r.entry_active ≡ true)
    × (c_text r.display ≡ (
        if ltb (length (Display.before twelve)) 15
        then Display.before twelve ++ (55 ∷ [])
        else Display.before twelve))
calc_append_digit_example =
    Display.calc_append_digit_lem twelve 55
      (record { storage = refl; room = omega arith; ends = refl }) (omega arith)

abbrev bar : Scrollbar
bar = record {
  rect = record { x = pos 0; y = pos 0; w = pos 8; h = pos 100 };
  total = pos 50;
  visible = pos 10;
  position = pos 0;
  dragging = true;
}

scrollbar_drag_to_example : Drag.InRange (scrollbar_drag_to bar (pos 60))
scrollbar_drag_to_example = Drag.scrollbar_drag_to-InRange bar (pos 60)

atoi_example : atoi ((52 ∷ 50 ∷ []) ++ (0 ∷ 57 ∷ [])) ≡ pos (Decimal.value 0 (52 ∷ 50 ∷ []))
atoi_example = Decimal.atoi-value (52 ∷ 50 ∷ []) (57 ∷ []) refl (omega arith)

reverse_example :
    (length (reverse (97 ∷ 98 ∷ 0 ∷ [])) ≡ 3)
    × (get_or (reverse (97 ∷ 98 ∷ 0 ∷ [])) 0 0 ≡ (
        if ltb 0 (strlen (97 ∷ 98 ∷ 0 ∷ []))
        then get_or (97 ∷ 98 ∷ 0 ∷ []) (strlen (97 ∷ 98 ∷ 0 ∷ []) - 1 - 0) 0
        else 97))
reverse_example = Laws.reverse_mirrors (97 ∷ 98 ∷ 0 ∷ []) 0

text-strcpy_example :
    c_text (strcpy (49 ∷ 50 ∷ 51 ∷ 0 ∷ []) (69 ∷ 0 ∷ []))
    ≡ c_text (69 ∷ 0 ∷ []) ++ c_text (drop (strlen (69 ∷ 0 ∷ [])) (49 ∷ 50 ∷ 51 ∷ 0 ∷ []))
unfolding strlen
text-strcpy_example = Laws.text-strcpy (49 ∷ 50 ∷ 51 ∷ 0 ∷ []) (69 ∷ 0 ∷ []) (omega arith)

-- Five rows, the third one the anchor.
abbrev five_rows : Listbox
five_rows = record {
  rect = record { x = pos 0; y = pos 0; w = pos 80; h = pos 16 };
  count = 5;
  top = 0;
  selected = replicate listbox_max_rows 0;
  anchor_row = pos 2;
}

five_rows-IsValid : Selection.IsValid five_rows
five_rows-IsValid = record { storage = refl; count_in = omega arith; anchor_in = omega arith }

range_select_example :
    (Selection.is_selected (listbox_range_select five_rows (pos 4)) 3
      ≡ (leb 2 3 && leb 3 4 || leb 4 3 && leb 3 2))
    × ((listbox_range_select five_rows (pos 4)).anchor_row ≡ pos 2)
range_select_example =
    Selection.range_select_exact five_rows 2 4 3 five_rows-IsValid refl (omega arith) (omega arith)

-- The last byte of a packet is due.
abbrev third_byte : Mouse
third_byte = record {
  mouse_x = pos 1;
  mouse_y = pos 479;
  packet = 0x18 ∷ 200 ∷ 0 ∷ [];
  packet_index = 2;
  last_buttons = 0;
}

mouse_irq_handler_example : Cursor.IsValid (mouse_irq_handler 5 third_byte boot_queue).0
mouse_irq_handler_example = Cursor.mouse_irq_handler-IsValid 5 third_byte boot_queue (record {
  x_in = (omega arith, omega arith);
  y_in = (omega arith, omega arith);
  storage = refl;
  index_in = omega arith;
})

abbrev no_requests : Queue
no_requests = record { next = λ k. 0; queue_head = 0; queue_tail = 0 }

enqueue_example : Requests.Holds (enqueue 5 no_requests) (5 ∷ [])
enqueue_example =
    Requests.enqueue-Holds no_requests [] 5 (record { chain = refl; tail_is = refl }) tt
      (λ e. omega (arith, e))

abbrev one_request : Queue
one_request = record { next = λ k. 0; queue_head = 5; queue_tail = 5 }

dequeue_example : Requests.Dequeued (5 ∷ []) (dequeue one_request)
dequeue_example =
    Requests.dequeue-Dequeued one_request (5 ∷ [])
      (record { chain = (refl, (λ e. omega (arith, e)), tt, refl); tail_is = refl })

fs_find_example :
    ((id : ℕ) × (fs_find fresh_fs fs_root (97 ∷ 0 ∷ []) ≡ some id)
      × (id < length fresh_fs.table)
      × Lookup.IsNamed fs_root (97 ∷ 0 ∷ []) (entry fresh_fs id)
      × ((k : ℕ) → k < id → ¬ Lookup.IsNamed fs_root (97 ∷ 0 ∷ []) (entry fresh_fs k)))
    ⊎ ((fs_find fresh_fs fs_root (97 ∷ 0 ∷ []) ≡ none)
        × ((k : ℕ)
            → k < length fresh_fs.table
            → ¬ Lookup.IsNamed fs_root (97 ∷ 0 ∷ []) (entry fresh_fs k)))
fs_find_example = Lookup.fs_find_lem fresh_fs fs_root (97 ∷ 0 ∷ [])

abbrev folders_view : Treeview
folders_view = treeview_init (record { x = pos 0; y = pos 0; w = pos 100; h = pos 80 })

treeview_rebuild_example : Rows.IsView fresh_fs (treeview_rebuild fresh_fs folders_view)
treeview_rebuild_example = Rows.treeview_rebuild-IsView fresh_fs folders_view
