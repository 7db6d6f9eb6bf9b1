-- ===== src/Event.antt =====
-- kernel/event.c and include/event.h: the queue between the interrupt handlers and the main loop.
pub mod Order
use kernel_basic.Prelude.{
  ℕ, ◌+◌, ◌-◌, ◌%◌, List, [], ◌∷◌, Option, none, some, leb, ◌==◌, if◌then◌else◌, get_or, set,
  replicate,
}
use kernel_basic.Prelude.Int.{ℤ, pos}

-- `event_type_t`
pub data EventType : Type 0 where
  none_event key_down key_up mouse_move mouse_down mouse_up timer_tick : EventType

-- `event_st`
pub record Event : Type 0 where
  pub kind : EventType
  pub a : ℤ
  pub b : ℤ

abbrev pub event_queue_size : ℕ
event_queue_size = 32

-- The file's static variables.
pub record EventQueue : Type 0 where
  pub queue : List Event
  pub head : ℕ
  pub tail : ℕ
  pub q_count : ℕ

abbrev pub no_event : Event
no_event = record { kind = none_event; a = pos 0; b = pos 0 }

-- The state that the loader leaves: zeroed memory.
abbrev pub boot_queue : EventQueue
boot_queue = record { queue = replicate event_queue_size no_event; head = 0; tail = 0; q_count = 0 }

unfoldable pub event_init : EventQueue → EventQueue
event_init q = record q { head = 0; tail = 0; q_count = 0 }

unfoldable pub event_push : EventType → ℤ → ℤ → EventQueue → EventQueue
event_push kind a b q = if leb event_queue_size q.q_count then q else record q {
  queue = set q.queue q.head (record { kind = kind; a = a; b = b });
  head = (q.head + 1) % event_queue_size;
  q_count = q.q_count + 1;
}

-- One look at the queue by `event_wait`: `none` while it is empty, and the caller halts until the
-- next interrupt.
unfoldable pub event_wait : EventQueue → Option (Event × EventQueue)
event_wait q =
    if q.q_count == 0
    then none
    else some (
      get_or q.queue q.tail no_event,
      record q { tail = (q.tail + 1) % event_queue_size; q_count = q.q_count - 1 },
    )
