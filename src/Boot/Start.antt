-- ===== src/Boot/Start.antt =====
-- kernel/main.c: the heap, the console's buffer in it, and the tasks, from one function to the next.
use neko_os_c.Prelude.{ℕ, ◌+◌, ◌*◌, ◌/◌, ◌^◌, ◌≤◌, ◌<◌, ◌≡◌, ok, u32}
use neko_os_c.Alloc.{header_size, align8}
use neko_os_c.Boot.{System, sched_of}
use neko_os_c.Boot.Laid.{task_block, first_task}
use neko_os_c.Boot.Tasks.{Populated}
use neko_os_c.Boot.Loops.{Idling, addrs}
use neko_os_c.Console.{Console}
use neko_os_c.Font.{Font, font_init}
use neko_os_c.Sched.{max_cpus}
use neko_os_c.Sched.Queue.{IsQueue}

-- The number of bytes that console_init allocates, with the size that font_init finds.
abbrev pub cells_size : Console → Font → ℕ
cells_size k font = u32 (k.fb.width / font.width * (k.fb.height / font.height)) * 12

-- The run queue before the first task, and no task numbered yet.
pub record NoTasks (s : System) : Type 0 where
  pub head_null : s.queue.head ≡ 0
  pub tail_null : s.queue.tail ≡ 0
  pub none_queued : s.queue.count ≡ 0
  pub unlocked : s.queue.locked ≡ 0
  pub none_numbered : s.kernel.next_task_id ≡ 0

-- The heap has room for the console's buffer and 24 tasks, with a header each, and lies below 2 ^ 64.
pub record Enough (start size buffer : ℕ) : Type 0 where
  pub placed : 0 < start
  pub bounded : start + size + 8 ≤ 2 ^ 64
  pub holds : buffer + 2 * header_size + 24 * task_block + 8 ≤ size

-- The font that the console starts with can be drawn, and a character fits the screen.
pub record Drawable (k : Console) (font : Font) : Type 0 where
  pub found : font_init k.font ≡ ok font
  pub wide : 0 < font.width
  pub high : 0 < font.height
  pub some_cells : 0 < cells_size k font

abbrev pub buffer_size : Console → Font → ℕ
buffer_size k font = align8 (cells_size k font)

-- Behind the console's buffer stand 24 tasks as task_create makes them. Each processor has one of the
-- first 16 as its idle task, and runs none; the queue holds the other 8 in the order of their numbers.
pub record Ready (start buffer size cr3 : ℕ) (s : System) : Type 0 where
  pub tasks : Populated start buffer size cr3 24 s.kernel
  pub idle : Idling start buffer max_cpus s.cpus
  pub queue : IsQueue (sched_of s) (addrs 8 (first_task start buffer) 16)
