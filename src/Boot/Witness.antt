-- ===== src/Boot/Witness.antt =====
-- kernel/main.c with a screen of two characters: a test, and the theorem there.
use neko_os_c.Prelude.{ℕ, none, some, get_or, [], ◌∷◌, false}
use neko_os_c.Alloc.{block}
use neko_os_c.Boot.{System, Program}
use neko_os_c.Console.{Console}
use neko_os_c.Font.{Font}
use neko_os_c.Sched.{Task, ready}

-- A font of the first format, 16 lines high.
abbrev font_bytes : ℕ → ℕ
font_bytes a = get_or (0x36 ∷ 0x04 ∷ 0 ∷ 16 ∷ []) a 0

abbrev blank_console : Console
blank_console = record {
  initialized = false;
  cursor_x = 0;
  cursor_y = 0;
  fg_color = 0;
  bg_color = 0;
  cols = 0;
  rows = 0;
  char_w = 0;
  char_h = 0;
  has_buffer = false;
  buffer = λ i. record { c = 0; fg = 0; bg = 0 };
  font = record { data_at = font_bytes; glyphs = none; width = 0; height = 0; glyph_size = 0 };
  fb = record { addr = 0x1000; width = 16; height = 16; pitch = 64; bpp = 32; bytes = λ a. 0 };
}

abbrev found_font : Font
found_font = record {
  data_at = font_bytes;
  glyphs = some 4;
  width = 8;
  height = 16;
  glyph_size = 16;
}

abbrev no_task : Task
no_task = record { rsp = 0; cr3 = 0; state = ready; id = 0; cpu_id = 0; next = 0 }

abbrev at_start : System
at_start = record {
  kernel = record {
    heap = record { start = 0; total = 0; headers = λ _. block 0 0 false; bytes = λ _. 0 };
    tasks = λ _. no_task;
    words = λ _. 0;
    next_task_id = 0;
  };
  queue = record { head = 0; tail = 0; locked = 0; count = 0 };
  cpus = λ _. record { current = 0; idle = 0 };
}

abbrev program : Program
program = record {
  symbols = record { task_trampoline = 0x200000; task_exit = 0x200100 };
  cr3 = 0x140000;
  idle_task = 0x200200;
  test_task = 0x200300;
}
