-- ===== src/Klog/Witness.antt =====
-- lib/klogf.c: a line on a port that is ready at every read, and on a console of two rows.
use neko_os_c.Prelude.{ℕ, ◌≡◌, refl, none, true, [], ◌∷◌, ◌++◌, ok, arith}
use neko_os_c.Serial.{Uart}
use neko_os_c.Serial.Sent.{Responsive, sent}
use neko_os_c.Console.{Console}
use neko_os_c.Console.Grid.{IsGrid}
use neko_os_c.Klog.{Log, klog, tag, log_warn}
use neko_os_c.Klog.Logged.{Shown, klog-Shown}

abbrev console : Console
console = record {
  initialized = true;
  cursor_x = 0;
  cursor_y = 1;
  fg_color = 0xFFFFFF;
  bg_color = 0;
  cols = 40;
  rows = 2;
  char_w = 8;
  char_h = 16;
  has_buffer = true;
  buffer = λ i. record { c = 32; fg = 0xFFFFFF; bg = 0 };
  font = record { data_at = λ a. 0; glyphs = none; width = 8; height = 16; glyph_size = 16 };
  fb = record { addr = 0x1000; width = 320; height = 32; pitch = 1280; bpp = 32; bytes = λ a. 0 };
}

console-IsGrid : IsGrid console
console-IsGrid = record {
  in_row = omega arith;
  in_column = omega arith;
  size_fits = omega arith;
  rows_fit = omega arith;
  cols_fit = omega arith;
  allocated = refl;
}

abbrev port : Uart
port = record { status = λ n. 0x60; reads = 0; writes = [] }

port-Responsive : Responsive 1 port
port-Responsive n = (0, (omega arith, refl))

abbrev log : Log
log = record { uart = port; console = console; locked = 0 }

klog-Shown_example :
    (m : ℕ) × ((k' : Console) × ((klog 1 (λ a. 0) log_warn (104 ∷ 105 ∷ []) [] log
          ≡ ok (record {
            uart = record port {
              reads = m;
              writes = sent (tag log_warn ++ ((104 ∷ 105 ∷ []) ++ (10 ∷ []))) [];
            };
            console = k';
            locked = 0;
          }))
        × (IsGrid k' × Shown log_warn (104 ∷ 105 ∷ []) console k')))
klog-Shown_example =
    klog-Shown 1 (λ a. 0) log_warn (104 ∷ 105 ∷ []) [] (104 ∷ 105 ∷ []) log refl port-Responsive
      refl refl console-IsGrid
