-- ===== src/Editbuf/Render.antt =====
-- `editbuf_render` of gui/editbuf.c: the viewport and the grid.
use kernel_basic.Textbox.{Textbox}
use kernel_basic.Textbox.Invariant
use kernel_basic.Editbuf.{Editbuf}
