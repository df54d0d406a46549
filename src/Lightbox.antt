-- ===== src/Lightbox.antt =====
-- AdvancedLightbox.jsx: the viewer of a gallery. Coordinates of the mouse and of the picture are
-- integers; `count` is `images.length`.
pub mod Laws
mod Examples
use tkd_chb.Base.{ℕ, ◌+◌, ◌-◌, ◌%◌, String, ◌==◌, Bool, true, false, not, ◌||◌, ◌&&◌, if◌then◌else◌}
use tkd_chb.Base.Int.{ℤ, pos, ◌-ℤ◌}

pub record Point : Type 0 where
  pub x : ℤ
  pub y : ℤ

pub record Viewer : Type 0 where
  pub current_index : ℕ
  pub is_dragging : Bool
  pub position : Point
  pub zoomed : Bool
  pub drag_start : Point
  pub closed : Bool

abbrev pub origin : Point
origin = record { x = pos 0; y = pos 0 }

unfoldable pub open_viewer : ℕ → Viewer
open_viewer initial = record {
  current_index = initial;
  is_dragging = false;
  position = origin;
  zoomed = false;
  drag_start = origin;
  closed = false;
}

-- resetZoom()
unfoldable pub reset_zoom : Viewer → Viewer
reset_zoom v = record v { zoomed = false; position = origin }

-- prevImage(); for no image `%` gives NaN, and here what it is given
unfoldable pub prev_image : ℕ → Viewer → Viewer
prev_image count v = reset_zoom (record v { current_index = (v.current_index + count - 1) % count })

unfoldable pub next_image : ℕ → Viewer → Viewer
next_image count v = reset_zoom (record v { current_index = (v.current_index + 1) % count })

abbrev close : Viewer → Viewer
close v = record v { closed = true }

-- handleKey(e)
unfoldable pub handle_key : ℕ → String → Viewer → Viewer
handle_key count key v =
    if key == "ArrowLeft"
    then prev_image count v
    else if key == "ArrowRight"
    then next_image count v
    else if key == "Escape"
    then close v
    else v

abbrev minus : Point → Point → Point
minus p q = record { x = p.x -ℤ q.x; y = p.y -ℤ q.y }

-- handleMouseDown(e), with the point of the mouse
unfoldable pub handle_mouse_down : Point → Viewer → Viewer
handle_mouse_down mouse v =
    if not v.zoomed then v else record v { is_dragging = true; drag_start = minus mouse v.position }

-- handleMouseMove(e)
unfoldable pub handle_mouse_move : Point → Viewer → Viewer
handle_mouse_move mouse v =
    if not v.is_dragging || not v.zoomed
    then v
    else record v { position = minus mouse v.drag_start }

-- handleMouseUp()
unfoldable pub handle_mouse_up : Viewer → Viewer
handle_mouse_up v = record v { is_dragging = false }

-- onDoubleClick
unfoldable pub double_click : Viewer → Viewer
double_click v = record v { zoomed = not v.zoomed }
