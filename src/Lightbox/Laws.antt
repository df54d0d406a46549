-- ===== src/Lightbox/Laws.antt =====
-- The viewer never leaves its gallery.
use native.Mathlib.Nat.{mod-lt}
use tkd_chb.Base.{◌≡◌, ℕ, ◌+◌, ◌-◌, ◌%◌, ◌<◌, String, arith}
use tkd_chb.Lightbox.{
  Point, Viewer, reset_zoom, prev_image, next_image, handle_key, handle_mouse_down,
  handle_mouse_move, handle_mouse_up, double_click,
}

-- One event of the viewer.
pub data Event : Type 0 where
  key : String → Event
  press_left press_right mouse_up twice : Event
  mouse_down mouse_move : Point → Event

abbrev pub after : ℕ → Event → Viewer → Viewer
after count (key k) v = handle_key count k v
after count press_left v = prev_image count v
after count press_right v = next_image count v
after count mouse_up v = handle_mouse_up v
after count twice v = double_click v
after count (mouse_down p) v = handle_mouse_down p v
after count (mouse_move p) v = handle_mouse_move p v

pub data Reaches (count : ℕ) (v : Viewer) : Viewer → Type 0 where
  done : Reaches count v v
  then_event : {u : Viewer} (e : Event) → Reaches count v u → Reaches count v (after count e u)

after-current_index :
    (count : ℕ) (e : Event) (v : Viewer)
    → v.current_index < count
    → (after count e v).current_index < count
unfolding handle_key prev_image next_image reset_zoom handle_mouse_up double_click handle_mouse_down
    handle_mouse_move
after-current_index count (key k) v h = ground (
  arith,
  mod-lt (v.current_index + count - 1) {m = count} (omega arith),
  mod-lt (v.current_index + 1) {m = count} (omega arith),
)
after-current_index count press_left v h = mod-lt (v.current_index + count - 1) (omega arith)
after-current_index count press_right v h = mod-lt (v.current_index + 1) (omega arith)
after-current_index count mouse_up v h = h
after-current_index count twice v h = h
after-current_index count (mouse_down p) v h = ground arith
after-current_index count (mouse_move p) v h = ground arith

-- From an image of the gallery, whatever the keys and the mouse do, the viewer shows an image of
-- the gallery.
pub Reaches-current_index :
    (count : ℕ) (v u : Viewer)
    → v.current_index < count
    → Reaches count v u
    → u.current_index < count
Reaches-current_index count v u h done = h
Reaches-current_index count v u h (then_event {u = u'} e run) =
    after-current_index count e u' (Reaches-current_index count v u' h run)

-- Going on and back, or back and on, ends at the image where it began.
pub prev_image-next_image :
    (count : ℕ) (v : Viewer)
    → v.current_index < count
    → ((prev_image count (next_image count v)).current_index ≡ v.current_index)
      × ((next_image count (prev_image count v)).current_index ≡ v.current_index)
unfolding prev_image next_image reset_zoom
prev_image-next_image count v h = (back v.current_index h, on v.current_index h)
  where
    back : (i : ℕ) → i < count → ((i + 1) % count + count - 1) % count ≡ i
    back i h = grind arith

    on : (i : ℕ) → i < count → ((i + count - 1) % count + 1) % count ≡ i
    on i h = grind arith
