-- ===== src/Lightbox/Examples.antt =====
-- A gallery of three images.
use tkd_chb.Base.{◌<◌, arith}
use tkd_chb.Lightbox.{Viewer, open_viewer}
use tkd_chb.Lightbox.Laws.{key, twice, after, Reaches, done, then_event, Reaches-current_index}

abbrev last_image : Viewer
last_image = open_viewer 2

-- one image on, and then the zoom
abbrev run : Reaches 3 last_image (after 3 twice (after 3 (key "ArrowRight") last_image))
run = then_event twice (then_event (key "ArrowRight") done)

Reaches-current_index_example :
    (after 3 twice (after 3 (key "ArrowRight") last_image)).current_index < 3
unfolding open_viewer
Reaches-current_index_example =
    Reaches-current_index 3 last_image (after 3 twice (after 3 (key "ArrowRight") last_image))
      (omega arith) run
