-- ===== src/Tables/Examples.antt =====
-- A query of a coach for the students.
use tkd_chb.Tables.{Filters, no_filters, students_params}
use tkd_chb.Tables.Laws.{AsksStudents, students_params-Asks}

abbrev two_filters : Filters
two_filters = record no_filters {
  coach = "\u{67e}\u{627}\u{631}\u{633}";
  birth_from = "1380/01/01";
}

students_params-Asks_example : AsksStudents "both" two_filters (students_params "both" two_filters)
students_params-Asks_example = students_params-Asks "both" two_filters
