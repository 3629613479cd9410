-- ===== src/Home/Tests.antt =====
-- A stored home with a list of things to do, whose place is too wide for the grid, and a home with the
-- default widgets.
use my_note_book.Base.{
  ℕ, ◌≤◌, nat_eq, pos, String, none, some, [], ◌∷◌, length, if◌then◌else◌, distinct_onto, add, has,
  leb_int, ◌+ℤ◌, ◌≡◌, refl,
}
use my_note_book.Home.Values.{
  whole, infinite, Value, number, string, array, object, nothing, empty_array, value_and,
  empty_object, field_and, field, Fields,
}
use my_note_book.Home.Widgets.{
  InformationHomePayload, create_widget, create_default_information_home_payload,
}
use my_note_book.Home.Normalize.{
  normalize_information_home_payload, normalize_widgets, normalize_widget, widget_type_of, own_id,
  widget_of,
}
use my_note_book.Home.Validate.{
  check_widgets, check_widget, check_layout, check_position, ids_of_widgets,
  validate_information_home_payload,
}
use my_note_book.Home.Normal.{validate-normalize}
use my_note_book.Home.Sound.{IsSoundPayload, validate_information_home_payload-IsSoundPayload}

abbrev new_id : ℕ → String
new_id n =
    if nat_eq n 0
    then "a"
    else if nat_eq n 1
    then "b"
    else if nat_eq n 2
    then "c"
    else if nat_eq n 3
    then "d"
    else "e"

abbrev wide : Fields
wide = field_and "w" (number (whole (pos 40))) (field_and "x" (number infinite) empty_object)

abbrev a_todo_list : Value
a_todo_list = object (
    field_and "widgetType" (string "todo-list")
      (field_and "layout" (object (field_and "desktop" (object wide) empty_object)) empty_object))

abbrev stored : Value
stored = object (
    field_and "layoutVersion" (number (whole (pos 1))) (
      field_and "widgets" (array (value_and nothing (value_and a_todo_list empty_array)))
        empty_object))

abbrev read_home : InformationHomePayload
read_home = normalize_information_home_payload new_id stored

validate-normalize_example :
    (1 ≤ length read_home.widgets)
    × (length read_home.widgets ≤ 20)
    × (validate_information_home_payload read_home ≡ (
        if nat_eq
          (length (distinct_onto [] (ids_of_widgets read_home.widgets)))
          (length read_home.widgets)
        then none
        else some "首页模块 ID 不能重复。"))
validate-normalize_example = validate-normalize new_id stored

read_ids : ids_of_widgets read_home.widgets ≡ "e" ∷ []
unfolding normalize_information_home_payload field normalize_widgets normalize_widget widget_type_of
    own_id widget_of
read_ids = refl

accepts : validate_information_home_payload (create_default_information_home_payload new_id) ≡ none
unfolding validate_information_home_payload create_default_information_home_payload distinct_onto
    add has create_widget check_widgets check_widget leb_int check_layout check_position ◌+ℤ◌
accepts = refl

default-IsSoundPayload : IsSoundPayload (create_default_information_home_payload new_id)
default-IsSoundPayload =
    validate_information_home_payload-IsSoundPayload
      (create_default_information_home_payload new_id) accepts
