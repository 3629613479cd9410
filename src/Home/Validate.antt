-- ===== src/Home/Validate.antt =====
-- validateInformationHomePayload of src/models/home/informationHome.ts; `none` is the accepted payload.
use my_note_book.Base.{
  nat_eq, ltb, leb_int, ◌+ℤ◌, ℕ, ℤ, pos, not, ◌&&◌, ◌||◌, String, Option, none, some, List, [], ◌∷◌,
  map, length, if◌then◌else◌, utf16_length, distinct_onto,
}
use my_note_book.Home.Values.{Number, whole, fraction, not_a_number, infinite, is_integer}
use my_note_book.Home.Widgets.{
  InformationHomeGridPosition, InformationHomeWidget, InformationHomePayload, is_widget_type,
}

-- A whole number; the tests below look at whole numbers only.
abbrev pub whole_of : Number → ℤ
whole_of (whole value) = value
whole_of (fraction value) = value
whole_of not_a_number = pos 0
whole_of infinite = pos 0

abbrev pub title_length : Option String → ℕ
title_length none = 0
title_length (some title) = utf16_length title

-- `list?.length ?? 0`
abbrev pub list_length {ℓ} : {A : Type ℓ} → Option (List A) → ℕ
list_length none = 0
list_length (some items) = length items

-- The body of the loop over the positions.
unfoldable pub check_position : InformationHomeGridPosition → ℕ → Option String
check_position position columns =
    if not (
      is_integer position.x
      && is_integer position.y
      && is_integer position.w
      && is_integer position.h)
    then some "首页模块位置必须使用整数。"
    else if not (leb_int (pos 0) (whole_of position.x))
        || not (leb_int (pos 0) (whole_of position.y))
        || not (leb_int (pos 1) (whole_of position.w))
        || not (leb_int (pos 1) (whole_of position.h))
        || not (leb_int (whole_of position.x +ℤ whole_of position.w) (pos columns))
    then some "首页模块位置超出网格范围。"
    else none

-- The loop over the positions.
unfoldable pub check_layout :
    InformationHomeGridPosition → Option InformationHomeGridPosition → Option String
check_layout desktop compact = elim (check_position desktop 12) [
  | some error ↦ some error
  | none ↦ elim compact [ none ↦ none | some position ↦ check_position position 6 ]
]

-- The body of the loop over the widgets.
unfoldable pub check_widget : InformationHomeWidget → Option String
check_widget widget =
    if not (is_widget_type widget.widget_type)
    then some "首页包含未知模块。"
    else if not (is_integer widget.limit)
        || not (leb_int (pos 1) (whole_of widget.limit))
        || not (leb_int (whole_of widget.limit) (pos 50))
    then some "首页模块查询数量必须在 1 到 50 之间。"
    else if ltb 80 (title_length widget.settings.title)
    then some "首页模块标题不能超过 80 个字符。"
    else if ltb 100 (list_length widget.settings.todos)
    then some "待办列表最多包含 100 项。"
    else if ltb 100 (list_length widget.settings.events)
    then some "日历最多包含 100 项日程。"
    else check_layout widget.desktop widget.compact

unfoldable pub check_widgets : List InformationHomeWidget → Option String
check_widgets [] = none
check_widgets (widget ∷ widgets) = elim (check_widget widget) [
  | some error ↦ some error
  | none ↦ check_widgets widgets
]

abbrev pub ids_of_widgets : List InformationHomeWidget → List String
ids_of_widgets widgets = map (λ widget. widget.id) widgets

unfoldable pub validate_information_home_payload : InformationHomePayload → Option String
validate_information_home_payload payload =
    if not (nat_eq payload.layout_version 1)
    then some "不支持此首页布局版本。"
    else if ltb 20 (length payload.widgets)
    then some "首页最多包含 20 个模块。"
    else if not (
        nat_eq (length (distinct_onto [] (ids_of_widgets payload.widgets)))
          (length payload.widgets))
    then some "首页模块 ID 不能重复。"
    else check_widgets payload.widgets
