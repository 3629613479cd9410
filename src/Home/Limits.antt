-- ===== src/Home/Limits.antt =====
-- The limits that normalizing of src/models/home/informationHome.ts keeps.
use my_note_book.Base.{
  ℕ, ◌+◌, ◌-◌, ◌≤◌, min, ℤ, pos, leb_int, ◌+ℤ◌, clamp_integer, clamp_integer_bounds, Bool, true,
  false, String, Option, none, some, List, take, length-take, if◌then◌else◌, ◌==◌, trim, slice_to,
  utf16_length-slice_to, arith, ◌≡◌,
}
use my_note_book.Home.Values.{
  Number, whole, Value, Fields, finite_round, string_of, array_of, field, clamp_value,
}
use my_note_book.Home.Widgets.{
  InformationHomeWidgetType, email_actions, rss_news, agent_summary, todo_list, calendar,
  local_environment, other_widget, WidgetSize, default_widget_size, default_limit,
}
use my_note_book.Home.Normalize.{known_items, title_of, list_of, normalize_position}
use my_note_book.Home.Validate.{title_length, list_length, check_position}

pub clamp_value_least :
    (value : Value) (minimum maximum fallback : ℕ)
    → minimum ≤ maximum
    → minimum ≤ fallback
    → minimum ≤ clamp_value value minimum maximum fallback
unfolding clamp_value
clamp_value_least value minimum maximum fallback h k = by_number (finite_round value)
  where
    by_number :
        (read : Option ℤ)
        → minimum
          ≤ elim read [ none ↦ fallback | some rounded ↦ clamp_integer rounded minimum maximum ]
    by_number none = k
    by_number (some rounded) = (clamp_integer_bounds rounded minimum maximum h).0

pub clamp_value_most :
    (value : Value) (minimum maximum fallback : ℕ)
    → minimum ≤ maximum
    → fallback ≤ maximum
    → clamp_value value minimum maximum fallback ≤ maximum
unfolding clamp_value
clamp_value_most value minimum maximum fallback h k = by_number (finite_round value)
  where
    by_number :
        (read : Option ℤ)
        → elim read [ none ↦ fallback | some rounded ↦ clamp_integer rounded minimum maximum ]
          ≤ maximum
    by_number none = k
    by_number (some rounded) = (clamp_integer_bounds rounded minimum maximum h).1

pub check_position-none :
    (x y w h : ℕ) (min_w min_h : Option Number) (columns : ℕ)
    → 1 ≤ w
    → 1 ≤ h
    → x + w ≤ columns
    → check_position
        (record {
          x = whole (pos x);
          y = whole (pos y);
          w = whole (pos w);
          h = whole (pos h);
          min_w = min_w;
          min_h = min_h;
        })
        columns
      ≡ none
unfolding check_position leb_int ◌+ℤ◌
check_position-none x y w h min_w min_h columns wide high within =
    ground (arith, wide, high, within)

pub normalize_position-none :
    (position : Fields) (x y : ℕ) (size : WidgetSize) (columns : ℕ)
    → 1 ≤ size.w
    → size.w ≤ columns
    → 1 ≤ size.h
    → check_position (normalize_position position x y size columns) columns ≡ none
unfolding normalize_position
normalize_position-none position x y size columns wide narrow high =
    let least =
      clamp_value_least (field "w" position) 1 columns (size.w) (omega (arith, wide, narrow))
        wide in
    let most =
      clamp_value_most (field "w" position) 1 columns (size.w) (omega (arith, wide, narrow))
        narrow in
    by_width (clamp_value (field "w" position) 1 columns (size.w)) least most
  where
    by_width :
        (w : ℕ)
        → 1 ≤ w
        → w ≤ columns
        → check_position
            (record {
              x =
                  whole
                    (pos (clamp_value (field "x" position) 0 (columns - w) (min x (columns - w))));
              y = whole (pos (clamp_value (field "y" position) 0 10_000 y));
              w = whole (pos w);
              h = whole (pos (clamp_value (field "h" position) 1 20 size.h));
              min_w = some (whole (pos (clamp_value (field "minW" position) 1 w size.min_w)));
              min_h = some (whole (pos (clamp_value (field "minH" position) 1 20 size.min_h)));
            })
            columns
          ≡ none
    by_width w least most =
        let left =
          clamp_value_most (field "x" position) 0 (columns - w) (min x (columns - w)) (omega arith)
            (ground arith) in
        check_position-none _ _ w _ _ _ columns least
          (clamp_value_least (field "h" position) 1 20 (size.h) (omega arith) high)
          (omega (arith, left, most))

abbrev pub IsDefaultSize : WidgetSize → Type 0
IsDefaultSize size = (1 ≤ size.w) × (size.w ≤ 12) × (1 ≤ size.h)

pub default_widget_size-IsDefaultSize :
    (widget_type : InformationHomeWidgetType) → IsDefaultSize (default_widget_size widget_type)
unfolding default_widget_size
default_widget_size-IsDefaultSize email_actions = (omega arith, omega arith, omega arith)
default_widget_size-IsDefaultSize rss_news = (omega arith, omega arith, omega arith)
default_widget_size-IsDefaultSize agent_summary = (omega arith, omega arith, omega arith)
default_widget_size-IsDefaultSize todo_list = (omega arith, omega arith, omega arith)
default_widget_size-IsDefaultSize calendar = (omega arith, omega arith, omega arith)
default_widget_size-IsDefaultSize local_environment = (omega arith, omega arith, omega arith)
default_widget_size-IsDefaultSize (other_widget name) = (omega arith, omega arith, omega arith)

pub default_limit_bounds :
    (widget_type : InformationHomeWidgetType)
    → (1 ≤ default_limit widget_type) × (default_limit widget_type ≤ 50)
default_limit_bounds email_actions = (omega arith, omega arith)
default_limit_bounds rss_news = (omega arith, omega arith)
default_limit_bounds agent_summary = (omega arith, omega arith)
default_limit_bounds todo_list = (omega arith, omega arith)
default_limit_bounds calendar = (omega arith, omega arith)
default_limit_bounds local_environment = (omega arith, omega arith)
default_limit_bounds (other_widget name) = (omega arith, omega arith)

pub title_of_bound : (value : Value) → title_length (title_of value) ≤ 80
unfolding title_of
title_of_bound value = by_string (string_of value)
  where
    by_blank :
        (blank : Bool) (title : String)
        → title_length (if blank then none else some (slice_to 80 (trim title))) ≤ 80
    by_blank true title = omega arith
    by_blank false title = utf16_length-slice_to 80 (trim title)

    by_string :
        (read : Option String)
        → title_length (elim read [
          | none ↦ none
          | some title ↦ if trim title == "" then none else some (slice_to 80 (trim title))
        ])
          ≤ 80
    by_string none = omega arith
    by_string (some title) = by_blank (trim title == "") title

pub list_of_bound {ℓ} :
    {A : Type ℓ} (read : Value → Option A) (value : Value) → list_length (list_of read value) ≤ 100
unfolding list_of
list_of_bound read value = by_array (array_of value)
  where
    by_array :
        (items : Option (List Value))
        → list_length
            (elim items [ none ↦ none | some values ↦ some (take 100 (known_items read values)) ])
          ≤ 100
    by_array none = omega arith
    by_array (some values) = length-take 100 (known_items read values)
