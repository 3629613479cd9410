-- ===== src/Home/Normalize.antt =====
-- normalizeInformationHomePayload of src/models/home/informationHome.ts.
use Prim.Native.Char.{code}
use my_note_book.Base.{
  ℕ, suc, ◌-◌, ◌*◌, min, pos, negsuc, Bool, true, false, not, ◌&&◌, ◌||◌, String, Option, none,
  some, List, [], ◌∷◌, take, if◌then◌else◌, ◌==◌, nat_eq, leb, trim, slice_to,
}
use my_note_book.Home.Values.{
  whole, Value, Fields, finite_round, is_truthy, is_true, string_of, array_of, is_record, fields_of,
  field, clamp_value,
}
use my_note_book.Home.Widgets.{
  InformationHomeWidgetType, email_actions, rss_news, agent_summary, todo_list, calendar,
  local_environment, InformationHomeTodoItem, InformationHomeCalendarEvent,
  InformationHomeGridPosition, WidgetSettings, InformationHomeWidget, InformationHomePayload,
  WidgetSize, default_widget_size, default_limit, create_default_information_home_payload,
}

-- `map` and `filter(Boolean)`
unfoldable pub known_items {ℓ} : {A : Type ℓ} → (Value → Option A) → List Value → List A
known_items read [] = []
known_items read (value ∷ values) = elim (read value) [
  | none ↦ known_items read values
  | some item ↦ item ∷ known_items read values
]

-- A text of the form `0000-00-00`, where any digit may stand for a zero.
unfoldable pub fits : String → String → Bool
fits String.[] String.[] = true
fits String.[] (String.◌∷◌ c s) = false
fits (String.◌∷◌ p form) String.[] = false
fits (String.◌∷◌ p form) (String.◌∷◌ c s) =
    (if nat_eq (code p) 48 then leb 48 (code c) && leb (code c) 57 else nat_eq (code p) (code c))
    && fits form s

-- `Math.max(0, Math.round(value))`, or 0 for what is no finite number.
unfoldable pub time_of : Value → ℕ
time_of value = elim (finite_round value) [ none ↦ 0 | some (pos n) ↦ n | some (negsuc n) ↦ 0 ]

unfoldable pub todo_of : Option String → Option String → Fields → Option InformationHomeTodoItem
todo_of none title fields = none
todo_of (some id) none fields = none
todo_of (some id) (some title) fields =
    if (trim id == "") || (slice_to 160 (trim title) == "")
    then none
    else some (record {
      id = slice_to 120 (trim id);
      title = slice_to 160 (trim title);
      completed = is_true (field "completed" fields);
      created_at = whole (pos (time_of (field "createdAt" fields)));
    })

unfoldable pub normalize_todo_item : Value → Option InformationHomeTodoItem
normalize_todo_item value = elim (is_record value) [
  | none ↦ none
  | some fields ↦ todo_of (string_of (field "id" fields)) (string_of (field "title" fields)) fields
]

unfoldable pub date_of : Value → String
date_of value = elim (string_of value) [ none ↦ "" | some date ↦ date ]

unfoldable pub event_of :
    Option String → Option String → String → Option InformationHomeCalendarEvent
event_of none title date = none
event_of (some id) none date = none
event_of (some id) (some title) date =
    if (trim id == "") || (slice_to 160 (trim title) == "") || not (fits "0000-00-00" date)
    then none
    else some
        (record { id = slice_to 120 (trim id); title = slice_to 160 (trim title); date = date })

unfoldable pub normalize_calendar_event : Value → Option InformationHomeCalendarEvent
normalize_calendar_event value = elim (is_record value) [
  | none ↦ none
  | some fields ↦
      event_of (string_of (field "id" fields)) (string_of (field "title" fields))
        (date_of (field "date" fields))
]

unfoldable pub title_of : Value → Option String
title_of value = elim (string_of value) [
  | none ↦ none
  | some title ↦ if trim title == "" then none else some (slice_to 80 (trim title))
]

unfoldable pub list_of {ℓ} : {A : Type ℓ} → (Value → Option A) → Value → Option (List A)
list_of read value = elim (array_of value) [
  | none ↦ none
  | some values ↦ some (take 100 (known_items read values))
]

unfoldable pub normalize_widget_settings : Fields → WidgetSettings
normalize_widget_settings settings = record {
  title = title_of (field "title" settings);
  todos = list_of normalize_todo_item (field "todos" settings);
  events = list_of normalize_calendar_event (field "events" settings);
}

-- The fallback is at `x` and `y`. Its width is at most `columns`, so that the difference is not
-- negative.
unfoldable pub normalize_position : Fields → ℕ → ℕ → WidgetSize → ℕ → InformationHomeGridPosition
normalize_position position x y size columns =
    let w : ℕ = clamp_value (field "w" position) 1 columns size.w in
    record {
      x = whole (pos (clamp_value (field "x" position) 0 (columns - w) (min x (columns - w))));
      y = whole (pos (clamp_value (field "y" position) 0 10_000 y));
      w = whole (pos w);
      h = whole (pos (clamp_value (field "h" position) 1 20 size.h));
      min_w = some (whole (pos (clamp_value (field "minW" position) 1 w size.min_w)));
      min_h = some (whole (pos (clamp_value (field "minH" position) 1 20 size.min_h)));
    }

-- The type that a text names.
unfoldable pub widget_type_of : Value → Option InformationHomeWidgetType
widget_type_of value = elim (string_of value) [
  | none ↦ none
  | some name ↦
      if name == "email-actions"
      then some email_actions
      else if name == "rss-news"
      then some rss_news
      else if name == "agent-summary"
      then some agent_summary
      else if name == "todo-list"
      then some todo_list
      else if name == "calendar"
      then some calendar
      else if name == "local-environment"
      then some local_environment
      else none
]

-- The id that the value has, if it is a text and not blank.
unfoldable pub own_id : Value → Option String
own_id value = elim (string_of value) [
  | none ↦ none
  | some id ↦ if trim id == "" then none else some id
]

-- The object of `normalizeWidget`, but for the id.
unfoldable pub widget_of : String → InformationHomeWidgetType → Fields → ℕ → InformationHomeWidget
widget_of id widget_type value index =
    let size = default_widget_size widget_type in
    let layout = fields_of (field "layout" value) in
    record {
      id = id;
      widget_type = widget_type;
      widget_version = 1;
      limit = whole (
          pos (
            clamp_value (field "limit" (fields_of (field "query" value))) 1 50
              (default_limit widget_type)));
      settings = normalize_widget_settings (fields_of (field "settings" value));
      desktop = normalize_position (fields_of (field "desktop" layout)) 0 (index * 4) size 12;
      compact =
          if is_truthy (field "compact" layout)
          then some (
              normalize_position (fields_of (field "compact" layout)) 0 (index * 4)
                (record size { w = min size.w 6 }) 6)
          else none;
    }

-- The version that a layout has to have.
abbrev pub is_first_version : Value → Bool
is_first_version (Value.number (whole (pos version))) = nat_eq version 1
is_first_version _ = false

module _ (create_id : ℕ → String) where
  -- `normalizeWidget` with the number of the calls of `createId` before and after.
  unfoldable pub normalize_widget : Value → ℕ → ℕ → Option InformationHomeWidget × ℕ
  normalize_widget value index calls = elim (is_record value) [
    | none ↦ (none, calls)
    | some fields ↦ elim (widget_type_of (field "widgetType" fields)) [
      | none ↦ (none, calls)
      | some widget_type ↦ elim (own_id (field "id" fields)) [
        | some id ↦ (some (widget_of id widget_type fields index), calls)
        | none ↦ (some (widget_of (create_id calls) widget_type fields index), suc calls)
      ]
    ]
  ]

  unfoldable pub normalize_widgets : List Value → ℕ → ℕ → List InformationHomeWidget
  normalize_widgets [] index calls = []
  normalize_widgets (value ∷ values) index calls =
      let first = normalize_widget value index calls in
      let others = normalize_widgets values (suc index) first.1 in
      elim (first.0) [ none ↦ others | some widget ↦ widget ∷ others ]

  -- `widgets.length ? widgets : fallback.widgets`
  abbrev pub or_fallback : List InformationHomeWidget → InformationHomePayload
  or_fallback [] = create_default_information_home_payload create_id
  or_fallback (widget ∷ widgets) = record { layout_version = 1; widgets = widget ∷ widgets }

  -- The fallback takes the first four ids.
  unfoldable pub normalize_information_home_payload : Value → InformationHomePayload
  normalize_information_home_payload value = elim (is_record value) [
    | none ↦ create_default_information_home_payload create_id
    | some fields ↦
        if not (is_first_version (field "layoutVersion" fields))
        then create_default_information_home_payload create_id
        else elim (array_of (field "widgets" fields)) [
          | none ↦ create_default_information_home_payload create_id
          | some values ↦ or_fallback (take 20 (normalize_widgets values 0 4))
        ]
  ]
