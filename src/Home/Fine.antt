-- ===== src/Home/Fine.antt =====
-- A normalized widget of src/models/home/informationHome.ts passes the check.
use my_note_book.Base.{
  ℕ, ◌*◌, ◌≤◌, min, pos, leb_int, Bool, true, false, String, Option, none, some, if◌then◌else◌,
  ◌==◌, arith, ◌≡◌, refl,
}
use my_note_book.Home.Values.{whole, Value, Fields, is_truthy, string_of, fields_of, field}
use my_note_book.Home.Widgets.{
  InformationHomeWidgetType, email_actions, rss_news, agent_summary, todo_list, calendar,
  local_environment, InformationHomeGridPosition, WidgetSettings, default_widget_size,
  default_limit, is_widget_type,
}
use my_note_book.Home.Normalize.{
  normalize_widget_settings, normalize_todo_item, normalize_calendar_event, widget_type_of,
  widget_of,
}
use my_note_book.Home.Validate.{
  title_length, list_length, check_position, check_layout, check_widget,
}
use my_note_book.Home.Limits.{
  normalize_position-none, default_widget_size-IsDefaultSize, default_limit_bounds, title_of_bound,
  list_of_bound, clamp_value_least, clamp_value_most,
}

check_widget-none :
    (id : String) (widget_type : InformationHomeWidgetType) (version limit : ℕ)
    (settings : WidgetSettings) (desktop : InformationHomeGridPosition)
    (compact : Option InformationHomeGridPosition)
    → is_widget_type widget_type ≡ true
    → 1 ≤ limit
    → limit ≤ 50
    → title_length settings.title ≤ 80
    → list_length settings.todos ≤ 100
    → list_length settings.events ≤ 100
    → check_layout desktop compact ≡ none
    → check_widget (record {
      id = id;
      widget_type = widget_type;
      widget_version = version;
      limit = whole (pos limit);
      settings = settings;
      desktop = desktop;
      compact = compact;
    })
      ≡ none
unfolding check_widget leb_int
check_widget-none id widget_type version limit settings desktop compact known least most
      few_characters few_todos few_events placed =
    ground (arith, known, least, most, few_characters, few_todos, few_events, placed)

check_layout-none :
    (desktop : InformationHomeGridPosition) (shown : Bool) (position : InformationHomeGridPosition)
    → check_position desktop 12 ≡ none
    → check_position position 6 ≡ none
    → check_layout desktop (if shown then some position else none) ≡ none
unfolding check_layout
check_layout-none desktop true position fine fits = ground (arith, fine, fits)
check_layout-none desktop false position fine fits = ground (arith, fine)

pub widget_of-none :
    (id : String) (widget_type : InformationHomeWidgetType) (value : Fields) (index : ℕ)
    → is_widget_type widget_type ≡ true
    → check_widget (widget_of id widget_type value index) ≡ none
unfolding widget_of normalize_widget_settings
widget_of-none id widget_type value index known =
    let size = default_widget_size-IsDefaultSize widget_type in
    let limit = field "limit" (fields_of (field "query" value)) in
    let least = default_limit_bounds widget_type in
    let layout = fields_of (field "layout" value) in
    let settings = fields_of (field "settings" value) in
    check_widget-none id widget_type 1 _ _ _ _ known
      (clamp_value_least limit 1 50 (default_limit widget_type) (omega arith) least.0)
      (clamp_value_most limit 1 50 (default_limit widget_type) (omega arith) least.1)
      (title_of_bound (field "title" settings))
      (list_of_bound normalize_todo_item (field "todos" settings))
      (list_of_bound normalize_calendar_event (field "events" settings))
      (check_layout-none _ (is_truthy (field "compact" layout)) _
        (normalize_position-none (fields_of (field "desktop" layout)) 0 (index * 4)
          (default_widget_size widget_type) 12 size.0 size.1 size.2)
        (normalize_position-none (fields_of (field "compact" layout)) 0 (index * 4)
          (record (default_widget_size widget_type) {
            w = min ((default_widget_size widget_type).w) 6;
          })
          6 (ground (arith, size.0)) (ground arith) size.2))

abbrev pub IsKnownIfAny : Option InformationHomeWidgetType → Type 0
IsKnownIfAny none = Unit
IsKnownIfAny (some widget_type) = is_widget_type widget_type ≡ true

named :
    (same : Bool) (widget_type : InformationHomeWidgetType)
    (others : Option InformationHomeWidgetType)
    → is_widget_type widget_type ≡ true
    → IsKnownIfAny others
    → IsKnownIfAny (if same then some widget_type else others)
named true widget_type others known h = known
named false widget_type others known h = h

pub widget_type_of-IsKnownIfAny : (value : Value) → IsKnownIfAny (widget_type_of value)
unfolding widget_type_of
widget_type_of-IsKnownIfAny value = by_string (string_of value)
  where
    by_string :
        (read : Option String)
        → IsKnownIfAny (elim read [
          | none ↦ none
          | some name ↦
              if name == "email-actions"
              then some email_actions
              else if name == "rss-news"
              then some rss_news
              else if name == "agent-summary"
              then some agent_summary
              else if name == "todo-list"
              then some todo_list
              else if name == "calendar"
              then some calendar
              else if name == "local-environment"
              then some local_environment
              else none
        ])
    by_string none = tt
    by_string (some name) = named (name == "email-actions") email_actions _ refl (
        named (name == "rss-news") rss_news _ refl (
          named (name == "agent-summary") agent_summary _ refl (
            named (name == "todo-list") todo_list _ refl (
              named (name == "calendar") calendar _ refl
                (named (name == "local-environment") local_environment _ refl tt)))))
